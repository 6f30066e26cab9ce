-- ===== src/Parser/Reader/Optional.antt =====
-- Reading what may be missing.
use sql_parser.Base.{◌<◌, String, true, false, ◌≡◌, Option, none, some, List, ℕ}
use sql_parser.Token.{Token}
use sql_parser.Parser.Yield.{optional_tokens}
use sql_parser.Parser.Reader.{Reader, ◌>>=◌, pure, skip, type_rank, rank, skip_above, >>=-some}

-- what `read` reads after a token of the type, if that is next
unfoldable pub optional {ℓ} : {A : Type ℓ} → String → Reader A → Reader (Option A)
optional {A} ty read = skip ty >>= λ b. elim b as (λ _. Reader (Option A)) [
  | true ↦ read >>= λ x. pure (some x)
  | false ↦ pure none
]

module _ {ℓ} {A : Type ℓ} (ty : String) (read : Reader A)
    (tokens : A → List Token → List Token) where
  pub optional-tokens :
      ((x : A) (k : List Token)
        → type_rank ty < rank k
        → optional ty read (tokens x k) ≡ some (some x, k))
      → (o : Option A) (k : List Token) → type_rank ty < rank k
      → optional ty read (optional_tokens tokens o k) ≡ some (o, k)
  unfolding optional_tokens optional
  optional-tokens law none k h = >>=-some _ (skip_above ty k h)
  optional-tokens law (some x) k h = law x k h

module _ {ℓ} {A : Type ℓ} (tokens : A → List Token → List Token) (m : ℕ) where
  -- What comes before `k` keeps the rank up.
  pub rank-optional :
      ((x : A) (k : List Token) → rank (tokens x k) ≡ m)
      → {n : ℕ} (o : Option A) (k : List Token) → n < m
      → n < rank k
      → n < rank (optional_tokens tokens o k)
  unfolding optional_tokens
  rank-optional starts none k h l = l
  rank-optional starts (some x) k h l = rw (starts x k) h
