-- ===== src/Parser/Reader/Chains.antt =====
-- Reading the chains of the grammar: an item, and more items after a separator.
use sql_parser.Base.{
  ℕ, zero, suc, ◌+◌, ◌-◌, ◌≤◌, ◌<◌, true, false, ◌≡◌, ◌∙◌, ap, none, some, List, ◌∷◌, length, arith,
}
use sql_parser.Token.{Token, token_type}
use sql_parser.Parser.Grammar.{Chain, single, multiple}
use sql_parser.Parser.Yield.{chain_tokens}
use sql_parser.Parser.Reader.{Reader, ◌>>=◌, skip, type_rank, rank, skip_above, skip_self, >>=-some}

-- The fuel of a chain, on top of `n`.
abbrev fuel {ℓ} : {A : Type ℓ} → Chain A → ℕ → ℕ
fuel (single x) n = n
fuel (multiple xs x) n = fuel xs (suc n)

fuel_add {ℓ} : {A : Type ℓ} (xs : Chain A) (n : ℕ) → fuel xs n ≡ fuel xs 0 + n
fuel_add (single x) n = omega arith
fuel_add (multiple xs x) n = omega (arith, fuel_add xs (suc n), fuel_add xs 1)

module _ {ℓ} {A : Type ℓ} (sep : Token) (item : Reader A) where
  -- What follows the items so far.
  more : ℕ → Chain A → Reader (Chain A)
  more zero xs ts = none
  more (suc n) xs ts =
      (skip (token_type sep) >>= λ b. elim b as (λ _. Reader (Chain A)) [
        | true ↦ item >>= λ x. more n (multiple xs x)
        | false ↦ λ rest. some (xs, rest)
      ])
        ts

  from : ℕ → Reader (Chain A)
  from n = item >>= λ x. more n (single x)

  unfoldable pub read_chain : Reader (Chain A)
  unfolding from more
  read_chain ts = from (suc (length ts)) ts

-- `item` reads the tokens of an item wherever a token of a rank above `r` follows, and an item has
-- tokens.
module _ {ℓ} {A : Type ℓ} (sep : Token) (item : Reader A) (tokens : A → List Token → List Token)
    (r : ℕ) (law : (x : A) (k : List Token) → r < rank k → item (tokens x k) ≡ some (x, k))
    (after_sep : r < type_rank (token_type sep)) where
  more-step :
      (n : ℕ) (xs : Chain A) (x : A) (k : List Token)
      → r < rank k
      → more sep item (suc n) xs (sep ∷ tokens x k) ≡ more sep item n (multiple xs x) k
  unfolding more
  more-step n xs x k h = >>=-some _ (skip_self sep (tokens x k)) ∙ >>=-some _ (law x k h)

  from-chain :
      (xs : Chain A) (n : ℕ) (k : List Token)
      → r < rank k
      → from sep item (fuel xs n) (chain_tokens sep tokens xs k) ≡ more sep item n xs k
  unfolding from chain_tokens
  from-chain (single x) n k h = >>=-some _ (law x k h)
  from-chain (multiple xs x) n k h =
      from-chain xs (suc n) (sep ∷ tokens x k) after_sep ∙ more-step n xs x k h

module _ {ℓ} {A : Type ℓ} (sep : Token) (tokens : A → List Token → List Token)
    (grows : (x : A) (k : List Token) → length k ≤ length (tokens x k)) where
  fuel-le :
      (xs : Chain A) (n : ℕ) (k : List Token)
      → fuel xs n + length k ≤ n + length (chain_tokens sep tokens xs k)
  unfolding chain_tokens
  fuel-le (single x) n k = omega (arith, grows x k)
  fuel-le (multiple xs x) n k = omega (arith, fuel-le xs (suc n) (sep ∷ tokens x k), grows x k)

  pub chain_grows :
      (xs : Chain A) (k : List Token) → length k ≤ length (chain_tokens sep tokens xs k)
  chain_grows xs k = omega (arith, fuel-le xs 0 k)

module _ {ℓ} {A : Type ℓ} (sep : Token) (item : Reader A) (tokens : A → List Token → List Token)
    (r : ℕ) (law : (x : A) (k : List Token) → r < rank k → item (tokens x k) ≡ some (x, k))
    (after_sep : r < type_rank (token_type sep))
    (grows : (x : A) (k : List Token) → length k ≤ length (tokens x k)) where
  pub read_chain-tokens :
      (xs : Chain A) (k : List Token)
      → type_rank (token_type sep) < rank k
      → read_chain sep item (chain_tokens sep tokens xs k) ≡ some (xs, k)
  unfolding read_chain more
  read_chain-tokens xs k h =
      let n : ℕ = length (chain_tokens sep tokens xs k) - fuel xs 0 in
      let e : suc (length (chain_tokens sep tokens xs k)) ≡ fuel xs (suc n) =
        omega (arith, fuel_add xs (suc n), fuel-le sep tokens grows xs 0 k) in
      ap (λ m. from sep item m (chain_tokens sep tokens xs k)) e
      ∙ from-chain sep item tokens r law after_sep xs (suc n) k (omega arith)
      ∙ >>=-some _ (skip_above (token_type sep) k h)
