-- ===== src/Parser/Reader.antt =====
-- A reader of the grammar of sql-engine/parser.py, by recursive descent. It is no part of the
-- program: it inverts the tokens of a tree, and so shows that they have no other tree.
pub mod Chains
pub mod Optional
pub mod Parts
pub mod Clauses
pub mod Ranks
pub mod Select
pub mod Statements
use sql_parser.Base.{
  ℕ, zero, suc, ◌<◌, String, Bool, true, false, ◌≡◌, refl, ap, Option, none, some, List, [], ◌∷◌,
  str_eq, eq_iff, if◌then◌else◌, Bool-cases, inl, inr, arith, eq_refl,
}
use sql_parser.Base.Dict
use sql_parser.Base.Dict.{Dict}
use sql_parser.Token.{Token, token_type}

abbrev pub Reader {ℓ} : Type ℓ → Type ℓ
Reader A = List Token → Option (A × List Token)

infixl 5 ◌>>=◌ ◌>>◌
abbrev pub ◌>>=◌ {ℓ κ} : {A : Type ℓ} {B : Type κ} → Reader A → (A → Reader B) → Reader B
◌>>=◌ m f ts = elim (m ts) [ none ↦ none | some (a, rest) ↦ f a rest ]

abbrev pub ◌>>◌ {ℓ} : {B : Type ℓ} → Reader (Unit {0}) → Reader B → Reader B
m >> k = m >>= λ _. k

abbrev pub pure {ℓ} : {A : Type ℓ} → A → Reader A
pure a ts = some (a, ts)

-- whether the next token is of the type, which is then taken
unfoldable pub skip : String → Reader Bool
skip ty [] = some (false, [])
skip ty (t ∷ ts) = if str_eq (token_type t) ty then some (true, ts) else some (false, t ∷ ts)

-- a token of the type
unfoldable pub expect : String → Reader (Unit {0})
expect ty [] = none
expect ty (t ∷ ts) = if str_eq (token_type t) ty then some (tt, ts) else none

-- The types that may continue a part of a query, by how much of the query they end.
abbrev ranks : Dict ℕ
ranks =
    ("DOT", 0)
    ∷ ("NOT", 0)
    ∷ ("PRIMARY", 0)
    ∷ ("COMMA", 1)
    ∷ ("AND", 1)
    ∷ ("ASC", 1)
    ∷ ("DESC", 1)
    ∷ ("OR", 2)
    ∷ ("JOIN", 3)
    ∷ ("WHERE", 4)
    ∷ ("GROUP", 5)
    ∷ ("HAVING", 6)
    ∷ ("ORDER", 7)
    ∷ ("LIMIT", 8)
    ∷ []

unfoldable pub type_rank : String → ℕ
unfolding Dict.get
type_rank ty = Dict.get_or ty 9 ranks

abbrev pub rank : List Token → ℕ
rank [] = 9
rank (t ∷ ts) = type_rank (token_type t)

-- A token of a higher rank is left.
pub skip_above :
    (ty : String) (k : List Token) → type_rank ty < rank k → skip ty k ≡ some (false, k)
unfolding skip
skip_above ty [] h = refl
skip_above ty (t ∷ ts) h = elim (Bool-cases (str_eq (token_type t) ty)) [
  | inl same ↦ absurd (below same)
  | inr differs ↦ rw differs
]
  where
    below : str_eq (token_type t) ty ≡ true → ⊥
    below e =
        let r : type_rank (token_type t) ≡ type_rank ty = ap type_rank ((eq_iff _ _).0 e) in
        omega arith

pub skip_self : (t : Token) (k : List Token) → skip (token_type t) (t ∷ k) ≡ some (true, k)
unfolding skip
skip_self t k = rw (eq_refl (token_type t))

-- A sequence whose first part is known.
pub >>=-some {ℓ κ} :
    {A : Type ℓ} {B : Type κ} (f : A → Reader B) {m : Option (A × List Token)} {a : A}
    {k : List Token}
    → m ≡ some (a, k)
    → (elim m as (λ _. Option (B × List Token)) [ none ↦ none | some (b, rest) ↦ f b rest ]) ≡ f a k
>>=-some {B} f e =
    ap
      (λ (o : Option (_ × List Token)). elim o as (λ _. Option (B × List Token)) [
        | none ↦ none
        | some (b, rest) ↦ f b rest
      ])
      e
