-- ===== src/Base/Result.antt =====
-- The exceptions that the program raises, and the outcome of a call that may raise.
use Prim.Native.String.{String}
use mathlib.Core.Path.{◌≡◌, refl}
use mathlib.Core.Bool.{Bool, true, false}
use mathlib.Core.List.{List, [], ◌∷◌}

-- One constructor for each message of a ValueError; the rest are Python's own exceptions.
pub data Error : Type 0 where
  -- "Column '{c}' not found in table '{t}'"
  column_not_found : String → String → Error
  -- "Unknown operator: {op}", in WHERE and in HAVING
  unknown_operator : String → Error
  -- "Unknown logical operator: {op}"
  unknown_logical : String → Error
  -- "Unknown aggregate function: {func}"
  unknown_aggregate : String → Error
  -- "Column '{c}' must be in GROUP BY or be aggregated"
  not_grouped : String → Error
  -- "Table not found: {t}"
  table_not_found : String → Error
  -- "Unknown column type: {t}" and "Unknown type: {t}"
  unknown_type : String → Error
  -- any other ValueError
  value_error : Error
  connection_error : Error
  type_error attribute_error struct_error index_error zero_division : Error
  -- "min() arg is an empty sequence"
  empty_sequence : Error
  key_error : String → Error
  runtime_error : String → Error

pub data Result {ℓ} (A : Type ℓ) : Type ℓ where
  ok : A → Result A
  raised : Error → Result A

module _ {ℓ κ} {A : Type ℓ} {B : Type κ} where
  infixl 5 ◌>>=◌
  -- What follows a call, unless it raised.
  abbrev pub ◌>>=◌ : Result A → (A → Result B) → Result B
  ◌>>=◌ (raised e) next = raised e
  ◌>>=◌ (ok a) next = next a

  pub >>=-eq-ok :
      {b : B} (m : Result A) (next : A → Result B)
      → (m >>= next) ≡ ok b
      → (a : A) × (m ≡ ok a) × (next a ≡ ok b)
  >>=-eq-ok (raised e) next h = cc
  >>=-eq-ok (ok a) next h = (a, refl, h)

module _ {ℓ κ} {A : Type ℓ} {B : Type κ} where
  -- A comprehension whose body may raise: the first exception ends it.
  abbrev pub map_m : (A → Result B) → List A → Result (List B)
  map_m f [] = ok []
  map_m f (x ∷ xs) = f x >>= λ y. map_m f xs >>= λ ys. ok (y ∷ ys)

  -- A `for` loop over a list that updates one variable.
  abbrev pub fold_m : (B → A → Result B) → B → List A → Result B
  fold_m f b [] = ok b
  fold_m f b (x ∷ xs) = f b x >>= λ b'. fold_m f b' xs

-- `if not test: raise e`
abbrev pub guard : Bool → Error → Result (Unit {0})
guard false e = raised e
guard true e = ok tt

pub ok-injective {ℓ} : {A : Type ℓ} {a b : A} → ok a ≡ ok b → a ≡ b
ok-injective h = cc

module _ {ℓ} {A : Type ℓ} where
  infixl 5 ◌>>◌
  -- A statement, and what follows it.
  abbrev pub ◌>>◌ : Result (Unit {0}) → Result A → Result A
  ◌>>◌ done next = done >>= λ _. next

  -- `[x for x in xs if test(x)]`
  abbrev pub keep : Bool → A → List A → List A
  keep true x xs = x ∷ xs
  keep false x xs = xs

  abbrev pub filter_m : (A → Result Bool) → List A → Result (List A)
  filter_m p [] = ok []
  filter_m p (x ∷ xs) = p x >>= λ b. filter_m p xs >>= λ ys. ok (keep b x ys)
