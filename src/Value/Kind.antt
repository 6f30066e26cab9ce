-- ===== src/Value/Kind.antt =====
-- Values that `<` orders with one another: the numbers (bools and floats among them), and the texts.
use sql_parser.Base.{Bool, ◌≡◌, refl}
use sql_parser.Base.Result.{ok}
use sql_parser.Value.{Runtime, Val, View, nothing, number, text, view, view_lt, py_lt}

pub data Kind : Type 0 where
  numbers texts : Kind

module _ ⦃rt : Runtime⦄ where
  open rt use {Float}

  abbrev pub ViewHasKind : Kind → View Float → Type 0
  ViewHasKind numbers (number a) = Unit
  ViewHasKind texts (text s) = Unit
  ViewHasKind _ _ = ⊥

  abbrev pub HasKind : Kind → Val → Type 0
  HasKind kind v = ViewHasKind kind (view v)

  view_lt-HasKind :
      (kind : Kind) (a b : View Float)
      → ViewHasKind kind a
      → ViewHasKind kind b
      → (t : Bool) × (view_lt a b ≡ ok t)
  view_lt-HasKind numbers (number a) (number b) h k = (_, refl)
  view_lt-HasKind numbers (number a) nothing h k = absurd k
  view_lt-HasKind numbers (number a) (text s) h k = absurd k
  view_lt-HasKind numbers nothing b h k = absurd h
  view_lt-HasKind numbers (text s) b h k = absurd h
  view_lt-HasKind texts (text a) (text b) h k = (_, refl)
  view_lt-HasKind texts (text a) nothing h k = absurd k
  view_lt-HasKind texts (text a) (number s) h k = absurd k
  view_lt-HasKind texts nothing b h k = absurd h
  view_lt-HasKind texts (number s) b h k = absurd h

  -- Two values of one kind compare.
  pub py_lt-HasKind :
      (kind : Kind) (a b : Val) → HasKind kind a → HasKind kind b → (t : Bool) × (py_lt a b ≡ ok t)
  unfolding py_lt
  py_lt-HasKind kind a b h k = view_lt-HasKind kind (view a) (view b) h k
