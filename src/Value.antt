-- ===== src/Value.antt =====
-- The values that rows hold: what storage_server.py reads from the wire and what the literals of a
-- query are, with the operations of Python on them that executor.py and storage_server.py use.
mod Text
mod Primitives
pub mod Order
pub mod Kind
pub use Text.{str_ltb_asym, str_ltb_trans}
unfoldable pub use Text.{str_ltb, digits_of, str_int}
pub use Primitives.{Num, whole, real, Runtime, lt_with}
use Prim.Native.String.{◌++◌}
use sql_parser.Base.{
  ℕ, ◌+◌, String, Bool, true, false, not, ◌≡◌, Option, none, some, List, [], ◌∷◌, str_eq,
  if◌then◌else◌,
}
use sql_parser.Base.Int.{ℤ, pos, ◌+ℤ◌, ltb_ℤ, leb_ℤ, eqb_ℤ}
use sql_parser.Base.Result.{Result, ok, raised, type_error, ◌>>=◌}

pub data Value (F : Type 0) : Type 0 where
  null : Value F
  bool : Bool → Value F
  int : ℤ → Value F
  float : F → Value F
  str : String → Value F

-- Values that compare with one another: None with nothing, numbers and bools, texts.
pub data View (F : Type 0) : Type 0 where
  nothing : View F
  number : Num F → View F
  text : String → View F

abbrev pub view : {F : Type 0} → Value F → View F
view null = nothing
view (bool false) = number (whole (pos 0))
view (bool true) = number (whole (pos 1))
view (int n) = number (whole n)
view (float x) = number (real x)
view (str s) = text s

module _ ⦃rt : Runtime⦄ where
  open rt use {Float}

  abbrev pub Val : Type 0
  Val = Value Float

  abbrev pub num_lt : Num Float → Num Float → Bool
  num_lt a b = lt_with rt.float_lt a b

  abbrev pub num_le : Num Float → Num Float → Bool
  num_le (whole a) (whole b) = leb_ℤ a b
  num_le a b = rt.float_le a b

  abbrev pub num_eq : Num Float → Num Float → Bool
  num_eq (whole a) (whole b) = eqb_ℤ a b
  num_eq a b = rt.float_eq a b

  abbrev pub num_add : Num Float → Num Float → Result Val
  num_add (whole a) (whole b) = ok (int (a +ℤ b))
  num_add a b = rt.float_add a b >>= λ x. ok (float x)

  abbrev pub view_eq : View Float → View Float → Bool
  view_eq nothing nothing = true
  view_eq (number a) (number b) = num_eq a b
  view_eq (text s) (text t) = str_eq s t
  view_eq _ _ = false

  abbrev pub view_lt : View Float → View Float → Result Bool
  view_lt (number a) (number b) = ok (num_lt a b)
  view_lt (text s) (text t) = ok (str_ltb s t)
  view_lt _ _ = raised type_error

  abbrev pub view_le : View Float → View Float → Result Bool
  view_le (number a) (number b) = ok (num_le a b)
  view_le (text s) (text t) = ok (not (str_ltb t s))
  view_le _ _ = raised type_error

  abbrev pub view_add : View Float → View Float → Result Val
  view_add (number a) (number b) = num_add a b
  view_add (text s) (text t) = ok (str (s ++ t))
  view_add _ _ = raised type_error

  -- a == b
  unfoldable pub py_eq : Val → Val → Bool
  py_eq a b = view_eq (view a) (view b)

  -- a < b
  unfoldable pub py_lt : Val → Val → Result Bool
  py_lt a b = view_lt (view a) (view b)

  -- a <= b
  unfoldable pub py_le : Val → Val → Result Bool
  py_le a b = view_le (view a) (view b)

  -- a + b
  unfoldable pub py_add : Val → Val → Result Val
  py_add a b = view_add (view a) (view b)

  -- total / n
  unfoldable pub py_div : Val → ℕ → Result Val
  py_div a n = elim (view a) [
    | number x ↦ rt.float_div x (whole (pos n)) >>= λ y. ok (float y)
    | _ ↦ raised type_error
  ]

  -- str(v)
  unfoldable pub py_str : Val → String
  unfolding str_int
  py_str null = "None"
  py_str (bool b) = if b then "True" else "False"
  py_str (int n) = str_int n
  py_str (float x) = rt.str_float x
  py_str (str s) = s

  -- v is None
  abbrev pub is_none : Val → Bool
  is_none null = true
  is_none _ = false
