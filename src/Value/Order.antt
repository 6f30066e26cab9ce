-- ===== src/Value/Order.antt =====
-- `<` on values: two values are never each below the other.
use sql_parser.Base.{◌≡◌, true, false, Bool, refl}
use sql_parser.Base.Int.{ltb_ℤ_asym}
use sql_parser.Base.Result.{ok}
use sql_parser.Value.Text.{str_ltb_asym, str_ltb_trans}
use sql_parser.Value.Primitives.{Num, whole, real, Runtime}
use sql_parser.Value.{Val, View, number, text, view, num_lt, view_lt, py_lt}

module _ ⦃rt : Runtime⦄ where
  open rt use {Float}

  num_lt_asym : (a b : Num Float) → num_lt a b ≡ true → num_lt b a ≡ false
  num_lt_asym (whole a) (whole b) h = ltb_ℤ_asym a b h
  num_lt_asym (whole a) (real b) h = rt.float_lt_asym (whole a) (real b) h
  num_lt_asym (real a) (whole b) h = rt.float_lt_asym (real a) (whole b) h
  num_lt_asym (real a) (real b) h = rt.float_lt_asym (real a) (real b) h

  view_lt_asym : (a b : View Float) → view_lt a b ≡ ok true → view_lt b a ≡ ok false
  view_lt_asym (number a) (number b) h = cc (num_lt_asym a b (cc))
  view_lt_asym (text a) (text b) h = cc (str_ltb_asym a b (cc))
  view_lt_asym _ _ h = cc

  pub py_lt_asym : (a b : Val) → py_lt a b ≡ ok true → py_lt b a ≡ ok false
  unfolding py_lt
  py_lt_asym a b h = view_lt_asym (view a) (view b) h

  view_lt_trans :
      (a b c : View Float) → view_lt a b ≡ ok true → view_lt b c ≡ ok true → view_lt a c ≡ ok true
  view_lt_trans (number a) (number b) (number c) h k = cc (rt.float_lt_trans a b c (cc) (cc))
  view_lt_trans (text a) (text b) (text c) h k = cc (str_ltb_trans a b c (cc) (cc))
  view_lt_trans _ _ _ h k = cc

  pub py_lt_trans : (a b c : Val) → py_lt a b ≡ ok true → py_lt b c ≡ ok true → py_lt a c ≡ ok true
  unfolding py_lt
  py_lt_trans a b c h k = view_lt_trans (view a) (view b) (view c) h k

  view_lt-ok :
      (a b c : View Float) (s t : Bool)
      → view_lt a b ≡ ok s
      → view_lt c b ≡ ok t
      → (u : Bool) × (view_lt a c ≡ ok u)
  view_lt-ok (number a) (number b) (number c) s t h k = (_, refl)
  view_lt-ok (text a) (text b) (text c) s t h k = (_, refl)
  view_lt-ok _ _ _ s t h k = cc

  -- Values that compare with one value compare with each other.
  pub py_lt-ok :
      (a b c : Val) (s t : Bool)
      → py_lt a b ≡ ok s
      → py_lt c b ≡ ok t
      → (u : Bool) × (py_lt a c ≡ ok u)
  unfolding py_lt
  py_lt-ok a b c s t h k = view_lt-ok (view a) (view b) (view c) s t h k
