-- ===== src/Value/Primitives.antt =====
-- What the program takes from Python's floats and codecs, which are not part of the repository.
use sql_parser.Base.{ℕ, String, ◌≡◌, Bool, true, false, List}
use sql_parser.Base.Int.{ℤ, ltb_ℤ}
use sql_parser.Base.Result.{Result}
use Prim.Native.Char.{Char}

-- An operand of arithmetic: an int (or a bool, which Python counts as one) or a float.
pub data Num (F : Type 0) : Type 0 where
  whole : ℤ → Num F
  real : F → Num F

-- `<` on numbers: Python compares two ints exactly, and hands the rest to the float comparison.
abbrev pub lt_with : {F : Type 0} → (Num F → Num F → Bool) → Num F → Num F → Bool
lt_with float_lt (whole a) (whole b) = ltb_ℤ a b
lt_with float_lt (whole a) (real b) = float_lt (whole a) (real b)
lt_with float_lt (real a) b = float_lt (real a) b

pub record Runtime : Type 1 where
  -- IEEE 754 doubles
  pub Float : Type 0
  -- comparisons and sums in which a float takes part, and true division
  pub float_lt : Num Float → Num Float → Bool
  pub float_le : Num Float → Num Float → Bool
  pub float_eq : Num Float → Num Float → Bool
  pub float_add : Num Float → Num Float → Result Float
  pub float_div : Num Float → Num Float → Result Float
  -- str(x), float(x), int(x)
  pub str_float : Float → String
  pub to_float : Num Float → Result Float
  pub trunc : Float → Result ℤ
  -- int(s), float(s) of a text
  pub parse_int : String → Result ℤ
  pub parse_float : String → Result Float
  -- struct.pack("<f", x) and its inverse, on four bytes
  pub pack_float : Float → Result (List ℕ)
  pub unpack_float : List ℕ → Float
  -- repr of a text
  pub repr_text : String → String
  -- the characters that str.split() splits at
  pub is_space : Char → Bool
  -- s.encode("utf-8"), b.decode("utf-8", errors="replace")
  pub encode : String → List ℕ
  pub decode : List ℕ → String
  -- x < y and y < x exclude one another
  pub float_lt_asym : (a b : Num Float) → float_lt a b ≡ true → float_lt b a ≡ false
  -- mixed comparisons are exact, so `<` is transitive on ints and floats together
  pub float_lt_trans :
      (a b c : Num Float)
      → lt_with float_lt a b ≡ true
      → lt_with float_lt b c ≡ true
      → lt_with float_lt a c ≡ true
  -- what was encoded is decoded
  pub decode-encode : (s : String) → decode (encode s) ≡ s
