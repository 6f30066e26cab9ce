-- ===== src/Tests/Sample.antt =====
-- A runtime in which a float is a whole number and a text is stored as its code points: enough to
-- run the program on inputs without floats. And a small table.
use Prim.Native.Char.{code}
use sql_parser.Base.{ℕ, String, ◌≡◌, [], ◌∷◌, Bool, true, ◌==◌, ◌+◌, ◌*◌, ◌-◌}
use sql_parser.Base.Chars.{codes, text_of, text_of-codes}
use sql_parser.Base.Int.{ℤ, pos, ltb_ℤ, leb_ℤ, eqb_ℤ, ◌+ℤ◌, ltb_ℤ_asym, ltb_ℤ_trans}
use sql_parser.Base.Result.{ok, raised, type_error}
use sql_parser.Value.{Runtime, lt_with, Num, whole, real, int, str}
use sql_parser.Table.{Row, Rows}

abbrev pub amount : Num ℤ → ℤ
amount (whole n) = n
amount (real n) = n

abbrev pub sample_lt : Num ℤ → Num ℤ → Bool
sample_lt a b = ltb_ℤ (amount a) (amount b)

pub sample_lt_trans :
    (a b c : Num ℤ)
    → lt_with sample_lt a b ≡ true
    → lt_with sample_lt b c ≡ true
    → lt_with sample_lt a c ≡ true
sample_lt_trans (whole a) (whole b) (whole c) h k = ltb_ℤ_trans a b c h k
sample_lt_trans (whole a) (whole b) (real c) h k = ltb_ℤ_trans a b c h k
sample_lt_trans (whole a) (real b) (whole c) h k = ltb_ℤ_trans a b c h k
sample_lt_trans (whole a) (real b) (real c) h k = ltb_ℤ_trans a b c h k
sample_lt_trans (real a) (whole b) (whole c) h k = ltb_ℤ_trans a b c h k
sample_lt_trans (real a) (whole b) (real c) h k = ltb_ℤ_trans a b c h k
sample_lt_trans (real a) (real b) (whole c) h k = ltb_ℤ_trans a b c h k
sample_lt_trans (real a) (real b) (real c) h k = ltb_ℤ_trans a b c h k

-- The number that a text of digits stands for, after the digits of n.
abbrev pub digits : String → ℕ → ℕ
digits String.[] n = n
digits (String.◌∷◌ c s) n = digits s (10 * n + (code c - 48))

instance abbrev pub sample : Runtime
sample = record {
  Float = ℤ;
  float_lt = sample_lt;
  float_le = λ a b. leb_ℤ (amount a) (amount b);
  float_eq = λ a b. eqb_ℤ (amount a) (amount b);
  float_add = λ a b. ok (amount a +ℤ amount b);
  float_div = λ a b. ok (amount a);
  str_float = λ x. "float";
  to_float = λ a. ok (amount a);
  trunc = λ x. ok x;
  parse_int = λ s. ok (pos (digits s 0));
  parse_float = λ s. raised type_error;
  pack_float = λ x. ok (0 ∷ 0 ∷ 0 ∷ 0 ∷ []);
  unpack_float = λ bytes. pos 0;
  repr_text = λ s. s;
  is_space = λ c. code c == 32;
  encode = codes;
  decode = text_of;
  float_lt_asym = λ a b. ltb_ℤ_asym (amount a) (amount b);
  float_lt_trans = sample_lt_trans;
  decode-encode = text_of-codes;
}

-- name, city, age
abbrev pub ana : Row
ana = ("name", str "Ana") ∷ ("city", str "Madrid") ∷ ("age", int (pos 31)) ∷ []

abbrev pub juan : Row
juan = ("name", str "Juan") ∷ ("city", str "Sevilla") ∷ ("age", int (pos 25)) ∷ []

abbrev pub eva : Row
eva = ("name", str "Eva") ∷ ("city", str "Madrid") ∷ ("age", int (pos 25)) ∷ []

abbrev pub users : Rows
users = ana ∷ juan ∷ eva ∷ []
