-- ===== src/Lexer/Fuel.antt =====
-- Lexer: every round of the lexer takes a character, so the fuel of `tokenize` is enough.
use Prim.Native.Char.{Char, code}
use sql_parser.Base.{
  ℕ, zero, suc, ◌+◌, ◌*◌, ◌<◌, ◌≤◌, String, Bool, true, false, ◌≡◌, refl, ap, Option, none, some,
  List, [], ◌∷◌, ◌==◌, ◌||◌, if◌then◌else◌, Bool-cases, inl, inr, arith,
}
use sql_parser.Base.Chars.{size}
use sql_parser.Token.{Token, ge, gt, le, lt}
use sql_parser.Lexer.{
  Unicode, Scan, finished, found, skipped, word_end, scan_word, string_end, scan_string, line_end,
  scan_minus, scan_order, scan_symbol, number_end, scan_number, scan_char, scan, scan_all, tokenize,
  starts_word, onto,
}

-- What is left after a round has at most `n` characters.
abbrev Leaves : ℕ → Scan → Type 0
Leaves n finished = Unit
Leaves n (found t rest) = size rest ≤ n
Leaves n (skipped rest) = size rest ≤ n

word_end-le : (s : String) → size (word_end s).1 ≤ size s
unfolding word_end
word_end-le String.[] = omega arith
word_end-le (String.◌∷◌ c s) = ground (arith, word_end-le s)

abbrev LeavesString : ℕ → Option (String × String) → Type 0
LeavesString n none = Unit
LeavesString n (some (v, rest)) = size rest ≤ n

onto-Leaves :
    (c : Char) (n : ℕ) (o : Option (String × String))
    → LeavesString n o
    → LeavesString (suc n) (onto c o)
onto-Leaves c n none h = tt
onto-Leaves c n (some (v, rest)) h = omega arith

string_end-Leaves : (q : ℕ) (s : String) → LeavesString (size s) (string_end q s)
unfolding string_end
string_end-Leaves q String.[] = tt
string_end-Leaves q (String.◌∷◌ c s) = elim (Bool-cases (code c == q)) [
  | inl closes ↦ rw closes (omega arith)
  | inr goes_on ↦ rw goes_on (onto-Leaves c (size s) (string_end q s) (string_end-Leaves q s))
]

scan_string-Leaves : (q : ℕ) (s : String) → Leaves (size s) (scan_string q s)
unfolding scan_string
scan_string-Leaves q s = closed (string_end q s) (string_end-Leaves q s)
  where
    closed :
        (o : Option (String × String))
        → LeavesString (size s) o
        → Leaves (size s) (elim o as (λ _. Scan) [
          | none ↦ skipped s
          | some (v, rest) ↦ found (Token.string v) rest
        ])
    closed none h = omega arith
    closed (some (v, rest)) h = h

line_end-le : (s : String) → size (line_end s) ≤ size s
unfolding line_end
line_end-le String.[] = omega arith
line_end-le (String.◌∷◌ c s) = ground (arith, line_end-le s)

scan_minus-Leaves : (s : String) → Leaves (size s) (scan_minus s)
unfolding scan_minus
scan_minus-Leaves String.[] = omega arith
scan_minus-Leaves (String.◌∷◌ c s) = elim (Bool-cases (code c == b'-')) [
  | inl comment ↦ rw comment (omega (arith, line_end-le s))
  | inr minus ↦ rw minus (omega arith)
]

scan_order-Leaves : (t u : Token) (s : String) → Leaves (size s) (scan_order t u s)
unfolding scan_order
scan_order-Leaves t u String.[] = omega arith
scan_order-Leaves t u (String.◌∷◌ c s) = elim (Bool-cases (code c == b'=')) [
  | inl equal ↦ rw equal (omega arith)
  | inr alone ↦ rw alone (omega arith)
]

-- A property of both branches of a test.
if-Leaves :
    (n : ℕ) (b : Bool) (x y : Scan) → Leaves n x → Leaves n y → Leaves n (if b then x else y)
if-Leaves n true x y h k = h
if-Leaves n false x y h k = k

scan_symbol-Leaves : (c : ℕ) (s : String) → Leaves (size s) (scan_symbol c s)
unfolding scan_symbol
scan_symbol-Leaves c s =
    let here : size s ≤ size s = omega arith in
    if-Leaves _ (c == b'-') _ _ (scan_minus-Leaves s) (
      if-Leaves _ (c == b'*') _ _ here (
        if-Leaves _ (c == b'(') _ _ here (
          if-Leaves _ (c == b')') _ _ here (
            if-Leaves _ (c == b'.') _ _ here (
              if-Leaves _ (c == b',') _ _ here (
                if-Leaves _ (c == b'=') _ _ here (
                  if-Leaves _ (c == b'>') _ _ (scan_order-Leaves ge gt s)
                    (if-Leaves _ (c == b'<') _ _ (scan_order-Leaves le lt s) here))))))))

module _ (uni : Unicode) where
  number_end-le : (n : ℕ) (s : String) → size (number_end uni n s).1 ≤ size s
  unfolding number_end
  number_end-le n String.[] = omega arith
  number_end-le n (String.◌∷◌ c s) = goes_on (uni.decimal (code c)) (λ m. number_end-le m s)
    where
      goes_on :
          (o : Option ℕ)
          → ((m : ℕ) → size (number_end uni m s).1 ≤ size s)
          → size
              (elim o as (λ _. ℕ × String) [
                | none ↦ (n, String.◌∷◌ c s)
                | some d ↦ number_end uni (n * 10 + d) s
              ]).1
            ≤ suc (size s)
      goes_on none h = omega arith
      goes_on (some d) h = omega (arith, h (n * 10 + d))

  scan_char-Leaves : (c : Char) (s : String) → Leaves (size s) (scan_char uni c s)
  unfolding scan_char scan_number scan_word
  scan_char-Leaves c s = by_digit (uni.decimal (code c))
    where
      by_digit :
          (o : Option ℕ)
          → Leaves (size s) (elim o as (λ _. Scan) [
            | some d ↦ scan_number uni d s
            | none ↦
                if code c == b'"' || code c == b'\''
                then scan_string (code c) s
                else if starts_word (code c)
                then scan_word c s
                else scan_symbol (code c) s
          ])
      by_digit (some d) = number_end-le d s
      by_digit none =
          if-Leaves _ (code c == b'"' || code c == b'\'') _ _ (scan_string-Leaves (code c) s)
            (if-Leaves _ (starts_word (code c)) _ _ (word_end-le s) (scan_symbol-Leaves (code c) s))

  scan-Leaves : (c : Char) (s : String) → Leaves (size s) (scan uni (String.◌∷◌ c s))
  unfolding scan
  scan-Leaves c s =
      if-Leaves _ (code c == b' ' || code c == b'\t') _ _ (omega arith) (scan_char-Leaves c s)

  -- All fuels above the size of a text give the same tokens.
  scan_all-fuel :
      (f g : ℕ) (s : String) → size s < f → size s < g → scan_all uni f s ≡ scan_all uni g s
  unfolding scan_all scan
  scan_all-fuel zero g s h k = elim h [ ]
  scan_all-fuel (suc f) zero s h k = elim k [ ]
  scan_all-fuel (suc f) (suc g) String.[] h k = refl
  scan_all-fuel (suc f) (suc g) (String.◌∷◌ c s) h k =
      same_rest (scan uni (String.◌∷◌ c s)) (scan-Leaves c s) (λ r. scan_all-fuel f g r)
    where
      same_rest :
          (x : Scan)
          → Leaves (size s) x
          → ((r : String) → size r < f → size r < g → scan_all uni f r ≡ scan_all uni g r)
          → (elim x as (λ _. List Token) [
            | finished ↦ []
            | found t rest ↦ t ∷ scan_all uni f rest
            | skipped rest ↦ scan_all uni f rest
          ])
            ≡ (elim x as (λ _. List Token) [
              | finished ↦ []
              | found t rest ↦ t ∷ scan_all uni g rest
              | skipped rest ↦ scan_all uni g rest
            ])
      same_rest finished l ih = refl
      same_rest (found t rest) l ih = ap (λ ts. t ∷ ts) (ih rest (omega arith) (omega arith))
      same_rest (skipped rest) l ih = ih rest (omega arith) (omega arith)

  -- The lexer run for any number of rounds above the number of characters gives the tokens that
  -- `tokenize` gives, so no round is missing there.
  pub tokenize-fuel : (f : ℕ) (s : String) → size s < f → scan_all uni f s ≡ tokenize uni s
  unfolding tokenize
  tokenize-fuel f s h = scan_all-fuel f (suc (size s)) s h (omega arith)
