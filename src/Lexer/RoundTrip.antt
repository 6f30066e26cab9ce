-- ===== src/Lexer/RoundTrip.antt =====
-- Lexer: what is written with a space after each token is read back.
use Prim.Native.Char.{Char, code}
use sql_parser.Base.{
  ℕ, zero, suc, ◌+◌, ◌-◌, ◌*◌, ◌<◌, ◌≤◌, String, true, false, ◌≡◌, ◌≢◌, ◌⊎◌, refl, ap, ◌∙◌, Option,
  none, some, List, [], ◌∷◌, map, All, ◌==◌, ◌||◌, if◌then◌else◌, arith,
}
use sql_parser.Base.Chars.{size, AllChars}
use sql_parser.Lexer.{
  Unicode, Scan, found, word_end, scan_word, string_end, scan_string, scan_minus, scan_order,
  scan_symbol, number_end, scan_number, scan_char, scan, scan_all, tokenize, starts_word, in_word,
}
use sql_parser.Lexer.Lexeme.{
  Lexeme, word, digits, quoted, symbol, Symbol, symbol_text, put, text, render, token, IsLexeme,
  IsDigit, decimal_value,
}

-- A space, and what follows.
abbrev spaced : String → String
spaced k = String.◌∷◌ " " k

word_end-put :
    (s k : String)
    → AllChars (λ d. in_word d ≡ true) s
    → word_end (put s (spaced k)) ≡ (s, spaced k)
unfolding word_end put
word_end-put String.[] k h = refl
word_end-put (String.◌∷◌ c s) k h = rw (word_end-put s k h.1, h.0)

string_end-put :
    (q : Char) (s k : String)
    → AllChars (λ d. d ≢ code q) s
    → string_end (code q) (put s (String.◌∷◌ q k)) ≡ some (s, k)
unfolding string_end put
string_end-put q String.[] k h = ground arith
string_end-put q (String.◌∷◌ c s) k h =
    let e : (code c == code q) ≡ false = ground arith in rw (e, string_end-put q s k h.1)

put_grows : (s k : String) → size k ≤ size (put s k)
unfolding put
put_grows String.[] k = omega arith
put_grows (String.◌∷◌ c s) k = omega (arith, put_grows s k)

text_grows : (l : Lexeme) (k : String) → size k < size (text l k)
unfolding text
text_grows (word c s) k = omega (arith, put_grows s k)
text_grows (digits c s) k = omega (arith, put_grows s k)
text_grows (quoted q s) k = omega (arith, put_grows s (String.◌∷◌ q k))
text_grows (symbol x) k = symbol_grows x
  where
    symbol_grows : (x : Symbol) → size k < size (put (symbol_text x) k)
    symbol_grows Symbol.star = omega arith
    symbol_grows _ = omega arith

word_start :
    (c : ℕ)
    → starts_word c ≡ true
    → (c ≢ b' ') × (c ≢ b'\t') × (c < 128) × ¬ (IsDigit c) × ((c == b'"' || c == b'\'') ≡ false)
word_start c h = (ground arith, ground arith, ground arith, ground arith, ground arith)

quote_start :
    (c : ℕ)
    → (c ≡ b'"') ⊎ (c ≡ b'\'')
    → (c ≢ b' ') × (c ≢ b'\t') × (c < 128) × ¬ (IsDigit c) × ((c == b'"' || c == b'\'') ≡ true)
quote_start c h = (ground arith, ground arith, ground arith, ground arith, ground arith)

module _ (uni : Unicode) where
  decimal-digit : (c : ℕ) → IsDigit c → uni.decimal c ≡ some (c - b'0')
  decimal-digit c h = uni.ascii c (omega arith) ∙ ground arith

  decimal-other : (c : ℕ) → c < 128 → ¬ IsDigit c → uni.decimal c ≡ none
  decimal-other c l h = uni.ascii c l ∙ ground arith

  -- The rule of a digit, and those of other characters.
  by_digit : Char → String → Option ℕ → Scan
  by_digit c s (some d) = scan_number uni d s
  by_digit c s none =
      if code c == b'"' || code c == b'\''
      then scan_string (code c) s
      else if starts_word (code c)
      then scan_word c s
      else scan_symbol (code c) s

  scan-by_digit :
      (c : Char) (s : String) (o : Option ℕ)
      → code c ≢ b' '
      → code c ≢ b'\t'
      → uni.decimal (code c) ≡ o
      → scan uni (String.◌∷◌ c s) ≡ by_digit c s o
  unfolding scan scan_char by_digit
  scan-by_digit c s o h k e =
      let visible : (code c == b' ' || code c == b'\t') ≡ false = ground arith in
      rw visible (ap (λ (p : Option ℕ). by_digit c s p) e)

  number_end-put :
      (n : ℕ) (s k : String)
      → AllChars IsDigit s
      → number_end uni n (put s (spaced k)) ≡ (decimal_value n s, spaced k)
  unfolding number_end put decimal_value
  number_end-put n String.[] k h = rw (uni.ascii b' ' (omega arith))
  number_end-put n (String.◌∷◌ c s) k h =
      rw (decimal-digit (code c) h.0, number_end)
        (number_end-put (n * 10 + (code c - b'0')) s k h.1)

  scan-plain :
      (c : Char) (s : String)
      → (code c ≢ b' ') × (code c ≢ b'\t') × (code c < 128) × ¬ (IsDigit (code c))
      → scan uni (String.◌∷◌ c s) ≡ by_digit c s none
  scan-plain c s h = scan-by_digit c s none h.0 h.1 (decimal-other (code c) h.2 h.3)

  scan-symbol :
      (x : Symbol) (k : String)
      → scan uni (text (symbol x) (spaced k)) ≡ found (token (symbol x)) (spaced k)
  unfolding text token put by_digit scan_symbol scan_minus scan_order
  scan-symbol Symbol.star k = scan-plain "*" (spaced k) (ground arith)
  scan-symbol Symbol.lparen k = scan-plain "(" (spaced k) (ground arith)
  scan-symbol Symbol.rparen k = scan-plain ")" (spaced k) (ground arith)
  scan-symbol Symbol.comma k = scan-plain "," (spaced k) (ground arith)
  scan-symbol Symbol.minus k = scan-plain "-" (spaced k) (ground arith)
  scan-symbol Symbol.dot k = scan-plain "." (spaced k) (ground arith)
  scan-symbol Symbol.equal k = scan-plain "=" (spaced k) (ground arith)
  scan-symbol Symbol.ge k = scan-plain ">" (String.◌∷◌ "=" (spaced k)) (ground arith)
  scan-symbol Symbol.le k = scan-plain "<" (String.◌∷◌ "=" (spaced k)) (ground arith)
  scan-symbol Symbol.gt k = scan-plain ">" (spaced k) (ground arith)
  scan-symbol Symbol.lt k = scan-plain "<" (spaced k) (ground arith)

  scan-text :
      (l : Lexeme) (k : String)
      → IsLexeme l
      → scan uni (text l (spaced k)) ≡ found (token l) (spaced k)
  unfolding text token by_digit scan_word scan_number scan_string
  scan-text (word c s) k h =
      let start = word_start (code c) h.0 in
      scan-by_digit c (put s (spaced k)) none start.0 start.1
        (decimal-other (code c) start.2 start.3)
      ∙ rw (start.4, h.0, word_end-put s k h.1)
  scan-text (digits c s) k h =
      scan-by_digit c (put s (spaced k)) (some (code c - b'0')) (ground arith) (ground arith)
        (decimal-digit (code c) h.0)
      ∙ rw (number_end-put (code c - b'0') s k h.1)
  scan-text (quoted q s) k h =
      let start = quote_start (code q) h.0 in
      scan-by_digit q (put s (String.◌∷◌ q (spaced k))) none start.0 start.1
        (decimal-other (code q) start.2 start.3)
      ∙ rw (start.4, string_end-put q s (spaced k) h.1, scan_string)
  scan-text (symbol x) k h = scan-symbol x k

  scan_all-render :
      (f : ℕ) (ls : List Lexeme)
      → size (render ls) < f
      → All IsLexeme ls
      → scan_all uni f (render ls) ≡ map token ls
  unfolding scan_all render
  scan_all-render zero ls h k = elim h [ ]
  scan_all-render (suc f) [] h k = refl
  scan_all-render (suc zero) (l ∷ ls) h k =
      absurd (omega (arith, text_grows l (spaced (render ls))))
  scan_all-render (suc (suc f)) (l ∷ ls) h k =
      let smaller : size (render ls) < f = omega (arith, text_grows l (spaced (render ls))) in
      rw (scan-text l (render ls) k.0, scan_all)
        (ap (λ ts. token l ∷ ts) (scan_all-render f ls smaller k.1))

  -- What is written with a space after each lexeme is read back as the tokens of the lexemes: words
  -- in lower case, reserved ones as their types whatever their case, digits as their number, and
  -- what stands between quotes as it stands.
  pub tokenize-render :
      (ls : List Lexeme) → All IsLexeme ls → tokenize uni (render ls) ≡ map token ls
  unfolding tokenize
  tokenize-render ls h = scan_all-render (suc (size (render ls))) ls (omega arith) h
