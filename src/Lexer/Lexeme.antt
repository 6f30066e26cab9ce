-- ===== src/Lexer/Lexeme.antt =====
-- Lexer: how a token may be written, independently of the rules that read it.
use Prim.Native.Char.{Char, code}
use sql_parser.Base.{ℕ, ◌+◌, ◌-◌, ◌*◌, ◌≤◌, String, true, ◌≡◌, ◌≢◌, ◌⊎◌, List, [], ◌∷◌}
use sql_parser.Base.Chars.{lower, AllChars}
use sql_parser.Token.{Token}
use sql_parser.Lexer.{classify, starts_word, in_word}

-- The text of a symbol.
pub data Symbol : Type 0 where
  star lparen rparen comma minus dot equal ge le gt lt : Symbol

pub data Lexeme : Type 0 where
  -- a letter or underscore, and more such or digits
  word : Char → String → Lexeme
  -- a digit, and more of them
  digits : Char → String → Lexeme
  -- a text between two of the quote
  quoted : Char → String → Lexeme
  symbol : Symbol → Lexeme

-- s in front of k
unfoldable pub put : String → String → String
put String.[] k = k
put (String.◌∷◌ c s) k = String.◌∷◌ c (put s k)

abbrev pub symbol_text : Symbol → String
symbol_text Symbol.star = "*"
symbol_text Symbol.lparen = "("
symbol_text Symbol.rparen = ")"
symbol_text Symbol.comma = ","
symbol_text Symbol.minus = "-"
symbol_text Symbol.dot = "."
symbol_text Symbol.equal = "="
symbol_text Symbol.ge = ">="
symbol_text Symbol.le = "<="
symbol_text Symbol.gt = ">"
symbol_text Symbol.lt = "<"

-- The text of a lexeme, in front of k.
unfoldable pub text : Lexeme → String → String
unfolding put
text (word c s) k = String.◌∷◌ c (put s k)
text (digits c s) k = String.◌∷◌ c (put s k)
text (quoted q s) k = String.◌∷◌ q (put s (String.◌∷◌ q k))
text (symbol x) k = put (symbol_text x) k

-- Lexemes with a space after each.
unfoldable pub render : List Lexeme → String
unfolding text
render [] = ""
render (l ∷ ls) = text l (String.◌∷◌ " " (render ls))

abbrev pub symbol_token : Symbol → Token
symbol_token Symbol.star = Token.star
symbol_token Symbol.lparen = Token.lparen
symbol_token Symbol.rparen = Token.rparen
symbol_token Symbol.comma = Token.comma
symbol_token Symbol.minus = Token.minus
symbol_token Symbol.dot = Token.dot
symbol_token Symbol.equal = Token.equal
symbol_token Symbol.ge = Token.ge
symbol_token Symbol.le = Token.le
symbol_token Symbol.gt = Token.gt
symbol_token Symbol.lt = Token.lt

-- The number that decimal digits stand for, after digits of the value `n`.
unfoldable pub decimal_value : ℕ → String → ℕ
decimal_value n String.[] = n
decimal_value n (String.◌∷◌ c s) = decimal_value (n * 10 + (code c - b'0')) s

-- The token of a lexeme: a word is looked up in lower case.
unfoldable pub token : Lexeme → Token
unfolding decimal_value
token (word c s) = classify (lower (String.◌∷◌ c s))
token (digits c s) = Token.number (decimal_value (code c - b'0') s)
token (quoted q s) = Token.string s
token (symbol x) = symbol_token x

abbrev pub IsDigit : ℕ → Type 0
IsDigit c = (b'0' ≤ c) × (c ≤ b'9')

abbrev pub IsLexeme : Lexeme → Type 0
IsLexeme (word c s) = (starts_word (code c) ≡ true) × AllChars (λ d. in_word d ≡ true) s
IsLexeme (digits c s) = IsDigit (code c) × AllChars IsDigit s
IsLexeme (quoted q s) = ((code q ≡ b'"') ⊎ (code q ≡ b'\'')) × AllChars (λ d. d ≢ code q) s
IsLexeme (symbol x) = Unit
