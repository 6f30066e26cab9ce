-- ===== src/Lexer.antt =====
-- sql-engine/lexer.py: SQLLexer, as PLY runs it. At each place the rules that are functions are tried
-- in the order in which they stand, and then those that are texts, the longer pattern first; the
-- characters of t_ignore are passed over before. Messages and line numbers are left out.
pub mod Fuel
pub mod Lexeme
pub mod RoundTrip
use Prim.Native.Char.{Char, code}
use sql_parser.Base.{
  ℕ, zero, suc, ◌+◌, ◌-◌, ◌*◌, ◌<◌, String, Bool, true, false, ◌&&◌, ◌||◌, ◌≡◌, Option, none, some,
  List, [], ◌∷◌, ◌==◌, leb, if◌then◌else◌,
}
use sql_parser.Base.Chars.{is_upper, is_lower, lower, upper, size}
use sql_parser.Base.Dict.{Dict, get}
use sql_parser.Token.{
  Keyword, select_, from_, where_, order_, by_, limit_, count_, sum_, avg_, min_, max_, distinct_,
  group_, having_, and_, or_, not_, asc_, desc_, join_, on_, create_, table_, int_, float_, bool_,
  varchar_, primary_, key_, null_, into_, values_, insert_, delete_, update_, set_, Token, keyword,
  id, number, string, star, lparen, rparen, comma, minus, dot, equal, ge, le, gt, lt,
}

-- self.reserved
abbrev pub reserved : Dict Keyword
reserved =
    ("SELECT", select_)
    ∷ ("FROM", from_)
    ∷ ("WHERE", where_)
    ∷ ("ORDER", order_)
    ∷ ("BY", by_)
    ∷ ("LIMIT", limit_)
    ∷ ("COUNT", count_)
    ∷ ("SUM", sum_)
    ∷ ("AVG", avg_)
    ∷ ("MIN", min_)
    ∷ ("MAX", max_)
    ∷ ("DISTINCT", distinct_)
    ∷ ("GROUP", group_)
    ∷ ("HAVING", having_)
    ∷ ("AND", and_)
    ∷ ("OR", or_)
    ∷ ("NOT", not_)
    ∷ ("ASC", asc_)
    ∷ ("DESC", desc_)
    ∷ ("JOIN", join_)
    ∷ ("ON", on_)
    ∷ ("CREATE", create_)
    ∷ ("TABLE", table_)
    ∷ ("INT", int_)
    ∷ ("FLOAT", float_)
    ∷ ("BOOL", bool_)
    ∷ ("VARCHAR", varchar_)
    ∷ ("PRIMARY", primary_)
    ∷ ("KEY", key_)
    ∷ ("NULL", null_)
    ∷ ("INTO", into_)
    ∷ ("VALUES", values_)
    ∷ ("INSERT", insert_)
    ∷ ("DELETE", delete_)
    ∷ ("UPDATE", update_)
    ∷ ("SET", set_)
    ∷ []

-- The digits of Unicode, with their values: what \d matches and int(s) reads.
pub record Unicode : Type 0 where
  pub decimal : ℕ → Option ℕ
  -- of the ASCII characters, 0 to 9
  pub ascii :
      (c : ℕ) → c < 128 → decimal c ≡ (if leb b'0' c && leb c b'9' then some (c - b'0') else none)

-- What a rule does with the rest of the text.
pub data Scan : Type 0 where
  finished : Scan
  found : Token → String → Scan
  skipped : String → Scan

-- [a-zA-Z_] and [a-zA-Z0-9_]
abbrev pub starts_word : ℕ → Bool
starts_word c = is_upper c || is_lower c || c == b'_'

abbrev pub in_word : ℕ → Bool
in_word c = starts_word c || leb b'0' c && leb c b'9'

-- [a-zA-Z0-9_]*
unfoldable pub word_end : String → String × String
word_end String.[] = ("", "")
word_end (String.◌∷◌ c s) =
    let (w, rest) = word_end s in
    if in_word (code c) then (String.◌∷◌ c w, rest) else ("", String.◌∷◌ c s)

-- self.reserved.get(t.value.upper(), 'ID')
unfoldable pub classify : String → Token
unfolding get upper
classify v = elim (get (upper v) reserved) [ none ↦ id v | some k ↦ keyword k ]

-- t_ID
unfoldable pub scan_word : Char → String → Scan
unfolding word_end classify lower
scan_word c s = let (w, rest) = word_end s in found (classify (lower (String.◌∷◌ c w))) rest

abbrev onto : Char → Option (String × String) → Option (String × String)
onto c none = none
onto c (some (s, rest)) = some (String.◌∷◌ c s, rest)

-- [^q]*q, without the quote
unfoldable pub string_end : ℕ → String → Option (String × String)
string_end q String.[] = none
string_end q (String.◌∷◌ c s) =
    let more = string_end q s in if code c == q then some ("", s) else onto c more

-- t_STRING; a quote that nothing closes is illegal, and skipped
unfoldable pub scan_string : ℕ → String → Scan
unfolding string_end
scan_string q s = elim (string_end q s) [
  | none ↦ skipped s
  | some (v, rest) ↦ found (string v) rest
]

-- .*, up to the end of the line
unfoldable pub line_end : String → String
line_end String.[] = ""
line_end (String.◌∷◌ c s) =
    let rest = line_end s in if code c == b'\n' then String.◌∷◌ c s else rest

-- t_comment, or else t_MINUS
unfoldable pub scan_minus : String → Scan
unfolding line_end
scan_minus String.[] = found minus ""
scan_minus (String.◌∷◌ c s) =
    if code c == b'-' then skipped (line_end s) else found minus (String.◌∷◌ c s)

-- t_GE or else t_GT, t_LE or else t_LT
unfoldable pub scan_order : Token → Token → String → Scan
scan_order with_equal alone String.[] = found alone ""
scan_order with_equal alone (String.◌∷◌ c s) =
    if code c == b'=' then found with_equal s else found alone (String.◌∷◌ c s)

-- The remaining rules, t_error among them.
unfoldable pub scan_symbol : ℕ → String → Scan
unfolding scan_minus scan_order
scan_symbol c s =
    if c == b'-'
    then scan_minus s
    else if c == b'*'
    then found star s
    else if c == b'('
    then found lparen s
    else if c == b')'
    then found rparen s
    else if c == b'.'
    then found dot s
    else if c == b','
    then found comma s
    else if c == b'='
    then found equal s
    else if c == b'>'
    then scan_order ge gt s
    else if c == b'<'
    then scan_order le lt s
    else skipped s

module _ (uni : Unicode) where
  -- \d*, after digits of the value `n`
  unfoldable pub number_end : ℕ → String → ℕ × String
  number_end n String.[] = (n, "")
  number_end n (String.◌∷◌ c s) = elim (uni.decimal (code c)) [
    | none ↦ (n, String.◌∷◌ c s)
    | some d ↦ number_end (n * 10 + d) s
  ]

  -- t_NUMBER
  unfoldable pub scan_number : ℕ → String → Scan
  unfolding number_end
  scan_number d s = let (n, rest) = number_end d s in found (number n) rest

  unfoldable pub scan_char : Char → String → Scan
  unfolding scan_number scan_string scan_word scan_symbol
  scan_char c s = elim (uni.decimal (code c)) [
    | some d ↦ scan_number d s
    | none ↦
        if code c == b'"' || code c == b'\''
        then scan_string (code c) s
        else if starts_word (code c)
        then scan_word c s
        else scan_symbol (code c) s
  ]

  -- one round of the lexer
  unfoldable pub scan : String → Scan
  unfolding scan_char
  scan String.[] = finished
  scan (String.◌∷◌ c s) = if code c == b' ' || code c == b'\t' then skipped s else scan_char c s

  -- `fuel` rounds at most
  unfoldable pub scan_all : ℕ → String → List Token
  unfolding scan
  scan_all zero s = []
  scan_all (suc fuel) s = elim (scan s) [
    | finished ↦ []
    | found t rest ↦ t ∷ scan_all fuel rest
    | skipped rest ↦ scan_all fuel rest
  ]

  -- The tokens of a text. A round takes a character at least.
  unfoldable pub tokenize : String → List Token
  unfolding scan_all
  tokenize s = scan_all (suc (size s)) s
