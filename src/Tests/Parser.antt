-- ===== src/Tests/Parser.antt =====
-- SQL texts through the lexer and the parser.
use sql_parser.Base.{
  ◌-◌, Bool, false, ◌&&◌, ◌≡◌, ◌≢◌, ◌⊎◌, refl, none, some, List, [], ◌∷◌, map, All, leb,
  if◌then◌else◌, arith, String,
}
use sql_parser.Base.Int.{ℤ}
use sql_parser.Base.Chars.{lower}
use sql_parser.Value.{py_eq, py_le}
use sql_parser.Base.Result.{Result, ok, raised, column_not_found, type_error}
use sql_parser.Token.{Token, keyword, id, select_, from_, join_, having_, order_, limit_}
use sql_parser.Lexer.{Unicode, tokenize, scan_all, classify}
use sql_parser.Lexer.Fuel.{tokenize-fuel}
use sql_parser.Lexer.Lexeme.{Lexeme, IsLexeme, word, digits, quoted, symbol, Symbol, render, token}
use sql_parser.Lexer.RoundTrip.{tokenize-render}
use sql_parser.Parser.{Yacc, parse}
use sql_parser.Parser.Grammar.{
  SimpleTree, Tree, ConditionTree, select_stmt, select_general, column_list, multiple, single,
  item_id, item_qualified, simple, plain, negated, qualified, unqualified, at_least, equals,
  value_number, value_negative, value_string, count_star, order_by_ref, descending,
}
use sql_parser.Parser.Yield.{
  tokens, select_tokens, list_tokens, chain_tokens, item_tokens, optional_tokens, condition_tokens,
  not_tokens, simple_tokens, ref_tokens, value_tokens, order_tokens, direction_tokens,
}
use sql_parser.Parser.Statements.{query}
use sql_parser.Parser.Reader.Statements.{read_query, read_query-tokens}
use sql_parser.Parser.Laws.{parse-render, select-call-IsRejected, select_more, select_then}
use sql_parser.Executor.Filter.{evaluate_condition, compare_values}
use sql_parser.Executor.Filter.Where.{AllComparable, those_with, cell_truth, filter_rows-holds}
use sql_parser.Executor.Filter.{filter_rows}
use sql_parser.Base.{All, some}
use sql_parser.Base.Int.{pos}
use sql_parser.Tests.Sample.{users}
use sql_parser.Executor.Filter.Meaning.{AllComparisons, HasTruth, holds, evaluate_condition-holds}
use sql_parser.Base.Dict.{get}
use sql_parser.Executor.Filter.Parsed.{evaluate_condition-parsed}
use sql_parser.Parser.Actions.{condition, simple_condition, comparator, column_ref, value}
use sql_parser.Tests.Sample.{sample, ana}

-- A table of digits with ASCII's alone, and a parser of the grammar.
abbrev pub ascii_digits : Unicode
ascii_digits = record {
  decimal = λ c. if leb b'0' c && leb c b'9' then some (c - b'0') else none;
  ascii = λ c h. refl;
}

abbrev pub reader : Yacc
reader = record { tree = read_query; accepts = λ t h. (t, read_query-tokens t h, h, refl) }

-- Select name, users.age FROM users WHERE NOT city = 'Bilbao' AND age >= -30 ORDER BY age DESC
abbrev sample_tree : Tree
sample_tree = select_stmt (
    select_general false
      (column_list (multiple (single (item_id "name")) (item_qualified "users" "age"))) "users" none
      (some (
        single (
          multiple (single (negated (simple (unqualified "city") equals (value_string "Bilbao"))))
            (plain (simple (unqualified "age") at_least (value_negative 30))))))
      none none (some (order_by_ref (unqualified "age") descending)) none)

abbrev sample_lexemes : List Lexeme
sample_lexemes =
    word "S" "elect"
    ∷ word "N" "ame"
    ∷ symbol Symbol.comma
    ∷ word "u" "sers"
    ∷ symbol Symbol.dot
    ∷ word "a" "ge"
    ∷ word "F" "ROM"
    ∷ word "u" "sers"
    ∷ word "w" "here"
    ∷ word "N" "OT"
    ∷ word "c" "ity"
    ∷ symbol Symbol.equal
    ∷ quoted "'" "Bilbao"
    ∷ word "A" "ND"
    ∷ word "a" "ge"
    ∷ symbol Symbol.ge
    ∷ symbol Symbol.minus
    ∷ digits "3" "0"
    ∷ word "o" "rder"
    ∷ word "b" "y"
    ∷ word "a" "ge"
    ∷ word "d" "esc"
    ∷ []

sample_tokens : map token sample_lexemes ≡ tokens sample_tree []
unfolding token tokens select_tokens classify list_tokens lower chain_tokens item_tokens
    optional_tokens condition_tokens not_tokens simple_tokens ref_tokens value_tokens order_tokens
    direction_tokens
sample_tokens = refl

sample_lexemes-IsLexeme : All IsLexeme sample_lexemes
sample_lexemes-IsLexeme = ground arith

parse-render_example :
    parse {F = ℤ} reader (tokenize ascii_digits) (render sample_lexemes) ≡ some (query sample_tree)
parse-render_example =
    parse-render reader ascii_digits sample_tree sample_lexemes refl sample_lexemes-IsLexeme
      sample_tokens

test_tokenize :
    tokenize ascii_digits "SELECT a1 FROM t -- all\n;LIMIT 12 >= 'x"
    ≡ keyword select_
      ∷ id "a1"
      ∷ keyword from_
      ∷ id "t"
      ∷ keyword limit_
      ∷ Token.number 12
      ∷ Token.ge
      ∷ id "x"
      ∷ []
unfolding tokenize
test_tokenize = refl

tokenize-fuel_example :
    scan_all ascii_digits 99 "SELECT * FROM t" ≡ tokenize ascii_digits "SELECT * FROM t"
tokenize-fuel_example = tokenize-fuel ascii_digits 99 "SELECT * FROM t" (omega arith)

tokenize-render_example : tokenize ascii_digits (render sample_lexemes) ≡ map token sample_lexemes
tokenize-render_example = tokenize-render ascii_digits sample_lexemes sample_lexemes-IsLexeme

-- SELECT COUNT(*), ... and SELECT COUNT(*) FROM users JOIN ... against the sample
select-call-IsRejected_example :
    (tokens sample_tree [] ≢ select_more count_star (id "x" ∷ []))
    × (tokens sample_tree [] ≢ select_then count_star "users" join_ (id "x" ∷ []))
    × (tokens sample_tree [] ≢ select_then count_star "users" having_ (id "x" ∷ []))
    × (tokens sample_tree [] ≢ select_then count_star "users" order_ (id "x" ∷ []))
    × (tokens sample_tree [] ≢ select_then count_star "users" limit_ (id "x" ∷ []))
select-call-IsRejected_example =
    select-call-IsRejected count_star "users" (id "x" ∷ []) sample_tree refl

abbrev sample_condition : ConditionTree
sample_condition =
    multiple
      (single (single (negated (simple (unqualified "city") equals (value_string "Bilbao")))))
      (single (plain (simple (qualified "users" "age") at_least (value_number 30))))

evaluate_condition-parsed_example :
    ((b : Bool) × (evaluate_condition ana (condition sample_condition) "users" ≡ ok b))
    ⊎ (((name : String) × (evaluate_condition ana (condition sample_condition) "users"
            ≡ raised (column_not_found name "users")))
        ⊎ (evaluate_condition ana (condition sample_condition) "users" ≡ raised type_error))
evaluate_condition-parsed_example = evaluate_condition-parsed sample_condition ana "users"

truth_or_false : Result Bool → Bool
truth_or_false (ok b) = b
truth_or_false (raised e) = false

-- what a comparison of the sample gives on the row
abbrev truth_of : SimpleTree → Bool
truth_of s = truth_or_false (evaluate_condition ana (simple_condition s) "users")

sample_truths : AllComparisons (HasTruth ana "users" truth_of) sample_condition
unfolding evaluate_condition simple_condition truth_or_false get compare_values comparator
    column_ref value py_eq py_le
sample_truths = ((refl, tt), ((refl, tt), tt))

evaluate_condition-holds_example :
    evaluate_condition ana (condition sample_condition) "users"
    ≡ ok (holds truth_of sample_condition)
evaluate_condition-holds_example =
    evaluate_condition-holds ana "users" truth_of sample_condition sample_truths

all_comparable : All (AllComparable sample_condition) users
unfolding get
all_comparable = (
  ((("Madrid", refl), tt), (((pos 31, refl), tt), tt)),
  (
    ((("Sevilla", refl), tt), (((pos 25, refl), tt), tt)),
    (((("Madrid", refl), tt), (((pos 25, refl), tt), tt)), tt),
  ),
)

filter_rows-holds_example :
    filter_rows users (some (condition sample_condition)) "users"
    ≡ ok (those_with (λ row. holds (cell_truth row) sample_condition) users)
filter_rows-holds_example = filter_rows-holds sample_condition "users" users all_comparable
