-- ===== src/Console.antt =====
-- sql-engine/main.py: the loop that reads a line, runs it and shows the result. What the dashboard
-- shows is left out, and so are the words of its messages.
pub mod Laws
use sql_parser.Base.{
  String, Bool, true, false, Option, none, some, List, [], ◌∷◌, str_eq, if◌then◌else◌, ◌==◌, ℕ,
}
use sql_parser.Base.Chars.{lower}
use sql_parser.Base.Result.{
  Result, ok, raised, Error, column_not_found, unknown_operator, unknown_logical, unknown_aggregate,
  not_grouped, table_not_found, unknown_type, value_error, empty_sequence,
}
use Prim.Native.Char.{Char, code}
use sql_parser.Ast.{Query}
use sql_parser.Executor.{execute}
use sql_parser.Lexer.{Unicode, tokenize}
use sql_parser.Parser.{Yacc, parse}
use sql_parser.Plan.{plan}
use sql_parser.Storage.{Storage}
use sql_parser.Storage.Text.{strip, has_char}
use sql_parser.Table.{Rows}
use sql_parser.Value.{Runtime}

-- What comes of a line.
pub data Reply ⦃rt : Runtime⦄ : Type 0 where
  -- break
  leave : Reply
  -- an empty line
  ignored : Reply
  -- "ERROR: multiple statements not supported"
  several_statements : Reply
  -- "Syntax error"
  syntax_error : Reply
  shown : Rows → Reply
  -- except ValueError
  reported : Error → Reply
  -- except Exception
  broke : Error → Reply

-- isinstance(e, ValueError)
abbrev pub is_value_error : Error → Bool
is_value_error (column_not_found c t) = true
is_value_error (unknown_operator op) = true
is_value_error (unknown_logical op) = true
is_value_error (unknown_aggregate f) = true
is_value_error (not_grouped c) = true
is_value_error (table_not_found t) = true
is_value_error (unknown_type t) = true
is_value_error value_error = true
is_value_error empty_sequence = true
is_value_error _ = false

-- s.endswith(c), for one character
unfoldable pub ends_with : ℕ → String → Bool
ends_with n String.[] = false
ends_with n (String.◌∷◌ c String.[]) = code c == n
ends_with n (String.◌∷◌ c (String.◌∷◌ d s)) = ends_with n (String.◌∷◌ d s)

-- s[:-1]
unfoldable pub drop_last : String → String
drop_last String.[] = ""
drop_last (String.◌∷◌ c String.[]) = ""
drop_last (String.◌∷◌ c (String.◌∷◌ d s)) = String.◌∷◌ c (drop_last (String.◌∷◌ d s))

module _ ⦃rt : Runtime⦄ {S : Type 0} where
  abbrev pub reply : Result Rows × S → Reply × S
  reply (ok rows, s) = (shown rows, s)
  reply (raised e, s) = ((if is_value_error e then reported e else broke e), s)

  abbrev after : Reply × S → (S → List Reply × S) → List Reply × S
  after (leave, s) next = (leave ∷ [], s)
  after (r, s) next = let (rs, s') = next s in (r ∷ rs, s')

module _ ⦃rt : Runtime⦄ {S : Type 0} (storage : Storage S) (yacc : Yacc) (uni : Unicode) where
  -- the try block: parse, plan, execute
  unfoldable pub run_query : String → S → Reply × S
  run_query q s = elim (parse yacc (tokenize uni) q) [
    | none ↦ (syntax_error, s)
    | some ast ↦ reply (execute storage (plan ast) s)
  ]

  -- a line that is not "exit" and not empty
  abbrev pub statement : String → S → Reply × S
  statement q s =
      if ends_with b';' q
      then (if has_char b';' (drop_last q)
          then (several_statements, s)
          else run_query (drop_last q) s)
      else run_query q s

  abbrev pub stripped_line : String → S → Reply × S
  stripped_line q s =
      if str_eq (lower q) "exit"
      then (leave, s)
      else if str_eq q ""
      then (ignored, s)
      else statement q s

  -- one turn of the loop
  unfoldable pub run_line : String → S → Reply × S
  unfolding run_query ends_with drop_last strip
  run_line line s = stripped_line (strip rt.is_space line) s

  -- The loop on the lines that come; at their end it stops, as on EOFError.
  unfoldable pub session : List String → S → List Reply × S
  unfolding run_line
  session [] s = ([], s)
  session (line ∷ lines) s = after (run_line line s) (λ s'. session lines s')
