-- ===== src/Dashboard.antt =====
-- sql-engine/ui.py: what the console shows of a query and its result. A screen is the texts of its
-- four panels; their colours and borders, which the library `rich` draws, are left out.
pub mod Grid
pub mod Pages
pub mod AstPrinter
pub mod Laws
use Prim.Native.String.{◌++◌}
use sql_parser.Base.{
  ℕ, ◌+◌, ◌-◌, String, Bool, true, false, ◌||◌, Option, none, some, List, [], ◌∷◌, map, length, leb,
  ltb, if◌then◌else◌, str_eq,
}
use sql_parser.Base.Chars.{lower}
use sql_parser.Base.Int.{pos}
use sql_parser.Ast.{Query}
use sql_parser.Dashboard.AstPrinter.{Shown, print_ast}
use sql_parser.Dashboard.Grid.{format_table}
use sql_parser.Dashboard.Pages.{page_size, page_count, format_table_paginated}
use sql_parser.Lexer.{Unicode, tokenize}
use sql_parser.Storage.Text.{join, strip}
use sql_parser.Table.{Rows}
use sql_parser.Token.{Token, id, number, string, token_type}
use sql_parser.Value.{Runtime, digits_of}

pub record Screen : Type 0 where
  pub query : String
  pub ast : String
  pub tokens : String
  pub result : String

-- The arguments `result` and `error`; the error is a message that is not empty.
pub data Outcome ⦃rt : Runtime⦄ : Type 0 where
  found : Rows → Outcome
  failed : String → Outcome

-- A key at the prompt of the pages: the page to show then, or none for quit. Other keys are ignored.
unfoldable pub turn : String → ℕ → ℕ → Option ℕ
turn key page total_pages =
    if str_eq key "q" || str_eq key "exit"
    then none
    else some (
        if str_eq key "n"
        then (if ltb page (total_pages - 1) then page + 1 else page)
        else if str_eq key "p"
        then page - 1
        else if str_eq key "f"
        then 0
        else if str_eq key "l"
        then total_pages - 1
        else page)

module _ ⦃rt : Runtime⦄ where
  -- The pages that the loop shows, for the lines that are typed. At their end it stops, as on
  -- EOFError and KeyboardInterrupt.
  unfoldable pub browse : ℕ → ℕ → List String → List ℕ
  unfolding turn lower strip
  browse total_pages page [] = page ∷ []
  browse total_pages page (line ∷ lines) =
      page ∷ (elim (turn (lower (strip rt.is_space line)) page total_pages) [
        | none ↦ []
        | some next ↦ browse total_pages next lines
      ])

  -- the pages that are shown of a result, of which there may be only one
  unfoldable pub pages_shown : Rows → List String → List ℕ
  unfolding page_count browse
  pages_shown [] lines = 0 ∷ []
  pages_shown (row ∷ rows) lines =
      let total_pages = page_count (length (row ∷ rows)) page_size in
      if leb total_pages 1 then 0 ∷ [] else browse total_pages 0 lines

  -- an entry of get_tokens
  abbrev pub token_text : Token → String
  token_text (id s) = "ID(" ++ (s ++ ")")
  token_text (number n) = "NUMBER(" ++ (digits_of n ++ ")")
  token_text (string s) = "STRING(" ++ (rt.repr_text s ++ ")")
  token_text t = token_type t

  unfoldable pub get_tokens : Unicode → String → List String
  unfolding tokenize digits_of
  get_tokens uni query = map token_text (tokenize uni query)

  -- text or "None"
  abbrev pub or_none : String → String
  or_none s = if str_eq s "" then "None" else s

  unfoldable pub capture_ast_output : Shown → Option (Query rt.Float) → String
  unfolding print_ast strip join
  capture_ast_output shown none = strip rt.is_space "None"
  capture_ast_output shown (some ast) = strip rt.is_space (join "\n" (print_ast shown ast))

  -- "\n".join(tokens) if tokens else "None"
  abbrev pub tokens_text : List String → String
  tokens_text [] = "None"
  tokens_text (t ∷ ts) = join "\n" (t ∷ ts)

  -- the panels, three of which do not depend on the result
  unfoldable pub screen : Shown → String → Option (Query rt.Float) → List String → String → Screen
  unfolding capture_ast_output join
  screen shown query ast tokens result = record {
    query = query;
    ast = or_none (capture_ast_output shown ast);
    tokens = tokens_text tokens;
    result = result;
  }

  unfoldable pub create_simple_dashboard :
      Shown → String → Option (Query rt.Float) → List String → Outcome → Screen
  unfolding screen format_table
  create_simple_dashboard shown query ast tokens (failed message) =
      screen shown query ast tokens message
  create_simple_dashboard shown query ast tokens (found rows) =
      screen shown query ast tokens (format_table rows)

  -- create_dashboard, which has no "None" for an empty panel
  unfoldable pub create_dashboard :
      Shown → String → Option (Query rt.Float) → List String → Outcome → Screen
  unfolding create_simple_dashboard capture_ast_output join
  create_dashboard shown query ast tokens outcome =
      record (create_simple_dashboard shown query ast tokens outcome) {
        ast = capture_ast_output shown ast;
        tokens = join "\n" tokens;
      }

  -- The screens that are shown, one after the other, for the lines that are typed.
  unfoldable pub create_paginated_dashboard :
      Shown → String → Option (Query rt.Float) → List String → Outcome → List String → List Screen
  unfolding create_simple_dashboard pages_shown format_table_paginated screen
  create_paginated_dashboard shown query ast tokens (failed message) lines =
      create_simple_dashboard shown query ast tokens (failed message) ∷ []
  create_paginated_dashboard shown query ast tokens (found rows) lines =
      map
        (λ page. screen shown query ast tokens (format_table_paginated rows (pos page) page_size).0)
        (pages_shown rows lines)
