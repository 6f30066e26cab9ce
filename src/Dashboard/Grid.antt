-- ===== src/Dashboard/Grid.antt =====
-- sql-engine/ui.py: the ASCII table of result rows.
pub mod Laws
use Prim.Native.String.{◌++◌}
use mathlib.Core.List
use sql_parser.Base.{ℕ, zero, suc, ◌+◌, ◌-◌, String, List, [], ◌∷◌, map, ltb, if◌then◌else◌}
use sql_parser.Base.Chars.{size}
use sql_parser.Base.Dict.{get_or}
use sql_parser.Storage.Text.{join}
use sql_parser.Table.{Row, Rows}
use sql_parser.Value.{Runtime, Val, str, py_str}

-- c * n
unfoldable pub repeat : String → ℕ → String
repeat c zero = ""
repeat c (suc n) = c ++ repeat c n

-- f"{s:<{width}}"
unfoldable pub pad : ℕ → String → String
unfolding repeat
pad width s = s ++ repeat " " (width - size s)

-- "".join(f(c) for c in columns)
unfoldable pub join_map : (String → String) → List String → String
join_map f [] = ""
join_map f (c ∷ cs) = f c ++ join_map f cs

-- if value_len > widths[col]: widths[col] = value_len
unfoldable pub wider : ℕ → ℕ → ℕ
wider w n = if ltb w n then n else w

module _ ⦃rt : Runtime⦄ where
  -- list(row.keys())
  abbrev pub keys : Row → List String
  keys row = map (λ (e : String × Val). e.0) row

  -- str(row.get(col, ''))
  unfoldable pub cell : String → Row → String
  cell col row = py_str (get_or col (str "") row)

  -- the loop over the rows, from a width on
  unfoldable pub longest : String → ℕ → Rows → ℕ
  longest col w [] = w
  longest col w (row ∷ rows) = longest col (wider w (size (cell col row))) rows

  -- widths[col]
  unfoldable pub width : Rows → String → ℕ
  unfolding longest wider
  width rows col = longest col (size col) rows

  unfoldable pub separator : Rows → List String → String
  unfolding width repeat join_map
  separator rows columns = "+" ++ join_map (λ col. repeat "-" (width rows col + 2) ++ "+") columns

  unfoldable pub header : Rows → List String → String
  unfolding width pad join_map
  header rows columns = "|" ++ join_map (λ col. " " ++ (pad (width rows col) col ++ " |")) columns

  unfoldable pub row_line : Rows → List String → Row → String
  unfolding width pad cell join_map
  row_line rows columns row =
      "|" ++ join_map (λ col. " " ++ (pad (width rows col) (cell col row) ++ " |")) columns

  -- the lines of the table, its rows those that are shown
  unfoldable pub table_lines : List String → Rows → List String
  unfolding separator header row_line
  table_lines columns rows =
      separator rows columns
      ∷ header rows columns
      ∷ separator rows columns
      ∷ List.◌++◌ (map (row_line rows columns) rows) (separator rows columns ∷ [])

  unfoldable pub format_table : Rows → String
  unfolding table_lines join
  format_table [] = "(0 rows)"
  format_table (row ∷ rows) = join "\n" (table_lines (keys row) (row ∷ rows))
