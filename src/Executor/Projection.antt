-- ===== src/Executor/Projection.antt =====
-- SELECT's column list: _apply_projection of sql-engine/executor.py.
pub mod Laws
use sql_parser.Base.{
  String, Bool, true, false, Option, none, some, List, [], ◌∷◌, str_eq, if◌then◌else◌,
}
use sql_parser.Base.Dict.{get, put}
use sql_parser.Base.Result.{Result, ok, raised, ◌>>=◌, map_m, column_not_found}
use sql_parser.Value.{Runtime, Val}
use sql_parser.Ast.{ColumnItem, plain, column, qualified, aggregate, Columns, star, listed}
use sql_parser.Table.{Row, Rows}

-- column_name: where the value is read. An aggregate with no column reads `None`, which no row has.
unfoldable pub source_name : ColumnItem → Option String
source_name (plain s) = some s
source_name (column n) = some n
source_name (qualified n t c) = if str_eq t "" then some n else some c
source_name (aggregate f c) = c

-- output_name: the name that the result row gives it
unfoldable pub output_name : ColumnItem → Option String
output_name (plain s) = some s
output_name (column n) = some n
output_name (qualified n t c) = some n
output_name (aggregate f c) = c

module _ ⦃rt : Runtime⦄ where
  unfoldable pub project_column : String → Option String → Option String → Row → Row → Result Row
  project_column table (some c) (some n) row result = elim (get c row) [
    | none ↦ raised (column_not_found c table)
    | some v ↦ ok (put n v result)
  ]
  project_column table _ _ row result = raised (column_not_found "None" table)

  -- the loop over the columns of one row
  unfoldable pub project_row : String → List ColumnItem → Row → Row → Result Row
  unfolding project_column source_name output_name
  project_row table [] row result = ok result
  project_row table (item ∷ items) row result = do
    result' ← project_column table (source_name item) (output_name item) row result
    project_row table items row result'

  project_rows : Columns → String → Rows → Result Rows
  unfolding project_row
  project_rows star table rows = ok rows
  project_rows (listed items) table rows = map_m (λ row. project_row table items row []) rows

  -- after GROUP BY the rows have their columns already
  unfoldable pub apply_projection : Rows → Bool → Columns → String → Result Rows
  unfolding project_rows
  apply_projection rows true columns table = ok rows
  apply_projection rows false columns table = project_rows columns table rows
