-- ===== src/Executor/Join.antt =====
-- The nested loop of _apply_join in sql-engine/executor.py.
pub mod Laws
use sql_parser.Base.{String, Bool, true, false, not, ◌&&◌, Option, none, some, List, [], ◌∷◌, ◌++◌}
use sql_parser.Base.Dict.{get, merge}
use sql_parser.Base.Result.{keep}
use sql_parser.Value.{Runtime, Val, py_eq, is_none}
use sql_parser.Table.{Row, Rows}

module _ ⦃rt : Runtime⦄ where
  -- `left_val is not None and right_val is not None and left_val == right_val`: a missing column
  -- reads as None.
  unfoldable pub values_match : Option Val → Option Val → Bool
  values_match (some a) (some b) = not (is_none a) && not (is_none b) && py_eq a b
  values_match _ _ = false

  -- the inner loop
  unfoldable pub join_row : String → String → Row → Rows → Rows
  unfolding values_match
  join_row left_col right_col row1 [] = []
  join_row left_col right_col row1 (row2 ∷ rows) =
      keep (values_match (get left_col row1) (get right_col row2)) (merge row1 row2)
        (join_row left_col right_col row1 rows)

  -- the outer loop
  unfoldable pub join_rows : String → String → Rows → Rows → Rows
  unfolding join_row
  join_rows left_col right_col [] right_rows = []
  join_rows left_col right_col (row1 ∷ rows) right_rows =
      join_row left_col right_col row1 right_rows ++ join_rows left_col right_col rows right_rows
