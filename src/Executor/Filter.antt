-- ===== src/Executor/Filter.antt =====
-- WHERE: _evaluate_condition and the comprehension of _get_filtered_rows in sql-engine/executor.py.
pub mod Laws
pub mod Kept
pub mod Parsed
pub mod Meaning
pub mod Where
use sql_parser.Base.{String, Bool, true, false, not, ◌&&◌, ◌||◌, Option, none, some, List, [], ◌∷◌}
use sql_parser.Base.Dict.{get}
use sql_parser.Base.Result.{
  Result, ok, raised, ◌>>=◌, filter_m, column_not_found, unknown_operator, unknown_logical,
}
use sql_parser.Value.{Runtime, Value, Val, py_eq, py_lt, py_le}
use sql_parser.Ast.{
  Comparator, eq, gt, lt, ge, le, Connective, and, or, Condition, condition, logical_condition,
  not_condition,
}
use sql_parser.Table.{Row, Rows}

module _ ⦃rt : Runtime⦄ where
  open rt use {Float}

  -- the chain of tests on the operator, here and in _apply_having
  unfoldable pub compare_values : Comparator → Val → Val → Result Bool
  compare_values eq a b = ok (py_eq a b)
  compare_values gt a b = py_lt b a
  compare_values lt a b = py_lt a b
  compare_values ge a b = py_le b a
  compare_values le a b = py_le a b
  compare_values (Comparator.other op) a b = raised (unknown_operator op)

  unfoldable pub combine : Connective → Bool → Bool → Result Bool
  combine and a b = ok (a && b)
  combine or a b = ok (a || b)
  combine (Connective.other op) a b = raised (unknown_logical op)

  -- Both sides of AND and OR are evaluated, whatever the left one gives.
  unfoldable pub evaluate_condition : Row → Condition Float → String → Result Bool
  unfolding combine
  evaluate_condition row (condition c op v) table = elim (get c row) [
    | none ↦ raised (column_not_found c table)
    | some w ↦ compare_values op w v
  ]
  evaluate_condition row (logical_condition l op r) table = do
    a ← evaluate_condition row l table
    b ← evaluate_condition row r table
    combine op a b
  evaluate_condition row (not_condition c) table =
      evaluate_condition row c table >>= λ b. ok (not b)

  -- `if where is not None: rows = [row for row in rows if matches(row)]`
  unfoldable pub filter_rows : Rows → Option (Condition Float) → String → Result Rows
  filter_rows rows none table = ok rows
  filter_rows rows (some c) table = filter_m (λ row. evaluate_condition row c table) rows
