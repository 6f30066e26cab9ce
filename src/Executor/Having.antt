-- ===== src/Executor/Having.antt =====
-- HAVING: _apply_having of sql-engine/executor.py.
pub mod Laws
use sql_parser.Base.{String, Bool, true, false, Option, none, some, List, [], ◌∷◌}
use sql_parser.Base.Result.{Result, ok, raised, ◌>>=◌, filter_m}
use sql_parser.Value.{Runtime, Val}
use sql_parser.Ast.{Having}
use sql_parser.Table.{Row, Rows}
use sql_parser.Executor.Filter.{compare_values}
use sql_parser.Executor.Order.{aggregate_value}

module _ ⦃rt : Runtime⦄ where
  open rt use {Float}

  -- agg_value = row.get(…, 0), then the chain of tests on the operator
  unfoldable pub having_test : Having Float → Row → Result Bool
  having_test h row = aggregate_value h.func row >>= λ v. compare_values h.operator v h.threshold

  unfoldable pub apply_having : Rows → Option (Having Float) → Result Rows
  unfolding having_test
  apply_having rows none = ok rows
  apply_having rows (some h) = filter_m (having_test h) rows
