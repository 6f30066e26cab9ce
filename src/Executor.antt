-- ===== src/Executor.antt =====
-- sql-engine/executor.py: QueryExecutor. The parts of a SELECT are in the modules below, and here
-- they meet the storage.
pub mod Totals
pub mod Filter
pub mod Join
pub mod Group
pub mod Aggregate
pub mod Order
pub mod Distinct
pub mod Having
pub mod Projection
pub mod Grouping
pub mod Laws
pub mod InMemory
use Prim.Native.String.{◌++◌}
use sql_parser.Base.{
  ℕ, String, Bool, true, false, Option, none, some, List, [], ◌∷◌, length, str_eq,
}
use sql_parser.Base.Int.{pos}
use sql_parser.Base.Dict.{put, has_key}
use sql_parser.Base.Exec.{Exec, ◌>>=◌, pure, lift}
use sql_parser.Base.Result
use sql_parser.Base.Result.{Result, ok, raised, map_m, column_not_found}
use sql_parser.Value.{Runtime, Value, int, str, Val, digits_of, str_int}
use sql_parser.Ast.{Condition, ColumnRef, GroupBy, is_grouped}
use sql_parser.Plan.{
  SelectPlan, CountPlan, AggregatePlan, CreateTablePlan, InsertPlan, DeletePlan, UpdatePlan, Plan,
}
use sql_parser.Table.{Row, Rows, Table, item_of, check_columns}
use sql_parser.Storage.{Storage}
use sql_parser.Executor.Filter.{filter_rows}
use sql_parser.Executor.Join.{join_rows}
use sql_parser.Executor.Group.{Key, group_rows, put_key}
use sql_parser.Executor.Aggregate.{sum_of, avg_of, min_of, max_of}
use sql_parser.Executor.Order.{apply_order_by, apply_limit}
use sql_parser.Executor.Distinct.{apply_distinct}
use sql_parser.Executor.Projection.{apply_projection}
use sql_parser.Executor.Grouping.{named, group_columns, apply_group_by}
use sql_parser.Executor.Totals.{count_rows, sum_rows, avg_rows, min_rows, max_rows}

module _ ⦃rt : Runtime⦄ where
  open rt use {Float}

  -- what _apply_join does with the rows of both tables
  join_result :
      ColumnRef × ColumnRef → Option (Condition Float) → String → Rows → Rows → Result Rows
  unfolding join_rows filter_rows
  join_result (l, r) cond table left_rows right_rows =
      filter_rows (join_rows l.col r.col left_rows right_rows) cond table

  -- GROUP BY, or DISTINCT, ORDER BY and LIMIT
  unfoldable pub group_or_order : SelectPlan Float → Bool → Rows → Result Rows
  unfolding apply_distinct
  group_or_order plan true rows =
      apply_group_by rows plan.group_by plan.columns plan.having plan.order_by plan.limit plan.table
  group_or_order plan false rows =
      Result.◌>>=◌
        (apply_order_by (apply_distinct rows plan.distinct plan.columns) plan.order_by plan.table)
        λ ordered. ok (apply_limit ordered plan.limit)

  -- _execute_select once the rows are there
  unfoldable pub finish_select : SelectPlan Float → Rows → Result Rows
  unfolding group_or_order
  finish_select plan rows =
      Result.◌>>=◌ (group_or_order plan (is_grouped plan.group_by) rows)
        λ out. apply_projection out (is_grouped plan.group_by) plan.columns plan.table

  message : String → Rows
  message text = (("result", str text) ∷ []) ∷ []

module _ ⦃rt : Runtime⦄ {S : Type 0} (storage : Storage S) where
  open rt use {Float}
  open storage use {load_table, create_table, insert_row, delete_rows, update_rows}

  unfoldable pub get_filtered_rows : String → Option (Condition Float) → Exec S Rows
  get_filtered_rows table cond = do t ← load_table table; lift (filter_rows t.rows cond table)

  -- by the join table, if it is not empty, and the join condition
  unfoldable pub load_rows :
      Option String → Option (ColumnRef × ColumnRef) → SelectPlan Float → Exec S Rows
  unfolding join_result get_filtered_rows
  load_rows (some other) (some on) plan = do
    left_rows ← get_filtered_rows plan.table none
    right_rows ← get_filtered_rows other none
    lift (join_result on plan.where_clause plan.table left_rows right_rows)
  load_rows _ _ plan = get_filtered_rows plan.table plan.where_clause

  unfoldable pub execute_select : SelectPlan Float → Exec S Rows
  unfolding load_rows
  execute_select plan = do
    rows ← load_rows (named plan.join_table) plan.join_condition plan
    lift (finish_select plan rows)

  unfoldable pub execute_count : CountPlan Float → Exec S Rows
  unfolding get_filtered_rows
  execute_count plan = do
    rows ← get_filtered_rows plan.table plan.where_clause
    lift (count_rows plan.group_by plan.table rows)

  unfoldable pub execute_sum : AggregatePlan Float → Exec S Rows
  unfolding get_filtered_rows
  execute_sum plan = do
    rows ← get_filtered_rows plan.table plan.where_clause
    lift (sum_rows plan rows)

  unfoldable pub execute_avg : AggregatePlan Float → Exec S Rows
  unfolding get_filtered_rows
  execute_avg plan = do
    rows ← get_filtered_rows plan.table plan.where_clause
    lift (avg_rows plan rows)

  unfoldable pub execute_min : AggregatePlan Float → Exec S Rows
  unfolding get_filtered_rows
  execute_min plan = do
    rows ← get_filtered_rows plan.table plan.where_clause
    lift (min_rows plan rows)

  unfoldable pub execute_max : AggregatePlan Float → Exec S Rows
  unfolding get_filtered_rows
  execute_max plan = do
    rows ← get_filtered_rows plan.table plan.where_clause
    lift (max_rows plan rows)

  execute_create : CreateTablePlan → Exec S Rows
  unfolding message
  execute_create plan = do
    _ ← create_table plan.table_name plan.columns
    pure (message ("Table '" ++ plan.table_name ++ "' created successfully"))

  execute_insert : InsertPlan Float → Exec S Rows
  execute_insert plan = do
    row_id ← insert_row plan.table_name plan.columns plan.values
    pure ((("result", str "1 row inserted") ∷ ("row_id", int row_id) ∷ []) ∷ [])

  execute_delete : DeletePlan Float → Exec S Rows
  unfolding message
  execute_delete plan = do
    n ← delete_rows plan.table_name plan.where_clause
    pure (message (str_int n ++ " row(s) deleted"))

  execute_update : UpdatePlan Float → Exec S Rows
  unfolding message digits_of
  execute_update plan = do
    n ← update_rows plan.table_name plan.assignments plan.where_clause
    pure (message (digits_of n ++ " row(s) updated"))

  unfoldable pub execute : Plan Float → Exec S Rows
  unfolding execute_create execute_insert execute_delete execute_update
  execute (Plan.select p) = execute_select p
  execute (Plan.count p) = execute_count p
  execute (Plan.sum p) = execute_sum p
  execute (Plan.avg p) = execute_avg p
  execute (Plan.min p) = execute_min p
  execute (Plan.max p) = execute_max p
  execute (Plan.create_table p) = execute_create p
  execute (Plan.insert p) = execute_insert p
  execute (Plan.delete p) = execute_delete p
  execute (Plan.update p) = execute_update p
