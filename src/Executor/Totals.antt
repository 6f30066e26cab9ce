-- ===== src/Executor/Totals.antt =====
-- COUNT, SUM, AVG, MIN and MAX as statements of their own, in sql-engine/executor.py: what the
-- _execute_ methods do with the rows.
use sql_parser.Base.{String, true, false, Option, none, some, List, [], ◌∷◌, length}
use sql_parser.Base.Int.{pos}
use sql_parser.Base.Dict.{put, has_key}
use sql_parser.Base.Result
use sql_parser.Base.Result.{Result, ok, raised, map_m, column_not_found}
use sql_parser.Value.{Runtime, int, Val}
use sql_parser.Ast.{GroupBy, is_grouped}
use sql_parser.Plan.{AggregatePlan}
use sql_parser.Table.{Row, Rows, item_of, check_columns}
use sql_parser.Executor.Group.{Key, group_rows, put_key}
use sql_parser.Executor.Aggregate.{sum_of, avg_of, min_of, max_of}
use sql_parser.Executor.Grouping.{group_columns}

module _ ⦃rt : Runtime⦄ where
  open rt use {Float}

  -- One row for each group: the key, and the aggregate under its label.
  unfoldable pub group_entry : String → (Rows → Result Val) → List String → Key × Rows → Result Row
  unfolding put_key
  group_entry name value cols (key, rows) =
      Result.◌>>=◌ (put_key cols key []) λ row. Result.◌>>=◌ (value rows) λ v. ok (put name v row)

  unfoldable pub by_group : String → (Rows → Result Val) → List String → Rows → Result Rows
  unfolding group_entry
  by_group name value cols rows =
      Result.◌>>=◌ (group_rows cols rows) λ groups. map_m (group_entry name value cols) groups

  -- `if rows and plan.column not in rows[0]: raise ValueError`
  unfoldable pub check_aggregate : Option String → String → Rows → Result (Unit {0})
  check_aggregate c table [] = ok tt
  check_aggregate none table (row ∷ rows) = raised (column_not_found "None" table)
  check_aggregate (some c) table (row ∷ rows) =
      Result.guard (has_key c row) (column_not_found c table)

  unfoldable pub single : String → Val → Rows
  single name v = ((name, v) ∷ []) ∷ []

  -- {"avg": 0}, {"min": 0}, {"max": 0} on no rows
  unfoldable pub or_zero : (Rows → Result Val) → Rows → Result Val
  or_zero value [] = ok (int (pos 0))
  or_zero value (row ∷ rows) = value (row ∷ rows)

  unfoldable pub row_count : Rows → Result Val
  row_count rows = ok (int (pos (length rows)))

  -- _execute_count_with_group_by
  unfoldable pub count_by_group : GroupBy → String → Rows → Result Rows
  unfolding row_count
  count_by_group group_by table rows =
      let cols = group_columns group_by in
      Result.◌>>=◌ (check_columns cols table rows) λ _. by_group "count" row_count cols rows

  -- _execute_count, on the rows that WHERE leaves
  unfoldable pub count_rows : GroupBy → String → Rows → Result Rows
  unfolding single count_by_group
  count_rows group_by table rows = elim (is_grouped group_by) [
    | true ↦ count_by_group group_by table rows
    | false ↦ ok (single "count" (int (pos (length rows))))
  ]

  -- _execute_sum_with_group_by
  unfoldable pub sum_by_group : AggregatePlan Float → Rows → Result Rows
  sum_by_group plan rows =
      let cols = group_columns plan.group_by in
      Result.◌>>=◌ (check_columns cols plan.table rows)
        λ _. by_group "sum" (sum_of (item_of plan.col)) cols rows

  -- _execute_sum
  unfoldable pub sum_rows : AggregatePlan Float → Rows → Result Rows
  unfolding check_aggregate single sum_by_group
  sum_rows plan rows = Result.◌>>=◌ (check_aggregate plan.col plan.table rows) λ _.
      elim (is_grouped plan.group_by) [
        | true ↦ sum_by_group plan rows
        | false ↦ Result.◌>>=◌ (sum_of (item_of plan.col) rows) λ v. ok (single "sum" v)
      ]

  -- _execute_avg_with_group_by, which does not check the columns of GROUP BY
  unfoldable pub avg_by_group : AggregatePlan Float → Rows → Result Rows
  avg_by_group plan rows =
      by_group "avg" (avg_of (item_of plan.col)) (group_columns plan.group_by) rows

  -- _execute_avg
  unfoldable pub avg_rows : AggregatePlan Float → Rows → Result Rows
  unfolding check_aggregate single or_zero avg_by_group
  avg_rows plan rows = Result.◌>>=◌ (check_aggregate plan.col plan.table rows) λ _.
      elim (is_grouped plan.group_by) [
        | true ↦ avg_by_group plan rows
        | false ↦ Result.◌>>=◌ (or_zero (avg_of (item_of plan.col)) rows) λ v. ok (single "avg" v)
      ]

  -- _execute_min_with_group_by, which does not check the columns of GROUP BY
  unfoldable pub min_by_group : AggregatePlan Float → Rows → Result Rows
  min_by_group plan rows =
      by_group "min" (min_of (item_of plan.col)) (group_columns plan.group_by) rows

  -- _execute_min
  unfoldable pub min_rows : AggregatePlan Float → Rows → Result Rows
  unfolding check_aggregate single or_zero min_by_group
  min_rows plan rows = Result.◌>>=◌ (check_aggregate plan.col plan.table rows) λ _.
      elim (is_grouped plan.group_by) [
        | true ↦ min_by_group plan rows
        | false ↦ Result.◌>>=◌ (or_zero (min_of (item_of plan.col)) rows) λ v. ok (single "min" v)
      ]

  -- _execute_max_with_group_by, which does not check the columns of GROUP BY
  unfoldable pub max_by_group : AggregatePlan Float → Rows → Result Rows
  max_by_group plan rows =
      by_group "max" (max_of (item_of plan.col)) (group_columns plan.group_by) rows

  -- _execute_max
  unfoldable pub max_rows : AggregatePlan Float → Rows → Result Rows
  unfolding check_aggregate single or_zero max_by_group
  max_rows plan rows = Result.◌>>=◌ (check_aggregate plan.col plan.table rows) λ _.
      elim (is_grouped plan.group_by) [
        | true ↦ max_by_group plan rows
        | false ↦ Result.◌>>=◌ (or_zero (max_of (item_of plan.col)) rows) λ v. ok (single "max" v)
      ]
