-- ===== src/Executor/Grouping.antt =====
-- SELECT … GROUP BY: _apply_group_by of sql-engine/executor.py.
use Prim.Native.Char.{code}
use sql_parser.Base.{
  ℕ, String, Bool, false, ◌||◌, Option, none, some, List, [], ◌∷◌, length, str_eq, if◌then◌else◌,
  ◌==◌,
}
use sql_parser.Base.Int.{pos}
use sql_parser.Base.Dict.{get, get_or, put}
use sql_parser.Base.Result.{Result, ok, raised, ◌>>=◌, ◌>>◌, map_m, guard, not_grouped}
use sql_parser.Value.{Runtime, null, int, Val}
use sql_parser.Ast.{
  Func, ColumnItem, plain, column, qualified, aggregate, Columns, star, listed, GroupBy, no_group,
  one, many, OrderBy, Having,
}
use sql_parser.Table.{Row, Rows, check_column, check_columns}
use sql_parser.Executor.Group.{Key, group_rows, put_key}
use sql_parser.Executor.Aggregate.{sum_of, avg_of, min_of, max_of}
use sql_parser.Executor.Having.{apply_having}
use sql_parser.Executor.Order.{apply_order_by, apply_limit}

-- [group_by] or list(group_by)
unfoldable pub group_columns : GroupBy → List String
group_columns no_group = []
group_columns (one s) = s ∷ []
group_columns (many cs) = cs

-- what follows the last dot, if there is one
unfoldable pub after_dot : String → Option String
after_dot String.[] = none
after_dot (String.◌∷◌ c s) = elim (after_dot s) [
  | some r ↦ some r
  | none ↦ if code c == b'.' then some s else none
]

-- col.split('.')[-1]
unfoldable pub normalize_column : String → String
unfolding after_dot
normalize_column s = elim (after_dot s) [ some r ↦ r | none ↦ s ]

-- normalized_col in group_by_columns_set
unfoldable pub is_group_column : String → List String → Bool
unfolding normalize_column
is_group_column c [] = false
is_group_column c (g ∷ gs) =
    str_eq (normalize_column g) (normalize_column c) || is_group_column c gs

-- `col_name` as a test: a text that is not empty
abbrev pub named : Option String → Option String
named none = none
named (some c) = if str_eq c "" then none else some c

module _ ⦃rt : Runtime⦄ where
  check_grouped : List String → String → Result (Unit {0})
  unfolding is_group_column
  check_grouped groups c = guard (is_group_column c groups) (not_grouped c)

  -- one column of SELECT: an aggregate over a column that is there, or a column of GROUP BY
  check_item : List String → String → Rows → ColumnItem → Result (Unit {0})
  unfolding check_grouped check_column
  check_item groups table rows (aggregate f c) = elim (named c) [
    | none ↦ ok tt
    | some n ↦ check_column n table rows
  ]
  check_item groups table rows (plain s) = check_grouped groups s
  check_item groups table rows (column n) = check_grouped groups n
  check_item groups table rows (qualified n t c) = check_grouped groups n

  check_items : List String → String → Rows → List ColumnItem → Result (Unit {0})
  unfolding check_item
  check_items groups table rows [] = ok tt
  check_items groups table rows (i ∷ is) = elim (check_item groups table rows i) [
    | ok _ ↦ check_items groups table rows is
    | raised e ↦ raised e
  ]

  unfoldable pub check_select : List String → String → Rows → Columns → Result (Unit {0})
  unfolding check_items
  check_select groups table rows star = ok tt
  check_select groups table rows (listed items) = check_items groups table rows items

  -- row.get(c, 0), row.get(c)
  abbrev read_or_zero : String → Row → Result Val
  read_or_zero c row = ok (get_or c (int (pos 0)) row)

  -- [row.get(c) for row in rows_in_group if c in row]
  abbrev present : String → Rows → List Val
  present c [] = []
  present c (row ∷ rows) = elim (get c row) [ none ↦ present c rows | some v ↦ v ∷ present c rows ]

  -- min(values) if values else None
  abbrev or_none : (List Val → Result Val) → List Val → Result Val
  or_none best [] = ok null
  or_none best (v ∷ vs) = best (v ∷ vs)

  -- sum(values) / len(values) if values else 0
  group_avg : String → Rows → Result Val
  group_avg c [] = ok (int (pos 0))
  group_avg c (row ∷ rows) = avg_of (read_or_zero c) (row ∷ rows)

  -- the branches on func, each but the first under `and col_name`
  unfoldable pub aggregate_entry : Func → Option String → Rows → Row → Result Row
  unfolding group_avg
  aggregate_entry Func.count c rows result = ok (put "count" (int (pos (length rows))) result)
  aggregate_entry Func.sum (some c) rows result =
      sum_of (read_or_zero c) rows >>= λ v. ok (put "sum" v result)
  aggregate_entry Func.avg (some c) rows result = group_avg c rows >>= λ v. ok (put "avg" v result)
  aggregate_entry Func.min (some c) rows result =
      or_none (min_of ok) (present c rows) >>= λ v. ok (put "min" v result)
  aggregate_entry Func.max (some c) rows result =
      or_none (max_of ok) (present c rows) >>= λ v. ok (put "max" v result)
  aggregate_entry _ _ rows result = ok result

  -- rows_in_group[0].get(col)
  abbrev first_value : String → Rows → Val
  first_value c [] = null
  first_value c (row ∷ rows) = get_or c null row

  unfoldable pub item_entry : ColumnItem → Rows → Row → Result Row
  unfolding aggregate_entry
  item_entry (aggregate f c) rows result = aggregate_entry f (named c) rows result
  item_entry (plain s) rows result = ok (put s (first_value s rows) result)
  item_entry (column n) rows result = ok result
  item_entry (qualified n t c) rows result = ok result

  unfoldable pub item_entries : List ColumnItem → Rows → Row → Result Row
  unfolding item_entry
  item_entries [] rows result = ok result
  item_entries (i ∷ is) rows result = item_entry i rows result >>= item_entries is rows

  column_entries : Columns → Rows → Row → Result Row
  unfolding item_entries
  column_entries star rows result = ok result
  column_entries (listed items) rows result = item_entries items rows result

  -- the result row of one group
  unfoldable pub group_result : List String → Columns → Key × Rows → Result Row
  unfolding put_key column_entries
  group_result cols columns (key, rows) = put_key cols key [] >>= column_entries columns rows

  open rt use {Float}

  unfoldable pub apply_group_by :
      Rows
      → GroupBy
      → Columns
      → Option (Having Float)
      → Option OrderBy
      → Option ℕ
      → String
      → Result Rows
  unfolding group_columns
  apply_group_by rows group_by columns having order_by limit table = do
    let cols = group_columns group_by
    check_columns cols table rows
    check_select cols table rows columns
    groups ← group_rows cols rows
    results ← map_m (group_result cols columns) groups
    kept ← apply_having results having
    ordered ← apply_order_by kept order_by table
    ok (apply_limit ordered limit)
