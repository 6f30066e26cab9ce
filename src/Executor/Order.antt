-- ===== src/Executor/Order.antt =====
-- ORDER BY and LIMIT: _apply_order_by and _apply_limit of sql-engine/executor.py.
pub mod Laws
pub mod Total
pub mod ByColumn
use sql_parser.Base.{
  ℕ, String, Bool, true, false, Option, none, some, List, [], ◌∷◌, map, reverse, take,
  if◌then◌else◌,
}
use sql_parser.Base.Int.{pos}
use sql_parser.Base.Dict.{get_or}
use sql_parser.Base.Result.{Result, ok, raised, ◌>>=◌, ◌>>◌, map_m, unknown_aggregate}
use sql_parser.Value.{Runtime, Val, int, py_lt}
use sql_parser.Ast.{Func, Direction, asc, desc, OrderBy, by_aggregate, by_column, by_name}
use sql_parser.Table.{Row, Rows, item, check_column}

module _ ⦃rt : Runtime⦄ {A : Type 0} where
  -- Python's sort, as an insertion sort that puts an element before those that are not below it. Where
  -- `<` orders the keys up to ties there is one stable outcome, which is this one; with NaN among the
  -- keys Python's may leave them in another order. It raises if two that it compares are not
  -- comparable.
  unfoldable pub insert_keyed : Val → A → List (Val × A) → Result (List (Val × A))
  insert_keyed k x [] = ok ((k, x) ∷ [])
  insert_keyed k x ((j, y) ∷ ys) = do
    b ← py_lt j k
    if b then (insert_keyed k x ys >>= λ zs. ok ((j, y) ∷ zs)) else ok ((k, x) ∷ (j, y) ∷ ys)

  unfoldable pub sort_keyed : List (Val × A) → Result (List (Val × A))
  unfolding insert_keyed
  sort_keyed [] = ok []
  sort_keyed ((k, x) ∷ xs) = sort_keyed xs >>= λ ys. insert_keyed k x ys

  -- reverse=True sorts the reversed list and reverses the outcome, which keeps equals in order
  unfoldable pub sort_directed : Direction → List (Val × A) → Result (List (Val × A))
  unfolding sort_keyed
  sort_directed asc xs = sort_keyed xs
  sort_directed desc xs = sort_keyed (reverse xs) >>= λ ys. ok (reverse ys)

  abbrev pub attach : (A → Result Val) → A → Result (Val × A)
  attach key x = key x >>= λ k. ok (k, x)

  abbrev pub value_of : Val × A → A
  value_of (k, x) = x

  -- sorted(xs, key=key, reverse=(direction == 'desc')): every key is computed first
  unfoldable pub sorted_by : (A → Result Val) → Direction → List A → Result (List A)
  unfolding sort_directed
  sorted_by key direction xs = do
    keyed ← map_m (attach key) xs
    ys ← sort_directed direction keyed
    ok (map value_of ys)

module _ ⦃rt : Runtime⦄ where
  -- the result column of an aggregate
  unfoldable pub label : Func → Result String
  label Func.count = ok "count"
  label Func.sum = ok "sum"
  label Func.avg = ok "avg"
  label Func.min = ok "min"
  label Func.max = ok "max"
  label (Func.other f) = raised (unknown_aggregate f)

  -- row.get('count', 0) and the like
  unfoldable pub aggregate_value : Func → Row → Result Val
  unfolding label
  aggregate_value f row = label f >>= λ c. ok (get_or c (int (pos 0)) row)

  -- the path by column name
  order_by_column : String → Direction → Rows → String → Result Rows
  unfolding sorted_by check_column
  order_by_column c direction rows table =
      check_column c table rows >> sorted_by (item c) direction rows

  unfoldable pub apply_order_by : Rows → Option OrderBy → String → Result Rows
  unfolding order_by_column aggregate_value
  apply_order_by rows none table = ok rows
  apply_order_by rows (some (by_aggregate f c direction)) table =
      sorted_by (aggregate_value f) direction rows
  apply_order_by rows (some (by_column c direction)) table = order_by_column c direction rows table
  apply_order_by rows (some (by_name c)) table = order_by_column c asc rows table

  -- rows[:limit]
  unfoldable pub apply_limit : Rows → Option ℕ → Rows
  apply_limit rows none = rows
  apply_limit rows (some n) = take n rows
