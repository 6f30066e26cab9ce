-- ===== src/Executor/Laws.antt =====
-- Whole plans: LIMIT, and what COUNT counts.
use sql_parser.Base.{
  ℕ, ◌+◌, ◌≤◌, String, Bool, true, false, ◌≡◌, sym, ap, ◌∙◌, Option, none, some, List, [], ◌∷◌,
  arith, length, length-take, min, suc, ◌++◌, drop, take-append-drop,
}
use sql_parser.Base.Int.{pos}
use sql_parser.Base.Dict.{get, put, get-put}
use sql_parser.Base.Result.{Result, ok, ◌>>=◌, >>=-eq-ok, ok-injective, map_m}
use sql_parser.Value.{Runtime, int, Val}
use sql_parser.Ast.{Columns, star, listed, GroupBy, is_grouped}
use sql_parser.Plan.{SelectPlan}
use sql_parser.Table.{Row, Rows, check_columns}
use sql_parser.Executor.Group.{Key, Groups, group_rows, put_key}
use sql_parser.Executor.Group.Laws.{row_total, row_total-group_rows}
use sql_parser.Executor.Order.{apply_order_by, apply_limit}
use sql_parser.Executor.Distinct.{apply_distinct}
use sql_parser.Executor.Projection.{apply_projection}
use sql_parser.Executor.Grouping.{group_columns, apply_group_by, check_select, group_result}
use sql_parser.Executor.Having.{apply_having}
use sql_parser.Executor.{group_or_order, finish_select}
use sql_parser.Executor.Totals.{group_entry, by_group, count_rows, row_count, count_by_group}

module _ {A B : Type 0} where
  length-map_m :
      (f : A → Result B) (xs : List A) {ys : List B} → map_m f xs ≡ ok ys → length ys ≡ length xs
  length-map_m f [] h = ap length (sym (ok-injective h))
  length-map_m f (x ∷ xs) h =
      let (y, ey, h') = >>=-eq-ok (f x) _ h in
      let (zs, ez, e) = >>=-eq-ok (map_m f xs) _ h' in
      sym (ap length (ok-injective e)) ∙ ap suc (length-map_m f xs ez)

module _ ⦃rt : Runtime⦄ where
  open rt use {Float}

  length-apply_projection :
      (rows : Rows) (grouped : Bool) (columns : Columns) (table : String) {out : Rows}
      → apply_projection rows grouped columns table ≡ ok out
      → length out ≡ length rows
  unfolding apply_projection
  length-apply_projection rows true columns table h = ap length (sym (ok-injective h))
  length-apply_projection rows false star table h = ap length (sym (ok-injective h))
  length-apply_projection rows false (listed items) table h = length-map_m _ rows h

  length-apply_limit : (rows : Rows) (n : ℕ) → length (apply_limit rows (some n)) ≤ n
  unfolding apply_limit
  length-apply_limit rows n = omega (arith, length-take n rows)

  -- LIMIT n cuts the rows to the first n, or leaves them if there are fewer.
  pub apply_limit-prefix :
      (rows : Rows) (n : ℕ)
      → (rest : Rows) × (apply_limit rows (some n) ++ rest ≡ rows)
        × (length (apply_limit rows (some n)) ≡ min n (length rows))
  unfolding apply_limit
  apply_limit-prefix rows n = (drop n rows, take-append-drop n rows, length-take n rows)

  cut :
      (limit : Option ℕ) (n : ℕ) (ordered : Rows) {out : Rows}
      → limit ≡ some n
      → ok (apply_limit ordered limit) ≡ ok out
      → length out ≤ n
  cut limit n ordered e h = rw (← ok-injective h, e) (length-apply_limit ordered n)

  limited :
      (plan : SelectPlan Float) (grouped : Bool) (rows : Rows) {out : Rows} (n : ℕ)
      → plan.limit ≡ some n
      → group_or_order plan grouped rows ≡ ok out
      → length out ≤ n
  unfolding group_or_order apply_group_by
  limited plan true rows n e h =
      let cols = group_columns plan.group_by in
      let (u, eu, h₁) = >>=-eq-ok (check_columns cols plan.table rows) _ h in
      let (w, ew, h₂) = >>=-eq-ok (check_select cols plan.table rows plan.columns) _ h₁ in
      let (groups, eg, h₃) = >>=-eq-ok (group_rows cols rows) _ h₂ in
      let (results, er, h₄) = >>=-eq-ok (map_m (group_result cols plan.columns) groups) _ h₃ in
      let (kept, ek, h₅) = >>=-eq-ok (apply_having results plan.having) _ h₄ in
      let (ordered, eo, h₆) = >>=-eq-ok (apply_order_by kept plan.order_by plan.table) _ h₅ in
      cut plan.limit n ordered e h₆
  limited plan false rows n e h =
      let unique = apply_distinct rows plan.distinct plan.columns in
      let (ordered, eo, h₁) = >>=-eq-ok (apply_order_by unique plan.order_by plan.table) _ h in
      cut plan.limit n ordered e h₁

  -- Where a SELECT with LIMIT n succeeds, with GROUP BY or without, it gives at most n rows.
  pub finish_select-le-limit :
      (plan : SelectPlan Float) (rows out : Rows) (n : ℕ)
      → plan.limit ≡ some n
      → finish_select plan rows ≡ ok out
      → length out ≤ n
  unfolding finish_select
  finish_select-le-limit plan rows out n e h =
      let (mid, em, h') = >>=-eq-ok (group_or_order plan (is_grouped plan.group_by) rows) _ h in
      omega (
        arith,
        limited plan (is_grouped plan.group_by) rows n e em,
        length-apply_projection mid (is_grouped plan.group_by) plan.columns plan.table h',
      )

  -- The number under "count" in a result row.
  abbrev count_value : Val → ℕ
  count_value (int (pos n)) = n
  count_value _ = 0

  abbrev pub counted : Row → ℕ
  counted row = elim (get "count" row) [ none ↦ 0 | some v ↦ count_value v ]

  abbrev pub count_total : Rows → ℕ
  count_total [] = 0
  count_total (row ∷ rows) = counted row + count_total rows

  counted-put : (n : ℕ) (row : Row) → counted (put "count" (int (pos n)) row) ≡ n
  counted-put n row =
      ap (λ (o : Option Val). elim o as (λ _. ℕ) [ none ↦ 0 | some v ↦ count_value v ])
        (get-put "count" "count" (int (pos n)) row)

  counted-group_entry :
      (cols : List String) (key : Key) (rows : Rows) {row : Row}
      → group_entry "count" row_count cols (key, rows) ≡ ok row
      → counted row ≡ length rows
  unfolding group_entry row_count
  counted-group_entry cols key rows h =
      let (r, er, h') = >>=-eq-ok (put_key cols key []) _ h in
      rw (← ok-injective h') (counted-put (length rows) r)

  count_total-groups :
      (cols : List String) (groups : Groups) {out : Rows}
      → map_m (group_entry "count" row_count cols) groups ≡ ok out
      → count_total out ≡ row_total groups
  count_total-groups cols [] h = ap count_total (sym (ok-injective h))
  count_total-groups cols ((key, rows) ∷ groups) h =
      let (row, er, h') = >>=-eq-ok (group_entry "count" row_count cols (key, rows)) _ h in
      let (rest, es, e) = >>=-eq-ok (map_m (group_entry "count" row_count cols) groups) _ h' in
      rw (← ok-injective e)
        (omega (arith, counted-group_entry cols key rows er, count_total-groups cols groups es))

  grouped_counts :
      (cols : List String) (table : String) (rows : Rows) {out : Rows}
      → (check_columns cols table rows >>= λ _. by_group "count" row_count cols rows) ≡ ok out
      → count_total out ≡ length rows
  unfolding by_group
  grouped_counts cols table rows h =
      let (u, eu, h₁) = >>=-eq-ok (check_columns cols table rows) _ h in
      let (groups, eg, h₂) = >>=-eq-ok (group_rows cols rows) _ h₁ in
      count_total-groups cols groups h₂ ∙ row_total-group_rows cols rows groups eg

  -- Where SELECT COUNT(*) succeeds, its counts add up to the number of rows that WHERE left: one
  -- count without GROUP BY, and one for each group with it.
  pub count_rows-total :
      (group_by : GroupBy) (table : String) (rows out : Rows)
      → count_rows group_by table rows ≡ ok out
      → count_total out ≡ length rows
  unfolding count_rows get
  count_rows-total group_by table rows out h = by_test (is_grouped group_by) h
    where
      by_test :
          (b : Bool)
          → (elim b as (λ _. Result Rows) [
            | true ↦ count_by_group group_by table rows
            | false ↦ ok ((("count", int (pos (length rows))) ∷ []) ∷ [])
          ])
            ≡ ok out
          → count_total out ≡ length rows
      by_test true k = grouped_counts (group_columns group_by) table rows k
      by_test false k = rw (← ok-injective k) (omega arith)
