-- ===== src/Tests/Rows.antt =====
-- Grouping, joining and aggregates on the sample table.
use mathlib.Core.List.{Perm, Memᴰ}
use sql_parser.Base.{◌≡◌, ◌↔◌, refl, [], ◌∷◌, All}
use sql_parser.Base.Int.{pos}
use sql_parser.Base.Dict.{get, merge}
use sql_parser.Base.Result.{Result, ok}
use sql_parser.Value.{int, str, py_eq, py_lt, Val}
use sql_parser.Table.{Row, item}
use sql_parser.Executor.Group.{Groups, group_rows, row_key, add_to_group, keys_eq}
use sql_parser.Executor.Group.Laws.{IsGrouping, all_rows, HasColumns, group_rows-IsGrouping}
use sql_parser.Executor.Join.{join_rows}
use sql_parser.Executor.Join.Laws.{Joins, join_rows_iff}
use sql_parser.Executor.Aggregate.{min_of, max_of}
use sql_parser.Executor.Aggregate.Laws.{Reads}
use sql_parser.Tests.Sample.{sample, ana, juan, eva, users}

abbrev by_city : Groups
by_city = ((str "Madrid" ∷ []), ana ∷ eva ∷ []) ∷ ((str "Sevilla" ∷ []), juan ∷ []) ∷ []

test_by_city : group_rows ("city" ∷ []) users ≡ ok by_city
unfolding group_rows row_key item get add_to_group keys_eq py_eq
test_by_city = refl

group_rows-IsGrouping_example : IsGrouping ("city" ∷ []) by_city × Perm (all_rows by_city) users
group_rows-IsGrouping_example = group_rows-IsGrouping ("city" ∷ []) users by_city test_by_city

users_have_city : All (HasColumns ("city" ∷ [])) users
unfolding get
users_have_city = ((refl, tt), ((refl, tt), ((refl, tt), tt)))

abbrev pub madrid : Row
madrid = ("place", str "Madrid") ∷ ("people", int (pos 3200000)) ∷ []

test_join : join_rows "city" "place" users (madrid ∷ []) ≡ merge ana madrid ∷ merge eva madrid ∷ []
unfolding join_rows get py_eq
test_join = refl

join_rows_iff_example : Memᴰ (merge ana madrid) (join_rows "city" "place" users (madrid ∷ [])) ↔ (
    (row1 row2 : Row) × Memᴰ row1 users
    × Memᴰ row2 (madrid ∷ [])
    × Joins "city" "place" row1 row2
    × (merge ana madrid ≡ merge row1 row2))
join_rows_iff_example = join_rows_iff "city" "place" users (madrid ∷ []) (merge ana madrid)

abbrev age : Row → Result Val
age = item "age"

ages : Reads age users (pos 31 ∷ pos 25 ∷ pos 25 ∷ [])
unfolding item get
ages = (refl, (refl, (refl, tt)))

test_min : min_of age users ≡ ok (int (pos 25))
unfolding min_of item get py_lt
test_min = refl

test_max : max_of age users ≡ ok (int (pos 31))
unfolding max_of item get py_lt
test_max = refl
