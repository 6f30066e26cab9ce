-- ===== src/Tests/Order.antt =====
-- ORDER BY and DISTINCT on the sample table.
use mathlib.Core.List.{Perm}
use sql_parser.Base.{String, true, ◌≡◌, refl, List, [], ◌∷◌, some, All}
use sql_parser.Base.Int.{pos}
use sql_parser.Base.Dict.{get}
use sql_parser.Base.Result.{ok}
use sql_parser.Value.{int, str, py_lt, py_str, Val}
use sql_parser.Value.Kind.{numbers, HasKind}
use sql_parser.Ast.{asc, desc, by_column, column, Columns, listed}
use sql_parser.Table.{Row, item, check_column}
use sql_parser.Executor.Order.{sort_directed, apply_order_by, apply_limit}
use sql_parser.Executor.Order.Laws.{Ordered}
use sql_parser.Executor.Order.ByColumn.{ColumnOrder, apply_order_by-Ordered}
use sql_parser.Executor.Distinct.{apply_distinct, column_key, unique_by, strings_eq}
use sql_parser.Ast.{ColumnItem}
use sql_parser.Table.{Rows}
use sql_parser.Tests.Sample.{sample, ana, juan, eva, users}

test_order : apply_order_by users (some (by_column "age" asc)) "users" ≡ ok (juan ∷ eva ∷ ana ∷ [])
unfolding apply_order_by check_column item get py_lt
test_order = refl

test_order_desc :
    apply_order_by users (some (by_column "age" desc)) "users" ≡ ok (ana ∷ juan ∷ eva ∷ [])
unfolding apply_order_by check_column item get py_lt
test_order_desc = refl

apply_order_by-Ordered_example :
    Ordered (ColumnOrder "age" asc) (juan ∷ eva ∷ ana ∷ []) × Perm (juan ∷ eva ∷ ana ∷ []) users
apply_order_by-Ordered_example =
    apply_order_by-Ordered users (juan ∷ eva ∷ ana ∷ []) "age" asc "users" test_order

ages_are_numbers :
    All (λ (row : Row). (v : Val) × (get "age" row ≡ some v) × HasKind numbers v) users
unfolding get
ages_are_numbers =
    ((int (pos 31), refl, tt), ((int (pos 25), refl, tt), ((int (pos 25), refl, tt), tt)))

abbrev pairs : List (Val × String)
pairs = (int (pos 31), "a") ∷ (int (pos 25), "j") ∷ (int (pos 25), "e") ∷ []

abbrev sorted_pairs : List (Val × String)
sorted_pairs = (int (pos 25), "j") ∷ (int (pos 25), "e") ∷ (int (pos 31), "a") ∷ []

test_sort : sort_directed asc pairs ≡ ok sorted_pairs
unfolding sort_directed py_lt
test_sort = refl

abbrev city : Columns
city = listed (column "city" ∷ [])

test_distinct : apply_distinct users true city ≡ ana ∷ juan ∷ []
unfolding apply_distinct column_key get py_str unique_by strings_eq
test_distinct = refl

test_limit : apply_limit users (some 2) ≡ ana ∷ juan ∷ []
unfolding apply_limit
test_limit = refl

abbrev city_items : List ColumnItem
city_items = column "city" ∷ []

abbrev in_city : String → Row
in_city name = ("city", str name) ∷ []

abbrev two_cities : Rows
two_cities = in_city "Madrid" ∷ in_city "Sevilla" ∷ []

abbrev three_cities : Rows
three_cities = in_city "Madrid" ∷ in_city "Sevilla" ∷ in_city "Madrid" ∷ []
