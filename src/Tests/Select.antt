-- ===== src/Tests/Select.antt =====
-- COUNT, LIMIT, HAVING, projections and plans on the sample table.
use sql_parser.Base.{ℕ, String, true, false, ◌≡◌, refl, List, [], ◌∷◌, some, none, All, str_eq}
use sql_parser.Base.Int.{pos}
use sql_parser.Base.Dict.{get, put, merge, HasUniqueKeys}
use sql_parser.Base.Result.{ok}
use sql_parser.Value.{int, str, py_eq, py_lt}
use sql_parser.Ast.{
  SelectQuery, Func, aggregate, column, qualified, listed, star, many, no_group, GroupBy, Having,
  gt, ColumnItem, by_column, asc,
}
use sql_parser.Plan.{SelectPlan}
use sql_parser.Table.{Row, Rows, check_columns, check_column, item}
use sql_parser.Executor.Group.{group_rows, row_key, add_to_group, keys_eq, put_key}
use sql_parser.Executor.Order.{apply_order_by, apply_limit, label}
use sql_parser.Executor.Grouping.{group_columns}
use sql_parser.Executor.Distinct.{apply_distinct}
use sql_parser.Executor.Filter.{compare_values}
use sql_parser.Executor.Having.{apply_having}
use sql_parser.Executor.Having.Laws.{apply_having-missing}
use sql_parser.Executor.Projection.{
  project_row, source_name, output_name, project_column, apply_projection,
}
use sql_parser.Executor.Projection.Laws.{UniqueOutputs, project_join-right}
use sql_parser.Executor.{finish_select, group_or_order}
use sql_parser.Executor.Totals.{count_rows, count_by_group, by_group, group_entry, row_count}
use sql_parser.Tests.Sample.{sample, ana, juan, eva, users}

abbrev city_count : String → ℕ → Row
city_count c n = ("city", str c) ∷ ("count", int (pos n)) ∷ []

abbrev city_counts : Rows
city_counts = city_count "Madrid" 2 ∷ city_count "Sevilla" 1 ∷ []

test_count : count_rows (many ("city" ∷ [])) "users" users ≡ ok city_counts
unfolding count_rows count_by_group by_group group_entry row_count group_rows row_key add_to_group
    keys_eq py_eq put_key put get item check_columns check_column group_columns
test_count = refl

abbrev first_two : SelectPlan (sample.Float)
first_two = record {
  columns = star;
  table = "users";
  where_clause = none;
  order_by = some (by_column "age" asc);
  limit = some 2;
  distinct = false;
  group_by = no_group;
  having = none;
  join_table = none;
  join_condition = none;
  sum_column = none;
  avg_column = none;
  min_column = none;
  max_column = none;
}

test_first_two : finish_select first_two users ≡ ok (juan ∷ eva ∷ [])
unfolding finish_select group_or_order apply_distinct apply_order_by apply_limit apply_projection
    check_column item get py_lt
test_first_two = refl

abbrev items : List ColumnItem
items = column "city" ∷ column "age" ∷ []

abbrev projected : Row
projected = ("city", str "Madrid") ∷ ("age", int (pos 31)) ∷ []

test_project : project_row "users" items ana [] ≡ ok projected
unfolding project_row project_column source_name output_name put get
test_project = refl

second_name : (n m : String) → some "city" ≡ some n → some "age" ≡ some m → str_eq m n ≡ false
second_name n m e d =
    let is_city : "city" ≡ n = cc in let is_age : "age" ≡ m = cc in rw (← is_city, ← is_age) refl

unique_items : UniqueOutputs items
unfolding output_name
unique_items = (λ n e. ((λ m d. second_name n m e d), tt), ((λ n e. tt), tt))

abbrev badge : Row
badge = ("name", str "A-7") ∷ ("level", int (pos 3)) ∷ []

badge_unique : HasUniqueKeys badge
unfolding get
badge_unique = ((refl, tt), (tt, tt))

badge_name : get "name" badge ≡ some (str "A-7")
unfolding get
badge_name = refl

project_join-right_example :
    project_row "users" (qualified "users.name" "users" "name" ∷ []) (merge ana badge) []
    ≡ ok (("users.name", str "A-7") ∷ [])
project_join-right_example =
    project_join-right "users" "users.name" "users" "name" ana badge (str "A-7") refl badge_unique
      badge_name

abbrev over_5 : Having (sample.Float)
over_5 = record { func = Func.sum; col = some "age"; operator = gt; threshold = int (pos 5) }

sum_label : label Func.sum ≡ ok "sum"
unfolding label
sum_label = refl

no_sums : All (λ (row : Row). get "sum" row ≡ none) city_counts
unfolding get
no_sums = (refl, (refl, tt))

zero_over_5 : compare_values gt (int (pos 0)) (int (pos 5)) ≡ ok false
unfolding compare_values py_lt
zero_over_5 = refl

apply_having-missing_example : apply_having city_counts (some over_5) ≡ ok []
apply_having-missing_example =
    apply_having-missing city_counts over_5 "sum" false sum_label no_sums zero_over_5

abbrev count_query : GroupBy → SelectQuery (sample.Float)
count_query g = record {
  columns = listed (aggregate Func.count none ∷ []);
  table = "users";
  where_clause = none;
  order_by = none;
  limit = some 1;
  distinct = true;
  group_by = g;
  having = none;
  join_table = some "cities";
  join_condition = none;
}
