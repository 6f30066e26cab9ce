-- ===== src/Tests/Memory.antt =====
-- Plans on a database with one table.
use sql_parser.Base.{String, ◌≡◌, refl, [], ◌∷◌, some, none, length}
use sql_parser.Base.Int.{pos}
use sql_parser.Base.Dict.{Dict, get}
use sql_parser.Base.Result.{ok}
use sql_parser.Value.{int, py_lt}
use sql_parser.Ast.{condition, gt, no_group}
use sql_parser.Plan.{Plan, CountPlan}
use sql_parser.Table.{Rows, Table}
use sql_parser.Storage.Memory.{storage, load_table}
use sql_parser.Executor.Filter.{filter_rows, evaluate_condition, compare_values}
use sql_parser.Executor.{execute, execute_count, get_filtered_rows}
use sql_parser.Executor.Totals.{count_rows, single}
use sql_parser.Executor.Laws.{count_total}
use sql_parser.Executor.InMemory.{execute_count-total}
use sql_parser.Tests.Sample.{sample, users}

abbrev pub users_table : Table
users_table = record { name = "users"; rows = users }

abbrev pub database : Dict Table
database = ("users", users_table) ∷ []

abbrev count_over_30 : String → CountPlan (sample.Float)
count_over_30 table = record {
  table = table;
  where_clause = some (condition "age" gt (int (pos 30)));
  group_by = no_group;
}

no_cities : get "cities" database ≡ none
unfolding get
no_cities = refl

has_users : get "users" database ≡ some users_table
unfolding get
has_users = refl

abbrev one_row : Rows
one_row = (("count", int (pos 1)) ∷ []) ∷ []

test_count_users :
    execute storage (Plan.count (count_over_30 "users")) database ≡ (ok one_row, database)
unfolding execute execute_count get_filtered_rows storage load_table filter_rows evaluate_condition
    compare_values count_rows single get py_lt
test_count_users = refl

execute_count-total_example :
    (kept : Rows) × (filter_rows users (some (condition "age" gt (int (pos 30)))) "users" ≡ ok kept)
    × (count_total one_row ≡ length kept)
    × (database ≡ database)
execute_count-total_example =
    execute_count-total (count_over_30 "users") users_table database database one_row has_users
      test_count_users
