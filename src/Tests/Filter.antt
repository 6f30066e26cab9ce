-- ===== src/Tests/Filter.antt =====
-- WHERE on the sample table.
use sql_parser.Base.{Bool, ◌≡◌, ◌↔◌, refl, [], ◌∷◌, some}
use sql_parser.Base.Dict
use sql_parser.Base.Int.{pos}
use sql_parser.Base.Result.{ok}
use sql_parser.Value.{py_lt, int, py_eq, str}
use sql_parser.Ast.{Condition, condition, gt, eq, and, not_condition, logical_condition}
use sql_parser.Executor.Filter.{compare_values, evaluate_condition, filter_rows}
use sql_parser.Executor.Filter.Laws.{WellTyped, evaluate-iff-WellTyped}
use sql_parser.Tests.Sample.{sample, ana, users, juan, eva}

abbrev over_30 : Condition (sample.Float)
over_30 = condition "age" gt (int (pos 30))

test_over_30 : filter_rows users (some over_30) "users" ≡ ok (ana ∷ [])
unfolding filter_rows evaluate_condition Dict.get compare_values py_lt
test_over_30 = refl

evaluate-iff-WellTyped_example :
    ((t : Bool) × (evaluate_condition ana over_30 "users" ≡ ok t)) ↔ WellTyped ana over_30
evaluate-iff-WellTyped_example = evaluate-iff-WellTyped ana over_30 "users"

abbrev in_madrid : Condition (sample.Float)
in_madrid = condition "city" eq (str "Madrid")

test_both :
    filter_rows users (some (logical_condition in_madrid and over_30)) "users" ≡ ok (ana ∷ [])
unfolding filter_rows evaluate_condition Dict.get compare_values py_lt py_eq
test_both = refl

test_not_over_30 : filter_rows users (some (not_condition over_30)) "users" ≡ ok (juan ∷ eva ∷ [])
unfolding filter_rows evaluate_condition Dict.get compare_values py_lt
test_not_over_30 = refl
