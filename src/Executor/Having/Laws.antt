-- ===== src/Executor/Having/Laws.antt =====
-- HAVING on an aggregate that SELECT does not compute.
use sql_parser.Base.{
  String, Bool, true, false, ◌≡◌, refl, some, none, [], ◌∷◌, All, ap, if◌then◌else◌,
}
use sql_parser.Base.Int.{pos}
use sql_parser.Base.Dict.{get, get_or-missing}
use sql_parser.Base.Result.{ok}
use sql_parser.Value.{Runtime, int}
use sql_parser.Ast.{Having}
use sql_parser.Table.{Row, Rows}
use sql_parser.Executor.Filter.{compare_values}
use sql_parser.Executor.Order.{label, aggregate_value}
use sql_parser.Executor.Having.{having_test, apply_having}

module _ ⦃rt : Runtime⦄ where
  open rt use {Float}

  -- The test reads 0 where the aggregate's column is missing.
  having_test-missing :
      (h : Having Float) (c : String) (row : Row)
      → label h.func ≡ ok c
      → get c row ≡ none
      → having_test h row ≡ compare_values h.operator (int (pos 0)) h.threshold
  unfolding having_test aggregate_value
  having_test-missing h c row e m =
      rw e
        (ap (λ v. compare_values h.operator v h.threshold) (get_or-missing c (int (pos 0)) row m))

  -- If HAVING's aggregate is a known one, no result row has its column, and 0 can be compared with
  -- the threshold, then all rows stay or all go, by whether 0 passes the test.
  pub apply_having-missing :
      (rows : Rows) (h : Having Float) (c : String) (passes : Bool)
      → label h.func ≡ ok c
      → All (λ row. get c row ≡ none) rows
      → compare_values h.operator (int (pos 0)) h.threshold ≡ ok passes
      → apply_having rows (some h) ≡ ok (if passes then rows else [])
  unfolding apply_having
  apply_having-missing [] h c true e m p = refl
  apply_having-missing [] h c false e m p = refl
  apply_having-missing (row ∷ rows) h c true e m p =
      rw (having_test-missing h c row e m.0, p, apply_having-missing rows h c true e m.1 p)
  apply_having-missing (row ∷ rows) h c false e m p =
      rw (having_test-missing h c row e m.0, p, apply_having-missing rows h c false e m.1 p)
