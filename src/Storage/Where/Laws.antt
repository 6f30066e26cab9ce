-- ===== src/Storage/Where/Laws.antt =====
-- The two evaluators of WHERE, the executor's and the storage client's.
use sql_parser.Base.{String, Bool, true, false, ◌≡◌, refl, ap, Option, none, some}
use sql_parser.Base.Dict.{get}
use sql_parser.Base.Result.{Result, ok, raised, >>=-eq-ok, ok-injective, column_not_found}
use sql_parser.Value.{Runtime, Val, null, bool, int, float, str, py_lt, py_le}
use sql_parser.Ast.{
  Comparator, eq, gt, lt, ge, le, Connective, and, or, Condition, condition, logical_condition,
  not_condition,
}
use sql_parser.Table.{Row}
use sql_parser.Executor.Filter.{evaluate_condition, compare_values, combine}
use sql_parser.Storage.Where.{row_matches, test_value, join_tests, unless_none}
use mathlib.Core.Path.{subst}

module _ ⦃rt : Runtime⦄ where
  open rt use {Float}

  lt_null : (v : Val) {t : Bool} → py_lt v null ≡ ok t → ⊥
  unfolding py_lt
  lt_null null h = cc
  lt_null (bool true) h = cc
  lt_null (bool false) h = cc
  lt_null (int n) h = cc
  lt_null (float x) h = cc
  lt_null (str s) h = cc

  le_null : (v : Val) {t : Bool} → py_le v null ≡ ok t → ⊥
  unfolding py_le
  le_null null h = cc
  le_null (bool true) h = cc
  le_null (bool false) h = cc
  le_null (int n) h = cc
  le_null (float x) h = cc
  le_null (str s) h = cc

  -- The test for None changes nothing where NULL does not give a value.
  unless_none-eq-ok :
      (v : Val) (r : Result Bool) {t : Bool} → r ≡ ok t → (v ≡ null → ⊥) → unless_none v r ≡ ok t
  unless_none-eq-ok null r h k = absurd (k refl)
  unless_none-eq-ok (bool b) r h k = h
  unless_none-eq-ok (int n) r h k = h
  unless_none-eq-ok (float x) r h k = h
  unless_none-eq-ok (str s) r h k = h

  null_lt : (v : Val) {t : Bool} → py_lt null v ≡ ok t → ⊥
  unfolding py_lt
  null_lt v h = cc

  null_le : (v : Val) {t : Bool} → py_le null v ≡ ok t → ⊥
  unfolding py_le
  null_le v h = cc

  test_value-eq-ok :
      (op : Comparator) (v w : Val) {t : Bool}
      → compare_values op v w ≡ ok t
      → test_value op v w ≡ ok t
  unfolding compare_values test_value
  test_value-eq-ok eq v w h = h
  test_value-eq-ok gt v w {t} h =
      unless_none-eq-ok v (py_lt w v) h (λ e. lt_null w (subst (λ x. py_lt w x ≡ ok t) e h))
  test_value-eq-ok lt v w {t} h =
      unless_none-eq-ok v (py_lt v w) h (λ e. null_lt w (subst (λ x. py_lt x w ≡ ok t) e h))
  test_value-eq-ok ge v w {t} h =
      unless_none-eq-ok v (py_le w v) h (λ e. le_null w (subst (λ x. py_le w x ≡ ok t) e h))
  test_value-eq-ok le v w {t} h =
      unless_none-eq-ok v (py_le v w) h (λ e. null_le w (subst (λ x. py_le x w ≡ ok t) e h))
  test_value-eq-ok (Comparator.other op) v w h = cc

  combine-join_tests :
      (op : Connective) (a b : Bool) {t : Bool} → combine op a b ≡ ok t → join_tests op a b ≡ t
  unfolding combine join_tests
  combine-join_tests and a b h = ok-injective h
  combine-join_tests or a b h = ok-injective h
  combine-join_tests (Connective.other op) a b h = cc

  -- Wherever SELECT's evaluation of a condition gives a value, UPDATE's evaluation gives the same one:
  -- they differ only where SELECT raises an exception.
  pub row_matches-agrees :
      (row : Row) (c : Condition Float) (table : String) (t : Bool)
      → evaluate_condition row c table ≡ ok t
      → row_matches row c ≡ ok t
  unfolding evaluate_condition row_matches
  row_matches-agrees row (condition c op v) table t h = by_column (get c row) h
    where
      by_column :
          (o : Option Val)
          → (elim o as (λ _. Result Bool) [
            | none ↦ raised (column_not_found c table)
            | some w ↦ compare_values op w v
          ])
            ≡ ok t
          → test_value op (elim o as (λ _. Val) [ none ↦ null | some w ↦ w ]) v ≡ ok t
      by_column none k = cc
      by_column (some w) k = test_value-eq-ok op w v k
  row_matches-agrees row (logical_condition l op r) table t h =
      let (a, ea, h') = >>=-eq-ok (evaluate_condition row l table) _ h in
      let (b, eb, h'') = >>=-eq-ok (evaluate_condition row r table) _ h' in
      rw (row_matches-agrees row l table a ea, row_matches-agrees row r table b eb)
        (ap ok (combine-join_tests op a b h''))
  row_matches-agrees row (not_condition c) table t h =
      let (b, eb, h') = >>=-eq-ok (evaluate_condition row c table) _ h in
      rw (row_matches-agrees row c table b eb) h'
