-- ===== src/Executor/Filter/Parsed.antt =====
-- Filter: the conditions that the parser builds name no operator that the executor does not know.
use sql_parser.Base.{String, Bool, ◌≡◌, ◌⊎◌, inl, inr, refl, Option, none, some}
use sql_parser.Base.Dict.{get}
use sql_parser.Base.Result.{Error, Result, ok, raised, ◌>>=◌, column_not_found, type_error}
use sql_parser.Value.{Runtime, Val, View, number, text, view, view_lt, view_le, py_lt, py_le}
use sql_parser.Ast.{Connective, Condition}
use sql_parser.Table.{Row}
use sql_parser.Executor.Filter.{compare_values, combine, evaluate_condition}
use sql_parser.Parser.Grammar.{
  Chain, single, multiple, ComparatorTree, equals, greater, less, at_least, at_most, SimpleTree,
  simple, NotTree, plain, negated, ConditionTree,
}
use sql_parser.Parser.Actions.{
  comparator, value, ref_column, simple_condition, not_condition, logical, condition,
}

-- The exceptions that such a condition can raise.
abbrev IsExpected : String → Error → Type 0
IsExpected table (column_not_found c t) = t ≡ table
IsExpected table type_error = Unit
IsExpected table _ = ⊥

abbrev Expects {ℓ} : {A : Type ℓ} → String → Result A → Type 0
Expects table (ok a) = Unit
Expects table (raised e) = IsExpected table e

>>=-Expects :
    {A B : Type 0} (table : String) (m : Result A) (f : A → Result B)
    → Expects table m
    → ((a : A) → Expects table (f a))
    → Expects table (m >>= f)
>>=-Expects table (ok a) f h k = k a
>>=-Expects table (raised e) f h k = h

expected :
    (table : String) (r : Result Bool)
    → Expects table r
    → ((b : Bool) × (r ≡ ok b))
      ⊎ (((c : String) × (r ≡ raised (column_not_found c table))) ⊎ (r ≡ raised type_error))
expected table (ok b) h = inl (b, refl)
expected table (raised (column_not_found c t)) h = inr (inl (c, rw h))
expected table (raised type_error) h = inr (inr refl)
expected table (raised _) h = absurd h

module _ ⦃rt : Runtime⦄ where
  view_lt-Expects : (table : String) (v w : View rt.Float) → Expects table (view_lt v w)
  view_lt-Expects table (number a) (number b) = tt
  view_lt-Expects table (text s) (text t) = tt
  view_lt-Expects table _ _ = tt

  lt-Expects : (table : String) (a b : Val) → Expects table (py_lt a b)
  unfolding py_lt
  lt-Expects table a b = view_lt-Expects table (view a) (view b)

  view_le-Expects : (table : String) (v w : View rt.Float) → Expects table (view_le v w)
  view_le-Expects table (number a) (number b) = tt
  view_le-Expects table (text s) (text t) = tt
  view_le-Expects table _ _ = tt

  le-Expects : (table : String) (a b : Val) → Expects table (py_le a b)
  unfolding py_le
  le-Expects table a b = view_le-Expects table (view a) (view b)

  or_known : (table : String) (a b : Bool) → Expects table (combine Connective.or a b)
  unfolding combine
  or_known table a b = tt

  and_known : (table : String) (a b : Bool) → Expects table (combine Connective.and a b)
  unfolding combine
  and_known table a b = tt

  compare-Expects :
      (table : String) (op : ComparatorTree) (a b : Val)
      → Expects table (compare_values (comparator op) a b)
  unfolding compare_values comparator
  compare-Expects table equals a b = tt
  compare-Expects table greater a b = lt-Expects table b a
  compare-Expects table less a b = lt-Expects table a b
  compare-Expects table at_least a b = le-Expects table b a
  compare-Expects table at_most a b = le-Expects table a b

  simple-Expects :
      (row : Row) (table : String) (c : SimpleTree)
      → Expects table (evaluate_condition row (simple_condition c) table)
  unfolding evaluate_condition simple_condition
  simple-Expects row table (simple c op v) = found (get (ref_column c) row)
    where
      found :
          (o : Option Val)
          → Expects table (elim o as (λ _. Result Bool) [
            | none ↦ raised (column_not_found (ref_column c) table)
            | some w ↦ compare_values (comparator op) w (value v)
          ])
      found none = refl
      found (some w) = compare-Expects table op w (value v)

  not-Expects :
      (row : Row) (table : String) (c : NotTree)
      → Expects table (evaluate_condition row (not_condition c) table)
  unfolding evaluate_condition not_condition
  not-Expects row table (plain c) = simple-Expects row table c
  not-Expects row table (negated c) = >>=-Expects table _ _ (simple-Expects row table c) (λ b. tt)

module _ ⦃rt : Runtime⦄ {A : Type 0} (f : A → Condition rt.Float) (op : Connective) (row : Row)
    (table : String) (known : (a b : Bool) → Expects table (combine op a b))
    (item : (x : A) → Expects table (evaluate_condition row (f x) table)) where
  logical-Expects : (xs : Chain A) → Expects table (evaluate_condition row (logical op f xs) table)
  unfolding evaluate_condition logical
  logical-Expects (single x) = item x
  logical-Expects (multiple xs x) =
      >>=-Expects table _ _ (logical-Expects xs)
        (λ a. >>=-Expects table _ _ (item x) (λ b. known a b))

module _ ⦃rt : Runtime⦄ where
  -- A WHERE condition that the parser built has a truth value on a row, or its evaluation raises
  -- that a column is not found in the table, or TypeError; the messages on unknown operators are
  -- not raised.
  pub evaluate_condition-parsed :
      (c : ConditionTree) (row : Row) (table : String)
      → ((b : Bool) × (evaluate_condition row (condition c) table ≡ ok b))
        ⊎ (((name : String) × (evaluate_condition row (condition c) table
                ≡ raised (column_not_found name table)))
            ⊎ (evaluate_condition row (condition c) table ≡ raised type_error))
  unfolding condition
  evaluate_condition-parsed c row table = expected table _ (
      logical-Expects (logical Connective.and not_condition) Connective.or row table
        (λ a b. or_known table a b)
        (logical-Expects not_condition Connective.and row table (λ a b. and_known table a b)
          (not-Expects row table))
        c)
