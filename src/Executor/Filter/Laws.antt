-- ===== src/Executor/Filter/Laws.antt =====
-- WHERE: when a condition has a value.
use sql_parser.Base.{
  String, Bool, true, false, not, ◌&&◌, ◌||◌, ◌≡◌, refl, ◌↔◌, inl, inr, some, Option-cases,
}
use sql_parser.Base.Dict.{get}
use sql_parser.Base.Result.{Result, ok, raised, ◌>>=◌, >>=-eq-ok}
use sql_parser.Value.{Runtime, Val, View, number, text, view, view_lt, view_le, py_eq, py_lt, py_le}
use sql_parser.Ast.{
  Comparator, eq, gt, lt, ge, le, Connective, and, or, Condition, condition, logical_condition,
  not_condition,
}
use sql_parser.Table.{Row}
use sql_parser.Executor.Filter.{compare_values, combine, evaluate_condition}

module _ ⦃rt : Runtime⦄ where
  open rt use {Float}

  -- Two values that `<` orders: both numbers, or both texts.
  abbrev pub SameKind : View Float → View Float → Type 0
  SameKind (number a) (number b) = Unit
  SameKind (text s) (text t) = Unit
  SameKind _ _ = ⊥

  abbrev pub Comparable : Comparator → Val → Val → Type 0
  Comparable eq a b = Unit
  Comparable (Comparator.other op) a b = ⊥
  Comparable _ a b = SameKind (view a) (view b)

  abbrev pub Known : Connective → Type 0
  Known (Connective.other op) = ⊥
  Known _ = Unit

  -- Every column is in the row, its value can be compared as the condition asks, and every operator
  -- is known.
  abbrev pub WellTyped : Row → Condition Float → Type 0
  WellTyped row (condition c op v) = (w : Val) × (get c row ≡ some w) × Comparable op w v
  WellTyped row (logical_condition l op r) = WellTyped row l × Known op × WellTyped row r
  WellTyped row (not_condition c) = WellTyped row c

  SameKind-symm : (a b : View Float) → SameKind a b → SameKind b a
  SameKind-symm (number a) (number b) h = h
  SameKind-symm (text a) (text b) h = h
  SameKind-symm _ _ h = absurd h

  view_lt-total : (a b : View Float) → SameKind a b → (t : Bool) × (view_lt a b ≡ ok t)
  view_lt-total (number a) (number b) h = (_, refl)
  view_lt-total (text a) (text b) h = (_, refl)
  view_lt-total _ _ h = absurd h

  view_le-total : (a b : View Float) → SameKind a b → (t : Bool) × (view_le a b ≡ ok t)
  view_le-total (number a) (number b) h = (_, refl)
  view_le-total (text a) (text b) h = (_, refl)
  view_le-total _ _ h = absurd h

  view_lt-SameKind : (a b : View Float) (t : Bool) → view_lt a b ≡ ok t → SameKind a b
  view_lt-SameKind (number a) (number b) t h = tt
  view_lt-SameKind (text a) (text b) t h = tt
  view_lt-SameKind _ _ t h = cc

  view_le-SameKind : (a b : View Float) (t : Bool) → view_le a b ≡ ok t → SameKind a b
  view_le-SameKind (number a) (number b) t h = tt
  view_le-SameKind (text a) (text b) t h = tt
  view_le-SameKind _ _ t h = cc

  compare_values-total :
      (op : Comparator) (a b : Val)
      → Comparable op a b
      → (t : Bool) × (compare_values op a b ≡ ok t)
  unfolding compare_values py_lt py_le
  compare_values-total eq a b h = (py_eq a b, refl)
  compare_values-total gt a b h =
      view_lt-total (view b) (view a) (SameKind-symm (view a) (view b) h)
  compare_values-total lt a b h = view_lt-total (view a) (view b) h
  compare_values-total ge a b h =
      view_le-total (view b) (view a) (SameKind-symm (view a) (view b) h)
  compare_values-total le a b h = view_le-total (view a) (view b) h
  compare_values-total (Comparator.other op) a b h = absurd h

  compare_values-Comparable :
      (op : Comparator) (a b : Val) (t : Bool) → compare_values op a b ≡ ok t → Comparable op a b
  unfolding compare_values py_lt py_le
  compare_values-Comparable eq a b t h = tt
  compare_values-Comparable gt a b t h =
      SameKind-symm (view b) (view a) (view_lt-SameKind (view b) (view a) t h)
  compare_values-Comparable lt a b t h = view_lt-SameKind (view a) (view b) t h
  compare_values-Comparable ge a b t h =
      SameKind-symm (view b) (view a) (view_le-SameKind (view b) (view a) t h)
  compare_values-Comparable le a b t h = view_le-SameKind (view a) (view b) t h
  compare_values-Comparable (Comparator.other op) a b t h = cc

  combine-total : (op : Connective) (a b : Bool) → Known op → (t : Bool) × (combine op a b ≡ ok t)
  unfolding combine
  combine-total and a b h = (a && b, refl)
  combine-total or a b h = (a || b, refl)
  combine-total (Connective.other op) a b h = absurd h

  combine-Known : (op : Connective) (a b t : Bool) → combine op a b ≡ ok t → Known op
  unfolding combine
  combine-Known and a b t h = tt
  combine-Known or a b t h = tt
  combine-Known (Connective.other op) a b t h = cc

  evaluate-total :
      (row : Row) (c : Condition Float) (table : String)
      → WellTyped row c
      → (t : Bool) × (evaluate_condition row c table ≡ ok t)
  unfolding evaluate_condition
  evaluate-total row (condition c op v) table (w, found, h) =
      rw (found, evaluate_condition) (compare_values-total op w v h)
  evaluate-total row (logical_condition l op r) table (hl, known, hr) =
      let (a, ea) = evaluate-total row l table hl in
      let (b, eb) = evaluate-total row r table hr in rw (ea, eb) (combine-total op a b known)
  evaluate-total row (not_condition c) table h =
      let (a, ea) = evaluate-total row c table h in rw ea (not a, refl)

  evaluate-WellTyped :
      (row : Row) (c : Condition Float) (table : String) (t : Bool)
      → evaluate_condition row c table ≡ ok t
      → WellTyped row c
  unfolding evaluate_condition
  evaluate-WellTyped row (condition c op v) table t h = elim (Option-cases (get c row)) [
    | inl missing ↦ cc (rw (missing, evaluate_condition) at h)
    | inr (w, found) ↦
        (w, found, compare_values-Comparable op w v t (rw (found, evaluate_condition) at h))
  ]
  evaluate-WellTyped row (logical_condition l op r) table t h =
      let (a, ea, ha) = >>=-eq-ok (evaluate_condition row l table) _ h in
      let (b, eb, hb) = >>=-eq-ok (evaluate_condition row r table) _ ha in
      (
        evaluate-WellTyped row l table a ea,
        combine-Known op a b t hb,
        evaluate-WellTyped row r table b eb,
      )
  evaluate-WellTyped row (not_condition c) table t h =
      let (a, ea, ha) = >>=-eq-ok (evaluate_condition row c table) _ h in
      evaluate-WellTyped row c table a ea

  -- A WHERE condition has a value on a row exactly when it is well typed there: every column that it
  -- names is in the row, every operator is known, and `<`, `>`, `<=`, `>=` meet two numbers or two
  -- texts. In every other case an exception is raised.
  pub evaluate-iff-WellTyped :
      (row : Row) (c : Condition Float) (table : String)
      → ((t : Bool) × (evaluate_condition row c table ≡ ok t)) ↔ WellTyped row c
  evaluate-iff-WellTyped row c table =
      (λ p. evaluate-WellTyped row c table p.0 p.1, evaluate-total row c table)

  -- NOT (a AND b) has the same outcome as (NOT a) OR (NOT b), exceptions included; so has NOT (a OR b)
  -- and (NOT a) AND (NOT b).
  pub evaluate_de_morgan :
      (row : Row) (a b : Condition Float) (table : String)
      → (evaluate_condition row (not_condition (logical_condition a and b)) table
          ≡ evaluate_condition row (logical_condition (not_condition a) or (not_condition b)) table)
        × (evaluate_condition row (not_condition (logical_condition a or b)) table
            ≡ evaluate_condition row
                (logical_condition (not_condition a) and (not_condition b))
                table)
  unfolding evaluate_condition
  evaluate_de_morgan row a b table =
      cases (evaluate_condition row a table) (evaluate_condition row b table)
    where
      cases :
          (x y : Result Bool)
          → (((x >>= λ p. y >>= λ q. combine and p q) >>= λ t. ok (not t))
              ≡ ((x >>= λ p. ok (not p)) >>= λ p. (y >>= λ q. ok (not q)) >>= λ q. combine or p q))
            × (((x >>= λ p. y >>= λ q. combine or p q) >>= λ t. ok (not t)) ≡ (
                (x >>= λ p. ok (not p)) >>= λ p. (y >>= λ q. ok (not q)) >>= λ q. combine and p q))
      cases (raised e) y = (refl, refl)
      cases (ok p) (raised e) = (refl, refl)
      cases (ok true) (ok q) = (refl, refl)
      cases (ok false) (ok q) = (refl, refl)
