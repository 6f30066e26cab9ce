-- ===== src/Executor/Filter/Where.antt =====
-- Filter: the rows of a WHERE clause over columns of whole numbers and texts, from the clause's text.
use sql_parser.Base.{
  ℕ, zero, suc, String, Bool, true, false, not, ◌≡◌, refl, none, some, List, [], ◌∷◌, All, str_eq,
  if◌then◌else◌, arith,
}
use sql_parser.Base.Dict.{get}
use sql_parser.Base.Int.{ℤ, pos, negsuc, eqb_ℤ, ltb_ℤ, leb_ℤ, sub_ℕ}
use sql_parser.Base.Result.{Result, ok, filter_m, keep}
use sql_parser.Value.{Runtime, Val, int, str, str_ltb, py_eq, py_lt, py_le}
use sql_parser.Table.{Row, Rows}
use sql_parser.Executor.Filter.{compare_values, evaluate_condition, filter_rows}
use sql_parser.Executor.Filter.Meaning.{
  AllComparisons, entries, comparison, holds, HasTruth, evaluate_condition-holds,
}
use sql_parser.Parser.Grammar.{
  ColumnRefTree, unqualified, qualified, ComparatorTree, equals, greater, less, at_least, at_most,
  ValueTree, value_number, value_negative, value_string, SimpleTree, simple, NotTree, Chain,
  ConditionTree,
}
use sql_parser.Parser.Actions.{value, comparator, simple_condition, condition}

-- The column of a reference, whatever its table.
abbrev pub column_of : ColumnRefTree → String
column_of (unqualified c) = c
column_of (qualified t c) = c

-- - n
abbrev pub minus : ℕ → ℤ
minus zero = pos 0
minus (suc n) = negsuc n

abbrev pub int_test : ComparatorTree → ℤ → ℤ → Bool
int_test equals a b = eqb_ℤ a b
int_test greater a b = ltb_ℤ b a
int_test less a b = ltb_ℤ a b
int_test at_least a b = leb_ℤ b a
int_test at_most a b = leb_ℤ a b

abbrev pub text_test : ComparatorTree → String → String → Bool
text_test equals s t = str_eq s t
text_test greater s t = str_ltb t s
text_test less s t = str_ltb s t
text_test at_least s t = not (str_ltb s t)
text_test at_most s t = not (str_ltb t s)

abbrev pub those_with : {A : Type 0} → (A → Bool) → List A → List A
those_with q [] = []
those_with q (x ∷ xs) = if q x then x ∷ those_with q xs else those_with q xs

module _ ⦃rt : Runtime⦄ where
  -- A cell against a literal of its kind.
  abbrev pub meets : ComparatorTree → Val → ValueTree → Bool
  meets op (int a) (value_number n) = int_test op a (pos n)
  meets op (int a) (value_negative n) = int_test op a (minus n)
  meets op (str s) (value_string t) = text_test op s t
  meets op v l = false

  abbrev pub cell_truth : Row → SimpleTree → Bool
  cell_truth row (simple r op l) = elim (get (column_of r) row) [
    | none ↦ false
    | some v ↦ meets op v l
  ]

  -- The row has a whole number where the literal is a number, and a text where it is a text.
  abbrev pub Comparable : Row → SimpleTree → Type 0
  Comparable row (simple r op (value_number n)) = (a : ℤ) × (get (column_of r) row ≡ some (int a))
  Comparable row (simple r op (value_negative n)) = (a : ℤ) × (get (column_of r) row ≡ some (int a))
  Comparable row (simple r op (value_string t)) =
      (s : String) × (get (column_of r) row ≡ some (str s))

  compare_values-int :
      (op : ComparatorTree) (a b : ℤ)
      → compare_values (comparator op) (int a) (int b) ≡ ok (int_test op a b)
  unfolding compare_values comparator py_eq py_lt py_le
  compare_values-int equals a b = refl
  compare_values-int greater a b = refl
  compare_values-int less a b = refl
  compare_values-int at_least a b = refl
  compare_values-int at_most a b = refl

  compare_values-str :
      (op : ComparatorTree) (s t : String)
      → compare_values (comparator op) (str s) (str t) ≡ ok (text_test op s t)
  unfolding compare_values comparator py_eq py_lt py_le
  compare_values-str equals s t = refl
  compare_values-str greater s t = refl
  compare_values-str less s t = refl
  compare_values-str at_least s t = refl
  compare_values-str at_most s t = refl

  negative-int :
      (op : ComparatorTree) (a : ℤ) (n : ℕ)
      → compare_values (comparator op) (int a) (value (value_negative n))
        ≡ ok (int_test op a (minus n))
  unfolding value
  negative-int op a zero = compare_values-int op a (pos 0)
  negative-int op a (suc n) =
      let e : sub_ℕ 0 (suc n) ≡ negsuc n = ground arith in rw e (compare_values-int op a (negsuc n))

  -- A comparison whose cell is known.
  cell-HasTruth :
      (row : Row) (table : String) (r : ColumnRefTree) (op : ComparatorTree) (l : ValueTree)
      (v : Val)
      → get (column_of r) row ≡ some v
      → compare_values (comparator op) v (value l) ≡ ok (meets op v l)
      → HasTruth row table (cell_truth row) (simple r op l)
  unfolding evaluate_condition simple_condition
  cell-HasTruth row table (unqualified c) op l v e h = rw (e, cell_truth, evaluate_condition) h
  cell-HasTruth row table (qualified t c) op l v e h = rw (e, cell_truth, evaluate_condition) h

  Comparable-HasTruth :
      (row : Row) (table : String) (s : SimpleTree)
      → Comparable row s
      → HasTruth row table (cell_truth row) s
  unfolding value
  Comparable-HasTruth row table (simple r op (value_number n)) (a, e) =
      cell-HasTruth row table r op (value_number n) (int a) e (compare_values-int op a (pos n))
  Comparable-HasTruth row table (simple r op (value_negative n)) (a, e) =
      cell-HasTruth row table r op (value_negative n) (int a) e (negative-int op a n)
  Comparable-HasTruth row table (simple r op (value_string t)) (s, e) =
      cell-HasTruth row table r op (value_string t) (str s) e (compare_values-str op s t)

  filter_m-those :
      (p : Row → Result Bool) (q : Row → Bool) (rows : Rows)
      → All (λ row. p row ≡ ok (q row)) rows
      → filter_m p rows ≡ ok (those_with q rows)
  filter_m-those p q [] h = refl
  filter_m-those p q (row ∷ rows) (e, h) = rw (e, filter_m-those p q rows h) (kept (q row))
    where
      kept :
          (b : Bool)
          → ◌≡◌ {A = Result Rows}
              (ok (keep b row (those_with q rows)))
              (ok (if b then row ∷ those_with q rows else those_with q rows))
      kept true = refl
      kept false = refl

  -- A clause whose comparisons are of the kinds of the row's cells.
  abbrev pub AllComparable : ConditionTree → Row → Type 0
  AllComparable c row = AllComparisons (Comparable row) c

  All-HasTruth :
      (row : Row) (table : String) (ns : List NotTree)
      → All (λ n. Comparable row (comparison n)) ns
      → All (λ n. HasTruth row table (cell_truth row) (comparison n)) ns
  All-HasTruth row table [] h = tt
  All-HasTruth row table (n ∷ ns) (k, h) =
      (Comparable-HasTruth row table (comparison n) k, All-HasTruth row table ns h)

  AllComparisons-HasTruth :
      (row : Row) (table : String) (ds : List (Chain NotTree))
      → All (λ d. All (λ n. Comparable row (comparison n)) (entries d)) ds
      → All (λ d. All (λ n. HasTruth row table (cell_truth row) (comparison n)) (entries d)) ds
  AllComparisons-HasTruth row table [] h = tt
  AllComparisons-HasTruth row table (d ∷ ds) (k, h) =
      (All-HasTruth row table (entries d) k, AllComparisons-HasTruth row table ds h)

  all_rows :
      (c : ConditionTree) (table : String) (rows : Rows)
      → All (AllComparable c) rows
      → All (λ row. evaluate_condition row (condition c) table ≡ ok (holds (cell_truth row) c)) rows
  all_rows c table [] h = tt
  all_rows c table (row ∷ rows) (k, h) = (
    evaluate_condition-holds row table (cell_truth row) c
        (AllComparisons-HasTruth row table (entries c) k),
    all_rows c table rows h,
  )

  -- Where every comparison of a WHERE clause is of a whole number or a text with a literal of its
  -- kind, on every row, the filter raises nothing and gives, in their order, exactly the rows on which
  -- some part between ORs has all its parts between ANDs true: numbers are compared as integers and
  -- texts by their characters, and a part with NOT is true if its comparison is false.
  pub filter_rows-holds :
      (c : ConditionTree) (table : String) (rows : Rows)
      → All (AllComparable c) rows
      → filter_rows rows (some (condition c)) table
        ≡ ok (those_with (λ row. holds (cell_truth row) c) rows)
  unfolding filter_rows
  filter_rows-holds c table rows h =
      filter_m-those (λ row. evaluate_condition row (condition c) table)
        (λ row. holds (cell_truth row) c) rows (all_rows c table rows h)
