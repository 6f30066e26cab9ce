-- ===== src/Executor/Join/Laws.antt =====
-- The nested loop pairs the rows whose columns match.
use mathlib.Core.List.{Memᴰ}
use mathlib.Core.List.Memᴰ
use sql_parser.Base.{
  ◌+◌, ◌*◌, ◌≤◌, String, Bool, true, false, not, ◌&&◌, ◌≡◌, refl, ◌↔◌, ◌⊎◌, inl, inr, Option, none,
  some, [], ◌∷◌, arith, length, length-append,
}
use sql_parser.Base.Dict.{get, merge}
use sql_parser.Base.Result.{keep}
use sql_parser.Value.{Runtime, Val, py_eq, is_none}
use sql_parser.Table.{Row, Rows}
use sql_parser.Executor.Join.{values_match, join_row, join_rows}

module _ ⦃rt : Runtime⦄ where
  -- Both rows have a value that is not NULL in their column, and the two are equal.
  abbrev pub Joins : String → String → Row → Row → Type 0
  Joins left_col right_col r s =
      (a b : Val) × (get left_col r ≡ some a)
      × (get right_col s ≡ some b)
      × (is_none a ≡ false)
      × (is_none b ≡ false)
      × (py_eq a b ≡ true)

  values_match-true :
      (x y : Option Val)
      → values_match x y ≡ true
      → (a b : Val) × (x ≡ some a)
        × (y ≡ some b)
        × (is_none a ≡ false)
        × (is_none b ≡ false)
        × (py_eq a b ≡ true)
  unfolding values_match
  values_match-true none y h = cc
  values_match-true (some a) none h = cc
  values_match-true (some a) (some b) h =
      let (na, nb, e) = parts (is_none a) (is_none b) (py_eq a b) h in (a, b, refl, refl, na, nb, e)
    where
      parts : (p q r : Bool) → (not p && not q && r) ≡ true → (p ≡ false) × (q ≡ false) × (r ≡ true)
      parts p q r e = ground arith

  Joins-values_match :
      (l r : String) (row1 row2 : Row)
      → Joins l r row1 row2
      → values_match (get l row1) (get r row2) ≡ true
  unfolding values_match
  Joins-values_match l r row1 row2 (a, b, ea, eb, na, nb, e) = rw (ea, eb, values_match, na, nb, e)

  mem-keep :
      (m x : Row) (b : Bool) (xs : Rows) → Memᴰ m (keep b x xs) → ((b ≡ true) × (m ≡ x)) ⊎ Memᴰ m xs
  mem-keep m x true xs (Memᴰ.head e) = inl (refl, e)
  mem-keep m x true xs (Memᴰ.tail h) = inr h
  mem-keep m x false xs h = inr h

  keep-tail : (m x : Row) (b : Bool) (xs : Rows) → Memᴰ m xs → Memᴰ m (keep b x xs)
  keep-tail m x true xs h = Memᴰ.tail h
  keep-tail m x false xs h = h

  -- A row of the inner loop's result.
  abbrev FromRow : String → String → Row → Rows → Row → Type 0
  FromRow l r row1 rows m =
      (row2 : Row) × Memᴰ row2 rows × Joins l r row1 row2 × (m ≡ merge row1 row2)

  later_row :
      (l r : String) (row1 row2 : Row) (rows : Rows) (m : Row)
      → FromRow l r row1 rows m
      → FromRow l r row1 (row2 ∷ rows) m
  later_row l r row1 row2 rows m (s, h, j, e) = (s, Memᴰ.tail h, j, e)

  join_row-FromRow :
      (l r : String) (row1 : Row) (rows : Rows) (m : Row)
      → Memᴰ m (join_row l r row1 rows)
      → FromRow l r row1 rows m
  unfolding join_row
  join_row-FromRow l r row1 [] m h = absurd (Memᴰ.not-nil h)
  join_row-FromRow l r row1 (row2 ∷ rows) m h =
      elim (mem-keep m (merge row1 row2) (values_match (get l row1) (get r row2)) _ h) [
        | inl (e, p) ↦ (row2, Memᴰ.head refl, values_match-true _ _ e, p)
        | inr h' ↦ later_row l r row1 row2 rows m (join_row-FromRow l r row1 rows m h')
      ]

  FromRow-join_row :
      (l r : String) (row1 : Row) (rows : Rows) (row2 : Row)
      → Memᴰ row2 rows
      → Joins l r row1 row2
      → Memᴰ (merge row1 row2) (join_row l r row1 rows)
  unfolding join_row
  FromRow-join_row l r row1 [] row2 h j = elim h [ ]
  FromRow-join_row l r row1 (row ∷ rows) row2 (Memᴰ.head e) j =
      rw (e, rw e at (Joins-values_match l r row1 row2 j)) (Memᴰ.head refl)
  FromRow-join_row l r row1 (row ∷ rows) row2 (Memᴰ.tail h) j =
      keep-tail _ (merge row1 row) (values_match (get l row1) (get r row)) _
        (FromRow-join_row l r row1 rows row2 h j)

  FromRows : String → String → Rows → Rows → Row → Type 0
  FromRows l r left_rows right_rows m =
      (row1 row2 : Row) × Memᴰ row1 left_rows
      × Memᴰ row2 right_rows
      × Joins l r row1 row2
      × (m ≡ merge row1 row2)

  join_rows_sound :
      (l r : String) (left_rows right_rows : Rows) (m : Row)
      → Memᴰ m (join_rows l r left_rows right_rows)
      → FromRows l r left_rows right_rows m
  unfolding join_rows FromRows
  join_rows_sound l r [] right_rows m h = absurd (Memᴰ.not-nil h)
  join_rows_sound l r (row1 ∷ rows) right_rows m h =
      elim (Memᴰ.append_cases (join_row l r row1 right_rows) h) [
        | inl h' ↦
            let (row2, h2, j, e) = join_row-FromRow l r row1 right_rows m h' in
            (row1, row2, Memᴰ.head refl, h2, j, e)
        | inr h' ↦
            let (row, row2, h1, h2, j, e) = join_rows_sound l r rows right_rows m h' in
            (row, row2, Memᴰ.tail h1, h2, j, e)
      ]

  join_rows-complete :
      (l r : String) (left_rows right_rows : Rows) (row1 row2 : Row)
      → Memᴰ row1 left_rows
      → Memᴰ row2 right_rows
      → Joins l r row1 row2
      → Memᴰ (merge row1 row2) (join_rows l r left_rows right_rows)
  unfolding join_rows
  join_rows-complete l r [] right_rows row1 row2 h k j = elim h [ ]
  join_rows-complete l r (row ∷ rows) right_rows row1 row2 (Memᴰ.head e) k j =
      rw e (Memᴰ.append_left _ (FromRow-join_row l r row right_rows row2 k (rw e at j)))
  join_rows-complete l r (row ∷ rows) right_rows row1 row2 (Memᴰ.tail h) k j =
      Memᴰ.append_right (join_row l r row right_rows)
        (join_rows-complete l r rows right_rows row1 row2 h k j)

  -- The join holds exactly the merged pairs of a left and a right row that both have a value in
  -- their join column which is not NULL, these being equal.
  pub join_rows_iff :
      (l r : String) (left_rows right_rows : Rows) (m : Row)
      → Memᴰ m (join_rows l r left_rows right_rows) ↔ (
          (row1 row2 : Row) × Memᴰ row1 left_rows
          × Memᴰ row2 right_rows
          × Joins l r row1 row2
          × (m ≡ merge row1 row2))
  unfolding FromRows
  join_rows_iff l r left_rows right_rows m = (
    join_rows_sound l r left_rows right_rows m,
    λ (row1, row2, h, k, j, e).
        Memᴰ.cast e (join_rows-complete l r left_rows right_rows row1 row2 h k j),
  )

  keep-length : (b : Bool) (x : Row) (xs : Rows) → length (keep b x xs) ≤ length xs + 1
  keep-length true x xs = omega arith
  keep-length false x xs = omega arith

  length-join_row :
      (l r : String) (row1 : Row) (rows : Rows) → length (join_row l r row1 rows) ≤ length rows
  unfolding join_row
  length-join_row l r row1 [] = omega arith
  length-join_row l r row1 (row ∷ rows) = omega (
    arith,
    length-join_row l r row1 rows,
    keep-length (values_match (get l row1) (get r row)) (merge row1 row) (join_row l r row1 rows),
  )

  -- A join has at most as many rows as there are pairs of a left and a right row.
  pub length-join_rows :
      (l r : String) (left_rows right_rows : Rows)
      → length (join_rows l r left_rows right_rows) ≤ length left_rows * length right_rows
  unfolding join_rows
  length-join_rows l r [] right_rows = omega arith
  length-join_rows l r (row ∷ rows) right_rows = omega (
    arith,
    length-join_rows l r rows right_rows,
    length-join_row l r row right_rows,
    length-append (join_row l r row right_rows) (join_rows l r rows right_rows),
  )
