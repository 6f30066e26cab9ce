-- ===== src/Executor/Group/Laws.antt =====
-- The grouping loop splits the rows by their keys.
use mathlib.Core.List.{Perm, perm_middle, append_assoc, append-nil}
use mathlib.Core.List.Perm
use sql_parser.Base.{
  ℕ, suc, ap, ◌+◌, ◌<◌, String, true, false, ◌≡◌, refl, ◌⊎◌, inl, inr, List, [], ◌∷◌, ◌++◌, arith,
  length, length-append, All, All-append, Bool-cases,
}
use sql_parser.Base.Dict.{has_key, get-has_key}
use sql_parser.Base.Result.{ok, ◌>>=◌, >>=-eq-ok, fold_m, ok-injective}
use sql_parser.Value.{Runtime}
use sql_parser.Table.{Row, Rows, item-get}
use sql_parser.Executor.Group.{Key, Groups, keys_eq, row_key, add_to_group, group_step, group_rows}

module _ ⦃rt : Runtime⦄ where
  -- The row's key is the group's, or equal to it.
  abbrev pub Belongs : List String → Key → Row → Type 0
  Belongs cols k row =
      (key : Key) × (row_key cols row ≡ ok key) × ((k ≡ key) ⊎ (keys_eq k key ≡ true))

  -- No later group has this key.
  abbrev pub Fresh : Key → Groups → Type 0
  Fresh k [] = Unit
  Fresh k ((j, rs) ∷ gs) = (keys_eq k j ≡ false) × Fresh k gs

  -- No group is empty, each row is in a group of its key, and no two groups have one key.
  abbrev pub IsGrouping : List String → Groups → Type 0
  IsGrouping cols [] = Unit
  IsGrouping cols ((k, rs) ∷ gs) =
      (0 < length rs) × All (Belongs cols k) rs × Fresh k gs × IsGrouping cols gs

  -- The rows of all groups, one group after the other.
  abbrev pub all_rows : Groups → Rows
  all_rows [] = []
  all_rows ((k, rs) ∷ gs) = rs ++ all_rows gs

  abbrev pub row_total : Groups → ℕ
  row_total [] = 0
  row_total ((k, rs) ∷ gs) = length rs + row_total gs

  add_to_group-Fresh :
      (k key : Key) (row : Row) (gs : Groups)
      → keys_eq k key ≡ false
      → Fresh k gs
      → Fresh k (add_to_group key row gs)
  unfolding add_to_group
  add_to_group-Fresh k key row [] e h = (e, tt)
  add_to_group-Fresh k key row ((j, rs) ∷ gs) e h = elim (Bool-cases (keys_eq j key)) [
    | inl same ↦ rw same h
    | inr differs ↦ rw differs (h.0, add_to_group-Fresh k key row gs e h.1)
  ]

  add_to_group-IsGrouping :
      (cols : List String) (key : Key) (row : Row) (gs : Groups)
      → row_key cols row ≡ ok key
      → IsGrouping cols gs
      → IsGrouping cols (add_to_group key row gs)
  unfolding add_to_group
  add_to_group-IsGrouping cols key row [] e h = (omega arith, ((key, e, inl refl), tt), tt, tt)
  add_to_group-IsGrouping cols key row ((k, rs) ∷ gs) e (nonempty, mine, fresh, rest) =
      elim (Bool-cases (keys_eq k key)) [
        | inl same ↦ rw same (
          omega (arith, length-append rs (row ∷ [])),
          All-append (Belongs cols k) rs (row ∷ []) mine ((key, e, inr same), tt),
          fresh,
          rest,
        )
        | inr differs ↦ rw differs (
          nonempty,
          mine,
          add_to_group-Fresh k key row gs differs fresh,
          add_to_group-IsGrouping cols key row gs e rest,
        )
      ]

  add_to_group-perm :
      (key : Key) (row : Row) (gs : Groups)
      → Perm (all_rows (add_to_group key row gs)) (row ∷ all_rows gs)
  unfolding add_to_group
  add_to_group-perm key row [] = Perm.refl _
  add_to_group-perm key row ((k, rs) ∷ gs) = elim (Bool-cases (keys_eq k key)) [
    | inl same ↦ rw (same, append_assoc) (perm_middle rs (all_rows gs))
    | inr differs ↦ rw differs (
        Perm.trans (Perm.append_left rs (add_to_group-perm key row gs))
          (perm_middle rs (all_rows gs)))
  ]

  row_total-add_to_group :
      (key : Key) (row : Row) (gs : Groups) → row_total (add_to_group key row gs) ≡ row_total gs + 1
  unfolding add_to_group
  row_total-add_to_group key row [] = omega arith
  row_total-add_to_group key row ((k, rs) ∷ gs) = elim (Bool-cases (keys_eq k key)) [
    | inl same ↦ rw same (omega (arith, length-append rs (row ∷ [])))
    | inr differs ↦ rw differs (omega (arith, row_total-add_to_group key row gs))
  ]

  -- What the loop adds to the groups that it starts from.
  abbrev Grows : List String → Groups → Rows → Groups → Type 0
  Grows cols acc rows gs =
      (IsGrouping cols acc → IsGrouping cols gs)
      × Perm (all_rows gs) (rows ++ all_rows acc)
      × (row_total gs ≡ row_total acc + length rows)

  group_loop-Grows :
      (cols : List String) (acc : Groups) (rows : Rows) {gs : Groups}
      → fold_m (group_step cols) acc rows ≡ ok gs
      → Grows cols acc rows gs
  unfolding group_step
  group_loop-Grows cols acc [] h = rw (← ok-injective h) ((λ g. g), Perm.refl _, omega arith)
  group_loop-Grows cols acc (row ∷ rows) h =
      let (acc', e, h') =
        >>=-eq-ok (row_key cols row >>= λ key. ok (add_to_group key row acc)) _ h in
      let (key, ek, ea) = >>=-eq-ok (row_key cols row) _ e in
      let (kept, perm, total) = group_loop-Grows cols acc' rows h' in
      let moved : Perm (all_rows acc') (row ∷ all_rows acc) =
        rw (← ok-injective ea) (add_to_group-perm key row acc) in
      let counted : row_total acc' ≡ row_total acc + 1 =
        rw (← ok-injective ea) (row_total-add_to_group key row acc) in
      (
        (λ g. kept (rw (← ok-injective ea) (add_to_group-IsGrouping cols key row acc ek g))),
        Perm.trans perm
            (Perm.trans (Perm.append_left rows moved) (perm_middle rows (all_rows acc))),
        omega arith,
      )

  -- Where the grouping loop succeeds, no group is empty, every row of a group has the group's key,
  -- no two groups have equal keys, and the groups' rows together are a permutation of the table's.
  pub group_rows-IsGrouping :
      (cols : List String) (rows : Rows) (gs : Groups)
      → group_rows cols rows ≡ ok gs
      → IsGrouping cols gs × Perm (all_rows gs) rows
  unfolding group_rows
  group_rows-IsGrouping cols rows gs h =
      let (kept, perm, total) = group_loop-Grows cols [] rows h in (kept tt, rw append-nil at perm)

  pub row_total-group_rows :
      (cols : List String) (rows : Rows) (gs : Groups)
      → group_rows cols rows ≡ ok gs
      → row_total gs ≡ length rows
  unfolding group_rows
  row_total-group_rows cols rows gs h = omega (arith, (group_loop-Grows cols [] rows h).2)

  -- Every column is in the row.
  abbrev pub HasColumns : List String → Row → Type 0
  HasColumns cols row = All (λ c. has_key c row ≡ true) cols

  row_key-total :
      (cols : List String) (row : Row)
      → HasColumns cols row
      → (key : Key) × (row_key cols row ≡ ok key) × (length key ≡ length cols)
  unfolding row_key
  row_key-total [] row h = ([], refl, refl)
  row_key-total (c ∷ cs) row h =
      let (v, e) = get-has_key c row h.0 in
      let (key, ek, el) = row_key-total cs row h.1 in
      (v ∷ key, rw (item-get c row e, ek), ap suc el)

  group_loop-total :
      (cols : List String) (acc : Groups) (rows : Rows)
      → All (HasColumns cols) rows
      → (gs : Groups) × (fold_m (group_step cols) acc rows ≡ ok gs)
  unfolding group_step
  group_loop-total cols acc [] h = (acc, refl)
  group_loop-total cols acc (row ∷ rows) h =
      let (key, e, el) = row_key-total cols row h.0 in
      rw e (group_loop-total cols (add_to_group key row acc) rows h.1)

  -- The grouping loop succeeds on rows that each have every column of GROUP BY.
  pub group_rows-total :
      (cols : List String) (rows : Rows)
      → All (HasColumns cols) rows
      → (gs : Groups) × (group_rows cols rows ≡ ok gs)
  unfolding group_rows
  group_rows-total cols rows h = group_loop-total cols [] rows h
