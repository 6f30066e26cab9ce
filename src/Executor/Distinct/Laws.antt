-- ===== src/Executor/Distinct/Laws.antt =====
-- DISTINCT keeps the first row of each key.
use mathlib.Core.List.{Sublistᴰ}
use mathlib.Core.Path.{subst}
use sql_parser.Base.{
  String, Bool, true, false, ◌≡◌, ◌≢◌, refl, sym, ◌∙◌, ◌⊎◌, inl, inr, List, [], ◌∷◌, arith, All,
  Any, Differ, Bool-cases, eq_iff, ◌↔◌,
}
use sql_parser.Value.{Runtime}
use sql_parser.Ast.{ColumnItem, Columns, star, listed}
use sql_parser.Table.{Row, Rows}
use sql_parser.Executor.Distinct.{
  contains, unique_by, strings_eq, pairs_eq, star_key, column_key, apply_distinct,
}

pub strings_eq_iff : (s t : List String) → (strings_eq s t ≡ true) ↔ (s ≡ t)
unfolding strings_eq
strings_eq_iff [] [] = (λ _. refl, λ _. refl)
strings_eq_iff [] (t ∷ ts) = (λ h. cc, λ h. cc)
strings_eq_iff (s ∷ ss) [] = (λ h. cc, λ h. cc)
strings_eq_iff (s ∷ ss) (t ∷ ts) =
    let ih = strings_eq_iff ss ts in
    (λ h. ground (arith, eq_iff s t, ih), λ h. ground (arith, eq_iff s t, ih))

pairs_eq_iff : (s t : List (String × String)) → (pairs_eq s t ≡ true) ↔ (s ≡ t)
unfolding pairs_eq
pairs_eq_iff [] [] = (λ _. refl, λ _. refl)
pairs_eq_iff [] (t ∷ ts) = (λ h. cc, λ h. cc)
pairs_eq_iff (s ∷ ss) [] = (λ h. cc, λ h. cc)
pairs_eq_iff ((s, v) ∷ ss) ((t, w) ∷ ts) =
    let ih = pairs_eq_iff ss ts in
    (
      λ h. ground (arith, eq_iff s t, eq_iff v w, ih),
      λ h. ground (arith, eq_iff s t, eq_iff v w, ih),
    )

module _ {K A : Type 0} (same : K → K → Bool) (key : A → K)
    (same_iff : (j k : K) → (same j k ≡ true) ↔ (j ≡ k)) where
  contains-Any : (k : K) (seen : List K) → contains same k seen ≡ true → Any (λ j. j ≡ k) seen
  contains-Any k [] h = cc
  contains-Any k (j ∷ js) h = elim (Bool-cases (same j k)) [
    | inl e ↦ inl ((same_iff j k).0 e)
    | inr e ↦ inr (contains-Any k js (rw e at h))
  ]

  not-contains-All : (k : K) (seen : List K) → contains same k seen ≡ false → All (λ j. j ≢ k) seen
  not-contains-All k [] h = tt
  not-contains-All k (j ∷ js) h = elim (Bool-cases (same j k)) [
    | inl e ↦ cc (rw e at h)
    | inr e ↦ ((λ p. cc ((same_iff j k).1 p)), not-contains-All k js (rw e at h))
  ]

  unique_by-Sublist : (seen : List K) (xs : List A) → Sublistᴰ (unique_by same key seen xs) xs
  unfolding unique_by
  unique_by-Sublist seen [] = Sublistᴰ.slnil
  unique_by-Sublist seen (x ∷ xs) = elim (Bool-cases (contains same (key x) seen)) [
    | inl e ↦ rw e (Sublistᴰ.cons (unique_by-Sublist seen xs))
    | inr e ↦ rw e (Sublistᴰ.cons-cons refl (unique_by-Sublist (key x ∷ seen) xs))
  ]

  -- What is kept has none of the keys seen before.
  unique_by-new :
      (k : K) (seen : List K) (xs : List A)
      → Any (λ j. j ≡ k) seen
      → All (λ y. k ≢ key y) (unique_by same key seen xs)
  unfolding unique_by
  unique_by-new k seen [] h = tt
  unique_by-new k seen (x ∷ xs) h = elim (Bool-cases (contains same (key x) seen)) [
    | inl e ↦ rw e (unique_by-new k seen xs h)
    | inr e ↦ rw e (
      (λ p. clash seen h p (not-contains-All (key x) seen e)),
      unique_by-new k (key x ∷ seen) xs (inr h),
    )
  ]
    where
      clash : (js : List K) → Any (λ j. j ≡ k) js → k ≡ key x → All (λ j. j ≢ key x) js → ⊥
      clash [] a p n = a
      clash (j ∷ js) (inl q) p n = n.0 (q ∙ p)
      clash (j ∷ js) (inr a) p n = clash js a p n.1

  unique_by-Differ : (seen : List K) (xs : List A) → Differ key (unique_by same key seen xs)
  unfolding unique_by
  unique_by-Differ seen [] = tt
  unique_by-Differ seen (x ∷ xs) = elim (Bool-cases (contains same (key x) seen)) [
    | inl e ↦ rw e (unique_by-Differ seen xs)
    | inr e ↦
        rw e
          (unique_by-new (key x) (key x ∷ seen) xs (inl refl), unique_by-Differ (key x ∷ seen) xs)
  ]

  -- Each key is seen before, or kept.
  abbrev Covered : List K → List A → A → Type 0
  Covered seen out x = Any (λ j. j ≡ key x) seen ⊎ Any (λ y. key y ≡ key x) out

  shift :
      (x : A) (seen : List K) (out xs : List A)
      → All (Covered (key x ∷ seen) out) xs
      → All (Covered seen (x ∷ out)) xs
  shift x seen out [] h = tt
  shift x seen out (y ∷ ys) (c, h) = (move c, shift x seen out ys h)
    where
      move : Covered (key x ∷ seen) out y → Covered seen (x ∷ out) y
      move (inl (inl p)) = inr (inl p)
      move (inl (inr a)) = inl a
      move (inr a) = inr (inr a)

  unique_by-old :
      (x : A) (seen : List K) (xs : List A)
      → contains same (key x) seen ≡ true
      → unique_by same key seen (x ∷ xs) ≡ unique_by same key seen xs
  unfolding unique_by
  unique_by-old x seen xs e = rw e

  unique_by-first :
      (x : A) (seen : List K) (xs : List A)
      → contains same (key x) seen ≡ false
      → unique_by same key seen (x ∷ xs) ≡ x ∷ unique_by same key (key x ∷ seen) xs
  unfolding unique_by
  unique_by-first x seen xs e = rw e

  unique_by-Covered :
      (seen : List K) (xs : List A) → All (Covered seen (unique_by same key seen xs)) xs
  unique_by-Covered seen [] = tt
  unique_by-Covered seen (x ∷ xs) = elim (Bool-cases (contains same (key x) seen)) [
    | inl e ↦
        subst (λ out. All (Covered seen out) (x ∷ xs)) (sym (unique_by-old x seen xs e))
          (inl (contains-Any (key x) seen e), unique_by-Covered seen xs)
    | inr e ↦
        subst (λ out. All (Covered seen out) (x ∷ xs)) (sym (unique_by-first x seen xs e))
          (inr (inl refl), shift x seen _ xs (unique_by-Covered (key x ∷ seen) xs))
  ]

  kept_only :
      (out xs : List A) → All (Covered [] out) xs → All (λ x. Any (λ y. key y ≡ key x) out) xs
  kept_only out [] h = tt
  kept_only out (x ∷ xs) (inl a, h) = absurd a
  kept_only out (x ∷ xs) (inr a, h) = (a, kept_only out xs h)

  -- A kept list of rows: some of the rows, in their order, no two with one key, each key there.
  abbrev pub KeepsFirst : List A → List A → Type 0
  KeepsFirst xs out = Sublistᴰ out xs × Differ key out × All (λ x. Any (λ y. key y ≡ key x) out) xs

  pub unique_by-KeepsFirst : (xs : List A) → KeepsFirst xs (unique_by same key [] xs)
  unique_by-KeepsFirst xs = (
    unique_by-Sublist [] xs,
    unique_by-Differ [] xs,
    kept_only (unique_by same key [] xs) xs (unique_by-Covered [] xs),
  )

module _ ⦃rt : Runtime⦄ where
  -- Two rows with one key, by which DISTINCT compares them.
  abbrev pub SameKey : Columns → Row → Row → Type 0
  SameKey star r s = star_key r ≡ star_key s
  SameKey (listed items) r s = column_key items r ≡ column_key items s

  abbrev pub IsDistinct : Columns → Rows → Type 0
  IsDistinct columns [] = Unit
  IsDistinct columns (r ∷ rows) = All (λ s. ¬ (SameKey columns r s)) rows × IsDistinct columns rows

  from_Differ_star : (rows : Rows) → Differ star_key rows → IsDistinct star rows
  from_Differ_star [] d = tt
  from_Differ_star (r ∷ rows) d = (d.0, from_Differ_star rows d.1)

  from_Differ_listed :
      (items : List ColumnItem) (rows : Rows)
      → Differ (column_key items) rows
      → IsDistinct (listed items) rows
  from_Differ_listed items [] d = tt
  from_Differ_listed items (r ∷ rows) d = (d.0, from_Differ_listed items rows d.1)

  -- DISTINCT leaves some of the rows in their order, no two of which have one key, and every row of
  -- the input has the key of one that is left.
  pub apply_distinct_lem :
      (rows : Rows) (columns : Columns)
      → Sublistᴰ (apply_distinct rows true columns) rows
        × IsDistinct columns (apply_distinct rows true columns)
        × All (λ r. Any (λ s. SameKey columns s r) (apply_distinct rows true columns)) rows
  unfolding apply_distinct
  apply_distinct_lem rows star =
      let (sub, differ, covered) = unique_by-KeepsFirst pairs_eq star_key pairs_eq_iff rows in
      (sub, from_Differ_star _ differ, covered)
  apply_distinct_lem rows (listed items) =
      let (sub, differ, covered) =
        unique_by-KeepsFirst strings_eq (column_key items) strings_eq_iff rows in
      (sub, from_Differ_listed items _ differ, covered)
