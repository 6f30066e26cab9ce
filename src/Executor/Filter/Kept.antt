-- ===== src/Executor/Filter/Kept.antt =====
-- WHERE: which rows the filter keeps.
use sql_parser.Base.{
  String, Bool, true, false, not, ◌&&◌, ◌≡◌, refl, sym, ◌∙◌, ◌↔◌, some, List, [], ◌∷◌, ◌++◌,
}
use sql_parser.Base.Result.{Result, ok, raised, ◌>>=◌, >>=-eq-ok, filter_m, keep, ok-injective}
use sql_parser.Value.{Runtime}
use sql_parser.Ast.{and, Condition, logical_condition, not_condition}
use sql_parser.Table.{Row, Rows}
use sql_parser.Executor.Filter.{combine, evaluate_condition, filter_rows}
use mathlib.Core.List.{Perm, perm-cons, perm_middle}
use mathlib.Core.List.Perm

-- `ys` are the elements of `xs` on which the test gives True, in their order, and it raises on none.
pub data Selects {ℓ} {A : Type ℓ} (p : A → Result Bool) : List A → List A → Type ℓ where
  done : Selects p [] []
  take : {x : A} {xs ys : List A} → p x ≡ ok true → Selects p xs ys → Selects p (x ∷ xs) (x ∷ ys)
  skip : {x : A} {xs ys : List A} → p x ≡ ok false → Selects p xs ys → Selects p (x ∷ xs) ys

module _ {ℓ} {A : Type ℓ} (p : A → Result Bool) where
  Selects-keep :
      (x : A) (b : Bool) {xs ys : List A}
      → p x ≡ ok b
      → Selects p xs ys
      → Selects p (x ∷ xs) (keep b x ys)
  Selects-keep x true e s = take e s
  Selects-keep x false e s = skip e s

  filter_m-Selects : (xs : List A) {ys : List A} → filter_m p xs ≡ ok ys → Selects p xs ys
  filter_m-Selects [] h = rw (← ok-injective h) done
  filter_m-Selects (x ∷ xs) h =
      let (b, eb, h') = >>=-eq-ok (p x) _ h in
      let (zs, ez, e) = >>=-eq-ok (filter_m p xs) _ h' in
      rw (ok-injective e) at (Selects-keep x b eb (filter_m-Selects xs ez))

  Selects-filter_m : {xs ys : List A} → Selects p xs ys → filter_m p xs ≡ ok ys
  Selects-filter_m done = refl
  Selects-filter_m (take {x} {xs} e s) = rw (e, Selects-filter_m s)
  Selects-filter_m (skip {x} {xs} e s) = rw (e, Selects-filter_m s)

  -- Each element is kept by the test or by its negation.
  Selects-complement :
      (q : A → Result Bool)
      → ((x : A) → q x ≡ (p x >>= λ b. ok (not b)))
      → {xs ys zs : List A} → Selects p xs ys
      → Selects q xs zs
      → Perm (ys ++ zs) xs
  Selects-complement q neg done done = Perm.refl _
  Selects-complement q neg (take {x} e s) (skip e' s') =
      (perm-cons x).1 (Selects-complement q neg s s')
  Selects-complement q neg (skip {ys = ys} e s) (take {x} {ys = zs} e' s') =
      Perm.trans (perm_middle ys zs) ((perm-cons x).1 (Selects-complement q neg s s'))
  Selects-complement q neg (take {x} e s) (take e' s') = cc (rw e at (neg x))
  Selects-complement q neg (skip {x} e s) (skip e' s') = cc (rw e at (neg x))

module _ ⦃rt : Runtime⦄ where
  open rt use {Float}

  abbrev test : Condition Float → String → Row → Result Bool
  test c table row = evaluate_condition row c table

  -- With a WHERE condition the filter gives exactly the rows on which the condition is true, each as
  -- often as it stands in the table and in the table's order, and it succeeds exactly when the
  -- condition raises on no row.
  pub filter_rows-iff-Selects :
      (rows out : Rows) (c : Condition Float) (table : String)
      → (filter_rows rows (some c) table ≡ ok out)
        ↔ Selects (λ row. evaluate_condition row c table) rows out
  unfolding filter_rows
  filter_rows-iff-Selects rows out c table =
      (filter_m-Selects (test c table) rows, Selects-filter_m (test c table))

  -- A conjunction that has a value: both sides have one.
  conjunction-eq-ok :
      (x y : Result Bool) {t : Bool}
      → (x >>= λ a. y >>= λ b. combine and a b) ≡ ok t
      → (a b : Bool) × (x ≡ ok a) × (y ≡ ok b) × (t ≡ a && b)
  unfolding combine
  conjunction-eq-ok (ok a) (ok b) h = (a, b, refl, refl, sym (ok-injective h))
  conjunction-eq-ok (ok a) (raised e) h = cc
  conjunction-eq-ok (raised e) y h = cc

module _ ⦃rt : Runtime⦄ (p q r : Row → Result Bool)
    (both : (x : Row) → r x ≡ (p x >>= λ a. q x >>= λ b. combine and a b)) where
  abbrev InTwoSteps : Rows → Rows → Type 0
  InTwoSteps xs ys = (mid : Rows) × Selects p xs mid × Selects q mid ys

  in_two_steps :
      (x : Row) (t a b : Bool) {xs ys : Rows}
      → p x ≡ ok a
      → q x ≡ ok b
      → t ≡ a && b
      → InTwoSteps xs ys
      → InTwoSteps (x ∷ xs) (keep t x ys)
  in_two_steps x t true true ep eq et (mid, s, s') = (x ∷ mid, take ep s, rw et (take eq s'))
  in_two_steps x t true false ep eq et (mid, s, s') = (x ∷ mid, take ep s, rw et (skip eq s'))
  in_two_steps x t false b ep eq et (mid, s, s') = (mid, skip ep s, rw et s')

  Selects-and : {xs ys : Rows} → Selects r xs ys → InTwoSteps xs ys
  Selects-and done = ([], done, done)
  Selects-and (take {x} e s) =
      let (a, b, ea, eb, et) = conjunction-eq-ok (p x) (q x) (sym (both x) ∙ e) in
      in_two_steps x true a b ea eb et (Selects-and s)
  Selects-and (skip {x} e s) =
      let (a, b, ea, eb, et) = conjunction-eq-ok (p x) (q x) (sym (both x) ∙ e) in
      in_two_steps x false a b ea eb et (Selects-and s)

module _ ⦃rt : Runtime⦄ where
  open rt use {Float}

  -- Where WHERE a AND b succeeds, its rows are those of WHERE b on the rows of WHERE a, and both of
  -- these succeed.
  pub filter_rows-and :
      (rows out : Rows) (a b : Condition Float) (table : String)
      → filter_rows rows (some (logical_condition a and b)) table ≡ ok out
      → (mid : Rows) × (filter_rows rows (some a) table ≡ ok mid)
        × (filter_rows mid (some b) table ≡ ok out)
  unfolding filter_rows evaluate_condition
  filter_rows-and rows out a b table h =
      let (mid, s, s') =
        Selects-and (test a table) (test b table) (test (logical_condition a and b) table)
          (λ row. refl) (filter_m-Selects _ rows h) in
      (mid, Selects-filter_m (test a table) s, Selects-filter_m (test b table) s')

  -- Where WHERE c and WHERE NOT c both succeed, the rows of the one and then those of the other are
  -- a permutation of the table's rows.
  pub filter_rows-not :
      (rows yes_rows no_rows : Rows) (c : Condition Float) (table : String)
      → filter_rows rows (some c) table ≡ ok yes_rows
      → filter_rows rows (some (not_condition c)) table ≡ ok no_rows
      → Perm (yes_rows ++ no_rows) rows
  unfolding filter_rows evaluate_condition
  filter_rows-not rows yes_rows no_rows c table h h' =
      Selects-complement (test c table) (test (not_condition c) table) (λ row. refl)
        (filter_m-Selects (test c table) rows h)
        (filter_m-Selects (test (not_condition c) table) rows h')
