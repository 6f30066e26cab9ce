-- ===== src/Executor/Aggregate/Laws.antt =====
-- What the aggregates compute.
use sql_parser.Base.{
  Bool, true, false, ◌≡◌, List, [], ◌∷◌, if◌then◌else◌, ap, ◌∙◌, ◌⊎◌, inl, inr, All, Any, refl,
}
use sql_parser.Base.Int.{ℤ, pos, ◌+ℤ◌, +ℤ_assoc, +ℤ_zero, zero-+ℤ}
use sql_parser.Base.Result.{Result, ok, ◌>>=◌, fold_m, >>=-eq-ok, ok-injective}
use sql_parser.Value.{Runtime, int, Val, py_add, py_lt}
use sql_parser.Executor.Aggregate.{sum_of, min_of, max_of}
use sql_parser.Value.Order.{py_lt_asym, py_lt_trans}
use mathlib.Core.Path.{subst}

-- The sum of integers, from the right.
abbrev pub total : List ℤ → ℤ
total [] = pos 0
total (n ∷ ns) = n +ℤ total ns

-- Reading the elements gives these integers.
abbrev pub Reads : ⦃rt : Runtime⦄ {A : Type 0} → (A → Result Val) → List A → List ℤ → Type 0
Reads read [] [] = Unit
Reads read (x ∷ xs) (n ∷ ns) = (read x ≡ ok (int n)) × Reads read xs ns
Reads read _ _ = ⊥

module _ ⦃rt : Runtime⦄ {A : Type 0} (read : A → Result Val) where
  sum_loop :
      (acc : ℤ) (xs : List A) (ns : List ℤ)
      → Reads read xs ns
      → fold_m (λ t x. read x >>= λ v. py_add t v) (int acc) xs ≡ ok (int (acc +ℤ total ns))
  unfolding py_add
  sum_loop acc [] [] h = rw +ℤ_zero
  sum_loop acc [] (n ∷ ns) h = absurd h
  sum_loop acc (x ∷ xs) [] h = absurd h
  sum_loop acc (x ∷ xs) (n ∷ ns) h =
      rw (h.0, ← +ℤ_assoc acc n (total ns)) (sum_loop (acc +ℤ n) xs ns h.1)

  -- SUM over values that are all integers is their sum, and raises nothing.
  pub sum_of-total :
      (xs : List A) (ns : List ℤ) → Reads read xs ns → sum_of read xs ≡ ok (int (total ns))
  unfolding sum_of
  sum_of-total xs ns h = rw (← zero-+ℤ (total ns)) (sum_loop (pos 0) xs ns h)

-- One round of a search for the best value: a value that beats the best so far replaces it.
module _ ⦃rt : Runtime⦄ {A : Type 0} (read : A → Result Val) (beats : Val → Val → Result Bool) where
  abbrev best_step : Val → A → Result Val
  best_step m x = read x >>= λ v. beats v m >>= λ b. ok (if b then v else m)

  -- A value that does not beat the best.
  abbrev Unbeaten : Val → A → Type 0
  Unbeaten m x = (v : Val) × (read x ≡ ok v) × ¬ (beats v m ≡ ok true)

  module _ (irrefl : (a : Val) → ¬ (beats a a ≡ ok true))
      (trans : (a b c : Val)
        → beats a b ≡ ok true
        → beats b c ≡ ok true
        → beats a c ≡ ok true) where
    -- One round: the new best is the element's value or the old best, and neither beats it; nor does
    -- any value that does not beat the old best.
    record Round (m : Val) (x : A) (m' : Val) : Type 0 where
      from : (read x ≡ ok m') ⊎ (m ≡ m')
      unbeaten : Unbeaten m' x
      keeps : (a : Val) → ¬ (beats a m ≡ ok true) → ¬ (beats a m' ≡ ok true)

    best_step-Round : (m : Val) (x : A) {m' : Val} → best_step m x ≡ ok m' → Round m x m'
    best_step-Round m x h =
        let (v, ev, h') = >>=-eq-ok (read x) _ h in
        let (b, eb, e) = >>=-eq-ok (beats v m) _ h' in
        subst (Round m x) (ok-injective e) (by_test v ev b eb)
      where
        by_test :
            (v : Val)
            → read x ≡ ok v
            → (b : Bool) → beats v m ≡ ok b
            → Round m x (if b then v else m)
        by_test v ev true eb = record {
          from = inl ev;
          unbeaten = (v, ev, irrefl v);
          keeps = λ a n p. n (trans a v m p eb);
        }
        by_test v ev false eb = record {
          from = inr refl;
          unbeaten = (v, ev, λ p. cc);
          keeps = λ a n. n;
        }

    best_loop-keeps :
        (m : Val) (xs : List A) {out : Val}
        → fold_m best_step m xs ≡ ok out
        → (a : Val) → ¬ (beats a m ≡ ok true)
        → ¬ (beats a out ≡ ok true)
    best_loop-keeps m [] h a n = rw (← ok-injective h) n
    best_loop-keeps m (x ∷ xs) h a n =
        let (m', e, h') = >>=-eq-ok (best_step m x) _ h in
        best_loop-keeps m' xs h' a ((best_step-Round m x e).keeps a n)

    best_loop-Unbeaten :
        (m : Val) (xs : List A) {out : Val} → fold_m best_step m xs ≡ ok out → All (Unbeaten out) xs
    best_loop-Unbeaten m [] h = tt
    best_loop-Unbeaten m (x ∷ xs) h =
        let (m', e, h') = >>=-eq-ok (best_step m x) _ h in
        let (v, ev, n) = (best_step-Round m x e).unbeaten in
        ((v, ev, best_loop-keeps m' xs h' v n), best_loop-Unbeaten m' xs h')

    best_loop-from :
        (m : Val) (xs : List A) {out : Val}
        → fold_m best_step m xs ≡ ok out
        → (m ≡ out) ⊎ Any (λ x. read x ≡ ok out) xs
    best_loop-from m [] h = inl (ok-injective h)
    best_loop-from m (x ∷ xs) {out} h =
        let (m', e, h') = >>=-eq-ok (best_step m x) _ h in
        pick (best_step-Round m x e).from (best_loop-from m' xs h')
      where
        pick :
            {m' : Val}
            → (read x ≡ ok m') ⊎ (m ≡ m')
            → (m' ≡ out) ⊎ Any (λ x. read x ≡ ok out) xs
            → (m ≡ out) ⊎ Any (λ x. read x ≡ ok out) (x ∷ xs)
        pick (inl r) (inl e) = inr (inl (r ∙ ap ok e))
        pick (inr q) (inl e) = inl (q ∙ e)
        pick _ (inr a) = inr (inr a)

    -- The best of a list: an element's value, which no element's value beats.
    best_of :
        (v : Val) (x : A) (xs : List A) (out : Val)
        → read x ≡ ok v
        → fold_m best_step v xs ≡ ok out
        → Any (λ y. read y ≡ ok out) (x ∷ xs) × All (Unbeaten out) (x ∷ xs)
    best_of v x xs out e h = (
      member (best_loop-from v xs h),
      ((v, e, best_loop-keeps v xs h v (irrefl v)), best_loop-Unbeaten v xs h),
    )
      where
        member : (v ≡ out) ⊎ Any (λ y. read y ≡ ok out) xs → Any (λ y. read y ≡ ok out) (x ∷ xs)
        member (inl p) = inl (e ∙ ap ok p)
        member (inr a) = inr a

module _ ⦃rt : Runtime⦄ {A : Type 0} (read : A → Result Val) where
  py_lt_irrefl : (a : Val) → ¬ (py_lt a a ≡ ok true)
  py_lt_irrefl a h = cc (py_lt_asym a a h)

  -- Where MIN succeeds, it is the value of an element, every element has a value, and none of these
  -- is below it.
  pub min_of-least :
      (xs : List A) (out : Val)
      → min_of read xs ≡ ok out
      → Any (λ x. read x ≡ ok out) xs
        × All (λ x. (v : Val) × (read x ≡ ok v) × ¬ (py_lt v out ≡ ok true)) xs
  unfolding min_of
  min_of-least [] out h = cc
  min_of-least (x ∷ xs) out h =
      let (v, e, h') = >>=-eq-ok (read x) _ h in
      best_of read py_lt py_lt_irrefl py_lt_trans v x xs out e h'

  -- Where MAX succeeds, it is the value of an element, every element has a value, and it is below
  -- none of these.
  pub max_of-greatest :
      (xs : List A) (out : Val)
      → max_of read xs ≡ ok out
      → Any (λ x. read x ≡ ok out) xs
        × All (λ x. (v : Val) × (read x ≡ ok v) × ¬ (py_lt out v ≡ ok true)) xs
  unfolding max_of
  max_of-greatest [] out h = cc
  max_of-greatest (x ∷ xs) out h =
      let (v, e, h') = >>=-eq-ok (read x) _ h in
      best_of read (λ a b. py_lt b a) py_lt_irrefl (λ a b c p q. py_lt_trans c b a q p) v x xs out e
        h'
