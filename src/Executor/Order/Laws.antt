-- ===== src/Executor/Order/Laws.antt =====
-- The sort orders its input and keeps what is in it.
use mathlib.Core.List.{Perm}
use mathlib.Core.List.Perm
use sql_parser.Base.{Bool, true, false, ◌≡◌, sym, ◌⊎◌, inl, inr, List, [], ◌∷◌, All, if◌then◌else◌}
use sql_parser.Base.Result.{ok, ◌>>=◌, >>=-eq-ok, ok-injective}
use sql_parser.Value.{Runtime, Val, py_lt}
use sql_parser.Value.Order.{py_lt_asym}
use sql_parser.Executor.Order.{insert_keyed, sort_keyed}

-- `R` holds between each element and the next.
abbrev pub Ordered {ℓ κ} : {A : Type ℓ} → (A → A → Type κ) → List A → Type κ
Ordered R [] = Unit
Ordered R (x ∷ []) = Unit
Ordered R (x ∷ y ∷ ys) = R x y × Ordered R (y ∷ ys)

module _ ⦃rt : Runtime⦄ {A : Type 0} where
  -- The later key is not below the earlier one.
  abbrev pub NotBelow : Val × A → Val × A → Type 0
  NotBelow (j, x) (k, y) = py_lt k j ≡ ok false

  -- What one insertion does, by the comparison with the head.
  pub insert_keyed-cases :
      (k : Val) (x : A) (j : Val) (y : A) (ys : List (Val × A)) {zs : List (Val × A)}
      → insert_keyed k x ((j, y) ∷ ys) ≡ ok zs
      → ((ws : List (Val × A)) × (py_lt j k ≡ ok true)
          × (insert_keyed k x ys ≡ ok ws)
          × (zs ≡ (j, y) ∷ ws))
        ⊎ ((py_lt j k ≡ ok false) × (zs ≡ (k, x) ∷ (j, y) ∷ ys))
  unfolding insert_keyed
  insert_keyed-cases k x j y ys {zs} h =
      let (b, eb, h') = >>=-eq-ok (py_lt j k) _ h in by_test b eb h'
    where
      by_test :
          (b : Bool)
          → py_lt j k ≡ ok b
          → (if b
              then (insert_keyed k x ys >>= λ zs. ok ((j, y) ∷ zs))
              else ok ((k, x) ∷ (j, y) ∷ ys))
            ≡ ok zs
          → ((ws : List (Val × A)) × (py_lt j k ≡ ok true)
              × (insert_keyed k x ys ≡ ok ws)
              × (zs ≡ (j, y) ∷ ws))
            ⊎ ((py_lt j k ≡ ok false) × (zs ≡ (k, x) ∷ (j, y) ∷ ys))
      by_test true e g =
          let (ws, ew, ez) = >>=-eq-ok (insert_keyed k x ys) _ g in
          inl (ws, e, ew, sym (ok-injective ez))
      by_test false e g = inr (e, sym (ok-injective g))

  insert_keyed-perm :
      (k : Val) (x : A) (ys : List (Val × A)) {zs : List (Val × A)}
      → insert_keyed k x ys ≡ ok zs
      → Perm zs ((k, x) ∷ ys)
  unfolding insert_keyed
  insert_keyed-perm k x [] h = rw (← ok-injective h) (Perm.refl _)
  insert_keyed-perm k x ((j, y) ∷ ys) h = elim (insert_keyed-cases k x j y ys h) [
    | inl (ws, e, ew, ez) ↦
        rw ez
          (Perm.trans (Perm.cons (j, y) (insert_keyed-perm k x ys ew)) (Perm.swap (k, x) (j, y) ys))
    | inr (e, ez) ↦ rw ez (Perm.refl _)
  ]

  insert_keyed-below :
      (k : Val) (x : A) (j : Val) (y : A) (ys : List (Val × A)) {zs : List (Val × A)}
      → Ordered NotBelow ((j, y) ∷ ys)
      → py_lt k j ≡ ok false
      → insert_keyed k x ys ≡ ok zs
      → Ordered NotBelow ((j, y) ∷ zs)
  unfolding insert_keyed
  insert_keyed-below k x j y [] o e h = rw (← ok-injective h) (e, tt)
  insert_keyed-below k x j y ((i, z) ∷ ys) o e h = elim (insert_keyed-cases k x i z ys h) [
    | inl (ws, b, ew, ez) ↦ rw ez (o.0, insert_keyed-below k x i z ys o.1 (py_lt_asym i k b) ew)
    | inr (b, ez) ↦ rw ez (e, (b, o.1))
  ]

  insert_keyed-Ordered :
      (k : Val) (x : A) (ys : List (Val × A)) {zs : List (Val × A)}
      → Ordered NotBelow ys
      → insert_keyed k x ys ≡ ok zs
      → Ordered NotBelow zs
  unfolding insert_keyed
  insert_keyed-Ordered k x [] o h = rw (← ok-injective h) tt
  insert_keyed-Ordered k x ((j, y) ∷ ys) o h = elim (insert_keyed-cases k x j y ys h) [
    | inl (ws, b, ew, ez) ↦ rw ez (insert_keyed-below k x j y ys o (py_lt_asym j k b) ew)
    | inr (b, ez) ↦ rw ez (b, o)
  ]

  pub sort_keyed-Ordered :
      (xs : List (Val × A)) {ys : List (Val × A)}
      → sort_keyed xs ≡ ok ys
      → Ordered NotBelow ys × Perm ys xs
  unfolding sort_keyed
  sort_keyed-Ordered [] h = rw (← ok-injective h) (tt, Perm.refl _)
  sort_keyed-Ordered ((k, x) ∷ xs) h =
      let (ws, ew, h') = >>=-eq-ok (sort_keyed xs) _ h in
      let (o, perm) = sort_keyed-Ordered xs ew in
      (
        insert_keyed-Ordered k x ws o h',
        Perm.trans (insert_keyed-perm k x ws h') (Perm.cons (k, x) perm),
      )

  pub insert_keyed-All :
      (P : Val × A → Type 0) (k : Val) (x : A) (ys : List (Val × A)) {zs : List (Val × A)}
      → P (k, x)
      → All P ys
      → insert_keyed k x ys ≡ ok zs
      → All P zs
  unfolding insert_keyed
  insert_keyed-All P k x [] p h e = rw (← ok-injective e) (p, tt)
  insert_keyed-All P k x ((j, y) ∷ ys) p h e = elim (insert_keyed-cases k x j y ys e) [
    | inl (ws, b, ew, ez) ↦ rw ez (h.0, insert_keyed-All P k x ys p h.1 ew)
    | inr (b, ez) ↦ rw ez (p, h)
  ]

  pub sort_keyed-All :
      (P : Val × A → Type 0) (xs : List (Val × A)) {ys : List (Val × A)}
      → All P xs
      → sort_keyed xs ≡ ok ys
      → All P ys
  unfolding sort_keyed
  sort_keyed-All P [] h e = rw (← ok-injective e) tt
  sort_keyed-All P ((k, x) ∷ xs) h e =
      let (ws, ew, e') = >>=-eq-ok (sort_keyed xs) _ e in
      insert_keyed-All P k x ws h.0 (sort_keyed-All P xs h.1 ew) e'
