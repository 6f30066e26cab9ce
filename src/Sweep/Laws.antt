-- ===== src/Sweep/Laws.antt =====
-- Sweep: the rows of a sweep, in the order of their sizes.
use mathlib.Core.List.{append-nil, append_assoc}
use sql_parser.Base.{
  String, Bool, true, false, ◌≡◌, refl, ap, sym, ◌∙◌, inl, inr, List, [], ◌∷◌, ◌++◌, Bool-cases,
  arith,
}
use sql_parser.Base.Int.{ℤ, leb_ℤ, eqb_ℤ}
use sql_parser.Base.Result.{keep}
use sql_parser.Sweep.{SweepRow, SweepFrame, begin_sweep, insert_row, sort_rows, add_result}

leb_ℤ_total : (a b : ℤ) → leb_ℤ a b ≡ false → leb_ℤ b a ≡ true
leb_ℤ_total a b h = ground arith

leb_ℤ_trans : (a b c : ℤ) → leb_ℤ a b ≡ true → leb_ℤ b c ≡ true → leb_ℤ a c ≡ true
leb_ℤ_trans a b c h k = ground arith

leb_ℤ_tied : (a b n : ℤ) → leb_ℤ a b ≡ false → eqb_ℤ a n ≡ true → eqb_ℤ b n ≡ true → ⊥
leb_ℤ_tied a b n h p q = ground arith

module _ {F : Type 0} where
  -- No row has fewer frames than n.
  abbrev pub AtLeast : ℤ → List (SweepRow F) → Type 0
  AtLeast n [] = Unit {0}
  AtLeast n (r ∷ rs) = (leb_ℤ n r.frames ≡ true) × AtLeast n rs

  -- The rows go up by their frames.
  abbrev pub Ranked : List (SweepRow F) → Type 0
  Ranked [] = Unit {0}
  Ranked (r ∷ rs) = AtLeast r.frames rs × Ranked rs

  -- The rows of one size, in their order.
  abbrev pub of_frames : ℤ → List (SweepRow F) → List (SweepRow F)
  of_frames n [] = []
  of_frames n (r ∷ rs) = keep (eqb_ℤ r.frames n) r (of_frames n rs)

  -- The results that arrive, one after another.
  abbrev pub replay : List (SweepRow F) → SweepFrame F → SweepFrame F
  replay [] s = s
  replay (r ∷ rs) s = replay rs (add_result r s)

  AtLeast-trans :
      (m n : ℤ) (rs : List (SweepRow F)) → leb_ℤ m n ≡ true → AtLeast n rs → AtLeast m rs
  AtLeast-trans m n [] h k = tt
  AtLeast-trans m n (r ∷ rs) h (p, k) = (leb_ℤ_trans m n r.frames h p, AtLeast-trans m n rs h k)

  insert_row-AtLeast :
      (n : ℤ) (r : SweepRow F) (qs : List (SweepRow F))
      → leb_ℤ n r.frames ≡ true
      → AtLeast n qs
      → AtLeast n (insert_row r qs)
  unfolding insert_row
  insert_row-AtLeast n r [] h k = (h, tt)
  insert_row-AtLeast n r (q ∷ qs) h (p, k) = elim (Bool-cases (leb_ℤ r.frames q.frames)) [
    | inl e ↦ rw e (h, (p, k))
    | inr e ↦ rw e (p, insert_row-AtLeast n r qs h k)
  ]

  insert_row-Ranked :
      (r : SweepRow F) (qs : List (SweepRow F)) → Ranked qs → Ranked (insert_row r qs)
  unfolding insert_row
  insert_row-Ranked r [] h = (tt, tt)
  insert_row-Ranked r (q ∷ qs) (low, h) = elim (Bool-cases (leb_ℤ r.frames q.frames)) [
    | inl e ↦ rw e ((e, AtLeast-trans r.frames q.frames qs e low), (low, h))
    | inr e ↦ rw e (
      insert_row-AtLeast q.frames r qs (leb_ℤ_total r.frames q.frames e) low,
      insert_row-Ranked r qs h,
    )
  ]

  sort_rows-Ranked : (rs : List (SweepRow F)) → Ranked (sort_rows rs)
  unfolding sort_rows
  sort_rows-Ranked [] = tt
  sort_rows-Ranked (r ∷ rs) = insert_row-Ranked r (sort_rows rs) (sort_rows-Ranked rs)

  keep_swap :
      (p q : Bool) (x y : SweepRow F) (rs : List (SweepRow F))
      → (p ≡ true → q ≡ true → ⊥)
      → keep p x (keep q y rs) ≡ keep q y (keep p x rs)
  keep_swap true true x y rs n = absurd (n refl refl)
  keep_swap true false x y rs n = refl
  keep_swap false q x y rs n = refl

  insert_row-of_frames :
      (n : ℤ) (r : SweepRow F) (qs : List (SweepRow F))
      → of_frames n (insert_row r qs) ≡ of_frames n (r ∷ qs)
  unfolding insert_row
  insert_row-of_frames n r [] = refl
  insert_row-of_frames n r (q ∷ qs) = elim (Bool-cases (leb_ℤ r.frames q.frames)) [
    | inl e ↦ rw e refl
    | inr e ↦
        rw (e, insert_row-of_frames n r qs)
          (keep_swap (eqb_ℤ q.frames n) (eqb_ℤ r.frames n) q r (of_frames n qs)
            (λ p k. leb_ℤ_tied r.frames q.frames n e k p))
  ]

  sort_rows-of_frames :
      (n : ℤ) (rs : List (SweepRow F)) → of_frames n (sort_rows rs) ≡ of_frames n rs
  unfolding sort_rows
  sort_rows-of_frames n [] = refl
  sort_rows-of_frames n (r ∷ rs) =
      insert_row-of_frames n r (sort_rows rs)
      ∙ ap (keep (eqb_ℤ r.frames n) r) (sort_rows-of_frames n rs)

  keep-append :
      (b : Bool) (x : SweepRow F) (xs ys : List (SweepRow F))
      → keep b x xs ++ ys ≡ keep b x (xs ++ ys)
  keep-append true x xs ys = refl
  keep-append false x xs ys = refl

  of_frames-append :
      (n : ℤ) (rs qs : List (SweepRow F))
      → of_frames n (rs ++ qs) ≡ of_frames n rs ++ of_frames n qs
  of_frames-append n [] qs = refl
  of_frames-append n (r ∷ rs) qs =
      ap (keep (eqb_ℤ r.frames n) r) (of_frames-append n rs qs)
      ∙ sym (keep-append (eqb_ℤ r.frames n) r (of_frames n rs) (of_frames n qs))

  replay-Ranked :
      (rs : List (SweepRow F)) (s : SweepFrame F)
      → Ranked s.rows_by_frame
      → Ranked (replay rs s).rows_by_frame
  unfolding add_result
  replay-Ranked [] s h = h
  replay-Ranked (r ∷ rs) s h =
      replay-Ranked rs (add_result r s) (sort_rows-Ranked (s.rows_by_frame ++ r ∷ []))

  replay-of_frames :
      (n : ℤ) (rs : List (SweepRow F)) (s : SweepFrame F)
      → of_frames n (replay rs s).rows_by_frame ≡ of_frames n (s.rows_by_frame ++ rs)
  unfolding add_result
  replay-of_frames n [] s = rw append-nil refl
  replay-of_frames n (r ∷ rs) s =
      replay-of_frames n rs (add_result r s)
      ∙ of_frames-append n (sort_rows (s.rows_by_frame ++ r ∷ [])) rs
      ∙ ap (λ qs. qs ++ of_frames n rs) (sort_rows-of_frames n (s.rows_by_frame ++ r ∷ []))
      ∙ sym (of_frames-append n (s.rows_by_frame ++ r ∷ []) rs)
      ∙ ap (of_frames n) (append_assoc s.rows_by_frame (r ∷ []) rs)

  -- After any results that arrive in a sweep, its rows go up by the number of frames, and those of
  -- one number are the results with that number, in the order in which they arrived.
  pub begin_sweep-Ranked :
      (frames : List ℤ) (policies : List String) (s : SweepFrame F) (rs : List (SweepRow F)) (n : ℤ)
      → Ranked (replay rs (begin_sweep frames policies s)).rows_by_frame
        × (of_frames n (replay rs (begin_sweep frames policies s)).rows_by_frame ≡ of_frames n rs)
  unfolding begin_sweep
  begin_sweep-Ranked frames policies s rs n = (
    replay-Ranked rs (begin_sweep frames policies s) tt,
    replay-of_frames n rs (begin_sweep frames policies s),
  )
