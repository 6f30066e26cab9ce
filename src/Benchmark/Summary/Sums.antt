-- ===== src/Benchmark/Summary/Sums.antt =====
-- Benchmark/Summary: the numbers of a policy's summary are the sums over the policy's own records.
use sql_parser.Base.{
  String, true, false, Option, none, some, List, [], ◌∷◌, ◌≡◌, ◌≢◌, sym, ap, ◌∙◌, ◌⊎◌, inl, inr,
  Bool-cases, if◌then◌else◌,
}
use mathlib.Core.Path.{subst}
use sql_parser.Base.Dict.{Dict, get}
use sql_parser.Base.Int.{pos}
use sql_parser.Base.Result.{Result, ok, ◌>>=◌, >>=-eq-ok, ok-injective}
use sql_parser.Benchmark.{BenchmarkRecord}
use sql_parser.Benchmark.Summary.{
  Bucket, PolicySummary, empty_bucket, add_to_bucket, rate_of, summary_of, summarize_by_policy,
}
use sql_parser.Benchmark.Summary.Laws.{
  of_policy, own_total, or_empty, Summary, summarize_by_policy-own,
}
use sql_parser.Value.{Runtime, Num, whole, real}

module _ ⦃rt : Runtime⦄ where
  open rt use {Float}

  -- The sum of a number of each record, from a float on, in the order of the records.
  abbrev pub sum_by :
      (BenchmarkRecord Float → Num Float) → Float → List (BenchmarkRecord Float) → Result Float
  sum_by f x [] = ok x
  sum_by f x (r ∷ rs) = rt.float_add (real x) (f r) >>= λ y. sum_by f y rs

module _ ⦃rt : Runtime⦄ (zero : rt.Float) where
  open rt use {Float}

  -- The sums of the records, from those of a bucket on.
  abbrev Sums : Bucket Float → List (BenchmarkRecord Float) → Bucket Float → Type 0
  Sums b rs b' =
      (sum_by (λ r. whole r.hits) b.hits rs ≡ ok b'.hits)
      × (sum_by (λ r. whole r.misses) b.misses rs ≡ ok b'.misses)
      × (sum_by (λ r. whole r.evictions) b.evictions rs ≡ ok b'.evictions)
      × (sum_by (λ r. real r.elapsed_time) b.elapsed_time rs ≡ ok b'.elapsed_time)

  -- One record more in a bucket.
  add_to_bucket-Sums :
      (b b' : Bucket Float) (r : BenchmarkRecord Float) (rs : List (BenchmarkRecord Float))
      (c : Bucket Float)
      → add_to_bucket zero b r ≡ ok b'
      → Sums b' rs c
      → Sums b (r ∷ rs) c
  unfolding add_to_bucket
  add_to_bucket-Sums b b' r rs c e (h, m, v, t) =
      let (hits, eh, e₁) = >>=-eq-ok (rt.float_add (real b.hits) (whole r.hits)) _ e in
      let (misses, em, e₂) = >>=-eq-ok (rt.float_add (real b.misses) (whole r.misses)) _ e₁ in
      let (evictions, ev, e₃) =
        >>=-eq-ok (rt.float_add (real b.evictions) (whole r.evictions)) _ e₂ in
      let (elapsed, et, e₄) =
        >>=-eq-ok (rt.float_add (real b.elapsed_time) (real r.elapsed_time)) _ e₃ in
      let (count, en, e₅) = >>=-eq-ok (rt.float_add (real b.count) (whole (pos 1))) _ e₄ in
      let made = ok-injective e₅ in
      (
        rw (eh) (ap (λ (k : Bucket Float). sum_by (λ r. whole r.hits) k.hits rs) made ∙ h),
        rw (em) (ap (λ (k : Bucket Float). sum_by (λ r. whole r.misses) k.misses rs) made ∙ m),
        rw (ev)
            (ap (λ (k : Bucket Float). sum_by (λ r. whole r.evictions) k.evictions rs) made ∙ v),
        rw (et) (
            ap (λ (k : Bucket Float). sum_by (λ r. real r.elapsed_time) k.elapsed_time rs) made
            ∙ t),
      )

  own_total-Sums :
      (o : Option (Bucket Float)) (rs : List (BenchmarkRecord Float)) (b' : Bucket Float)
      → own_total zero o rs ≡ ok (some b')
      → Sums (or_empty zero o) rs b'
  own_total-Sums none [] b' e = cc
  own_total-Sums (some b) [] b' e =
      let same : b ≡ b' = cc in
      (
        ap (λ (k : Bucket Float). ok k.hits) same,
        ap (λ (k : Bucket Float). ok k.misses) same,
        ap (λ (k : Bucket Float). ok k.evictions) same,
        ap (λ (k : Bucket Float). ok k.elapsed_time) same,
      )
  own_total-Sums o (r ∷ rs) b' e =
      let (b, added, rest) = >>=-eq-ok (add_to_bucket zero (or_empty zero o) r) _ e in
      add_to_bucket-Sums (or_empty zero o) b r rs b' added (own_total-Sums (some b) rs b' rest)

  -- hits / (hits + misses), or 0.0 where there were none
  abbrev pub IsRate : Float → Float → Float → Type 0
  IsRate hits misses rate =
      (total : Float) × (rt.float_add (real hits) (real misses) ≡ ok total)
      × (((rt.float_eq (real total) (whole (pos 0)) ≡ true) × (rate ≡ zero))
          ⊎ ((rt.float_eq (real total) (whole (pos 0)) ≡ false)
              × (rt.float_div (real hits) (real total) ≡ ok rate)))

  rate_of-IsRate :
      (b : Bucket Float) (rate : Float) → rate_of zero b ≡ ok rate → IsRate b.hits b.misses rate
  unfolding rate_of
  rate_of-IsRate b rate e =
      let (total, added, e₁) = >>=-eq-ok (rt.float_add (real b.hits) (real b.misses)) _ e in
      (total, added, cases total e₁)
    where
      cases :
          (total : Float)
          → (if rt.float_eq (real total) (whole (pos 0))
              then ok zero
              else rt.float_div (real b.hits) (real total))
            ≡ ok rate
          → ((rt.float_eq (real total) (whole (pos 0)) ≡ true) × (rate ≡ zero))
            ⊎ ((rt.float_eq (real total) (whole (pos 0)) ≡ false)
                × (rt.float_div (real b.hits) (real total) ≡ ok rate))
      cases total h = elim (Bool-cases (rt.float_eq (real total) (whole (pos 0)))) [
        | inl none_at_all ↦
            let h₁ : ok zero ≡ ok rate = rw none_at_all at h in
            inl (none_at_all, sym (ok-injective h₁))
        | inr some_at_all ↦ inr (some_at_all, (rw some_at_all at h))
      ]

  -- The entry of a policy with these records of its own: none without records, and otherwise their
  -- sums and the hit rate of these.
  abbrev pub Entry : List (BenchmarkRecord Float) → Option (PolicySummary Float) → Type 0
  Entry [] o = o ≡ none
  Entry (r ∷ rs) o =
      (s : PolicySummary Float) × (o ≡ some s)
      × (sum_by (λ q. whole q.hits) zero (r ∷ rs) ≡ ok s.hits)
      × (sum_by (λ q. whole q.misses) zero (r ∷ rs) ≡ ok s.misses)
      × (sum_by (λ q. whole q.evictions) zero (r ∷ rs) ≡ ok s.evictions)
      × (sum_by (λ q. real q.elapsed_time) zero (r ∷ rs) ≡ ok s.elapsed_time)
      × IsRate s.hits s.misses s.hit_rate

  summary_of-Entry :
      (r : BenchmarkRecord Float) (rs : List (BenchmarkRecord Float)) (b : Bucket Float)
      (s : PolicySummary Float) (o : Option (PolicySummary Float))
      → summary_of zero b ≡ ok s
      → o ≡ some s
      → Sums (empty_bucket zero) (r ∷ rs) b
      → Entry (r ∷ rs) o
  unfolding summary_of
  summary_of-Entry r rs b s o e stored (h, m, v, t) =
      let (rate, er, e₁) = >>=-eq-ok (rate_of zero b) _ e in
      let made = ok-injective e₁ in
      (
        s,
        stored,
        h ∙ ap (λ (k : PolicySummary Float). ok k.hits) made,
        m ∙ ap (λ (k : PolicySummary Float). ok k.misses) made,
        v ∙ ap (λ (k : PolicySummary Float). ok k.evictions) made,
        t ∙ ap (λ (k : PolicySummary Float). ok k.elapsed_time) made,
        subst (λ (k : PolicySummary Float). IsRate k.hits k.misses k.hit_rate) made
            (rate_of-IsRate b rate er),
      )

  own_total-ne-none :
      (b : Bucket Float) (rs : List (BenchmarkRecord Float)) → own_total zero (some b) rs ≢ ok none
  own_total-ne-none b [] e = cc
  own_total-ne-none b (r ∷ rs) e =
      let (b', added, rest) = >>=-eq-ok (add_to_bucket zero b r) _ e in own_total-ne-none b' rs rest

  own_total-Entry :
      (own : List (BenchmarkRecord Float)) (o : Option (Bucket Float)) (p : String)
      (summary : Dict (PolicySummary Float))
      → own_total zero none own ≡ ok o
      → Summary zero p o summary
      → Entry own (get p summary)
  own_total-Entry [] none p summary e h = h
  own_total-Entry [] (some b) p summary e h = cc
  own_total-Entry (r ∷ rs) none p summary e h =
      let (b, added, rest) = >>=-eq-ok (add_to_bucket zero (empty_bucket zero) r) _ e in
      absurd (own_total-ne-none b rs rest)
  own_total-Entry (r ∷ rs) (some b) p summary e (s, made, stored) =
      summary_of-Entry r rs b s (get p summary) made stored (own_total-Sums none (r ∷ rs) b e)

  -- Where the summary is made, a policy without records has no entry, and the entry of any other has
  -- the sums of the hits, misses, evictions and times of the policy's own records, in their order,
  -- and as its hit rate the hits by the hits and misses, or 0.0 where these are equal to 0.
  pub summarize_by_policy-sums :
      (records : List (BenchmarkRecord Float)) (summary : Dict (PolicySummary Float)) (p : String)
      → summarize_by_policy zero records ≡ ok summary
      → Entry (of_policy p records) (get p summary)
  summarize_by_policy-sums records summary p e =
      let (o, totals, made) = summarize_by_policy-own zero records summary p e in
      own_total-Entry (of_policy p records) o p summary totals made
