-- ===== src/Benchmark/Summary/Laws.antt =====
-- Benchmark/Summary: the summary of a policy is that of the policy's own records.
use sql_parser.Base.{
  String, false, Option, none, some, List, [], ◌∷◌, ◌≡◌, sym, ap, ◌∙◌, inl, inr, Bool-cases, str_eq,
  if◌then◌else◌, eq_iff,
}
use mathlib.Core.Path.{subst}
use sql_parser.Base.Dict.{Dict, get, get_or, put, get-put}
use sql_parser.Base.Result.{Result, ok, ◌>>=◌, >>=-eq-ok, fold_m, map_m, ok-injective}
use sql_parser.Benchmark.{BenchmarkRecord}
use sql_parser.Benchmark.Summary.{
  Bucket, PolicySummary, empty_bucket, add_to_bucket, add_record, totals_of, summary_of, entry,
  summarize_by_policy,
}
use sql_parser.Value.{Runtime}

-- The records of a policy, in their order.
abbrev pub of_policy : {F : Type 0} → String → List (BenchmarkRecord F) → List (BenchmarkRecord F)
of_policy p [] = []
of_policy p (r ∷ rs) = if str_eq r.policy p then r ∷ of_policy p rs else of_policy p rs

module _ ⦃rt : Runtime⦄ (zero : rt.Float) where
  open rt use {Float}

  abbrev pub or_empty : Option (Bucket Float) → Bucket Float
  or_empty none = empty_bucket zero
  or_empty (some b) = b

  -- The bucket of one policy through the records, where there may be none before the first one.
  abbrev pub own_total :
      Option (Bucket Float) → List (BenchmarkRecord Float) → Result (Option (Bucket Float))
  own_total o [] = ok o
  own_total o (r ∷ rs) = add_to_bucket zero (or_empty o) r >>= λ b. own_total (some b) rs

  own_total-step :
      (p : String) (r : BenchmarkRecord Float) (rs : List (BenchmarkRecord Float))
      (d d₁ : Dict (Bucket Float)) (b : Bucket Float) (o : Option (Bucket Float))
      → add_to_bucket zero (get_or r.policy (empty_bucket zero) d) r ≡ ok b
      → get p d₁ ≡ (if str_eq r.policy p then some b else get p d)
      → own_total (get p d₁) (of_policy p rs) ≡ ok o
      → own_total (get p d) (of_policy p (r ∷ rs)) ≡ ok o
  own_total-step p r rs d d₁ b o added stored ih = elim (Bool-cases (str_eq r.policy p)) [
    | inl same ↦
        let own : add_to_bucket zero (or_empty (get p d)) r ≡ ok b =
          subst (λ q. add_to_bucket zero (or_empty (get q d)) r ≡ ok b) ((eq_iff r.policy p).0 same)
            added in
        let now : get p d₁ ≡ some b = stored ∙ rw same in rw (same, own) (rw now at ih)
    | inr other ↦ let now : get p d₁ ≡ get p d = stored ∙ rw other in rw other (rw now at ih)
  ]

  -- The loop over all records does to a policy's bucket what its own records do.
  own_total-fold :
      (p : String) (records : List (BenchmarkRecord Float)) (d d' : Dict (Bucket Float))
      → fold_m (add_record zero) d records ≡ ok d'
      → own_total (get p d) (of_policy p records) ≡ ok (get p d')
  unfolding add_record
  own_total-fold p [] d d' e = ap ok (ap (get p) (ok-injective e))
  own_total-fold p (r ∷ rs) d d' e =
      let (d₁, step, rest) =
        >>=-eq-ok (add_record zero d r) (λ d. fold_m (add_record zero) d rs) e in
      let (b, added, stored) =
        >>=-eq-ok (add_to_bucket zero (get_or r.policy (empty_bucket zero) d) r)
          (λ b. ok (put r.policy b d)) step in
      own_total-step p r rs d d₁ b (get p d') added
        (ap (get p) (sym (ok-injective stored)) ∙ get-put r.policy p b d)
        (own_total-fold p rs d₁ d' rest)

  -- Of each bucket there is a summary, under its policy.
  abbrev pub Summary : String → Option (Bucket Float) → Dict (PolicySummary Float) → Type 0
  Summary p none summary = get p summary ≡ none
  Summary p (some b) summary =
      (s : PolicySummary Float) × (summary_of zero b ≡ ok s) × (get p summary ≡ some s)

  Summary-skip :
      (p q : String) (o : Option (Bucket Float)) (t : PolicySummary Float)
      (others : Dict (PolicySummary Float))
      → str_eq q p ≡ false
      → Summary p o others
      → Summary p o ((q, t) ∷ others)
  unfolding get
  Summary-skip p q none t others other h = rw other h
  Summary-skip p q (some b) t others other (s, e, h) = (s, e, rw other h)

  Summary-cons :
      (p q : String) (b : Bucket Float) (s : PolicySummary Float) (o : Option (Bucket Float))
      (others : Dict (PolicySummary Float))
      → summary_of zero b ≡ ok s
      → Summary p o others
      → Summary p (if str_eq q p then some b else o) ((q, s) ∷ others)
  unfolding get
  Summary-cons p q b s o others e h = elim (Bool-cases (str_eq q p)) [
    | inl same ↦ rw same (s, e, rw same)
    | inr other ↦ rw other (Summary-skip p q o s others other h)
  ]

  map_m-Summary :
      (p : String) (totals : Dict (Bucket Float)) (summary : Dict (PolicySummary Float))
      → map_m (entry zero) totals ≡ ok summary
      → Summary p (get p totals) summary
  unfolding get
  map_m-Summary p [] summary e = ap (get p) (sym (ok-injective e))
  map_m-Summary p ((q, b) ∷ totals) summary e =
      let (x, first, rest) =
        >>=-eq-ok (entry zero (q, b)) (λ y. map_m (entry zero) totals >>= λ ys. ok (y ∷ ys)) e in
      let (s, summed, named) = >>=-eq-ok (summary_of zero b) (λ s. ok (q, s)) first in
      let (others, mapped, listed) =
        >>=-eq-ok (map_m (entry zero) totals) (λ ys. ok (x ∷ ys)) rest in
      let all : (q, s) ∷ others ≡ summary =
        ap (λ y. y ∷ others) (ok-injective named) ∙ ok-injective listed in
      subst (Summary p (if str_eq q p then some b else get p totals)) all
        (Summary-cons p q b s (get p totals) others summed (map_m-Summary p totals others mapped))

  -- Where the summary is made, each policy has an entry exactly if it has a record, and the entry is
  -- made of the sums over the policy's own records, in their order.
  pub summarize_by_policy-own :
      (records : List (BenchmarkRecord Float)) (summary : Dict (PolicySummary Float)) (p : String)
      → summarize_by_policy zero records ≡ ok summary
      → (o : Option (Bucket Float)) × (own_total none (of_policy p records) ≡ ok o)
        × Summary p o summary
  unfolding summarize_by_policy totals_of get
  summarize_by_policy-own records summary p e =
      let (totals, folded, mapped) =
        >>=-eq-ok (fold_m (add_record zero) [] records) (λ totals. map_m (entry zero) totals) e in
      (
        get p totals,
        own_total-fold p records [] totals folded,
        map_m-Summary p totals summary mapped,
      )
