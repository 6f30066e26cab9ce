-- ===== src/Telemetry/Laws.antt =====
-- Telemetry: the totals of the history agree with its events.
use mathlib.Core.List.{◌++◌}
use mathlib.Core.Path.{subst}
use sql_parser.Base.{String, ◌≡◌, refl, sym, ap, ◌∙◌, List, [], ◌∷◌}
use sql_parser.Base.Exec.{Exec, ◌>>=◌, >>=-eq-ok, lift}
use sql_parser.Base.Int.{ℤ, pos, ◌+ℤ◌}
use sql_parser.Base.Result.{Result, ok, raised}
use sql_parser.Value.{Runtime}
use sql_parser.Telemetry.{
  QueryMetrics, QueryResult, Kind, query, reset, server_start, TelemetryEvent, History, init,
  add_counts, add_elapsed, set_hit_rate, log_query, logged_event, record_query, reset_history,
  clear_for_new_server, clear_history, update,
}

-- The counters of metrics: hits, misses and evictions.
abbrev pub Counts : Type 0
Counts = ℤ × ℤ × ℤ

abbrev pub counts : {F : Type 0} → QueryMetrics F → Counts
counts m = (m.hits, m.misses, m.evictions)

abbrev pub plus : Counts → Counts → Counts
plus (a, b, c) (d, e, f) = (a +ℤ d, b +ℤ e, c +ℤ f)

-- The counters after an event: a query adds its own, and the other events set them to zero.
abbrev pub after : Counts → Kind → Counts → Counts
after n query d = plus n d
after n reset d = (pos 0, pos 0, pos 0)
after n server_start d = (pos 0, pos 0, pos 0)

abbrev pub after_event : {F : Type 0} → Counts → TelemetryEvent F → Counts
after_event n e = after n e.kind (counts e.delta_metrics)

-- From the counters `n` on, each event has the counters after it as its totals, and after the last
-- event they are those of `m`.
abbrev pub Follows : {F : Type 0} → Counts → List (TelemetryEvent F) → QueryMetrics F → Type 0
Follows n [] m = counts m ≡ n
Follows n (e ∷ es) m = (counts e.total_metrics ≡ after_event n e) × Follows (after_event n e) es m

Follows-append :
    {F : Type 0} (n : Counts) (es : List (TelemetryEvent F)) (e : TelemetryEvent F)
    (m m' : QueryMetrics F)
    → Follows n es m
    → counts e.total_metrics ≡ after_event (counts m) e
    → counts m' ≡ after_event (counts m) e
    → Follows n (es ++ e ∷ []) m'
Follows-append n [] e m m' h total now =
    let moved = ap (λ (k : Counts). after_event k e) h in (total ∙ moved, now ∙ moved)
Follows-append n (d ∷ es) e m m' h total now =
    (h.0, Follows-append (after_event n d) es e m m' h.1 total now)

module _ ⦃rt : Runtime⦄ (zero : rt.Float) where
  open rt use {Float}

  -- Only the field that `f` changes is another.
  set_from :
      (r : Result Float) (f : Float → QueryMetrics Float → QueryMetrics Float)
      → ((x : Float) (m : QueryMetrics Float) → counts (f x m) ≡ counts m)
      → (s : History Float)
      → (((lift r >>= λ x. update zero (f x)) s).1.events ≡ s.events)
        × (counts ((lift r >>= λ x. update zero (f x)) s).1.current_total ≡ counts s.current_total)
  set_from (ok x) f h s = (refl, h x s.current_total)
  set_from (raised e) f h s = (refl, refl)

  add_elapsed-keeps :
      (m : QueryMetrics Float) (s : History Float)
      → ((add_elapsed zero m s).1.events ≡ s.events)
        × (counts (add_elapsed zero m s).1.current_total ≡ counts s.current_total)
  unfolding add_elapsed
  add_elapsed-keeps m s = set_from _ (λ x t. record t { elapsed_time = x }) (λ x t. refl) s

  set_hit_rate-keeps :
      (s : History Float)
      → ((set_hit_rate zero s).1.events ≡ s.events)
        × (counts (set_hit_rate zero s).1.current_total ≡ counts s.current_total)
  unfolding set_hit_rate
  set_hit_rate-keeps s = set_from _ (λ x t. record t { hit_rate = x }) (λ x t. refl) s

  log_query-keeps :
      (now : String) (r : QueryResult Float) (n : Counts) (s s' t : History Float)
      (m : QueryMetrics Float)
      → log_query zero now r s' ≡ (ok m, t)
      → s'.events ≡ s.events
      → counts s'.current_total ≡ plus (counts s.current_total) (counts r.metrics)
      → Follows n s.events s.current_total
      → Follows n t.events t.current_total
  unfolding log_query
  log_query-keeps now r n s s' t m e listed counted h =
      subst (λ (u : History Float). Follows n u.events u.current_total)
        (ap (λ (p : Result (QueryMetrics Float) × History Float). p.1) e)
        (subst (λ es. Follows n (es ++ logged_event zero now r s' ∷ []) s'.current_total)
          (sym listed)
          (Follows-append n s.events (logged_event zero now r s') s.current_total s'.current_total h
            counted counted))

  -- A call of record_query that returns.
  record_query-keeps :
      (now : String) (r : QueryResult Float) (n : Counts) (s t : History Float)
      (m : QueryMetrics Float)
      → record_query zero now r s ≡ (ok m, t)
      → Follows n s.events s.current_total
      → Follows n t.events t.current_total
  unfolding record_query add_counts
  record_query-keeps now r n s t m e h =
      let logged : Unit {0} → Exec (History Float) (QueryMetrics Float) =
        λ _. log_query zero now r in
      let rated : Unit {0} → Exec (History Float) (QueryMetrics Float) =
        λ _. set_hit_rate zero >>= logged in
      let timed : Unit {0} → Exec (History Float) (QueryMetrics Float) =
        λ _. add_elapsed zero r.metrics >>= rated in
      let (_, s₁, e₁, k₁) = >>=-eq-ok timed (add_counts zero r.metrics) s e in
      let (_, s₂, e₂, k₂) = >>=-eq-ok rated (add_elapsed zero r.metrics) s₁ k₁ in
      let (_, s₃, e₃, k₃) = >>=-eq-ok logged (set_hit_rate zero) s₂ k₂ in
      let same_events = λ (p : Result (Unit {0}) × History Float). p.1.events in
      let same_counts = λ (p : Result (Unit {0}) × History Float). counts p.1.current_total in
      let listed : s₃.events ≡ s.events =
        sym (ap same_events e₃)
        ∙ (set_hit_rate-keeps s₂).0
        ∙ sym (ap same_events e₂)
        ∙ (add_elapsed-keeps r.metrics s₁).0
        ∙ sym (ap same_events e₁) in
      let counted : counts s₃.current_total ≡ plus (counts s.current_total) (counts r.metrics) =
        sym (ap same_counts e₃)
        ∙ (set_hit_rate-keeps s₂).1
        ∙ sym (ap same_counts e₂)
        ∙ (add_elapsed-keeps r.metrics s₁).1
        ∙ sym (ap same_counts e₁) in
      log_query-keeps now r n s s₃ t m k₃ listed counted h

  -- One call on the service; of record_query, one that returns.
  pub data Step : History Float → History Float → Type 0 where
    recorded :
        (now : String) (r : QueryResult Float) (s t : History Float) (m : QueryMetrics Float)
        → record_query zero now r s ≡ (ok m, t)
        → Step s t
    was_reset : (now : String) (s : History Float) → Step s (reset_history zero now s).1
    server_started : (now : String) (s : History Float) → Step s (clear_for_new_server zero now s).1
    cleared : (format : Float → String) (s : History Float) → Step s (clear_history format s).1

  -- The states that calls lead to, from a state on.
  pub data Reach (s : History Float) : History Float → Type 0 where
    here : Reach s s
    next : {t u : History Float} → Reach s t → Step t u → Reach s u

  -- The events say how the totals came about.
  abbrev pub IsConsistent : History Float → Type 0
  IsConsistent s = (n : Counts) × Follows n s.events s.current_total

  Step-IsConsistent : {s t : History Float} → Step s t → IsConsistent s → IsConsistent t
  unfolding reset_history clear_for_new_server clear_history
  Step-IsConsistent (recorded now r s t m e) (n, h) = (n, record_query-keeps now r n s t m e h)
  Step-IsConsistent (was_reset now s) (n, h) = (n, Follows-append n s.events _ _ _ h refl refl)
  Step-IsConsistent (server_started now s) (n, h) = (n, Follows-append n s.events _ _ _ h refl refl)
  Step-IsConsistent (cleared format s) c = (counts s.current_total, refl)

  -- In every state that calls on a new service lead to, those of record_query that raise nothing,
  -- there are counters from which the events of the history count up to the current totals: a query
  -- has as its totals those before it and its own counters, and a reset or a new server zero.
  pub Reach-IsConsistent : {t : History Float} → Reach (init zero) t → IsConsistent t
  Reach-IsConsistent here = ((pos 0, pos 0, pos 0), refl)
  Reach-IsConsistent (next r st) = Step-IsConsistent st (Reach-IsConsistent r)
