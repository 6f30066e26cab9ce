-- ===== src/Controller/Laws.antt =====
-- Controller: the telemetry history after a query.
use sql_parser.Base.{String, Bool, true, false, ◌≡◌, refl, ◌∙◌, ◌⊎◌, inl, inr}
use mathlib.Core.Path.{subst}
use sql_parser.Base.Exec.{Exec, ◌>>=◌, continue}
use sql_parser.Base.Result.{Result, ok, raised}
use sql_parser.Adapter.{Report}
use sql_parser.Benchmark.{ServerConfig, Services}
use sql_parser.Controller.{
  App, Traced, outside, set_total, clear_and_raise, start_trace, add_trace, run_query,
  record_result, execute_query,
}
use sql_parser.Telemetry.{QueryMetrics, QueryResult, History, record_query}
use sql_parser.Value.{Runtime}

module _ ⦃rt : Runtime⦄ {S : Type 0} where
  open rt use {Float}

  -- The call leaves the history alone, also where it raises.
  abbrev pub Keeps : {A : Type 0} → Exec (App Float S) A → Type 0
  Keeps m = (a : App Float S) → (m a).1.history ≡ a.history

  >>=-Keeps :
      {A B : Type 0} (m : Exec (App Float S) A) (f : A → Exec (App Float S) B)
      → Keeps m
      → ((x : A) → Keeps (f x))
      → Keeps (m >>= f)
  >>=-Keeps {A} {B} m f h k a = split (m a) (h a)
    where
      split :
          (p : Result A × App Float S)
          → p.1.history ≡ a.history
          → (continue p.0 f p.1).1.history ≡ a.history
      split (ok x, b) e = k x b ∙ e
      split (raised x, b) e = e

module _ ⦃rt : Runtime⦄ {S : Type 0} (zero : rt.Float) (services : Services S) where
  open rt use {Float}

  clear_and_raise-history :
      (traced : Bool) (config : ServerConfig) (p : Result Report × App Float S)
      → (clear_and_raise zero services traced config p).1.history ≡ p.1.history
  clear_and_raise-history traced config (ok report, a) = refl
  clear_and_raise-history false config (raised e, a) = refl
  clear_and_raise-history true config (raised e, a) =
      >>=-Keeps (outside (services.trace_clear config)) (λ _ a'. (raised e, a')) (λ _. refl)
        (λ _ _. refl) a

  start_trace-Keeps :
      (traced : Bool) (config : ServerConfig) → Keeps (start_trace zero services traced config)
  start_trace-Keeps false config a = refl
  start_trace-Keeps true config a = refl

  add_trace-Keeps :
      (traced : Bool) (config : ServerConfig) (report : Report)
      → Keeps (add_trace zero services traced config report)
  add_trace-Keeps false config report a = refl
  add_trace-Keeps true config report a =
      >>=-Keeps (outside (services.trace_stop config)) _ (λ _. refl) (λ _ _. refl) a

  run_query-Keeps :
      (config : ServerConfig) (query : String) (traced : Bool)
      → Keeps (run_query zero services config query traced)
  unfolding run_query
  run_query-Keeps config query traced =
      >>=-Keeps (outside (services.query_service config)) _ (λ _. refl)
        λ _.
          >>=-Keeps (start_trace zero services traced config) _ (start_trace-Keeps traced config)
            λ _.
              >>=-Keeps _ (add_trace zero services traced config)
                (λ a.
                  clear_and_raise-history traced config (outside (services.execute config query) a))
                (add_trace-Keeps traced config)

  -- The history takes in the result, or the exception is that of taking it in.
  abbrev pub Taken : String → History Float → Result Traced × App Float S → Type 0
  Taken now before (ok t, b) =
      record_query zero now t.report.result before ≡ (ok t.report.total_metrics, b.history)
  Taken now before (raised x, b) =
      (b.history ≡ before)
      ⊎ ((r : QueryResult Float) × (record_query zero now r before ≡ (raised x, b.history)))

  record_result-Taken :
      (now : String) (t : Traced) (a : App Float S)
      → Taken now a.history (record_result zero services now t a)
  unfolding record_result
  record_result-Taken now t a = split (record_query zero now t.report.result a.history) refl
    where
      split :
          (p : Result (QueryMetrics Float) × History Float)
          → record_query zero now t.report.result a.history ≡ p
          → Taken now a.history
              (continue p.0 (λ m b. (ok (set_total t m), b)) (record a { history = p.1 }))
      split (ok m, h) e = e
      split (raised x, h) e = inr (t.report.result, e)

  pub execute_query-Taken :
      (now : String) (config : ServerConfig) (query : String) (traced : Bool) (a : App Float S)
      → Taken now a.history (execute_query zero services now config query traced a)
  unfolding execute_query
  execute_query-Taken now config query traced a =
      split (run_query zero services config query traced a) (run_query-Keeps config query traced a)
    where
      split :
          (p : Result Traced × App Float S)
          → p.1.history ≡ a.history
          → Taken now a.history (continue p.0 (record_result zero services now) p.1)
      split (ok t, b) e =
          subst (λ h. Taken now h (record_result zero services now t b)) e
            (record_result-Taken now t b)
      split (raised x, b) e = inl e

  -- A call of execute_query that returns has put its result into the history: record_query returns
  -- for that result, from the history before it, the totals that the caller gets and the history
  -- after it.
  pub execute_query-recorded :
      (now : String) (config : ServerConfig) (query : String) (traced : Bool) (a b : App Float S)
      (t : Traced)
      → execute_query zero services now config query traced a ≡ (ok t, b)
      → record_query zero now t.report.result a.history ≡ (ok t.report.total_metrics, b.history)
  execute_query-recorded now config query traced a b t e =
      subst (Taken now a.history) e (execute_query-Taken now config query traced a)
