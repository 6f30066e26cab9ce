-- ===== src/Controller/Consistent.antt =====
-- Controller: the telemetry history in every state that its calls lead to.
use sql_parser.Base.{String, Bool, List, ◌≡◌, refl, ◌⊎◌, inl, inr}
use mathlib.Core.Path.{subst}
use sql_parser.Base.Exec.{Exec, ◌>>=◌, continue}
use sql_parser.Base.Int.{ℤ}
use sql_parser.Base.Result.{Result, ok, raised}
use sql_parser.Controller.Laws.{Keeps, Taken, execute_query-Taken}
use sql_parser.Benchmark.{ServerConfig, Services, Bench}
use sql_parser.Controller.{
  App, Traced, outside, hand_over, execute_query, start_server, stop_server, run_benchmark,
  reset_telemetry, reset_metrics, clear_telemetry_history,
}
use sql_parser.Telemetry.{QueryMetrics, QueryResult, History, init, record_query}
use sql_parser.Telemetry.Laws.{
  Step, Reach, here, next, recorded, was_reset, server_started, cleared, IsConsistent,
  Reach-IsConsistent,
}
use sql_parser.Value.{Runtime}

module _ ⦃rt : Runtime⦄ {S : Type 0} (zero : rt.Float) (services : Services S) where
  open rt use {Float}

  -- One call on the controller, with its outcome, an exception or not.
  pub data Call : App Float S → App Float S → Type 0 where
    started :
        (now : String) (config : ServerConfig) (a : App Float S)
        → Call a (start_server zero services now config a).1
    stopped : (a : App Float S) → Call a (stop_server zero services a).1
    executed :
        (now : String) (config : ServerConfig) (query : String) (traced : Bool) (a : App Float S)
        → Call a (execute_query zero services now config query traced a).1
    benchmarked :
        (policies queries : List String) (frames : ℤ) (a : App Float S)
        → Call a (run_benchmark zero services policies queries frames a).1
    totals_reset : (now : String) (a : App Float S) → Call a (reset_telemetry zero services now a).1
    metrics_reset :
        (reset_server : ServerConfig → Exec S (Unit {0})) (now : String) (config : ServerConfig)
        (a : App Float S)
        → Call a (reset_metrics zero services reset_server now config a).1
    history_cleared :
        (format : Float → String) (a : App Float S)
        → Call a (clear_telemetry_history zero services format a).1

  -- The states that calls lead to, from a state on.
  pub data Calls (a : App Float S) : App Float S → Type 0 where
    no_calls : Calls a a
    then_call : {b c : App Float S} → Calls a b → Call b c → Calls a c

  -- record_query raises no exception.
  abbrev pub Records : Type 0
  Records =
      (now : String) (r : QueryResult Float) (h : History Float)
      → (m : QueryMetrics Float) × (h' : History Float) × (record_query zero now r h ≡ (ok m, h'))

  -- The history is as it was, or one step further.
  abbrev Moves : History Float → History Float → Type 0
  Moves h h' = (h' ≡ h) ⊎ Step zero h h'

  Taken-Moves :
      Records
      → (now : String) (h : History Float) (p : Result Traced × App Float S)
      → Taken zero services now h p
      → Moves h p.1.history
  Taken-Moves records now h (ok t, b) e = inr (recorded now t.report.result h _ _ e)
  Taken-Moves records now h (raised x, b) (inl same) = inl same
  Taken-Moves records now h (raised x, b) (inr (r, e)) = let (m, h', k) = records now r h in cc

  -- What comes last is a call on the history, if nothing before it raises.
  last-Moves :
      {A B : Type 0} (m : Exec (App Float S) A) (f : A → Exec (App Float S) B) (a : App Float S)
      → Keeps m
      → ((x : A) (b : App Float S) → Moves b.history (f x b).1.history)
      → Moves a.history ((m >>= f) a).1.history
  last-Moves {A} {B} m f a kept moves = split (m a) (kept a)
    where
      split :
          (p : Result A × App Float S)
          → p.1.history ≡ a.history
          → Moves a.history (continue p.0 f p.1).1.history
      split (ok x, b) e = subst (λ h. Moves h (f x b).1.history) e (moves x b)
      split (raised x, b) e = inl e

  hand_over-history :
      (p : Result (Unit {0}) × Bench Float S) (h : History Float) → (hand_over p h).1.history ≡ h
  hand_over-history (ok _, b) h = refl
  hand_over-history (raised e, b) h = refl

  Call-Moves : Records → {a b : App Float S} → Call a b → Moves a.history b.history
  unfolding start_server stop_server run_benchmark reset_metrics clear_telemetry_history
  Call-Moves records (started now config a) =
      last-Moves (outside (services.start config)) _ a (λ _. refl)
        λ _ b. inr (server_started now b.history)
  Call-Moves records (stopped a) = inl refl
  Call-Moves records (executed now config query traced a) =
      Taken-Moves records now a.history _
        (execute_query-Taken zero services now config query traced a)
  Call-Moves records (benchmarked policies queries frames a) = inl (hand_over-history _ a.history)
  Call-Moves records (totals_reset now a) = inr (was_reset now a.history)
  Call-Moves records (metrics_reset reset_server now config a) =
      last-Moves (outside (services.query_service config)) _ a (λ _. refl)
        λ _ b.
          last-Moves (outside (reset_server config)) _ b (λ _. refl)
            λ _ c. inr (was_reset now c.history)
  Call-Moves records (history_cleared format a) = inr (cleared format a.history)

  Moves-Reach :
      {h h' : History Float} → Moves h h' → Reach zero (init zero) h → Reach zero (init zero) h'
  Moves-Reach (inl same) r = rw same r
  Moves-Reach (inr step) r = next r step

  Calls-Reach :
      Records
      → {a b : App Float S} → Calls a b
      → Reach zero (init zero) a.history
      → Reach zero (init zero) b.history
  Calls-Reach records no_calls r = r
  Calls-Reach records (then_call calls call) r =
      Moves-Reach (Call-Moves records call) (Calls-Reach records calls r)

  -- In every state that calls on the controller lead to from a new history, whether they raise an
  -- exception or not, the events of the history count up to its totals, if record_query raises no
  -- exception.
  pub Calls-IsConsistent :
      Records
      → {a b : App Float S} → a.history ≡ init zero
      → Calls a b
      → IsConsistent zero b.history
  Calls-IsConsistent records e calls =
      Reach-IsConsistent zero (Calls-Reach records calls (rw e here))
