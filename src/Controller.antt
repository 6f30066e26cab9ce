-- ===== src/Controller.antt =====
-- gui-app/app/controllers/app_controller.py: AppController, which keeps the telemetry history in step
-- with the server and the queries. The service of the server's process and a query service, which
-- gui-app/app/services/query_service.py hands on to the adapter, are `Services`; the clock's text is
-- a parameter of each call.
pub mod Laws
pub mod Consistent
use sql_parser.Base.{String, Bool, true, false, List, [], if◌then◌else◌}
use sql_parser.Base.Dict.{Dict}
use sql_parser.Base.Exec.{Exec, ◌>>=◌, pure}
use sql_parser.Base.Int.{ℤ}
use sql_parser.Base.Result.{Result, ok, raised}
use sql_parser.Adapter.{Report}
use sql_parser.Benchmark
use sql_parser.Benchmark.{ServerConfig, Services, Bench, BenchmarkRun}
use sql_parser.Storage.Protocol.Trace.{TraceEvent}
use sql_parser.Telemetry.{
  QueryMetrics, History, record_query, reset_history, clear_for_new_server, clear_history,
  history_rows,
}
use sql_parser.Value.{Runtime}

-- What is outside, and the service of the telemetry history.
pub record App (F S : Type 0) : Type 0 where
  pub env : S
  pub history : History F

-- QueryExecutionResult with the trace that the controller adds.
pub record Traced ⦃rt : Runtime⦄ : Type 0 where
  pub report : Report
  pub trace_recorded : Bool
  pub trace_events : List TraceEvent

module _ ⦃rt : Runtime⦄ where
  open rt use {Float}

  abbrev pub untraced : Report → Traced
  untraced report = record { report = report; trace_recorded = false; trace_events = [] }

  -- result.total_metrics = ...
  abbrev pub set_total : Traced → QueryMetrics Float → Traced
  set_total t m = record t { report = record t.report { total_metrics = m } }

module _ ⦃rt : Runtime⦄ {S : Type 0} where
  open rt use {Float}

  -- a call that leaves the history alone
  abbrev pub outside : {A : Type 0} → Exec S A → Exec (App Float S) A
  outside m a = let (r, s) = m a.env in (r, record a { env = s })

  -- a call of the history that may raise, and one that may not
  abbrev pub on_history : {A : Type 0} → Exec (History Float) A → Exec (App Float S) A
  on_history m a = let (r, h) = m a.history in (r, record a { history = h })

  abbrev pub with_history :
      {A : Type 0} → (History Float → A × History Float) → Exec (App Float S) A
  with_history m a = let (x, h) = m a.history in (ok x, record a { history = h })

  -- new, with a run that has no records
  abbrev pub new_bench : S → Bench Float S
  new_bench env = record {
    env = env;
    run = record { records = []; policy_traces = []; trace_frame_counts = [] };
  }

  -- the run that the service of the benchmark returns
  abbrev pub hand_over :
      Result (Unit {0}) × Bench Float S → History Float → Result (BenchmarkRun Float) × App Float S
  hand_over (ok _, b) h = (ok b.run, record { env = b.env; history = h })
  hand_over (raised e, b) h = (raised e, record { env = b.env; history = h })

module _ ⦃rt : Runtime⦄ {S : Type 0} (zero : rt.Float) (services : Services S) where
  open rt use {Float}

  -- start_server
  unfoldable pub start_server : String → ServerConfig → Exec (App Float S) (QueryMetrics Float)
  start_server now config =
      outside (services.start config) >>= λ _. with_history (clear_for_new_server zero now)

  -- stop_server
  unfoldable pub stop_server : Exec (App Float S) (Unit {0})
  stop_server = outside services.stop

  -- except Exception: if record_trace: query_service.trace_clear(); raise
  abbrev pub clear_and_raise :
      Bool → ServerConfig → Result Report × App Float S → Result Report × App Float S
  clear_and_raise traced config (ok report, a) = (ok report, a)
  clear_and_raise false config (raised e, a) = (raised e, a)
  clear_and_raise true config (raised e, a) =
      (outside (services.trace_clear config) >>= λ _. λ a'. (raised e, a')) a

  -- if record_trace: query_service.trace_start()
  abbrev pub start_trace : Bool → ServerConfig → Exec (App Float S) (Unit {0})
  start_trace false config = pure tt
  start_trace true config = outside (services.trace_start config)

  -- result.trace_recorded and result.trace_events
  abbrev pub add_trace : Bool → ServerConfig → Report → Exec (App Float S) Traced
  add_trace false config report = pure (untraced report)
  add_trace true config report = outside (services.trace_stop config) >>= λ events.
      pure (record { report = report; trace_recorded = true; trace_events = events })

  -- the query, with its trace, before it enters the history
  unfoldable pub run_query : ServerConfig → String → Bool → Exec (App Float S) Traced
  run_query config query traced = outside (services.query_service config) >>= λ _.
      start_trace traced config >>= λ _.
      (λ a. clear_and_raise traced config (outside (services.execute config query) a))
      >>= add_trace traced config

  -- result.total_metrics = self.telemetry_history_service.record_query(result)
  unfoldable pub record_result : String → Traced → Exec (App Float S) Traced
  record_result now t =
      on_history (record_query zero now t.report.result) >>= λ m. pure (set_total t m)

  -- execute_query
  unfoldable pub execute_query : String → ServerConfig → String → Bool → Exec (App Float S) Traced
  unfolding run_query record_result
  execute_query now config query traced = run_query config query traced >>= record_result now

  -- run_benchmark
  unfoldable pub run_benchmark :
      List String → List String → ℤ → Exec (App Float S) (BenchmarkRun Float)
  run_benchmark policies queries frames a =
      hand_over (Benchmark.run_benchmark services policies queries frames (new_bench a.env))
        a.history

  -- reset_telemetry
  unfoldable pub reset_telemetry : String → Exec (App Float S) (QueryMetrics Float)
  reset_telemetry now = with_history (reset_history zero now)

  -- reset_metrics, whose command to the server is an argument
  unfoldable pub reset_metrics :
      (ServerConfig → Exec S (Unit {0}))
      → String
      → ServerConfig
      → Exec (App Float S) (QueryMetrics Float)
  unfolding reset_telemetry
  reset_metrics reset_server now config = outside (services.query_service config) >>= λ _.
      outside (reset_server config) >>= λ _. reset_telemetry now

  -- clear_telemetry_history
  unfoldable pub clear_telemetry_history :
      (Float → String) → Exec (App Float S) (List (Dict String))
  clear_telemetry_history format = with_history (clear_history format)
