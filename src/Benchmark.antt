-- ===== src/Benchmark.antt =====
-- gui-app/app/services/benchmark_service.py, with the models of gui-app/app/models/benchmark_models.py:
-- BenchmarkService, which runs the same queries under several policies of the buffer pool. What it
-- calls of the server and of a query service is `Services`.
pub mod Summary
pub mod Laws
pub mod Cleared
use mathlib.Core.List.{◌++◌ as append}
use Prim.Native.String.{◌++◌}
use sql_parser.Base.{
  String, Bool, true, false, Option, none, some, List, [], ◌∷◌, length, str_eq, if◌then◌else◌, ℕ,
  suc,
}
use sql_parser.Base.Dict.{Dict, put}
use sql_parser.Base.Exec.{Exec, ◌>>=◌, pure}
use sql_parser.Base.Int.{ℤ, pos}
use sql_parser.Base.Result.{Result, ok, raised}
use sql_parser.Adapter.{Report}
use sql_parser.Storage.Protocol.Trace.{TraceEvent}
use sql_parser.Storage.Text.{strip}
use sql_parser.Value.{Runtime, str_int}

pub record ServerConfig : Type 0 where
  pub policy : String
  pub frames : ℤ
  pub host : String
  pub port : ℕ

-- ServerConfig(policy=policy, frames=frames), with the default host and port
abbrev pub server_config : String → ℤ → ServerConfig
server_config policy frames = record {
  policy = policy;
  frames = frames;
  host = "localhost";
  port = 5433;
}

pub record BenchmarkRecord (F : Type 0) : Type 0 where
  pub policy : String
  pub query : String
  pub hits : ℤ
  pub misses : ℤ
  pub evictions : ℤ
  pub hit_rate : F
  pub elapsed_time : F
  pub is_ok : Bool
  pub error : String

pub record BenchmarkRun (F : Type 0) : Type 0 where
  pub records : List (BenchmarkRecord F)
  pub policy_traces : Dict (List TraceEvent)
  pub trace_frame_counts : Dict ℤ

-- What happens outside of the service, on a state `S`: the server's process, the query service that
-- query_service_factory makes for a configuration, the file that the policy opt reads, the callback
-- on_trace_ready and the files of the results.
pub record Services ⦃rt : Runtime⦄ (S : Type 0) : Type 0 where
  pub is_running : S → Bool
  pub start : ServerConfig → Exec S (Unit {0})
  pub stop : Exec S (Unit {0})
  pub query_service : ServerConfig → Exec S (Unit {0})
  pub execute : ServerConfig → String → Exec S Report
  pub trace_start : ServerConfig → Exec S (Unit {0})
  pub trace_stop : ServerConfig → Exec S (List TraceEvent)
  pub trace_clear : ServerConfig → Exec S (Unit {0})
  pub write_trace : String → Exec S (Unit {0})
  pub save : BenchmarkRun rt.Float → Exec S (Unit {0})
  pub on_trace_ready : String → List TraceEvent → ℤ → Exec S (Unit {0})

-- benchmark_run, and what is outside
pub record Bench (F S : Type 0) : Type 0 where
  pub env : S
  pub run : BenchmarkRun F

-- f"{ev['table']}:{ev['page_id']}\n" for each event
unfoldable pub trace_text : List TraceEvent → String
unfolding str_int
trace_text [] = ""
trace_text (ev ∷ evs) = ev.table ++ (":" ++ (str_int ev.page_id ++ ("\n" ++ trace_text evs)))

-- _frame_count_from_trace
unfoldable pub frame_count_from_trace : List TraceEvent → ℤ → ℤ
frame_count_from_trace [] default = default
frame_count_from_trace (ev ∷ evs) default = elim ev.frames [
  | [] ↦ default
  | f ∷ fs ↦ pos (suc (length fs))
]

-- result.error or ""
abbrev pub error_or_blank : Option String → String
error_or_blank none = ""
error_or_blank (some e) = e

abbrev pub has_no_error : Option String → Bool
has_no_error none = true
has_no_error (some e) = false

module _ ⦃rt : Runtime⦄ where
  open rt use {Float}

  abbrev pub record_of : String → String → Report → BenchmarkRecord Float
  record_of policy query report = record {
    policy = policy;
    query = query;
    hits = report.result.metrics.hits;
    misses = report.result.metrics.misses;
    evictions = report.result.metrics.evictions;
    hit_rate = report.result.metrics.hit_rate;
    elapsed_time = report.result.metrics.elapsed_time;
    is_ok = has_no_error report.result.error;
    error = error_or_blank report.result.error;
  }

  -- not query.strip()
  abbrev pub is_blank : String → Bool
  is_blank query = str_eq (strip rt.is_space query) ""

module _ ⦃rt : Runtime⦄ {S : Type 0} where
  open rt use {Float}

  -- a call that leaves benchmark_run alone
  abbrev pub outside : {A : Type 0} → Exec S A → Exec (Bench Float S) A
  outside m b = let (r, s) = m b.env in (r, record b { env = s })

  abbrev pub update_run :
      (BenchmarkRun Float → BenchmarkRun Float) → Exec (Bench Float S) (Unit {0})
  update_run f b = (ok tt, record b { run = f b.run })

  abbrev pub add_record : BenchmarkRecord Float → Exec (Bench Float S) (Unit {0})
  add_record r = update_run (λ run. record run { records = append run.records (r ∷ []) })

  abbrev pub save_trace : String → List TraceEvent → ℤ → Exec (Bench Float S) (Unit {0})
  save_trace policy events count = update_run (λ run. record run {
    policy_traces = put policy events run.policy_traces;
    trace_frame_counts = put policy count run.trace_frame_counts;
  })

module _ ⦃rt : Runtime⦄ {S : Type 0} (services : Services S) where
  open rt use {Float}

  -- the loop over the queries
  unfoldable pub record_queries :
      ServerConfig → String → List String → Exec (Bench Float S) (Unit {0})
  unfolding strip
  record_queries config policy [] = pure tt
  record_queries config policy (query ∷ queries) =
      let recorded = outside (services.execute config query) >>= λ report.
      add_record (record_of policy query report) >>= λ _. record_queries config policy queries in
      let skipped = record_queries config policy queries in
      if is_blank query then skipped else recorded

  -- except Exception: query_service.trace_clear(); raise
  abbrev pub clear_and_raise :
      {A : Type 0} → ServerConfig → Result A × Bench Float S → Result A × Bench Float S
  clear_and_raise config (ok a, b) = (ok a, b)
  clear_and_raise config (raised e, b) =
      (outside (services.trace_clear config) >>= λ _. λ b'. (raised e, b')) b

  -- _record_policy
  unfoldable pub record_policy :
      ServerConfig → String → List String → Exec (Bench Float S) (List TraceEvent)
  unfolding record_queries
  record_policy config policy queries = outside (services.trace_start config) >>= λ _. λ b.
      clear_and_raise config
        ((record_queries config policy queries >>= λ _. outside (services.trace_stop config)) b)

  -- the trace and its number of frames, and the callback
  unfoldable pub keep_trace : String → ℤ → List TraceEvent → Exec (Bench Float S) (Unit {0})
  unfolding frame_count_from_trace
  keep_trace policy frames events =
      let count = frame_count_from_trace events frames in
      save_trace policy events count >>= λ _. outside (services.on_trace_ready policy events count)

  -- a server that is started for a configuration, and its queries
  unfoldable pub run_config : String → List String → ℤ → Exec (Bench Float S) (Unit {0})
  unfolding record_policy keep_trace
  run_config policy queries frames =
      let config : ServerConfig = server_config policy frames in
      outside (services.start config) >>= λ _. outside (services.query_service config) >>= λ _.
      record_policy config policy queries >>= λ events. keep_trace policy frames events

  -- the queries without their results
  unfoldable pub run_queries : ServerConfig → List String → Exec S (Unit {0})
  unfolding strip
  run_queries config [] = pure tt
  run_queries config (query ∷ queries) =
      let rest = run_queries config queries in
      if is_blank query then rest else services.execute config query >>= λ _. rest

  -- the first phase of _run_opt: the pages that the queries ask for
  unfoldable pub write_opt_trace : List String → ℤ → Exec S (Unit {0})
  unfolding run_queries trace_text
  write_opt_trace queries frames =
      let config : ServerConfig = server_config "nocache" frames in
      services.start config >>= λ _. services.query_service config >>= λ _.
      services.trace_start config >>= λ _. run_queries config queries >>= λ _.
      services.trace_stop config >>= λ events.
      services.stop >>= λ _. services.write_trace (trace_text events)

  -- _run_opt
  unfoldable pub run_opt : List String → ℤ → Exec (Bench Float S) (Unit {0})
  unfolding write_opt_trace run_config
  run_opt queries frames =
      outside (write_opt_trace queries frames) >>= λ _. run_config "opt" queries frames

  -- if self.server_service.is_running(): self.server_service.stop()
  abbrev pub stop_if_running : Exec (Bench Float S) (Unit {0})
  stop_if_running b = if services.is_running b.env then outside services.stop b else (ok tt, b)

  unfoldable pub run_policy : String → List String → ℤ → Exec (Bench Float S) (Unit {0})
  unfolding run_opt run_config
  run_policy policy queries frames = stop_if_running >>= λ _.
      if str_eq policy "opt" then run_opt queries frames else run_config policy queries frames

  -- the loop of run
  unfoldable pub run_policies : List String → List String → ℤ → Exec (Bench Float S) (Unit {0})
  unfolding run_policy
  run_policies [] queries frames = pure tt
  run_policies (policy ∷ policies) queries frames =
      run_policy policy queries frames >>= λ _. run_policies policies queries frames

  -- run: the loop, and the files of the results
  unfoldable pub run_benchmark : List String → List String → ℤ → Exec (Bench Float S) (Unit {0})
  unfolding run_policies
  run_benchmark policies queries frames =
      run_policies policies queries frames >>= λ _. λ b. outside (services.save b.run) b
