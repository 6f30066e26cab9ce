-- ===== src/Tests/Benchmark.antt =====
-- Runs of the benchmark with services that log what is called.
use mathlib.Core.List.{◌++◌}
use sql_parser.Base.{
  ◌≡◌, refl, String, true, false, none, [], ◌∷◌, List, ◌⊎◌, str_eq, if◌then◌else◌,
}
use sql_parser.Base.Dict.{get, put}
use sql_parser.Base.Exec.{Exec}
use sql_parser.Base.Int.{ℤ, pos, ◌+ℤ◌}
use sql_parser.Base.Result.{ok, raised, runtime_error}
use sql_parser.Adapter.{Report}
use sql_parser.Benchmark.{
  ServerConfig, server_config, Services, BenchmarkRecord, Bench, run_policies, run_policy,
  run_config, run_opt, write_opt_trace, run_queries, record_policy, record_queries, keep_trace,
  frame_count_from_trace, trace_text,
}
use sql_parser.Benchmark.Cleared.{Clears, record_policy-cleared}
use sql_parser.Benchmark.Laws.{recorded, all_pairs, run_policies-recorded}
use sql_parser.Benchmark.Summary.{
  PolicySummary, summarize_by_policy, totals_of, add_record, add_to_bucket, summary_of, rate_of,
}
use sql_parser.Benchmark.Summary.Laws.{of_policy}
use sql_parser.Benchmark.Summary.Sums.{Entry, summarize_by_policy-sums}
use sql_parser.Base.Dict.{Dict}
use sql_parser.Storage.Text.{strip}
use sql_parser.Tests.Sample.{sample}
use sql_parser.Tests.Telemetry.{some_metrics}

abbrev pub Calls : Type 0
Calls = List String

abbrev pub call : {A : Type 0} → String → A → Exec Calls A
call name a calls = (ok a, calls ++ name ∷ [])

abbrev pub report_of : String → Report
report_of query = record {
  result = record { query = query; metrics = some_metrics; error = none };
  rows = [];
  total_metrics = some_metrics;
}

-- A query service that runs every query but "BAD".
abbrev pub some_services : Services Calls
some_services = record {
  is_running = λ calls. false;
  start = λ config. call "start" tt;
  stop = call "stop" tt;
  query_service = λ config. call "service" tt;
  execute = λ config query calls.
      if str_eq query "BAD"
      then (raised (runtime_error query), calls)
      else call query (report_of query) calls;
  trace_start = λ config. call "trace_start" tt;
  trace_stop = λ config. call "trace_stop" [];
  trace_clear = λ config. call "trace_clear" tt;
  write_trace = λ text. call "write" tt;
  save = λ run. call "save" tt;
  on_trace_ready = λ policy events count. call "ready" tt;
}

abbrev new_bench : Bench ℤ Calls
new_bench = record {
  env = [];
  run = record { records = []; policy_traces = []; trace_frame_counts = [] };
}

abbrev pub two_queries : List String
two_queries = "SELECT 1" ∷ "  " ∷ []

abbrev after_run : Bench ℤ Calls
after_run = (run_policies some_services ("lru" ∷ "opt" ∷ []) two_queries (pos 4) new_bench).1

runs :
    run_policies some_services ("lru" ∷ "opt" ∷ []) two_queries (pos 4) new_bench
    ≡ (ok tt, after_run)
unfolding run_policies run_policy run_opt run_config write_opt_trace run_queries record_policy
    record_queries keep_trace frame_count_from_trace trace_text strip put
runs = refl

run_policies-recorded_example :
    recorded after_run
    ≡ recorded new_bench ++ all_pairs some_services ("lru" ∷ "opt" ∷ []) two_queries
run_policies-recorded_example =
    run_policies-recorded some_services ("lru" ∷ "opt" ∷ []) two_queries (pos 4) new_bench after_run
      runs

abbrev pub lru_config : ServerConfig
lru_config = server_config "lru" (pos 4)

abbrev after_bad : Bench ℤ Calls
after_bad = (record_policy some_services lru_config "lru" ("BAD" ∷ []) new_bench).1

fails :
    record_policy some_services lru_config "lru" ("BAD" ∷ []) new_bench
    ≡ (raised (runtime_error "BAD"), after_bad)
unfolding record_policy record_queries strip
fails = refl

record_policy-cleared_example :
    (some_services.trace_start lru_config [] ≡ (raised (runtime_error "BAD"), after_bad.env))
    ⊎ Clears some_services lru_config (runtime_error "BAD") after_bad.env
record_policy-cleared_example =
    record_policy-cleared some_services lru_config "lru" ("BAD" ∷ []) new_bench after_bad
      (runtime_error "BAD") fails

abbrev record_under : String → ℤ → BenchmarkRecord ℤ
record_under policy hits = record {
  policy = policy;
  query = "SELECT 1";
  hits = hits;
  misses = pos 1;
  evictions = pos 0;
  hit_rate = pos 0;
  elapsed_time = pos 2;
  is_ok = true;
  error = "";
}

abbrev three_records : List (BenchmarkRecord ℤ)
three_records =
    record_under "lru" (pos 5) ∷ record_under "clock" (pos 7) ∷ record_under "lru" (pos 3) ∷ []

-- hit_rate is what the sample's division gives, its first operand.
abbrev two_summaries : Dict (PolicySummary ℤ)
two_summaries =
    (
      "lru",
      record {
        hits = pos 8;
        misses = pos 2;
        evictions = pos 0;
        elapsed_time = pos 4;
        hit_rate = pos 8;
      },
    )
    ∷ (
      "clock",
      record {
        hits = pos 7;
        misses = pos 1;
        evictions = pos 0;
        elapsed_time = pos 2;
        hit_rate = pos 7;
      },
    )
    ∷ []

summed : summarize_by_policy (pos 0) three_records ≡ ok two_summaries
unfolding summarize_by_policy totals_of add_record add_to_bucket summary_of rate_of get put ◌+ℤ◌
summed = refl

summarize_by_policy-sums_example :
    Entry (pos 0) (of_policy "lru" three_records) (get "lru" two_summaries)
summarize_by_policy-sums_example =
    summarize_by_policy-sums (pos 0) three_records two_summaries "lru" summed
