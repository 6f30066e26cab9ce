-- ===== src/Tests/Controller.antt =====
-- A session of the controller: a query before any server, a server, a query, a reset.
use sql_parser.Base.{String, ◌≡◌, refl, true, false, [], List, Bool}
use sql_parser.Base.Int.{ℤ, pos, ◌+ℤ◌, eqb_ℤ}
use sql_parser.Base.Result.{ok}
use sql_parser.Controller.{App, Traced, start_server, execute_query}
use sql_parser.Controller.Laws.{execute_query-recorded}
use sql_parser.Controller.Consistent.{
  Records, Calls, no_calls, then_call, started, executed, Calls-IsConsistent,
}
use sql_parser.Storage.Text.{strip}
use sql_parser.Telemetry.{
  History, QueryMetrics, init, record_query, add_counts, add_elapsed, set_hit_rate, log_query,
  clear_for_new_server, start_over,
}
use sql_parser.Telemetry.Laws.{IsConsistent}
use sql_parser.Tests.Benchmark.{some_services, lru_config, report_of}
use sql_parser.Tests.Sample.{sample}

abbrev pub new_app : App ℤ (List String)
new_app = record { env = []; history = init (pos 0) }

abbrev with_server : App ℤ (List String)
with_server = (start_server (pos 0) some_services "10:00" lru_config new_app).1

abbrev after_query : App ℤ (List String)
after_query = (execute_query (pos 0) some_services "10:01" lru_config "SELECT 1" true with_server).1

abbrev after_bad : App ℤ (List String)
after_bad = (execute_query (pos 0) some_services "10:02" lru_config "BAD" true after_query).1

-- The sample's arithmetic raises nothing.
records : Records {S = List String} (pos 0) some_services
unfolding record_query add_counts add_elapsed set_hit_rate log_query
records now r h = split (eqb_ℤ total (pos 0)) refl
  where
    total : ℤ
    total = (h.current_total.hits +ℤ r.metrics.hits) +ℤ (h.current_total.misses +ℤ r.metrics.misses)

    split :
        (b : Bool)
        → eqb_ℤ total (pos 0) ≡ b
        → (m : QueryMetrics ℤ) × (h' : History ℤ) × (record_query (pos 0) now r h ≡ (ok m, h'))
    split true e = rw e (_, _, refl)
    split false e = rw e (_, _, refl)

-- The query that raises an exception leaves no trace of itself in the history.
session : Calls (pos 0) some_services new_app after_bad
session =
    then_call
      (then_call (then_call no_calls (started "10:00" lru_config new_app))
        (executed "10:01" lru_config "SELECT 1" true with_server))
      (executed "10:02" lru_config "BAD" true after_query)

Calls-IsConsistent_example : IsConsistent (pos 0) after_bad.history
Calls-IsConsistent_example = Calls-IsConsistent (pos 0) some_services records refl session

abbrev answer : Traced
answer = record {
  report = record (report_of "SELECT 1") { total_metrics = after_query.history.current_total };
  trace_recorded = true;
  trace_events = [];
}

answered :
    execute_query (pos 0) some_services "10:01" lru_config "SELECT 1" true with_server
    ≡ (ok answer, after_query)
unfolding execute_query record_query add_counts add_elapsed set_hit_rate log_query start_server
    clear_for_new_server start_over ◌+ℤ◌ strip
answered = refl

execute_query-recorded_example :
    record_query (pos 0) "10:01" answer.report.result with_server.history
    ≡ (ok answer.report.total_metrics, after_query.history)
execute_query-recorded_example =
    execute_query-recorded (pos 0) some_services "10:01" lru_config "SELECT 1" true with_server
      after_query answer answered
