-- ===== src/Adapter.antt =====
-- gui-app/app/adapters/sql_engine_adapter.py: SQLEngineAdapter, which runs a query for the GUI and
-- takes the server's counters before and after it. The literal 0.0, the time that the query took, the
-- messages of exceptions and what PLY prints on a syntax error are parameters.
pub mod Laws
use sql_parser.Base.{
  ℕ, String, Bool, true, false, Option, none, some, List, [], str_eq, if◌then◌else◌,
}
use sql_parser.Base.Dict.{Dict, get_or}
use sql_parser.Base.Exec.{Exec, ◌>>=◌, pure, lift}
use sql_parser.Base.Int.{ℤ, pos, ◌+ℤ◌, ◌-ℤ◌, eqb_ℤ}
use sql_parser.Base.Result
use sql_parser.Base.Result.{Result, ok, raised, Error, type_error, runtime_error}
use sql_parser.Console.{ends_with, drop_last}
use sql_parser.Executor.{execute}
use sql_parser.Lexer.{Unicode, tokenize}
use sql_parser.Parser.{Yacc, parse}
use sql_parser.Plan.{plan, Plan}
use sql_parser.Storage.Protocol.{Response}
use sql_parser.Storage.Server.{ask, server_storage}
use sql_parser.Storage.Text.{strip}
use sql_parser.Table.{Rows}
use sql_parser.Telemetry.{QueryMetrics, QueryResult, no_metrics}
use sql_parser.Value.{Runtime, Val, whole, null, bool, int, float, str}

-- QueryExecutionResult as the adapter fills it.
pub record Report ⦃rt : Runtime⦄ : Type 0 where
  pub result : QueryResult rt.Float
  pub rows : Rows
  pub total_metrics : QueryMetrics rt.Float

module _ ⦃rt : Runtime⦄ where
  open rt use {Float}

  -- int(v), float(v)
  unfoldable pub py_int : Val → Result ℤ
  py_int null = raised type_error
  py_int (bool b) = ok (pos (if b then 1 else 0))
  py_int (int n) = ok n
  py_int (float x) = rt.trunc x
  py_int (str s) = rt.parse_int s

  unfoldable pub py_float : Val → Result Float
  py_float null = raised type_error
  py_float (bool b) = rt.to_float (whole (pos (if b then 1 else 0)))
  py_float (int n) = rt.to_float (whole n)
  py_float (float x) = ok x
  py_float (str s) = rt.parse_float s

  -- int(snapshot.get(key, 0))
  unfoldable pub metric : String → Dict Val → Result ℤ
  unfolding py_int
  metric key snapshot = py_int (get_or key (int (pos 0)) snapshot)

  -- int(after.get(key, 0)) - int(before.get(key, 0))
  unfoldable pub metric_delta : String → Dict Val → Dict Val → Result ℤ
  unfolding metric
  metric_delta key before later =
      Result.◌>>=◌ (metric key later) λ b. Result.◌>>=◌ (metric key before) λ a. ok (b -ℤ a)

module _ ⦃rt : Runtime⦄ (zero elapsed : rt.Float) where
  open rt use {Float}

  -- float(hits / total) if total else 0.0
  abbrev pub rate_of : ℤ → ℤ → Result Float
  rate_of hits total =
      if eqb_ℤ total (pos 0) then ok zero else rt.float_div (whole hits) (whole total)

  unfoldable pub delta_metrics : Dict Val → Dict Val → Result (QueryMetrics Float)
  unfolding metric_delta
  delta_metrics before later = Result.◌>>=◌ (metric_delta "hits" before later) λ hits.
      Result.◌>>=◌ (metric_delta "misses" before later) λ misses.
        Result.◌>>=◌ (metric_delta "evictions" before later) λ evictions.
          Result.◌>>=◌ (rate_of hits (hits +ℤ misses)) λ rate. ok (record {
            hits = hits;
            misses = misses;
            evictions = evictions;
            hit_rate = rate;
            elapsed_time = elapsed;
          })

  unfoldable pub absolute_metrics : Dict Val → Result (QueryMetrics Float)
  unfolding metric py_float
  absolute_metrics snapshot = Result.◌>>=◌ (metric "hits" snapshot) λ hits.
      Result.◌>>=◌ (metric "misses" snapshot) λ misses.
        Result.◌>>=◌ (metric "evictions" snapshot) λ evictions.
          Result.◌>>=◌ (py_float (get_or "hit_rate" (float zero) snapshot)) λ rate. ok (record {
            hits = hits;
            misses = misses;
            evictions = evictions;
            hit_rate = rate;
            elapsed_time = elapsed;
          })

module _ ⦃rt : Runtime⦄ where
  -- captured.strip() or "Syntax error"
  abbrev pub error_text : String → String
  error_text captured =
      let text = strip rt.is_space captured in if str_eq text "" then "Syntax error" else text

module _ ⦃rt : Runtime⦄ (zero : rt.Float) where
  -- a query that was not run
  abbrev pub not_run : String → String → Report
  not_run query text = record {
    result = record { query = query; metrics = no_metrics zero; error = some text };
    rows = [];
    total_metrics = no_metrics zero;
  }

module _ ⦃rt : Runtime⦄ {S : Type 0} (server : List ℕ → Exec S (List ℕ)) where
  -- PING, whose response carries the counters
  unfoldable pub ping_with_metrics : Exec S (Dict Val)
  unfolding ask
  ping_with_metrics = ask server "PING" none >>= λ r.
      lift (if r.succeeded then ok r.metrics else raised (runtime_error r.err_line))

-- `elapsed` is the time between the two calls of perf_counter, `message` is str(exc), and `printed` is
-- what the parser prints for a query.
module _ ⦃rt : Runtime⦄ {S : Type 0} (server : List ℕ → Exec S (List ℕ)) (yacc : Yacc)
    (uni : Unicode) (zero elapsed : rt.Float) (message : Error → String)
    (printed : String → String) where
  -- rows and error of the `try`
  abbrev pub outcome : Result Rows → Rows × Option String
  outcome (ok rows) = (rows, none)
  outcome (raised e) = ([], some (message e))

  -- the second PING and the report
  unfoldable pub finish : String → Dict Val → Rows × Option String → Exec S Report
  unfolding ping_with_metrics delta_metrics absolute_metrics
  finish query before (rows, error) = ping_with_metrics server >>= λ later.
      lift (delta_metrics zero elapsed before later) >>= λ delta.
      lift (absolute_metrics zero elapsed later) >>= λ total. pure (record {
        result = record { query = query; metrics = delta; error = error };
        rows = rows;
        total_metrics = total;
      })

  unfoldable pub run_plan : String → Dict Val → Plan rt.Float → Exec S Report
  unfolding finish
  run_plan query before p s =
      let (r, s') = execute (server_storage server) p s in finish query before (outcome r) s'

  -- from the first PING on
  unfoldable pub run_text : String → String → Exec S Report
  unfolding ping_with_metrics run_plan
  run_text query text = ping_with_metrics server >>= λ before.
      elim (parse yacc (tokenize uni) text) [
        | none ↦ pure (not_run zero query (error_text (printed text)))
        | some ast ↦ run_plan query before (plan ast)
      ]

  unfoldable pub execute_query : String → Exec S Report
  unfolding run_text
  execute_query query =
      let text = strip rt.is_space query in
      if str_eq text ""
      then pure (not_run zero query "Query is empty.")
      else run_text query (if ends_with b';' text then drop_last text else text)
