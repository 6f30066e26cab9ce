-- ===== src/Telemetry.antt =====
-- gui-app/app/services/telemetry_history_service.py: TelemetryHistoryService, with the classes of
-- gui-app/app/models/query_models.py and telemetry_event.py that it keeps. A deep copy of a value is
-- the value. The literal 0.0, the clock's text and the format .4f are parameters.
pub mod Laws
use Prim.Native.String.{◌++◌}
use Prim.Native.Char.{Char}
use mathlib.Core.List.{◌++◌ as append}
use sql_parser.Base.{
  String, Bool, true, false, Option, none, some, List, [], ◌∷◌, map, reverse, if◌then◌else◌, str_eq,
}
use sql_parser.Base.Dict.{Dict}
use sql_parser.Base.Exec.{Exec, ◌>>=◌, pure, lift}
use sql_parser.Base.Int.{ℤ, pos, ◌+ℤ◌, eqb_ℤ}
use sql_parser.Base.Result.{Result, ok}
use sql_parser.Storage.Text.{strip}
use sql_parser.Value.{Runtime, whole, real, str_int}

pub record QueryMetrics (F : Type 0) : Type 0 where
  pub hits : ℤ
  pub misses : ℤ
  pub evictions : ℤ
  pub hit_rate : F
  pub elapsed_time : F

-- QueryExecutionResult, of which the service reads the query, the metrics and the error.
pub record QueryResult (F : Type 0) : Type 0 where
  pub query : String
  pub metrics : QueryMetrics F
  pub error : Option String

pub data Kind : Type 0 where
  query reset server_start : Kind

pub record TelemetryEvent (F : Type 0) : Type 0 where
  pub timestamp : String
  pub kind : Kind
  pub query_text : String
  pub delta_metrics : QueryMetrics F
  pub total_metrics : QueryMetrics F
  pub note : String

-- The fields of the service.
pub record History (F : Type 0) : Type 0 where
  pub events : List (TelemetryEvent F)
  pub current_total : QueryMetrics F

-- "ok" if not result.error else f"error: {result.error}"
abbrev pub note_of : Option String → String
note_of none = "ok"
note_of (some e) = if str_eq e "" then "ok" else "error: " ++ e

abbrev pub kind_text : Kind → String
kind_text query = "query"
kind_text reset = "reset"
kind_text server_start = "server_start"

module _ ⦃rt : Runtime⦄ (zero : rt.Float) where
  open rt use {Float}

  -- QueryMetrics()
  abbrev pub no_metrics : QueryMetrics Float
  no_metrics = record {
    hits = pos 0;
    misses = pos 0;
    evictions = pos 0;
    hit_rate = zero;
    elapsed_time = zero;
  }

  -- __init__
  abbrev pub init : History Float
  init = record { events = []; current_total = no_metrics }

  abbrev pub update : (QueryMetrics Float → QueryMetrics Float) → Exec (History Float) (Unit {0})
  update f s = (ok tt, record s { current_total = f s.current_total })

  abbrev pub append_event : TelemetryEvent Float → History Float → History Float
  append_event e s = record s { events = append s.events (e ∷ []) }

  unfoldable pub add_counts : QueryMetrics Float → Exec (History Float) (Unit {0})
  add_counts m = update (λ t. record t {
    hits = t.hits +ℤ m.hits;
    misses = t.misses +ℤ m.misses;
    evictions = t.evictions +ℤ m.evictions;
  })

  unfoldable pub add_elapsed : QueryMetrics Float → Exec (History Float) (Unit {0})
  add_elapsed m s =
      (lift (rt.float_add (real s.current_total.elapsed_time) (real m.elapsed_time)) >>= λ x.
      update (λ t. record t { elapsed_time = x }))
        s

  unfoldable pub set_hit_rate : Exec (History Float) (Unit {0})
  set_hit_rate s =
      let total = s.current_total.hits +ℤ s.current_total.misses in
      (lift (
            if eqb_ℤ total (pos 0)
            then ok zero
            else rt.float_div (whole s.current_total.hits) (whole total))
          >>= λ x. update (λ t. record t { hit_rate = x }))
        s

  -- the event of a query, for the totals as they are now
  abbrev pub logged_event : String → QueryResult Float → History Float → TelemetryEvent Float
  logged_event now r s = record {
    timestamp = now;
    kind = query;
    query_text = strip rt.is_space r.query;
    delta_metrics = r.metrics;
    total_metrics = s.current_total;
    note = note_of r.error;
  }

  unfoldable pub log_query : String → QueryResult Float → Exec (History Float) (QueryMetrics Float)
  log_query now r s = (ok s.current_total, append_event (logged_event now r s) s)

  unfoldable pub record_query :
      String → QueryResult Float → Exec (History Float) (QueryMetrics Float)
  record_query now r = add_counts r.metrics >>= λ _.
      add_elapsed r.metrics >>= λ _. set_hit_rate >>= λ _. log_query now r

  -- reset and clear_for_new_server: an event without metrics, and totals of zero
  unfoldable pub start_over :
      Kind → String → String → History Float → QueryMetrics Float × History Float
  start_over k note now s =
      let event : TelemetryEvent Float = record {
        timestamp = now;
        kind = k;
        query_text = "";
        delta_metrics = no_metrics;
        total_metrics = no_metrics;
        note = note;
      } in
      (no_metrics, record (append_event event s) { current_total = no_metrics })

  unfoldable pub reset_history : String → History Float → QueryMetrics Float × History Float
  unfolding start_over
  reset_history = start_over reset "telemetry reset"

  unfoldable pub clear_for_new_server : String → History Float → QueryMetrics Float × History Float
  unfolding start_over
  clear_for_new_server = start_over server_start "new server session"

module _ ⦃rt : Runtime⦄ (format_4f : rt.Float → String) where
  unfoldable pub history_row : TelemetryEvent rt.Float → Dict String
  unfolding str_int
  history_row e =
      ("time", e.timestamp)
      ∷ ("kind", kind_text e.kind)
      ∷ ("query", if str_eq e.query_text "" then "-" else e.query_text)
      ∷ ("d_hits", str_int e.delta_metrics.hits)
      ∷ ("d_miss", str_int e.delta_metrics.misses)
      ∷ ("d_evict", str_int e.delta_metrics.evictions)
      ∷ ("total_hits", str_int e.total_metrics.hits)
      ∷ ("total_miss", str_int e.total_metrics.misses)
      ∷ ("total_evict", str_int e.total_metrics.evictions)
      ∷ ("elapsed", format_4f e.delta_metrics.elapsed_time ++ "s")
      ∷ ("note", e.note)
      ∷ []

  unfoldable pub history_rows : History rt.Float → List (Dict String)
  unfolding history_row
  history_rows s = map history_row (reverse s.events)

  unfoldable pub clear_history : History rt.Float → List (Dict String) × History rt.Float
  unfolding history_rows
  clear_history s = let cleared = record s { events = [] } in (history_rows cleared, cleared)
