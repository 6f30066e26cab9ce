-- ===== src/Storage/Protocol.antt =====
-- _read_response of sql-engine/storage_server.py. The state is what the
-- server still has to send on the socket.
pub mod Wire
pub mod Columns
pub mod Trace
pub mod Shrinks
pub mod Laws
pub mod Fuel
use Wire.{Stream, at, recv_line_from, recv_line, recv_bytes, int_at, flag_at}
use Columns.{metric_value, read_metric, read_metrics, read_column, read_schema}
use Trace.{
  Frame, TraceEvent, read_frame, tagged, add_frame, read_frames, read_event, event_if, add_event,
  read_events, third_or_zero,
}
use sql_parser.Base.{
  ℕ, zero, suc, String, Bool, true, false, not, ◌&&◌, ◌||◌, Option, none, some, List, [], ◌∷◌, ◌++◌,
  if◌then◌else◌, length, take, drop, leb, ◌==◌, str_eq, get_elem?,
}
use sql_parser.Base.Int.{ℤ, pos, negsuc, pos_part, eqb_ℤ}
use sql_parser.Base.Dict.{Dict, put}
use sql_parser.Base.Exec.{Exec, ◌>>=◌, pure, lift}
use sql_parser.Base.Result
use sql_parser.Base.Result.{Result, ok, raised, Error, value_error, index_error, connection_error}
use sql_parser.Value.{Runtime, Value, Val, int, float, str}
use sql_parser.Table.{Row, Rows}
use sql_parser.Storage.Row.{SchemaColumn, deserialize_row}
use sql_parser.Storage.Text.{startswith, has_char, split_at, split}

-- ValueError and IndexError; UnicodeError does not arise, since decoding replaces
abbrev caught : Error → Bool
caught Error.type_error = false
caught Error.attribute_error = false
caught Error.struct_error = false
caught Error.zero_division = false
caught Error.connection_error = false
caught (Error.key_error k) = false
caught (Error.runtime_error m) = false
caught _ = true

module _ ⦃rt : Runtime⦄ where
  -- The result of _read_response: `succeeded` is status == "OK".
  pub record Response : Type 0 where
    pub succeeded : Bool
    pub err_line : String
    pub columns : List SchemaColumn
    pub rows : Rows
    pub row_ids : List ℤ
    pub trace_events : List TraceEvent
    pub metrics : Dict Val
    pub lines : List String

  -- "<row_id> <size>", or "<size>" alone
  unfoldable row_header : List String → Result (ℤ × ℕ)
  row_header (a ∷ b ∷ []) =
      Result.◌>>=◌ (rt.parse_int a) λ n. Result.◌>>=◌ (rt.parse_int b) λ m. ok (n, pos_part m)
  row_header (a ∷ []) = Result.◌>>=◌ (rt.parse_int a) λ m. ok (negsuc 0, pos_part m)
  row_header _ = raised value_error

  -- the body of the `try`
  unfoldable read_row : List SchemaColumn → String → Response → Stream Response
  unfolding row_header recv_bytes
  read_row columns line r = do
    (row_id, size) ← lift (row_header (split line))
    row_data ← recv_bytes size
    row ← lift (deserialize_row row_data columns)
    pure (record r { rows = r.rows ++ (row ∷ []); row_ids = r.row_ids ++ (row_id ∷ []) })

  -- lines.append(line)
  abbrev add_line : String → Response → Response
  add_line line r = record r { lines = r.lines ++ (line ∷ []) }

  -- `except (ValueError, IndexError): pass`, and the line is kept as text
  unfoldable or_line : String → Response → Result Response × List ℕ → Result Response × List ℕ
  or_line line r (ok r', bytes) = (ok r', bytes)
  or_line line r (raised e, bytes) =
      if caught e then (ok (add_line line r), bytes) else (raised e, bytes)

  unfoldable pub other_line : Option (List SchemaColumn) → String → Response → Stream Response
  unfolding read_row or_line
  other_line none line r bytes = (ok (add_line line r), bytes)
  other_line (some columns) line r bytes = or_line line r (read_row columns line r bytes)

  unfoldable metrics_line : String → Response → Stream Response
  unfolding read_metrics
  metrics_line line r = do
    metrics ← lift (read_metrics r.metrics (drop 1 (split line)))
    pure (record r { metrics = metrics })

  unfoldable pub columns_line : String → Response → Stream Response
  unfolding read_schema
  columns_line line r = do
    n ← lift (int_at (split line) 1)
    columns ← read_schema (pos_part n) r.columns
    pure (record r { columns = columns })

  unfoldable trace_line : String → Response → Stream Response
  unfolding read_events
  trace_line line r = do
    n ← lift (int_at (split line) 1)
    frame_count ← lift (third_or_zero (split line))
    events ← read_events (pos_part n) (pos_part frame_count) r.trace_events
    pure (record r { trace_events = events })

  -- one turn of the loop, on a line that is not END
  unfoldable pub read_item : Option (List SchemaColumn) → String → Response → Stream Response
  unfolding other_line metrics_line columns_line trace_line
  read_item columns line r =
      if startswith line "METRICS "
      then metrics_line line r
      else if startswith line "COLUMNS "
      then columns_line line r
      else if startswith line "TRACE_EVENTS "
      then trace_line line r
      else other_line columns line r

  -- `while True`, on fuel: each turn reads a line, so more turns than there are bytes do not occur.
  unfoldable pub read_items : ℕ → Option (List SchemaColumn) → Response → Stream Response
  unfolding read_item recv_line
  read_items zero columns r = lift (raised connection_error)
  read_items (suc fuel) columns r = do
    line ← recv_line
    next ←
        if str_eq line "END" then pure none else (read_item columns line r >>= λ r'. pure (some r'))
    elim next [ none ↦ pure r | some r' ↦ read_items fuel columns r' ]

  abbrev start : String → Response
  start status_line =
      let good = startswith status_line "OK" in
      record {
        succeeded = good;
        err_line = if good then "" else status_line;
        columns = [];
        rows = [];
        row_ids = [];
        trace_events = [];
        metrics = [];
        lines = [];
      }

  unfoldable pub read_response : Option (List SchemaColumn) → Stream Response
  unfolding read_items recv_line
  read_response columns bytes =
      (recv_line >>= λ status_line. read_items (length bytes) columns (start status_line)) bytes
