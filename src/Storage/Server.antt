-- ===== src/Storage/Server.antt =====
-- sql-engine/storage_server.py: ServerStorage. The C server is a parameter: what it answers to the
-- bytes of one connection, and the state that it has then.
pub mod Commands
pub mod Laws
pub mod Names
use Prim.Native.String
use sql_parser.Base.{
  ℕ, suc, ◌+◌, String, Bool, true, false, Option, none, some, List, [], ◌∷◌, ◌++◌, if◌then◌else◌,
  map, length,
}
use sql_parser.Base.Int.{ℤ, pos, negsuc, pos_part}
use sql_parser.Base.Dict.{Dict, put}
use sql_parser.Base.Exec.{Exec, ◌>>=◌, pure, lift}
use sql_parser.Base.Result
use sql_parser.Base.Result.{Result, ok, raised, index_error, runtime_error}
use sql_parser.Value.{Runtime, Value, Val, digits_of, str_int}
use sql_parser.Ast.{Condition, ColumnDef}
use sql_parser.Table.{Row, Rows, Table}
use sql_parser.Storage.{Storage}
use sql_parser.Storage.Row.{SchemaColumn, serialize_row}
use sql_parser.Storage.Text.{startswith, split, join}
use sql_parser.Storage.Protocol.{Response, read_response}
use sql_parser.Storage.Protocol.Trace.{TraceEvent}
use sql_parser.Storage.Where.{row_matches, serialize_condition}
use sql_parser.Storage.Server.Commands.{
  schema_command, scan_command, insert_header, update_header, create_command, delete_command,
  check_response, number_after, put_all, column_names, with_ids, assign, selected, ◌⧺◌,
}

module _ ⦃rt : Runtime⦄ {S : Type 0} (server : List ℕ → Exec S (List ℕ)) where
  open rt use {Float}

  -- One connection: connect, send, read the response, close.
  unfoldable pub exchange : List ℕ → Option (List SchemaColumn) → Exec S Response
  exchange request columns = do answer ← server request; lift ((read_response columns answer).0)

  -- _send: the command and a newline
  unfoldable pub ask : String → Option (List SchemaColumn) → Exec S Response
  unfolding exchange
  ask cmd columns = exchange (rt.encode (cmd ⧺ "\n")) columns

  -- ask, and raise if the server says ERR
  unfoldable pub command : String → String → Option (List SchemaColumn) → Exec S Response
  unfolding ask check_response
  command what cmd columns = ask cmd columns >>= λ r. lift (check_response what r)

  unfoldable pub fetch_schema : String → Exec S (List SchemaColumn)
  unfolding command
  fetch_schema table =
      command (schema_command table) (schema_command table) none >>= λ r. pure r.columns

  unfoldable pub fetch_rows : String → List SchemaColumn → Exec S Rows
  unfolding command
  fetch_rows table columns =
      command (scan_command table) (scan_command table) (some columns) >>= λ r. pure r.rows

  unfoldable pub fetch_rows_with_ids : String → List SchemaColumn → Exec S (List (Row × ℤ))
  unfolding command with_ids
  fetch_rows_with_ids table columns =
      command (scan_command table) (scan_command table) (some columns) >>= λ r.
      pure (with_ids r.rows r.row_ids)

  unfoldable pub load_table : String → Exec S Table
  unfolding fetch_schema fetch_rows
  load_table table = do
    columns ← fetch_schema table
    rows ← fetch_rows table columns
    pure (record { name = table; rows = rows })

  get_metrics : Exec S (Dict Val)
  unfolding ask
  get_metrics = ask "METRICS" none >>= λ r. pure r.metrics

  reset_metrics : Exec S (Dict Val)
  unfolding command
  reset_metrics = command "RESET_METRICS" "RESET_METRICS" none >>= λ r. pure r.metrics

  trace_start : Exec S (Unit {0})
  unfolding command
  trace_start = command "TRACE_START" "TRACE_START" none >>= λ r. pure tt

  trace_stop : Exec S (List TraceEvent)
  unfolding command
  trace_stop = command "TRACE_STOP" "TRACE_STOP" none >>= λ r. pure r.trace_events

  trace_clear : Exec S (Unit {0})
  unfolding command
  trace_clear = command "TRACE_CLEAR" "TRACE_CLEAR" none >>= λ r. pure tt

  -- False on any exception
  ping : Exec S Bool
  unfolding ask
  ping s = answered (ask "PING" none s)
    where
      answered : Result Response × S → Result Bool × S
      answered (ok r, s') = (ok r.succeeded, s')
      answered (raised e, s') = (ok false, s')

  unfoldable pub create_table : String → List ColumnDef → Exec S Response
  unfolding command
  create_table table columns = command ("CREATE " ⧺ table) (create_command table columns) none

  -- a header line, the row's bytes, and the response
  unfoldable pub send_row : String → String → List ℕ → Exec S Response
  unfolding exchange check_response
  send_row what header row_bytes =
      exchange (rt.encode header ++ row_bytes) none >>= λ r. lift (check_response what r)

  unfoldable pub insert_row : String → Option (List String) → List Val → Exec S ℤ
  unfolding fetch_schema serialize_row send_row number_after put_all column_names
  insert_row table columns values = do
    schema ← fetch_schema table
    row_bytes ← lift (serialize_row schema (put_all (column_names columns schema) values []))
    r ← send_row ("INSERT " ⧺ table) (insert_header table (length row_bytes)) row_bytes
    lift (number_after "ROW_ID " (negsuc 0) r.lines)

  unfoldable pub delete_rows : String → Option (Condition Float) → Exec S ℤ
  unfolding command number_after
  delete_rows table cond = do
    r ← command ("DELETE " ⧺ table) (delete_command table cond) none
    lift (number_after "DELETED " (pos 0) r.lines)

  unfoldable pub update_row_bytes : String → ℤ → List ℕ → Exec S (Unit {0})
  unfolding send_row
  update_row_bytes table row_id row_bytes =
      send_row ("UPDATE " ⧺ table) (update_header table row_id (length row_bytes)) row_bytes
      >>= λ r. pure tt

  update_row : String → ℤ → Option (List String) → List Val → Exec S ℤ
  unfolding fetch_schema update_row_bytes
  update_row table row_id columns values = do
    schema ← fetch_schema table
    row_bytes ← lift (serialize_row schema (put_all (column_names columns schema) values []))
    _ ← update_row_bytes table row_id row_bytes
    pure row_id

  -- one turn of the loop, on a row that WHERE selects: 1 more row is updated
  unfoldable pub update_if :
      String → List SchemaColumn → List (String × Val) → Row × ℤ → Bool → Exec S ℕ
  unfolding update_row_bytes assign
  update_if table schema assignments (row, row_id) false = pure 0
  update_if table schema assignments (row, row_id) true = do
    row_bytes ← lift (serialize_row schema (assign assignments row))
    _ ← update_row_bytes table row_id row_bytes
    pure 1

  unfoldable pub update_each :
      String
      → List SchemaColumn
      → List (String × Val)
      → Option (Condition Float)
      → List (Row × ℤ)
      → Exec S ℕ
  unfolding update_if selected
  update_each table schema assignments cond [] = pure 0
  update_each table schema assignments cond ((row, row_id) ∷ rows) = do
    chosen ← lift (selected cond row)
    n ← update_if table schema assignments (row, row_id) chosen
    m ← update_each table schema assignments cond rows
    pure (n + m)

  unfoldable pub update_rows : String → List (String × Val) → Option (Condition Float) → Exec S ℕ
  unfolding update_each fetch_rows_with_ids
  update_rows table assignments cond = do
    schema ← fetch_schema table
    rows_with_ids ← fetch_rows_with_ids table schema
    update_each table schema assignments cond rows_with_ids

  -- what QueryExecutor calls
  unfoldable pub server_storage : Storage S
  unfolding load_table create_table insert_row delete_rows update_rows
  server_storage = record {
    load_table = load_table;
    create_table = λ table cols. create_table table cols >>= λ r. pure tt;
    insert_row = insert_row;
    delete_rows = delete_rows;
    update_rows = update_rows;
  }
