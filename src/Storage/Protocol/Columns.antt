-- ===== src/Storage/Protocol/Columns.antt =====
-- The METRICS and COLUMNS items of a response, in _read_response of sql-engine/storage_server.py.
use sql_parser.Base.{ℕ, zero, suc, String, Bool, true, false, List, [], ◌∷◌, ◌++◌}
use sql_parser.Base.Int.{pos_part}
use sql_parser.Base.Dict.{Dict, put}
use sql_parser.Base.Exec.{◌>>=◌, pure, lift}
use sql_parser.Base.Result
use sql_parser.Base.Result.{Result, ok, raised, Error, value_error, index_error, connection_error}
use sql_parser.Value.{Runtime, Val, int, float, str}
use sql_parser.Storage.Row.{SchemaColumn}
use sql_parser.Storage.Text.{has_char, split_at}
use sql_parser.Storage.Protocol.Wire.{Stream, at, recv_line, int_at}

module _ ⦃rt : Runtime⦄ where
  -- float(val) if "." in val else int(val), and the text itself on ValueError
  unfoldable pub metric_value : String → Result Val
  metric_value val = or_text (number_of (has_char b'.' val))
    where
      number_of : Bool → Result Val
      number_of true = Result.◌>>=◌ (rt.parse_float val) λ x. ok (float x)
      number_of false = Result.◌>>=◌ (rt.parse_int val) λ n. ok (int n)

      or_text : Result Val → Result Val
      or_text (raised Error.value_error) = ok (str val)
      or_text r = r

  -- key, val = part.split("=")
  unfoldable pub read_metric : Dict Val → String → Result (Dict Val)
  unfolding metric_value
  read_metric metrics part = elim (split_at b'=' part) [
    | key ∷ val ∷ [] ↦ Result.◌>>=◌ (metric_value val) λ v. ok (put key v metrics)
    | _ ↦ raised value_error
  ]

  unfoldable pub read_metrics : Dict Val → List String → Result (Dict Val)
  unfolding read_metric
  read_metrics metrics [] = ok metrics
  read_metrics metrics (p ∷ ps) = Result.◌>>=◌ (read_metric metrics p) λ m. read_metrics m ps

  unfoldable pub read_column : String → Result SchemaColumn
  read_column line =
      let parts = split_at b':' line in
      Result.◌>>=◌ (at parts 0) λ name. Result.◌>>=◌ (at parts 1) λ col_type.
        Result.◌>>=◌ (int_at parts 2) λ max_size. Result.◌>>=◌ (int_at parts 3) λ nullable.
          Result.◌>>=◌ (int_at parts 4) λ primary_key. ok (record {
            name = name;
            col_type = col_type;
            max_size = pos_part max_size;
            nullable = nullable;
            primary_key = primary_key;
          })

  -- for _ in range(col_count)
  unfoldable pub read_schema : ℕ → List SchemaColumn → Stream (List SchemaColumn)
  unfolding read_column recv_line
  read_schema zero columns = pure columns
  read_schema (suc n) columns = do
    line ← recv_line
    col ← lift (read_column line)
    read_schema n (columns ++ (col ∷ []))
