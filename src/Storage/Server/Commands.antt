-- ===== src/Storage/Server/Commands.antt =====
-- The commands that ServerStorage of sql-engine/storage_server.py sends, and what its methods do with
-- a response and with dicts.
use Prim.Native.String
use sql_parser.Base.{ℕ, String, Bool, true, Option, none, some, List, [], ◌∷◌, if◌then◌else◌, map}
use sql_parser.Base.Int.{ℤ, pos}
use sql_parser.Base.Dict.{put}
use sql_parser.Base.Result.{Result, ok, raised, index_error, runtime_error}
use sql_parser.Value.{Runtime, Val, str_int}
use sql_parser.Ast.{Condition, ColumnDef}
use sql_parser.Table.{Row, Rows}
use sql_parser.Storage.Row.{SchemaColumn}
use sql_parser.Storage.Text.{startswith, split, join}
use sql_parser.Storage.Protocol.{Response}
use sql_parser.Storage.Where.{row_matches, serialize_condition}

infixl 65 ◌⧺◌
abbrev pub ◌⧺◌ : String → String → String
s ⧺ t = Prim.Native.String.◌++◌ s t

abbrev pub show : ℕ → String
show n = str_int (pos n)

abbrev pub schema_command : String → String
schema_command table = "SCHEMA " ⧺ table

abbrev pub scan_command : String → String
scan_command table = "SCAN " ⧺ table

abbrev pub insert_header : String → ℕ → String
insert_header table size = "INSERT " ⧺ table ⧺ " " ⧺ show size ⧺ "\n"

abbrev pub update_header : String → ℤ → ℕ → String
update_header table row_id size = "UPDATE " ⧺ table ⧺ " " ⧺ str_int row_id ⧺ " " ⧺ show size ⧺ "\n"

abbrev pub flag : Bool → String
flag b = if b then "1" else "0"

-- f"{col.name}:{col.col_type}:{col.max_size}:{nullable}:{pk}"
abbrev pub column_text : ColumnDef → String
column_text col =
    col.name
    ⧺ ":"
    ⧺ col.col_type
    ⧺ ":"
    ⧺ show col.max_size
    ⧺ ":"
    ⧺ flag col.nullable
    ⧺ ":"
    ⧺ flag col.primary_key

abbrev pub create_command : String → List ColumnDef → String
create_command table columns = "CREATE " ⧺ table ⧺ " " ⧺ join " " (map column_text columns)

module _ ⦃rt : Runtime⦄ where
  open rt use {Float}

  abbrev pub delete_command : String → Option (Condition Float) → String
  delete_command table none = "DELETE " ⧺ table
  delete_command table (some c) = "DELETE " ⧺ table ⧺ " WHERE " ⧺ serialize_condition c

  -- `if resp["status"] == "ERR": raise RuntimeError(…)`
  unfoldable pub check_response : String → Response → Result Response
  check_response what r =
      if r.succeeded then ok r else raised (runtime_error (what ⧺ " failed: " ⧺ r.err_line))

  -- int(line.split()[1]) of the first line that starts with the word, or else the default
  unfoldable pub number_after : String → ℤ → List String → Result ℤ
  number_after word d [] = ok d
  number_after word d (line ∷ lines) =
      let rest = number_after word d lines in
      if startswith line word then second (split line) else rest
    where
      second : List String → Result ℤ
      second (a ∷ b ∷ parts) = rt.parse_int b
      second _ = raised index_error

  -- dict(zip(names, values)), from a dict on
  unfoldable pub put_all : List String → List Val → Row → Row
  put_all (c ∷ cs) (v ∷ vs) d = put_all cs vs (put c v d)
  put_all _ _ d = d

  -- the columns that were named, or else the schema's
  unfoldable pub column_names : Option (List String) → List SchemaColumn → List String
  column_names none schema = map SchemaColumn.name schema
  column_names (some cs) schema = cs

  -- zip(rows, row_ids)
  unfoldable pub with_ids : Rows → List ℤ → List (Row × ℤ)
  with_ids (row ∷ rows) (n ∷ ns) = (row, n) ∷ with_ids rows ns
  with_ids _ _ = []

  -- for col, val in assignments: new_values[col] = val
  unfoldable pub assign : List (String × Val) → Row → Row
  assign [] d = d
  assign ((c, v) ∷ rest) d = assign rest (put c v d)

  -- `where is None or self._evaluate_condition(row, where)`
  unfoldable pub selected : Option (Condition Float) → Row → Result Bool
  selected none row = ok true
  selected (some c) row = row_matches row c
