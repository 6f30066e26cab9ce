-- ===== src/Tests/Server.antt =====
-- Packed rows, and a server that gives fixed answers.
use sql_parser.Base.{ℕ, ◌+◌, String, true, ◌≡◌, refl, List, [], ◌∷◌, ◌++◌, some, none, All, arith}
use sql_parser.Base.Int.{ℤ, pos, negsuc}
use sql_parser.Base.Dict.{get, put}
use sql_parser.Base.Exec.{Exec}
use sql_parser.Base.Result.{ok}
use sql_parser.Value.{int, str, py_lt, py_str}
use sql_parser.Ast.{Condition, condition, gt}
use sql_parser.Table.{Row}
use sql_parser.Executor.Filter.{evaluate_condition, compare_values}
use sql_parser.Storage.Bytes.{set_bit, pack_i32, pack_u16}
use sql_parser.Storage.Row.{
  SchemaColumn, serialize_row, deserialize_row, value_of, mark_null, mark_nulls, py_int, text_bytes,
  pack_value, column_bytes, columns_bytes,
}
use sql_parser.Storage.Row.Values.{Fits, null_fits, int_fits, text_fits}
use sql_parser.Storage.Row.Laws.{deserialize-serialize}
use sql_parser.Storage.Text.{startswith, split, fields}
use sql_parser.Storage.Protocol.{Response, read_items, read_response, other_line}
use sql_parser.Storage.Protocol.Wire.{recv_line, recv_line_from}
use sql_parser.Storage.Protocol.Laws.{other_line-serialized}
use sql_parser.Storage.Protocol.Fuel.{read_items-fuel}
use sql_parser.Storage.Where.{row_matches, test_value}
use sql_parser.Storage.Where.Laws.{row_matches-agrees}
use sql_parser.Storage.Server.{exchange, send_row, update_row_bytes, update_if, update_each}
use sql_parser.Storage.Server.Commands.{check_response, selected, assign}
use sql_parser.Base.Chars.{codes}
use sql_parser.Tests.Sample.{sample, ana, juan}

abbrev id_column : SchemaColumn
id_column = record {
  name = "id";
  col_type = "INT";
  max_size = 4;
  nullable = pos 0;
  primary_key = pos 1;
}

abbrev name_column : SchemaColumn
name_column = record {
  name = "name";
  col_type = "VARCHAR";
  max_size = 10;
  nullable = pos 1;
  primary_key = pos 0;
}

abbrev active_column : SchemaColumn
active_column = record {
  name = "active";
  col_type = "BOOL";
  max_size = 1;
  nullable = pos 1;
  primary_key = pos 0;
}

abbrev schema : List SchemaColumn
schema = id_column ∷ name_column ∷ active_column ∷ []

abbrev person : Row
person = ("name", str "Ana") ∷ ("id", int (negsuc 1)) ∷ []

person-Fits : All (λ col. Fits col (value_of col.name person)) schema
unfolding get
person-Fits = (
  int_fits (negsuc 1) refl (omega arith),
  (text_fits "Ana" refl (omega arith) (omega arith), (null_fits, tt)),
)

deserialize-serialize_example :
    (bytes : List ℕ) × (row : Row) × (serialize_row schema person ≡ ok bytes)
    × (deserialize_row bytes schema ≡ ok row)
    × All (λ col. get col.name row ≡ some (value_of col.name person)) schema
deserialize-serialize_example = deserialize-serialize schema person person-Fits

-- The bitmap has the bit of the third column, then come -2 and the text.
abbrev packed : List ℕ
packed = 4 ∷ 254 ∷ 255 ∷ 255 ∷ 255 ∷ 3 ∷ 0 ∷ 65 ∷ 110 ∷ 97 ∷ []

test_packed : serialize_row schema person ≡ ok packed
unfolding serialize_row mark_nulls mark_null columns_bytes column_bytes pack_value py_int text_bytes
    py_str set_bit pack_i32 pack_u16 get
test_packed = refl

abbrev no_response : Response
no_response = record {
  succeeded = true;
  err_line = "";
  columns = [];
  rows = [];
  row_ids = [];
  trace_events = [];
  metrics = [];
  lines = [];
}

test_header : split "12 10" ≡ "12" ∷ "10" ∷ []
unfolding split fields
test_header = refl

other_line-serialized_example :
    (row : Row) × All (λ col. get col.name row ≡ some (value_of col.name person)) schema
    × (other_line (some schema) "12 10" no_response (packed ++ (69 ∷ []))
        ≡ (ok (record no_response { rows = row ∷ []; row_ids = pos 12 ∷ [] }), 69 ∷ []))
other_line-serialized_example =
    other_line-serialized schema person "12 10" "12" "10" (pos 12) no_response packed (69 ∷ [])
      person-Fits test_packed test_header refl refl

read_items-fuel_example :
    read_items 4 none no_response (codes "END\n") ≡ read_items 9 none no_response (codes "END\n")
read_items-fuel_example =
    read_items-fuel 4 9 none no_response (codes "END\n") (omega arith) (omega arith)

abbrev over_30 : Condition (sample.Float)
over_30 = condition "age" gt (int (pos 30))

test_over_30 : evaluate_condition ana over_30 "users" ≡ ok true
unfolding evaluate_condition get compare_values py_lt
test_over_30 = refl

row_matches-agrees_example : row_matches ana over_30 ≡ ok true
row_matches-agrees_example = row_matches-agrees ana over_30 "users" true test_over_30

-- A server whose every answer is the same, and whose state counts the connections.
abbrev answering : String → List ℕ → Exec ℕ (List ℕ)
answering text request n = (ok (codes text), n + 1)

abbrev id_schema : List SchemaColumn
id_schema = id_column ∷ []

abbrev schema_answer : String
schema_answer = "OK\nCOLUMNS 1\nid:INT:4:0:1\nEND\n"

abbrev age_schema : List SchemaColumn
age_schema =
    record { name = "age"; col_type = "INT"; max_size = 4; nullable = pos 0; primary_key = pos 0 }
    ∷ []

abbrev two_rows : List (Row × ℤ)
two_rows = (ana, pos 1) ∷ (juan, pos 2) ∷ []

test_update :
    update_each
      (answering "OK\nEND\n")
      "users"
      age_schema
      (("age", int (pos 40)) ∷ [])
      (some over_30)
      two_rows
      0
    ≡ (ok 1, 1)
unfolding update_each update_if selected row_matches test_value assign update_row_bytes send_row
    exchange check_response read_response read_items recv_line recv_line_from startswith
    serialize_row mark_nulls columns_bytes column_bytes pack_value py_int pack_i32 get put py_lt
test_update = refl
