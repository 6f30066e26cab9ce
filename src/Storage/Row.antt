-- ===== src/Storage/Row.antt =====
-- _serialize_row and _deserialize_row of sql-engine/storage_server.py: the null bitmap, then the
-- bytes of each column that is not NULL.
mod Bitmap
pub mod Values
pub mod Laws
use sql_parser.Base.{
  ℕ, suc, ◌+◌, ◌/◌, ◌%◌, String, Bool, true, false, not, none, some, List, [], ◌∷◌, ◌++◌,
  if◌then◌else◌, length, take, drop, set, get_elem?, replicate, str_eq, ◌==◌, get_or,
}
use sql_parser.Base.Int.{ℤ, pos, eqb_ℤ}
use sql_parser.Base.Dict
use sql_parser.Base.Result.{
  Result, ok, raised, ◌>>=◌, unknown_type, type_error, index_error, struct_error,
}
use sql_parser.Value.{
  Runtime, Value, null, bool, int, float, str, whole, real, Val, py_str, is_none,
}
use sql_parser.Table.{Row}
use sql_parser.Storage.Bytes.{bit, set_bit, pack_i32, unpack_i32, pack_u16, unpack_u16, unpack_u8}

-- One column of a SCHEMA response.
pub record SchemaColumn : Type 0 where
  pub name : String
  pub col_type : String
  pub max_size : ℕ
  pub nullable : ℤ
  pub primary_key : ℤ

-- math.ceil(n_cols / 8)
abbrev pub null_bitmap_len : List SchemaColumn → ℕ
null_bitmap_len columns = (length columns + 7) / 8

-- null_bitmap[i // 8] |= (1 << (i % 8))
unfoldable pub mark_null : ℕ → List ℕ → List ℕ
mark_null i bitmap = set bitmap (i / 8) (set_bit (i % 8) (get_or bitmap (i / 8) 0))

-- is_null of _deserialize_row
unfoldable is_null : List ℕ → ℕ → Result Bool
is_null bitmap i = elim (get_elem? bitmap (i / 8)) [
  | none ↦ raised index_error
  | some b ↦ ok (bit (i % 8) b)
]

module _ ⦃rt : Runtime⦄ where
  -- val_dict.get(name), None if there is no such key
  abbrev pub value_of : String → Row → Val
  value_of name d = Dict.get_or name null d

  -- the loop that builds the null bitmap, from column i on
  unfoldable pub mark_nulls : Row → ℕ → List SchemaColumn → List ℕ → List ℕ
  mark_nulls d i [] bitmap = bitmap
  mark_nulls d i (col ∷ columns) bitmap =
      mark_nulls d (suc i) columns
        (if is_none (value_of col.name d) then mark_null i bitmap else bitmap)

  -- int(val)
  unfoldable pub py_int : Val → Result ℤ
  py_int null = raised type_error
  py_int (bool b) = ok (pos (if b then 1 else 0))
  py_int (int n) = ok n
  py_int (float x) = rt.trunc x
  py_int (str s) = rt.parse_int s

  -- float(val)
  unfoldable py_float : Val → Result (rt.Float)
  py_float null = raised type_error
  py_float (bool b) = rt.to_float (whole (pos (if b then 1 else 0)))
  py_float (int n) = rt.to_float (whole n)
  py_float (float x) = ok x
  py_float (str s) = rt.parse_float s

  -- the truth of a value, as `if val` reads it
  unfoldable pub py_truth : Val → Bool
  py_truth null = false
  py_truth (bool b) = b
  py_truth (int n) = not (eqb_ℤ n (pos 0))
  py_truth (float x) = not (rt.float_eq (real x) (whole (pos 0)))
  py_truth (str s) = not (str_eq s "")

  -- struct.pack("<H", len(encoded)), then the text's bytes cut to max_size
  unfoldable pub text_bytes : ℕ → List ℕ → Result (List ℕ)
  text_bytes max_size encoded =
      let cut = take max_size encoded in pack_u16 (length cut) >>= λ size. ok (size ++ cut)

  -- the bytes of a value that is not None
  unfoldable pub pack_value : String → ℕ → Val → Result (List ℕ)
  unfolding py_int py_float py_truth text_bytes
  pack_value col_type max_size v =
      if str_eq col_type "INT"
      then py_int v >>= pack_i32
      else if str_eq col_type "FLOAT"
      then py_float v >>= rt.pack_float
      else if str_eq col_type "BOOL"
      then ok ((if py_truth v then 1 else 0) ∷ [])
      else if str_eq col_type "VARCHAR"
      then text_bytes max_size (rt.encode (py_str v))
      else raised (unknown_type col_type)

  -- one turn of the loop: `continue` on None
  unfoldable pub column_bytes : SchemaColumn → Val → Result (List ℕ)
  unfolding pack_value
  column_bytes col v = if is_none v then ok [] else pack_value col.col_type col.max_size v

  unfoldable pub columns_bytes : Row → List SchemaColumn → Result (List ℕ)
  unfolding column_bytes
  columns_bytes d [] = ok []
  columns_bytes d (col ∷ columns) = do
    bytes ← column_bytes col (value_of col.name d)
    rest ← columns_bytes d columns
    ok (bytes ++ rest)

  unfoldable pub serialize_row : List SchemaColumn → Row → Result (List ℕ)
  unfolding mark_nulls columns_bytes mark_null
  serialize_row columns d =
      let bitmap = mark_nulls d 0 columns (replicate (null_bitmap_len columns) 0) in
      columns_bytes d columns >>= λ bytes. ok (bitmap ++ bytes)

  -- data[offset : offset + size], shorter at the end of the data
  abbrev slice : List ℕ → ℕ → ℕ → List ℕ
  slice buf offset size = take size (drop offset buf)

  -- the value of a column that is not NULL, and the offset after it
  unfoldable unpack_value : List ℕ → ℕ → String → Result (Val × ℕ)
  unpack_value buf offset col_type =
      if str_eq col_type "INT"
      then (unpack_i32 buf offset >>= λ n. ok (int n, offset + 4))
      else if str_eq col_type "FLOAT"
      then (unpack_f32 (slice buf offset 4) >>= λ x. ok (float x, offset + 4))
      else if str_eq col_type "BOOL"
      then (unpack_u8 buf offset >>= λ n. ok (bool (not (n == 0)), offset + 1))
      else if str_eq col_type "VARCHAR"
      then (unpack_u16 buf offset >>= λ size.
          ok (str (rt.decode (slice buf (offset + 2) size)), offset + 2 + size))
      else raised (unknown_type col_type)
    where
      unpack_f32 : List ℕ → Result (rt.Float)
      unpack_f32 bytes =
          if length bytes == 4 then ok (rt.unpack_float bytes) else raised struct_error

  -- the loop over the columns, from column i on
  unfoldable read_columns : List ℕ → List ℕ → ℕ → ℕ → List SchemaColumn → Row → Result Row
  unfolding is_null unpack_value
  read_columns buf bitmap i offset [] row = ok row
  read_columns buf bitmap i offset (col ∷ columns) row = do
    missing ← is_null bitmap i
    (v, next) ← if missing then ok (null, offset) else unpack_value buf offset col.col_type
    read_columns buf bitmap (suc i) next columns (Dict.put col.name v row)

  unfoldable pub deserialize_row : List ℕ → List SchemaColumn → Result Row
  unfolding read_columns
  deserialize_row buf columns =
      let size = null_bitmap_len columns in read_columns buf (take size buf) 0 size columns []
