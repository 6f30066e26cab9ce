-- ===== src/Storage/Row/Laws.antt =====
-- What a row's bytes hold: unpacking gives back the values that were packed.
use sql_parser.Base.{
  ℕ, suc, ◌+◌, String, true, false, ◌≡◌, refl, ap, ◌∙◌, some, List, [], ◌∷◌, ◌++◌, length, take,
  drop, All, replicate, length-replicate, str_eq, Bool-cases, inl, inr, eq_iff, ◌⊎◌,
}
use sql_parser.Base.Dict.{get, put, get-put}
use sql_parser.Base.Result.{ok}
use sql_parser.Value.{Runtime, is_none}
use sql_parser.Table.{Row}
use sql_parser.Storage.Row.{
  SchemaColumn, value_of, columns_bytes, column_bytes, read_columns, serialize_row, deserialize_row,
  null_bitmap_len, mark_nulls,
}
use sql_parser.Storage.Row.Bitmap.{Marked, null_bitmap-Marked, length-mark_nulls}
use mathlib.Core.Path.{subst}
use sql_parser.Storage.Row.Values.{
  drop_past, drop-length, take-length, Fits, value-RoundTrip, is_none_null,
}

module _ ⦃rt : Runtime⦄ where
  -- The row that reading makes: the columns in turn.
  abbrev stored : Row → List SchemaColumn → Row → Row
  stored d [] row = row
  stored d (col ∷ columns) row = stored d columns (put col.name (value_of col.name d) row)

  abbrev ReadBack : Row → List SchemaColumn → List ℕ → Type 0
  ReadBack d columns bytes =
      (buf bitmap : List ℕ) (i offset : ℕ) (row : Row)
      → Marked d bitmap i columns
      → drop offset buf ≡ bytes
      → read_columns buf bitmap i offset columns row ≡ ok (stored d columns row)

  columns_round_trip :
      (d : Row) (columns : List SchemaColumn)
      → All (λ col. Fits col (value_of col.name d)) columns
      → (bytes : List ℕ) × (columns_bytes d columns ≡ ok bytes) × ReadBack d columns bytes
  unfolding columns_bytes read_columns column_bytes
  columns_round_trip d [] f = ([], refl, λ buf bitmap i offset row m e. refl)
  columns_round_trip d (col ∷ columns) f =
      let (more, em, again) = columns_round_trip d columns f.1 in
      elim (Bool-cases (is_none (value_of col.name d))) [
        | inl missing ↦ (
          more,
          rw (missing, em) refl,
          λ buf bitmap i offset row m e.
              rw (m.0, missing)
                (subst
                  (λ v.
                    read_columns buf bitmap (suc i) offset columns (put col.name v row)
                    ≡ ok (stored d columns (put col.name (value_of col.name d) row)))
                  (is_none_null (value_of col.name d) missing)
                  (again buf bitmap (suc i) offset (put col.name (value_of col.name d) row) m.1 e)),
        )
        | inr there ↦
            let (bytes, ep, reads) = value-RoundTrip col (value_of col.name d) f.0 there in
            (
              bytes ++ more,
              rw (there, ep, em) refl,
              λ buf bitmap i offset row m e.
                  rw (m.0, there, reads buf more offset e)
                    (again buf bitmap (suc i) (offset + length bytes) _ m.1
                      (drop_past bytes more buf offset e)),
            )
      ]

  stored-keeps :
      (d : Row) (columns : List SchemaColumn) (row : Row) (name : String)
      → get name row ≡ some (value_of name d)
      → get name (stored d columns row) ≡ some (value_of name d)
  stored-keeps d [] row name h = h
  stored-keeps d (col ∷ columns) row name h =
      stored-keeps d columns _ name (kept (Bool-cases (str_eq col.name name)))
    where
      kept :
          (str_eq col.name name ≡ true) ⊎ (str_eq col.name name ≡ false)
          → get name (put col.name (value_of col.name d) row) ≡ some (value_of name d)
      kept (inl same) =
          rw (get-put col.name name (value_of col.name d) row, same)
            (ap (λ n. some (value_of n d)) ((eq_iff col.name name).0 same))
      kept (inr differs) = rw (get-put col.name name (value_of col.name d) row, differs) h

  stored-values :
      (d : Row) (columns : List SchemaColumn) (row : Row)
      → All (λ col. get col.name (stored d columns row) ≡ some (value_of col.name d)) columns
  stored-values d [] row = tt
  stored-values d (col ∷ columns) row = (
    stored-keeps d columns _ col.name (
        get-put col.name col.name (value_of col.name d) row
        ∙ rw ((eq_iff col.name col.name).1 refl) refl),
    stored-values d columns _,
  )

  read_after :
      (columns : List SchemaColumn) (d : Row) (bitmap bytes : List ℕ)
      → ReadBack d columns bytes
      → Marked d bitmap 0 columns
      → (size : ℕ) → length bitmap ≡ size
      → read_columns (bitmap ++ bytes) (take size (bitmap ++ bytes)) 0 size columns []
        ≡ ok (stored d columns [])
  read_after columns d bitmap bytes reads m size e =
      rw (← e, take-length bitmap bytes)
        (reads (bitmap ++ bytes) bitmap 0 (length bitmap) [] m (drop-length bitmap bytes))

  -- If every value of the dict is NULL or fits its column, packing it by the schema succeeds, and
  -- unpacking the bytes by the same schema gives each column of the schema the dict's value, NULL for
  -- a column that the dict lacks.
  pub deserialize-serialize :
      (columns : List SchemaColumn) (d : Row)
      → All (λ col. Fits col (value_of col.name d)) columns
      → (bytes : List ℕ) × (row : Row) × (serialize_row columns d ≡ ok bytes)
        × (deserialize_row bytes columns ≡ ok row)
        × All (λ col. get col.name row ≡ some (value_of col.name d)) columns
  unfolding serialize_row deserialize_row
  deserialize-serialize columns d f =
      let (bytes, eb, reads) = columns_round_trip d columns f in
      let bitmap = mark_nulls d 0 columns (replicate (null_bitmap_len columns) 0) in
      let size : length bitmap ≡ null_bitmap_len columns =
        length-mark_nulls d 0 columns _ ∙ length-replicate (null_bitmap_len columns) 0 in
      (
        bitmap ++ bytes,
        stored d columns [],
        rw eb refl,
        read_after columns d bitmap bytes reads (null_bitmap-Marked d columns)
            (null_bitmap_len columns) size,
        stored-values d columns [],
      )
