-- ===== src/Storage/Protocol/Laws.antt =====
-- Reading the server's lines and rows.
use sql_parser.Base.{
  ℕ, ◌+◌, String, true, false, ◌≡◌, ◌≢◌, refl, ap, sym, ◌∙◌, some, List, [], ◌∷◌, ◌++◌, All, length,
  leb, ◌==◌, arith, length-append,
}
use sql_parser.Base.Int.{ℤ, pos}
use sql_parser.Base.Dict.{get}
use sql_parser.Base.Result.{ok, ok-injective}
use sql_parser.Value.{Runtime}
use sql_parser.Table.{Row}
use sql_parser.Storage.Row.{SchemaColumn, serialize_row, value_of}
use sql_parser.Storage.Row.Values.{Fits, drop-length, take-length}
use sql_parser.Storage.Row.Laws.{deserialize-serialize}
use sql_parser.Storage.Text.{split}
use sql_parser.Storage.Protocol.{Response, read_row, row_header, other_line, or_line}
use sql_parser.Storage.Protocol.Wire.{recv_line, recv_line_from, recv_bytes}

module _ ⦃rt : Runtime⦄ where
  append_assoc : (xs : List ℕ) (c : ℕ) (ys : List ℕ) → (xs ++ (c ∷ [])) ++ ys ≡ xs ++ (c ∷ ys)
  append_assoc [] c ys = refl
  append_assoc (x ∷ xs) c ys = ap (λ zs. x ∷ zs) (append_assoc xs c ys)

  append-nil : (xs : List ℕ) → xs ++ [] ≡ xs
  append-nil [] = refl
  append-nil (x ∷ xs) = ap (λ zs. x ∷ zs) (append-nil xs)

  recv_line_from-line :
      (buf line rest : List ℕ)
      → All (λ c. c ≢ 10) line
      → recv_line_from buf (line ++ (10 ∷ rest)) ≡ (ok (rt.decode (buf ++ line)), rest)
  unfolding recv_line_from
  recv_line_from-line buf [] rest h = ap (λ l. (ok (rt.decode l), rest)) (sym (append-nil buf))
  recv_line_from-line buf (c ∷ line) rest h =
      let differs : (c == 10) ≡ false = no_newline c h.0 in
      rw differs (
        recv_line_from-line (buf ++ (c ∷ [])) line rest h.1
        ∙ ap (λ l. (ok (rt.decode l), rest)) (append_assoc buf c line))
    where
      no_newline : (c : ℕ) → c ≢ 10 → (c == 10) ≡ false
      no_newline c ne = ground arith

  -- The bytes of a text, none of them a newline, and then a newline are read as that text, and what
  -- follows is left to read.
  pub recv_line-line :
      (text : String) (rest : List ℕ)
      → All (λ c. c ≢ 10) (rt.encode text)
      → recv_line (rt.encode text ++ (10 ∷ rest)) ≡ (ok text, rest)
  unfolding recv_line
  recv_line-line text rest h =
      recv_line_from-line [] (rt.encode text) rest h
      ∙ ap (λ t. (ok t, rest)) (rt.decode-encode text)

  recv_bytes-append :
      (bytes rest : List ℕ) → recv_bytes (length bytes) (bytes ++ rest) ≡ (ok bytes, rest)
  unfolding recv_bytes
  recv_bytes-append bytes rest =
      let fits : leb (length bytes) (length (bytes ++ rest)) ≡ true =
        all_there (length bytes) _ (length rest) (length-append bytes rest) in
      rw (fits, take-length bytes rest, drop-length bytes rest) refl
    where
      all_there : (n m k : ℕ) → m ≡ n + k → leb n m ≡ true
      all_there n m k e = ground arith

  -- A row that this client packed by the schema and the server sends back in a SCAN, under a header
  -- line with the row's number and size, is read as a row with the values that were packed, under that
  -- number, and what follows it is left to read. The values have to fit their columns.
  pub other_line-serialized :
      (columns : List SchemaColumn) (d : Row) (line a b : String) (n : ℤ) (r : Response)
      (packed rest : List ℕ)
      → All (λ col. Fits col (value_of col.name d)) columns
      → serialize_row columns d ≡ ok packed
      → split line ≡ a ∷ b ∷ []
      → rt.parse_int a ≡ ok n
      → rt.parse_int b ≡ ok (pos (length packed))
      → (row : Row) × All (λ col. get col.name row ≡ some (value_of col.name d)) columns
        × (other_line (some columns) line r (packed ++ rest) ≡ (
          ok (record r { rows = r.rows ++ (row ∷ []); row_ids = r.row_ids ++ (n ∷ []) }),
          rest,
        ))
  unfolding other_line or_line read_row row_header
  other_line-serialized columns d line a b n r packed rest f ep el ea eb =
      let (bytes, row, es, ed, held) = deserialize-serialize columns d f in
      let same : bytes ≡ packed = ok-injective (sym es ∙ ep) in
      (row, held, rw (el, ea, eb, recv_bytes-append packed rest, ← same, ed) refl)
