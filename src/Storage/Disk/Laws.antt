-- ===== src/Storage/Disk/Laws.antt =====
-- Storage/Disk: the table that the lines of a CSV text hold.
use Prim.Native.Char.{Char, code}
use mathlib.Core.List.{◌++◌ as append, append_assoc, append-nil}
use sql_parser.Base.{
  ℕ, String, false, ◌≡◌, refl, ap, sym, ◌∙◌, List, [], ◌∷◌, map, length, All, ◌==◌, arith, str_eq,
  ◌<◌,
}
use sql_parser.Base.Dict.{put, Lacks, Dict}
use sql_parser.Base.Result.{ok, map_m, raised, index_error}
use sql_parser.Storage.Disk.{cell, read_cells, csv_row, csv_rows, parse_csv}
use sql_parser.Storage.Text.{has_char, split_at, join, strip}
use sql_parser.Table.{Row}
use sql_parser.Value.{Runtime, Val}
use sql_parser.Storage.Text.Laws.{one-append, split_at-join, has_char-append}

put-missing {ℓ} :
    {V : Type ℓ} (k : String) (v : V) (d : Dict V) → Lacks k d → put k v d ≡ append d ((k, v) ∷ [])
unfolding put
put-missing k v [] h = refl
put-missing k v ((j, w) ∷ d) h = rw (h.0, put-missing k v d h.1)

has_char-join :
    (n : ℕ) (c : Char) (ps : List String)
    → (code c == n) ≡ false
    → All (λ q. has_char n q ≡ false) ps
    → has_char n (join (String.◌∷◌ c "") ps) ≡ false
unfolding join has_char
has_char-join n c [] e h = refl
has_char-join n c (p ∷ []) e h = h.0
has_char-join n c (p ∷ q ∷ ps) e h =
    let tail = join (String.◌∷◌ c "") (q ∷ ps) in
    let rest : has_char n tail ≡ false = has_char-join n c (q ∷ ps) e h.1 in
    rw (one-append c tail) (has_char-append n p (String.◌∷◌ c tail) h.0 (rw (e, rest)))

Lacks-append :
    {V : Type 0} (k j : String) (v : V) (d : Dict V)
    → Lacks k d
    → str_eq j k ≡ false
    → Lacks k (append d ((j, v) ∷ []))
Lacks-append k j v [] h e = (e, tt)
Lacks-append k j v ((i, w) ∷ d) h e = (h.0, Lacks-append k j v d h.1 e)

-- A line without its separators: a list of parts. The text of lines.
abbrev pub line : List String → String
line = join ","

abbrev pub csv : List (List String) → String
csv ls = join "\n" (map line ls)

-- A part has neither a comma nor a newline.
abbrev pub IsPart : String → Type 0
IsPart s = (has_char b',' s ≡ false) × (has_char b'\n' s ≡ false)

-- a line with at least one part
abbrev pub IsLine : List String → Type 0
IsLine [] = ⊥
IsLine (p ∷ ps) = All IsPart (p ∷ ps)

-- No name stands twice.
abbrev pub AreNames : List String → Type 0
AreNames [] = Unit
AreNames (h ∷ hs) = All (λ k. str_eq h k ≡ false) hs × AreNames hs

All-imp :
    {P Q : String → Type 0} (f : (x : String) → P x → Q x) (xs : List String) → All P xs → All Q xs
All-imp f [] h = tt
All-imp f (x ∷ xs) h = (f x h.0, All-imp f xs h.1)

-- Names that a dict lacks, and that differ from a further key.
Lacks-names :
    {V : Type 0} (h : String) (v : V) (d : Dict V) (hs : List String)
    → All (λ k. Lacks k d) hs
    → All (λ k. str_eq h k ≡ false) hs
    → All (λ k. Lacks k (append d ((h, v) ∷ []))) hs
Lacks-names h v d [] l n = tt
Lacks-names h v d (k ∷ hs) l n = (Lacks-append k h v d l.0 n.0, Lacks-names h v d hs l.1 n.1)

IsLine-split : (ps : List String) → IsLine ps → split_at b',' (line ps) ≡ ps
IsLine-split [] h = absurd h
IsLine-split (p ∷ ps) h =
    split_at-join b',' "," p ps refl (All-imp (λ q (k : IsPart q). k.0) (p ∷ ps) h)

IsLine-newline : (ps : List String) → IsLine ps → has_char b'\n' (line ps) ≡ false
IsLine-newline [] h = absurd h
IsLine-newline (p ∷ ps) h =
    has_char-join b'\n' "," (p ∷ ps) refl (All-imp (λ q (k : IsPart q). k.1) (p ∷ ps) h)

module _ ⦃rt : Runtime⦄ where
  -- the texts of a row's cells with their values
  abbrev pub Cells : Type 0
  Cells = List (String × Val)

  abbrev pub texts : Cells → List String
  texts [] = []
  texts ((s, v) ∷ r) = s ∷ texts r

  -- Each text is read as its value.
  abbrev pub AreRead : Cells → Type 0
  AreRead [] = Unit
  AreRead ((s, v) ∷ r) = (cell s ≡ ok v) × AreRead r

  -- the headers with the values
  abbrev pub entries : List String → Cells → Row
  entries [] r = []
  entries (h ∷ hs) [] = []
  entries (h ∷ hs) ((s, v) ∷ r) = (h, v) ∷ entries hs r

  none_there : (hs : List String) → All (λ h. Lacks {V = Val} h []) hs
  none_there [] = tt
  none_there (h ∷ hs) = (tt, none_there hs)

  read_cells-entries :
      (hs : List String) (r : Cells) (row : Row)
      → AreNames hs
      → All (λ h. Lacks h row) hs
      → length r ≡ length hs
      → AreRead r
      → read_cells hs (texts r) row ≡ ok (append row (entries hs r))
  unfolding read_cells
  read_cells-entries [] [] row n l e a = ap ok (sym (append-nil row))
  read_cells-entries [] (c ∷ r) row n l e a = absurd (omega arith)
  read_cells-entries (h ∷ hs) [] row n l e a = absurd (omega arith)
  read_cells-entries (h ∷ hs) ((s, v) ∷ r) row n l e a =
      rw (a.0, put-missing h v row l.0)
        (read_cells-entries hs r (append row ((h, v) ∷ [])) n.1 (Lacks-names h v row hs l.1 n.0)
            (omega arith) a.1
          ∙ ap ok (append_assoc row ((h, v) ∷ []) (entries hs r)))

  -- A row of the table that `hs` heads.
  abbrev pub IsRow : List String → Cells → Type 0
  IsRow hs r = IsLine (texts r) × (length r ≡ length hs) × AreRead r

  csv_rows-entries :
      (hs : List String) (rows : List Cells)
      → AreNames hs
      → All (IsRow hs) rows
      → map_m (csv_row hs) (map line (map texts rows)) ≡ ok (map (entries hs) rows)
  unfolding csv_row
  csv_rows-entries hs [] n h = refl
  csv_rows-entries hs (r ∷ rows) n h =
      let (is_line, full, read) = h.0 in
      rw (
        IsLine-split (texts r) is_line,
        read_cells-entries hs r [] n (none_there hs) full read,
        csv_rows-entries hs rows n h.1,
      )

  lines_split :
      (hs : List String) (rows : List Cells)
      → IsLine hs
      → All (IsRow hs) rows
      → split_at b'\n' (csv (hs ∷ map texts rows)) ≡ line hs ∷ map line (map texts rows)
  lines_split hs rows h k =
      split_at-join b'\n' "\n" (line hs) (map line (map texts rows)) refl
        (IsLine-newline hs h, no_newlines rows k)
    where
      no_newlines :
          (rs : List Cells)
          → All (IsRow hs) rs
          → All (λ q. has_char b'\n' q ≡ false) (map line (map texts rs))
      no_newlines [] l = tt
      no_newlines (r ∷ rs) l = (IsLine-newline (texts r) l.0.0, no_newlines rs l.1)

  -- The CSV text of different headers and of rows of their length, no cell having a comma or a
  -- newline and the text no white space at its ends, is read as these rows under the headers, where
  -- each cell's text is read as the cell's value.
  pub parse_csv-csv :
      (hs : List String) (rows : List Cells)
      → IsLine hs
      → AreNames hs
      → All (IsRow hs) rows
      → strip rt.is_space (csv (hs ∷ map texts rows)) ≡ csv (hs ∷ map texts rows)
      → parse_csv (csv (hs ∷ map texts rows)) ≡ ok (map (entries hs) rows)
  unfolding parse_csv
  parse_csv-csv hs rows h n k e =
      ap (λ t. csv_rows (split_at b'\n' t)) e
      ∙ rw (lines_split hs rows h k, IsLine-split hs h) (csv_rows-entries hs rows n k)

  -- A line with fewer cells than headers.
  pub read_cells-short :
      (hs : List String) (r : Cells) (row : Row)
      → length r < length hs
      → AreRead r
      → read_cells hs (texts r) row ≡ raised index_error
  unfolding read_cells
  read_cells-short [] r row l a = absurd (omega arith)
  read_cells-short (h ∷ hs) [] row l a = refl
  read_cells-short (h ∷ hs) ((s, v) ∷ r) row l a =
      rw a.0 (read_cells-short hs r (put h v row) (omega arith) a.1)
