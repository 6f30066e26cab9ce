-- ===== src/Tests/Disk.antt =====
-- A table that comes as CSV text.
use sql_parser.Base.{◌≡◌, refl, String, List, [], ◌∷◌, map, All}
use sql_parser.Base.Int.{pos}
use sql_parser.Base.Result.{ok}
use sql_parser.Storage.Disk.{parse_csv, load_table, cell}
use sql_parser.Storage.Disk.Laws.{Cells, IsLine, IsRow, csv, texts, entries, parse_csv-csv}
use sql_parser.Storage.Text.{strip, join, has_char}
use sql_parser.Value.{int}
use sql_parser.Base.Dict.{put}
use sql_parser.Tests.Sample.{sample}

abbrev headers : List String
headers = "id" ∷ "age" ∷ []

abbrev cells : List Cells
cells =
    (("1", int (pos 1)) ∷ ("31", int (pos 31)) ∷ [])
    ∷ (("2", int (pos 2)) ∷ ("25", int (pos 25)) ∷ [])
    ∷ []

test_csv : csv (headers ∷ map texts cells) ≡ "id,age\n1,31\n2,25"
unfolding join
test_csv = refl

test_load :
    (load_table
      (λ args s. (record { returncode = pos 0; stdout = "id,age\n1,31 "; stderr = "" }, s))
      "t"
      tt).0
    ≡ ok (record { name = "t"; rows = (("id", int (pos 1)) ∷ ("age", int (pos 31)) ∷ []) ∷ [] })
unfolding load_table cell put
test_load = refl

headers-IsLine : IsLine headers
unfolding has_char
headers-IsLine = ((refl, refl), ((refl, refl), tt))

cells-AreRows : All (IsRow headers) cells
unfolding has_char cell
cells-AreRows = (
  ((((refl, refl), ((refl, refl), tt)), refl, (refl, (refl, tt)))),
  ((((refl, refl), ((refl, refl), tt)), refl, (refl, (refl, tt))), tt),
)

headers-strip :
    strip sample.is_space (csv (headers ∷ map texts cells)) ≡ csv (headers ∷ map texts cells)
unfolding strip join
headers-strip = refl

parse_csv-csv_example :
    parse_csv (csv (headers ∷ map texts cells)) ≡ ok (map (entries headers) cells)
parse_csv-csv_example =
    parse_csv-csv headers cells headers-IsLine ((refl, tt), (tt, tt)) cells-AreRows headers-strip
