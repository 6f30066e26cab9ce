-- ===== src/Storage/Disk.antt =====
-- sql-engine/storage_disk.py: DiskStorage. The program that it runs, `disk read`, is a parameter.
pub mod Laws
use sql_parser.Base.{String, List, [], ◌∷◌, if◌then◌else◌}
use sql_parser.Base.Dict.{put}
use sql_parser.Base.Exec.{Exec, ◌>>=◌, lift}
use sql_parser.Base.Int.{ℤ, pos, eqb_ℤ}
use sql_parser.Base.Result.{
  Result, ok, raised, map_m, value_error, index_error, runtime_error, attribute_error,
}
use sql_parser.Base.Result
use sql_parser.Storage.{Storage}
use sql_parser.Storage.Text.{has_char, split_at, strip}
use sql_parser.Table.{Row, Rows, Table}
use sql_parser.Value.{Runtime, Val, int, float, str}

-- subprocess.CompletedProcess
pub record Process : Type 0 where
  pub returncode : ℤ
  pub stdout : String
  pub stderr : String

module _ ⦃rt : Runtime⦄ where
  -- except ValueError
  abbrev or_text : String → Result Val → Result Val
  or_text s (ok v) = ok v
  or_text s (raised value_error) = ok (str s)
  or_text s (raised e) = raised e

  -- float(value) of a text with a dot, int(value) of another, and the text if it is no number
  unfoldable pub cell : String → Result Val
  unfolding has_char
  cell s = or_text s (
      if has_char b'.' s
      then Result.◌>>=◌ (rt.parse_float s) (λ x. ok (float x))
      else Result.◌>>=◌ (rt.parse_int s) (λ n. ok (int n)))

  -- for i, header in enumerate(headers): row[header] = ... values[i] ...
  unfoldable pub read_cells : List String → List String → Row → Result Row
  read_cells [] values row = ok row
  read_cells (h ∷ hs) [] row = raised index_error
  read_cells (h ∷ hs) (s ∷ values) row =
      Result.◌>>=◌ (cell s) (λ v. read_cells hs values (put h v row))

  -- one turn of the loop over lines[1:]
  unfoldable pub csv_row : List String → String → Result Row
  unfolding read_cells split_at
  csv_row headers line = read_cells headers (split_at b',' line) []

  abbrev pub csv_rows : List String → Result Rows
  csv_rows [] = ok []
  csv_rows (header ∷ lines) = map_m (csv_row (split_at b',' header)) lines

  unfoldable pub parse_csv : String → Result Rows
  unfolding csv_row strip
  parse_csv s = csv_rows (split_at b'\n' (strip rt.is_space s))

module _ ⦃rt : Runtime⦄ {S : Type 0} (run : List String → S → Process × S) where
  abbrev finished : String → Process → Result Table
  finished table p =
      if eqb_ℤ p.returncode (pos 0)
      then Result.◌>>=◌ (parse_csv p.stdout) (λ rows. ok (record { name = table; rows = rows }))
      else raised (runtime_error p.stderr)

  unfoldable pub load_table : String → Exec S Table
  unfolding parse_csv
  load_table table s =
      let (p, s') = run ("../storage-engine/disk" ∷ "read" ∷ table ∷ []) s in (finished table p, s')

  -- The class has no other method: a call of one is an AttributeError.
  unfoldable pub storage : Storage S
  unfolding load_table
  storage = record {
    load_table = load_table;
    create_table = λ table cols s. (raised attribute_error, s);
    insert_row = λ table cols vs s. (raised attribute_error, s);
    delete_rows = λ table cond s. (raised attribute_error, s);
    update_rows = λ table assignments cond s. (raised attribute_error, s);
  }
