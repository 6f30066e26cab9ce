-- ===== src/Executor/Distinct.antt =====
-- DISTINCT: _apply_distinct of sql-engine/executor.py.
pub mod Laws
pub mod Projected
use Prim.Native.String
use sql_parser.Base.{
  String, Bool, true, false, ◌&&◌, ◌||◌, Option, none, some, List, [], ◌∷◌, ◌++◌, map, str_eq,
  if◌then◌else◌,
}
use sql_parser.Base.Dict.{Dict, get}
use sql_parser.Value.{Runtime, Value, null, Val, py_str, str_ltb}
use sql_parser.Ast.{ColumnItem, plain, column, qualified, aggregate, Columns, star, listed}
use sql_parser.Table.{Row, Rows}

-- key in seen
abbrev pub contains {ℓ} : {K : Type ℓ} → (K → K → Bool) → K → List K → Bool
contains same k [] = false
contains same k (j ∷ js) = same j k || contains same k js

-- The loop: a row stays if its key is new.
unfoldable pub unique_by {ℓ κ} :
    {K : Type ℓ} {A : Type κ} → (K → K → Bool) → (A → K) → List K → List A → List A
unique_by same key seen [] = []
unique_by same key seen (x ∷ xs) =
    let first = x ∷ unique_by same key (key x ∷ seen) xs in
    let again = unique_by same key seen xs in if contains same (key x) seen then again else first

-- == on tuples of texts, and on tuples of pairs of texts
unfoldable pub strings_eq : List String → List String → Bool
strings_eq [] [] = true
strings_eq (s ∷ ss) (t ∷ ts) = str_eq s t && strings_eq ss ts
strings_eq _ _ = false

unfoldable pub pairs_eq : List (String × String) → List (String × String) → Bool
pairs_eq [] [] = true
pairs_eq ((s, v) ∷ ss) ((t, w) ∷ ts) = str_eq s t && str_eq v w && pairs_eq ss ts
pairs_eq _ _ = false

module _ ⦃rt : Runtime⦄ where
  -- sorted(row.items()): the keys differ, so they alone decide
  insert_item : String → Val → Row → Row
  insert_item k v [] = (k, v) ∷ []
  insert_item k v ((j, w) ∷ d) =
      if str_ltb j k then (j, w) ∷ insert_item k v d else (k, v) ∷ (j, w) ∷ d

  sorted_items : Row → Row
  unfolding insert_item str_ltb
  sorted_items [] = []
  sorted_items ((k, v) ∷ d) = insert_item k v (sorted_items d)

  abbrev show_item : String × Val → String × String
  show_item (k, v) = (k, py_str v)

  -- tuple((k, str(v)) for k, v in sorted(row.items()))
  unfoldable pub star_key : Row → List (String × String)
  unfolding sorted_items
  star_key row = map show_item (sorted_items row)

  -- str(row.get(col_name))
  unfoldable pub show_column : Option String → Row → String
  show_column none row = py_str null
  show_column (some c) row = elim (get c row) [ none ↦ py_str null | some v ↦ py_str v ]

  -- col.get('name', col.get('column')), or the string itself; of t.c this is the text t.c, which is
  -- not the name c that the projection reads
  unfoldable pub item_name : ColumnItem → Option String
  item_name (plain s) = some s
  item_name (column n) = some n
  item_name (qualified n t c) = some n
  item_name (aggregate f c) = c

  unfoldable pub column_key : List ColumnItem → Row → List String
  unfolding show_column item_name
  column_key [] row = []
  column_key (item ∷ items) row = show_column (item_name item) row ∷ column_key items row

  -- by the columns of the plan
  unfoldable pub distinct_rows : Columns → Rows → Rows
  distinct_rows star rows = unique_by pairs_eq star_key [] rows
  distinct_rows (listed items) rows = unique_by strings_eq (column_key items) [] rows

  unfoldable pub apply_distinct : Rows → Bool → Columns → Rows
  unfolding distinct_rows
  apply_distinct rows false columns = rows
  apply_distinct rows true columns = distinct_rows columns rows
