-- ===== src/Table.antt =====
-- sql-engine/table.py, and the access to a row's columns.
use sql_parser.Base.{◌≡◌, String, Option, none, some, List, [], ◌∷◌}
use sql_parser.Base.Dict.{Dict, get, has_key}
use sql_parser.Base.Result.{Result, ok, raised, key_error, column_not_found, guard}
use sql_parser.Value.{Runtime, Val}

module _ ⦃rt : Runtime⦄ where
  abbrev pub Row : Type 0
  Row = Dict Val

  abbrev pub Rows : Type 0
  Rows = List Row

  -- row[c]
  unfoldable pub item : String → Row → Result Val
  item c row = elim (get c row) [ none ↦ raised (key_error c) | some v ↦ ok v ]

  pub item-get : (c : String) (row : Row) {v : Val} → get c row ≡ some v → item c row ≡ ok v
  unfolding item
  item-get c row e = rw (e, item)

  pub get-item : (c : String) (row : Row) {v : Val} → item c row ≡ ok v → get c row ≡ some v
  unfolding item
  get-item c row h = found (get c row) h
    where
      found :
          (o : Option Val) {v : Val}
          → (elim o as (λ _. Result Val) [ none ↦ raised (key_error c) | some v ↦ ok v ]) ≡ ok v
          → o ≡ some v
      found none e = cc
      found (some w) e = cc

  -- row[plan.column], where the plan may have no column: `None` is no key of a row.
  unfoldable pub item_of : Option String → Row → Result Val
  unfolding item
  item_of none row = raised (key_error "None")
  item_of (some c) row = item c row

  -- `if rows and c not in rows[0]: raise ValueError("Column … not found in table …")`
  unfoldable pub check_column : String → String → Rows → Result (Unit {0})
  check_column c table [] = ok tt
  check_column c table (row ∷ rows) = guard (has_key c row) (column_not_found c table)

  unfoldable pub check_columns : List String → String → Rows → Result (Unit {0})
  unfolding check_column
  check_columns [] table rows = ok tt
  check_columns (c ∷ cs) table rows = elim (check_column c table rows) [
    | ok _ ↦ check_columns cs table rows
    | raised e ↦ raised e
  ]

pub record Table ⦃rt : Runtime⦄ : Type 0 where
  pub name : String
  pub rows : Rows

-- get_rows
abbrev pub get_rows : ⦃rt : Runtime⦄ → Table → Rows
get_rows t = t.rows
