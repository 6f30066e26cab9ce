-- ===== src/Executor/Projection/Laws.antt =====
-- What a projected row holds.
use sql_parser.Base.{
  String, false, ◌≡◌, refl, ◌∙◌, some, none, Option, List, [], ◌∷◌, All, str_eq, eq_iff,
}
use sql_parser.Base.Dict.{get, put, get-put, merge, get-merge, HasUniqueKeys}
use sql_parser.Base.Result.{Result, ok, raised, >>=-eq-ok, column_not_found}
use sql_parser.Value.{Runtime, Val}
use sql_parser.Ast.{ColumnItem, qualified}
use sql_parser.Table.{Row}
use sql_parser.Executor.Projection.{source_name, output_name, project_column, project_row}

-- The two names of an item, where it has them.
abbrev pub Names : ColumnItem → String → String → Type 0
Names i n c = (output_name i ≡ some n) × (source_name i ≡ some c)

-- No item of the list is output under this name.
abbrev pub NotOutput : String → List ColumnItem → Type 0
NotOutput n items = All (λ i. (m : String) → output_name i ≡ some m → str_eq m n ≡ false) items

abbrev pub UniqueOutputs : List ColumnItem → Type 0
UniqueOutputs [] = Unit
UniqueOutputs (i ∷ is) = ((n : String) → output_name i ≡ some n → NotOutput n is) × UniqueOutputs is

module _ ⦃rt : Runtime⦄ where
  -- One column: what it reads, and where it puts it.
  project_column-eq-ok :
      (table : String) (c n : Option String) (row result : Row) {out : Row}
      → project_column table c n row result ≡ ok out
      → (c' n' : String) × (v : Val) × (c ≡ some c')
        × (n ≡ some n')
        × (get c' row ≡ some v)
        × (out ≡ put n' v result)
  unfolding project_column
  project_column-eq-ok table none n row result h = cc
  project_column-eq-ok table (some c) none row result h = cc
  project_column-eq-ok table (some c) (some n) row result {out} h = found (get c row) refl h
    where
      found :
          (o : Option Val)
          → get c row ≡ o
          → (elim o as (λ _. Result Row) [
            | none ↦ raised (column_not_found c table)
            | some v ↦ ok (put n v result)
          ])
            ≡ ok out
          → (c' n' : String) × (v : Val) × (some c ≡ some c')
            × (some n ≡ some n')
            × (get c' row ≡ some v)
            × (out ≡ put n' v result)
      found none e k = cc
      found (some v) e k = (c, n, v, refl, refl, e, cc)

  project_row-keeps :
      (table : String) (items : List ColumnItem) (row result : Row) {out : Row} (n : String)
      → NotOutput n items
      → project_row table items row result ≡ ok out
      → get n out ≡ get n result
  unfolding project_row
  project_row-keeps table [] row result n h e = cc
  project_row-keeps table (i ∷ is) row result n h e =
      let (r, er, e') =
        >>=-eq-ok (project_column table (source_name i) (output_name i) row result) _ e in
      let (c, m, v, ec, em, ev, eo) =
        project_column-eq-ok table (source_name i) (output_name i) row result er in
      project_row-keeps table is row r n h.1 e' ∙ (rw (eo, get-put m n v result, h.0 m em))

  -- Where a row is projected without an exception and no two columns of the list have one output
  -- name, each column of the list is in the projected row under its output name, with the value
  -- that the row has under its source name.
  pub project_row-values :
      (table : String) (items : List ColumnItem) (row result out : Row)
      → UniqueOutputs items
      → project_row table items row result ≡ ok out
      → All
          (λ i.
            (c n : String) × Names i n c × (v : Val) × (get c row ≡ some v) × (get n out ≡ some v))
          items
  unfolding project_row
  project_row-values table [] row result out u e = tt
  project_row-values table (i ∷ is) row result out u e =
      let (r, er, e') =
        >>=-eq-ok (project_column table (source_name i) (output_name i) row result) _ e in
      let (c, m, v, ec, em, ev, eo) =
        project_column-eq-ok table (source_name i) (output_name i) row result er in
      (
        (
          c,
          m,
          (em, ec),
          v,
          ev,
          project_row-keeps table is row r m (u.0 m em) e'
              ∙ rw (eo, get-put m m v result, (eq_iff m m).1 refl),
        ),
        project_row-values table is row r out u.1 e',
      )

  -- In a row that is merged from a left and a right one, a column t.c with a table name t that is
  -- not empty reads the right row's value, if the right row has a column c and its column names
  -- differ, whichever table t names.
  pub project_join-right :
      (table n t c : String) (left_row right_row : Row) (v : Val)
      → str_eq t "" ≡ false
      → HasUniqueKeys right_row
      → get c right_row ≡ some v
      → project_row table (qualified n t c ∷ []) (merge left_row right_row) [] ≡ ok ((n, v) ∷ [])
  unfolding project_row source_name output_name put
  project_join-right table n t c left_row right_row v named unique h =
      rw (named, project_column, get-merge c left_row right_row unique, h, put)
