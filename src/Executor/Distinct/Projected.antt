-- ===== src/Executor/Distinct/Projected.antt =====
-- DISTINCT and then the projection: what SELECT DISTINCT shows.
use sql_parser.Base.{String, ◌≡◌, Option, none, some, List, [], ◌∷◌, All}
use sql_parser.Base.Dict.{get}
use sql_parser.Base.Result.{ok}
use sql_parser.Value.{Runtime, Val, py_str}
use sql_parser.Ast.{ColumnItem, plain, column, qualified, aggregate}
use sql_parser.Table.{Row, Rows}
use sql_parser.Executor.Projection.{output_name, project_row}
use sql_parser.Executor.Projection.Laws.{Names, UniqueOutputs}

-- No table stands before the column.
abbrev pub Unqualified : ColumnItem → Type 0
Unqualified (plain s) = Unit {0}
Unqualified (column n) = Unit {0}
Unqualified (qualified n t c) = t ≡ ""
Unqualified (aggregate f c) = Unit {0}

abbrev somes : List String → List (Option String)
somes [] = []
somes (s ∷ ss) = some s ∷ somes ss

module _ ⦃rt : Runtime⦄ where
  -- The text of the value at a name.
  abbrev pub text_at : Option String → Row → Option String
  text_at none row = none
  text_at (some n) row = elim (get n row) [ none ↦ none | some v ↦ some (py_str v) ]

  -- The texts that a row shows at its columns' output names.
  abbrev pub output_texts : List ColumnItem → Row → List (Option String)
  output_texts [] row = []
  output_texts (i ∷ is) row = text_at (output_name i) row ∷ output_texts is row

  -- What project_row-values says of a column.
  abbrev Shown : Row → Row → ColumnItem → Type 0
  Shown row out i =
      (c n : String) × Names i n c × (v : Val) × (get c row ≡ some v) × (get n out ≡ some v)

module _ ⦃rt : Runtime⦄ (table : String) (items : List ColumnItem)
    (plain_items : All Unqualified items) (unique : UniqueOutputs items) where
  -- Each row is projected to the one at its place.
  Outs : Rows → Rows → Type 0
  Outs [] [] = Unit
  Outs (r ∷ rs) (o ∷ os) = (project_row table items r [] ≡ ok o) × Outs rs os
  Outs _ _ = ⊥
