-- ===== src/Executor/Group.antt =====
-- The grouping loop, which _apply_group_by and the five _execute_*_with_group_by of
-- sql-engine/executor.py each write out.
pub mod Laws
use sql_parser.Base.{
  ℕ, String, Bool, true, false, ◌&&◌, Option, none, some, List, [], ◌∷◌, ◌++◌, if◌then◌else◌,
}
use sql_parser.Base.Dict.{put}
use sql_parser.Base.Result.{Result, ok, raised, ◌>>=◌, map_m, fold_m, index_error}
use sql_parser.Value.{Runtime, Val, py_eq}
use sql_parser.Table.{Row, Rows, item}

module _ ⦃rt : Runtime⦄ where
  abbrev pub Key : Type 0
  Key = List Val

  -- A dict from tuples to lists of rows, in insertion order.
  abbrev pub Groups : Type 0
  Groups = List (Key × Rows)

  -- == on tuples
  unfoldable pub keys_eq : Key → Key → Bool
  keys_eq [] [] = true
  keys_eq (a ∷ as_) (b ∷ bs) = py_eq a b && keys_eq as_ bs
  keys_eq _ _ = false

  -- key = tuple(row[col] for col in group_by_columns)
  unfoldable pub row_key : List String → Row → Result Key
  row_key cols row = map_m (λ c. item c row) cols

  -- if key not in groups: groups[key] = []
  -- groups[key].append(row)
  unfoldable pub add_to_group : Key → Row → Groups → Groups
  add_to_group key row [] = (key, row ∷ []) ∷ []
  add_to_group key row ((k, rs) ∷ gs) =
      if keys_eq k key then (k, rs ++ row ∷ []) ∷ gs else (k, rs) ∷ add_to_group key row gs

  unfoldable pub group_step : List String → Groups → Row → Result Groups
  group_step cols gs row = row_key cols row >>= λ key. ok (add_to_group key row gs)

  unfoldable pub group_rows : List String → Rows → Result Groups
  unfolding group_step
  group_rows cols rows = fold_m (group_step cols) [] rows

  -- for i, col in enumerate(group_by_columns): result_row[col] = key[i]
  -- (with one column the source writes the row {col: key[0]}, which is the same)
  unfoldable pub put_key : List String → Key → Row → Result Row
  put_key [] key row = ok row
  put_key (c ∷ cs) [] row = raised index_error
  put_key (c ∷ cs) (v ∷ vs) row = put_key cs vs (put c v row)
