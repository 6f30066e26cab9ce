-- ===== src/Executor/Aggregate.antt =====
-- Sums, averages, minima and maxima, as sql-engine/executor.py computes them.
pub mod Laws
use sql_parser.Base.{
  ℕ, String, Bool, true, false, Option, none, some, List, [], ◌∷◌, length, if◌then◌else◌,
}
use sql_parser.Base.Int.{pos}
use sql_parser.Base.Result.{Result, ok, raised, ◌>>=◌, fold_m, empty_sequence}
use sql_parser.Value.{Runtime, Val, int, py_add, py_lt, py_div}

module _ ⦃rt : Runtime⦄ {A : Type 0} where
  -- `total = 0` and `total += read(x)` in a loop, and sum(read(x) for x in xs), which is the same but
  -- for floats since Python 3.12, where sum() compensates for what rounding loses
  unfoldable pub sum_of : (A → Result Val) → List A → Result Val
  sum_of read xs = fold_m (λ total x. read x >>= λ v. py_add total v) (int (pos 0)) xs

  -- sum(…) / len(xs)
  unfoldable pub avg_of : (A → Result Val) → List A → Result Val
  unfolding sum_of
  avg_of read xs = sum_of read xs >>= λ total. py_div total (length xs)

  unfoldable pub min_step : (A → Result Val) → Val → A → Result Val
  min_step read m x = do v ← read x; b ← py_lt v m; ok (if b then v else m)

  unfoldable pub max_step : (A → Result Val) → Val → A → Result Val
  max_step read m x = do v ← read x; b ← py_lt m v; ok (if b then v else m)

  -- min(read(x) for x in xs): the first of the least values
  unfoldable pub min_of : (A → Result Val) → List A → Result Val
  unfolding min_step
  min_of read [] = raised empty_sequence
  min_of read (x ∷ xs) = read x >>= λ v. fold_m (min_step read) v xs

  -- max(read(x) for x in xs)
  unfoldable pub max_of : (A → Result Val) → List A → Result Val
  unfolding max_step
  max_of read [] = raised empty_sequence
  max_of read (x ∷ xs) = read x >>= λ v. fold_m (max_step read) v xs
