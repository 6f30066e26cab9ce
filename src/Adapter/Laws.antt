-- ===== src/Adapter/Laws.antt =====
-- Adapter: the counters of a query.
use mathlib.Core.Path.{◌≡◌}
use sql_parser.Base.{String, arith}
use sql_parser.Base.Dict.{Dict}
use sql_parser.Base.Int.{ℤ, ◌+ℤ◌, ◌-ℤ◌, eq_of_parts}
use sql_parser.Base.Result.{ok}
use sql_parser.Adapter.{metric, metric_delta}
use sql_parser.Value.{Runtime, Val}

-- What is subtracted and added again.
pub +ℤ-sub : (a b : ℤ) → a +ℤ (b -ℤ a) ≡ b
unfolding ◌+ℤ◌ ◌-ℤ◌
+ℤ-sub a b = eq_of_parts (a +ℤ (b -ℤ a)) b (ground arith)

module _ ⦃rt : Runtime⦄ where
  -- Counters that can be read have a difference, and it leads from the first to the second.
  metric_delta-ok :
      (key : String) (before later : Dict Val) (a b : ℤ)
      → metric key before ≡ ok a
      → metric key later ≡ ok b
      → (d : ℤ) × (metric_delta key before later ≡ ok d) × (a +ℤ d ≡ b)
  unfolding metric_delta
  metric_delta-ok key before later a b ha hb = (b -ℤ a, rw (hb, ha), +ℤ-sub a b)
