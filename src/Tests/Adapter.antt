-- ===== src/Tests/Adapter.antt =====
-- The adapter on counters that go up, and on a blank query.
use sql_parser.Base.{◌≡◌, refl, String, [], ◌∷◌, ℕ, List}
use sql_parser.Base.Int.{pos, ◌+ℤ◌, ◌-ℤ◌}
use sql_parser.Base.Dict.{Dict, get}
use sql_parser.Base.Exec.{Exec}
use sql_parser.Base.Result.{ok, raised, runtime_error, Error}
use sql_parser.Adapter.{delta_metrics, metric_delta, py_int, metric, execute_query, not_run}
use sql_parser.Storage.Text.{strip}
use sql_parser.Tests.Parser.{reader, ascii_digits}
use sql_parser.Tests.Sample.{sample}
use sql_parser.Value.{Val, int}

abbrev first_counters : Dict (Val ⦃rt = sample⦄)
first_counters = ("hits", int (pos 4)) ∷ ("misses", int (pos 1)) ∷ []

abbrev last_counters : Dict (Val ⦃rt = sample⦄)
last_counters = ("hits", int (pos 10)) ∷ ("misses", int (pos 3)) ∷ ("evictions", int (pos 1)) ∷ []

-- hit_rate is what the sample's division gives, its first operand.
test_delta :
    delta_metrics (pos 0) (pos 7) first_counters last_counters
    ≡ ok (record {
      hits = pos 6;
      misses = pos 2;
      evictions = pos 1;
      hit_rate = pos 6;
      elapsed_time = pos 7;
    })
unfolding delta_metrics metric_delta metric py_int ◌+ℤ◌ ◌-ℤ◌ get
test_delta = refl

abbrev no_server : List ℕ → Exec (Unit {0}) (List ℕ)
no_server request s = (raised (runtime_error "refused"), s)

abbrev any_message : Error → String
any_message e = "error"

abbrev nothing_printed : String → String
nothing_printed text = ""

-- No connection is made.
test_blank :
    execute_query no_server reader ascii_digits (pos 0) (pos 0) any_message nothing_printed "  " tt
    ≡ (ok (not_run (pos 0) "  " "Query is empty."), tt)
unfolding execute_query strip
test_blank = refl
