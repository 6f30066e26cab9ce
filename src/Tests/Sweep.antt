-- ===== src/Tests/Sweep.antt =====
-- Sweeps over two sizes of the buffer pool, whose rates are whole numbers.
use sql_parser.Base.{String, true, false, ◌≡◌, refl, some, List, [], ◌∷◌, map}
use sql_parser.Base.Dict.{get, put}
use sql_parser.Base.Int.{ℤ, pos, ◌+ℤ◌}
use sql_parser.Benchmark.Summary.{PolicySummary, summarize_by_policy}
use sql_parser.Sweep.{
  SweepRow, SweepFrame, plot, distance_mode, begin_sweep, add_result, run_sweep, redraw_chart,
  points, distance, table_rows,
}
use sql_parser.Sweep.Laws.{Ranked, of_frames, replay, begin_sweep-Ranked}
use sql_parser.Sweep.Table.{filled, points-filled}
use sql_parser.Sweep.Worker.{Sweep, worker}
use sql_parser.Sweep.Worker.Laws.{Written, Progress, worker-Progress}
use sql_parser.Tests.Benchmark.{some_services, two_queries, call}
use sql_parser.Tests.Controller.{new_app}
use sql_parser.Tests.Sample.{sample}
use sql_parser.Value.{str_int}

abbrev summary_with : ℤ → PolicySummary ℤ
summary_with rate = record {
  hits = pos 0;
  misses = pos 0;
  evictions = pos 0;
  elapsed_time = pos 0;
  hit_rate = rate;
}

abbrev row : ℤ → ℤ → ℤ → SweepRow ℤ
row frames lru opt = record {
  frames = frames;
  summary = ("lru", summary_with lru) ∷ ("opt", summary_with opt) ∷ [];
}

abbrev empty : SweepFrame ℤ
empty = record {
  frames_text = "3, , 16";
  policy_vars = ("lru", true) ∷ ("clock", false) ∷ ("opt", true) ∷ [];
  metric = distance_mode;
  selected_policies = [];
  rows_by_frame = [];
  info = "";
  is_running = false;
}

abbrev sub : ℤ → ℤ → ℤ
sub a b = a

abbrev two_policies : List String
two_policies = "lru" ∷ "opt" ∷ []

abbrev two_sizes : List ℤ
two_sizes = pos 3 ∷ pos 16 ∷ []

abbrev arrived : List (SweepRow ℤ)
arrived = row (pos 16) (pos 5) (pos 6) ∷ row (pos 3) (pos 1) (pos 2) ∷ []

abbrev swept : SweepFrame ℤ
swept = replay arrived (begin_sweep two_sizes two_policies empty)

test_request : run_sweep empty ≡ (two_sizes, two_policies)
unfolding run_sweep
test_request = refl

begin_sweep-Ranked_example :
    Ranked swept.rows_by_frame × (of_frames (pos 3) swept.rows_by_frame ≡ of_frames (pos 3) arrived)
begin_sweep-Ranked_example = begin_sweep-Ranked two_sizes two_policies empty arrived (pos 3)

two_apart : distance (pos 0) sub (some (pos 6)) (some (pos 5)) ≡ some (pos 6)
unfolding distance
two_apart = refl

-- A format that gives the same text for every float.
abbrev text_3f : ℤ → String
text_3f x = "0.500"

points-filled_example :
    map
      (λ (p : ℤ × ℤ). (str_int p.0, text_3f p.1))
      (points (pos 0) sub distance_mode "opt" swept.rows_by_frame)
    ≡ filled 2 (table_rows (pos 0) sub text_3f swept)
unfolding begin_sweep add_result
points-filled_example = points-filled (pos 0) sub text_3f (λ x. refl) swept 1 "opt" refl

abbrev new_sweep : Sweep ℤ (List String)
new_sweep = record { app = new_app; sweep_rows = []; posted = [] }

worker-Progress_example :
    Written
      (worker
        (pos 0)
        some_services
        (λ rows. call "save" "sweep.csv")
        two_policies
        two_queries
        two_sizes
        new_sweep).1
    × Progress two_sizes new_sweep (
        worker
          (pos 0)
          some_services
          (λ rows. call "save" "sweep.csv")
          two_policies
          two_queries
          two_sizes
          new_sweep)
worker-Progress_example =
    worker-Progress (pos 0) some_services (λ rows. call "save" "sweep.csv") two_policies two_queries
      two_sizes new_sweep refl

-- The rows that are posted, and what the widget shows of them.
test_chart :
    redraw_chart (pos 0) sub swept
    ≡ plot "Distance to OPT vs Buffer Pool Size" two_sizes (
        ("lru", (pos 3, pos 2) ∷ (pos 16, pos 6) ∷ [])
        ∷ ("opt", (pos 3, pos 2) ∷ (pos 16, pos 6) ∷ [])
        ∷ [])
unfolding redraw_chart begin_sweep add_result
test_chart = refl

test_posted :
    map
      (λ (r : SweepRow ℤ). r.frames)
      (worker
        (pos 0)
        some_services
        (λ rows. call "save" "sweep.csv")
        two_policies
        two_queries
        two_sizes
        new_sweep).1.posted
    ≡ two_sizes
unfolding worker sql_parser.Controller.run_benchmark sql_parser.Benchmark.run_benchmark
    summarize_by_policy get put ◌+ℤ◌
test_posted = refl
