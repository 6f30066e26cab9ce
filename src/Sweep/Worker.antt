-- ===== src/Sweep/Worker.antt =====
-- gui-app/app/views/main_window.py: _on_run_benchmark_sweep, whose worker runs a benchmark for each
-- size of the buffer pool and posts the results to the widget. The results are posted in the order
-- in which the loop of the window takes them. The file of the results is a parameter.
pub mod Laws
use mathlib.Core.List.{◌++◌ as append}
use sql_parser.Base.{
  String, Option, none, some, List, [], ◌∷◌, map, if◌then◌else◌, Bool, true, false,
}
use sql_parser.Base.Exec.{Exec, ◌>>=◌, continue, pure, lift}
use sql_parser.Base.Int.{ℤ}
use sql_parser.Base.Result.{Result, ok, raised}
use sql_parser.Benchmark.{Services, BenchmarkRun}
use sql_parser.Benchmark.Summary.{PolicySummary, summarize_by_policy}
use sql_parser.Controller
use sql_parser.Controller.{App}
use sql_parser.Sweep.{SweepRow, SweepFrame, begin_sweep, add_result, finish_sweep, fail_sweep}
use sql_parser.Value.{Runtime}

-- A row of sweep_rows.
pub record CsvRow (F : Type 0) : Type 0 where
  pub frames : ℤ
  pub policy : String
  pub hit_rate : F
  pub misses : F
  pub evictions : F

-- The controller, sweep_rows, and the results that have been posted to add_result.
pub record Sweep (F S : Type 0) : Type 0 where
  pub app : App F S
  pub sweep_rows : List (CsvRow F)
  pub posted : List (SweepRow F)

-- What the window does first: a warning, or the sweep with its widget.
pub data Answer (F : Type 0) : Type 0 where
  warned : String → Answer F
  begun : SweepFrame F → Answer F

module _ {F : Type 0} where
  abbrev pub csv_row : ℤ → String × PolicySummary F → CsvRow F
  csv_row frames (policy, m) = record {
    frames = frames;
    policy = policy;
    hit_rate = m.hit_rate;
    misses = m.misses;
    evictions = m.evictions;
  }

  -- for policy, metrics in summary.items(): sweep_rows.append(...)
  unfoldable pub csv_rows : SweepRow F → List (CsvRow F)
  csv_rows row = map (csv_row row.frames) row.summary

  unfoldable pub on_run_benchmark_sweep : List ℤ → List String → SweepFrame F → Answer F
  unfolding begin_sweep
  on_run_benchmark_sweep frames [] s = warned "No policies selected"
  on_run_benchmark_sweep [] (p ∷ ps) s = warned "No frame sizes"
  on_run_benchmark_sweep (f ∷ fs) (p ∷ ps) s = begun (begin_sweep (f ∷ fs) (p ∷ ps) s)

  -- the results that have been posted reach the widget in their order
  abbrev pub take_posted : List (SweepRow F) → SweepFrame F → SweepFrame F
  take_posted [] s = s
  take_posted (r ∷ rs) s = take_posted rs (add_result r s)

  -- and then _apply_sweep_result, or _handle_sweep_error
  unfoldable pub end_sweep : Result String → SweepFrame F → SweepFrame F
  unfolding finish_sweep fail_sweep
  end_sweep (ok name) s = finish_sweep name s
  end_sweep (raised e) s = fail_sweep s

module _ ⦃rt : Runtime⦄ {S : Type 0} (zero : rt.Float) (services : Services S) where
  open rt use {Float}

  -- the services without the callback on_trace_ready, which a sweep does not give
  abbrev pub no_callback : Services S
  no_callback = record services { on_trace_ready = λ policy events frames. pure tt }

  abbrev pub on_app : {A : Type 0} → Exec (App Float S) A → Exec (Sweep Float S) A
  on_app m w = let (r, a) = m w.app in (r, record w { app = a })

  -- the rows of a summary, and its post
  unfoldable pub post_summary : SweepRow Float → Exec (Sweep Float S) (Unit {0})
  unfolding csv_rows
  post_summary row w = (
    ok tt,
    record w {
      sweep_rows = append w.sweep_rows (csv_rows row);
      posted = append w.posted (row ∷ []);
    },
  )

  -- a turn of the loop
  unfoldable pub run_frames : List String → List String → ℤ → Exec (Sweep Float S) (Unit {0})
  unfolding post_summary
  run_frames policies queries frames =
      on_app (Controller.run_benchmark zero no_callback policies queries frames) >>= λ run.
      lift (summarize_by_policy zero run.records) >>= λ summary.
      post_summary (record { frames = frames; summary = summary })

  -- the loop over frames_list
  unfoldable pub run_all : List String → List String → List ℤ → Exec (Sweep Float S) (Unit {0})
  unfolding run_frames
  run_all policies queries [] = pure tt
  run_all policies queries (f ∷ fs) =
      run_frames policies queries f >>= λ _. run_all policies queries fs

  -- self.results_repository.save_sweep_csv
  abbrev pub save_rows : (List (CsvRow Float) → Exec S String) → Exec (Sweep Float S) String
  save_rows save w = on_app (Controller.outside (save w.sweep_rows)) w

  -- the worker, with save_sweep_csv at its end
  unfoldable pub worker :
      (List (CsvRow Float) → Exec S String)
      → List String
      → List String
      → List ℤ
      → Exec (Sweep Float S) String
  unfolding run_all
  worker save policies queries frames = run_all policies queries frames >>= λ _. save_rows save
