-- ===== src/Sweep/Worker/Laws.antt =====
-- Sweep: what the worker posts and writes.
use mathlib.Core.List.{append-nil, append_assoc, map-append}
use sql_parser.Base.{String, ◌≡◌, refl, ap, sym, ◌∙◌, List, [], ◌∷◌, ◌++◌, map}
use sql_parser.Base.Exec.{Exec, ◌>>=◌, continue, lift}
use sql_parser.Base.Int.{ℤ}
use sql_parser.Base.Result.{Result, ok, raised}
use sql_parser.Benchmark.{Services, BenchmarkRun}
use sql_parser.Benchmark.Summary.{PolicySummary, summarize_by_policy}
use sql_parser.Base.Dict.{Dict}
use sql_parser.Controller
use sql_parser.Controller.{App}
use sql_parser.Sweep.{SweepRow}
use sql_parser.Sweep.Worker.{
  CsvRow, Sweep, csv_rows, no_callback, post_summary, run_frames, run_all, save_rows, worker,
}
use sql_parser.Value.{Runtime}

module _ {F : Type 0} where
  -- The row of a policy of a result.
  abbrev pub row_of : ℤ → String → PolicySummary F → CsvRow F
  row_of frames policy m = record {
    frames = frames;
    policy = policy;
    hit_rate = m.hit_rate;
    misses = m.misses;
    evictions = m.evictions;
  }

  -- A row for each policy of a result, in the order of its summary.
  abbrev pub policy_rows : ℤ → Dict (PolicySummary F) → List (CsvRow F)
  policy_rows frames [] = []
  policy_rows frames ((policy, m) ∷ ms) = row_of frames policy m ∷ policy_rows frames ms

  csv_rows-policy_rows :
      (frames : ℤ) (ms : Dict (PolicySummary F))
      → csv_rows (record { frames = frames; summary = ms }) ≡ policy_rows frames ms
  unfolding csv_rows
  csv_rows-policy_rows frames [] = refl
  csv_rows-policy_rows frames ((policy, m) ∷ ms) =
      ap (λ rows. row_of frames policy m ∷ rows) (csv_rows-policy_rows frames ms)

  -- The rows of the results.
  abbrev pub rows_of : List (SweepRow F) → List (CsvRow F)
  rows_of [] = []
  rows_of (r ∷ rs) = policy_rows r.frames r.summary ++ rows_of rs

  abbrev pub sizes : List (SweepRow F) → List ℤ
  sizes rows = map (λ r. r.frames) rows

  rows_of-append : (rs qs : List (SweepRow F)) → rows_of (rs ++ qs) ≡ rows_of rs ++ rows_of qs
  rows_of-append [] qs = refl
  rows_of-append (r ∷ rs) qs = rw (rows_of-append rs qs, append_assoc) refl

-- Nothing is left after a call that returns.
abbrev pub Complete : {A : Type 0} → Result A → List ℤ → Type 0
Complete (ok a) rest = rest ≡ []
Complete (raised e) rest = Unit {0}

Complete-empty : {A : Type 0} {rest : List ℤ} (r : Result A) → rest ≡ [] → Complete r rest
Complete-empty (ok a) e = e
Complete-empty (raised x) e = tt

module _ {F S : Type 0} where
  -- What is written is what is posted.
  abbrev pub Written : Sweep F S → Type 0
  Written w = w.sweep_rows ≡ rows_of w.posted

  -- A turn for f frames posts one result and writes its rows, unless it raises.
  abbrev Turn : ℤ → Sweep F S → Result (Unit {0}) × Sweep F S → Type 0
  Turn f w (ok _, w') =
      (r : SweepRow F) × (r.frames ≡ f)
      × (w'.posted ≡ w.posted ++ r ∷ [])
      × (w'.sweep_rows ≡ w.sweep_rows ++ policy_rows r.frames r.summary)
  Turn f w (raised e, w') = (w'.posted ≡ w.posted) × (w'.sweep_rows ≡ w.sweep_rows)

  -- The first of the sizes have their results posted, in their order, and all of them do unless the
  -- call raised an exception.
  abbrev pub Progress : {A : Type 0} → List ℤ → Sweep F S → Result A × Sweep F S → Type 0
  Progress fs w (r, w') =
      (done : List ℤ) × (rest : List ℤ) × (fs ≡ done ++ rest)
      × (sizes w'.posted ≡ sizes w.posted ++ done)
      × Complete r rest

module _ ⦃rt : Runtime⦄ {S : Type 0} (zero : rt.Float) (services : Services S) where
  open rt use {Float}

  run_frames-Turn :
      (policies queries : List String) (f : ℤ) (w : Sweep Float S)
      → Turn f w (run_frames zero services policies queries f w)
  unfolding run_frames post_summary
  run_frames-Turn policies queries f w =
      bench (Controller.run_benchmark zero (no_callback zero services) policies queries f w.app)
    where
      summary :
          (r : Result (Dict (PolicySummary Float))) (a : App Float S)
          → Turn f w (
              continue r
                (λ summary. post_summary zero services (record { frames = f; summary = summary }))
                (record w { app = a }))
      summary (ok s) a = (
        record { frames = f; summary = s },
        refl,
        refl,
        ap (λ rows. w.sweep_rows ++ rows) (csv_rows-policy_rows f s),
      )
      summary (raised e) a = (refl, refl)

      bench :
          (p : Result (BenchmarkRun Float) × App Float S)
          → Turn f w (
              continue p.0
                (λ run. lift (summarize_by_policy zero run.records) >>= λ summary.
                  post_summary zero services (record { frames = f; summary = summary }))
                (record w { app = p.1 }))
      bench (ok run, a) = summary (summarize_by_policy zero run.records) a
      bench (raised e, a) = (refl, refl)

  -- The rest of the loop, after a turn.
  Turn-Progress :
      (f : ℤ) (fs : List ℤ) (next : Exec (Sweep Float S) (Unit {0}))
      → ((w : Sweep Float S) → Progress fs w (next w))
      → (w : Sweep Float S) (p : Result (Unit {0}) × Sweep Float S) → Turn f w p
      → Progress (f ∷ fs) w (continue p.0 (λ _. next) p.1)
  Turn-Progress f fs next go w (ok _, w') (r, size, posted, _) =
      let (done, rest, e, more, complete) = go w' in
      let now : sizes w'.posted ≡ sizes w.posted ++ f ∷ [] =
        ap sizes posted
        ∙ map-append (λ r. r.frames) w.posted (r ∷ [])
        ∙ ap (λ n. sizes w.posted ++ n ∷ []) size in
      (
        f ∷ done,
        rest,
        ap (λ ns. f ∷ ns) e,
        more ∙ ap (λ ns. ns ++ done) now ∙ append_assoc (sizes w.posted) (f ∷ []) done,
        complete,
      )
  Turn-Progress f fs next go w (raised x, w') (posted, _) =
      ([], f ∷ fs, refl, ap sizes posted ∙ sym (append-nil _), tt)

  Turn-Written :
      (f : ℤ) (next : Exec (Sweep Float S) (Unit {0}))
      → ((w : Sweep Float S) → Written w → Written (next w).1)
      → (w : Sweep Float S) (p : Result (Unit {0}) × Sweep Float S) → Turn f w p
      → Written w
      → Written (continue p.0 (λ _. next) p.1).1
  Turn-Written f next go w (ok _, w') (r, _, posted, rows) h =
      go w' (rw (rows, posted, h, rows_of-append w.posted (r ∷ []), append-nil) refl)
  Turn-Written f next go w (raised x, w') (posted, rows) h = rows ∙ h ∙ ap rows_of (sym posted)

  run_all-Progress :
      (policies queries : List String) (fs : List ℤ) (w : Sweep Float S)
      → Progress fs w (run_all zero services policies queries fs w)
  unfolding run_all
  run_all-Progress policies queries [] w = ([], [], refl, sym (append-nil _), refl)
  run_all-Progress policies queries (f ∷ fs) w =
      Turn-Progress f fs (run_all zero services policies queries fs)
        (run_all-Progress policies queries fs) w (run_frames zero services policies queries f w)
        (run_frames-Turn policies queries f w)

  run_all-Written :
      (policies queries : List String) (fs : List ℤ) (w : Sweep Float S)
      → Written w
      → Written (run_all zero services policies queries fs w).1
  unfolding run_all
  run_all-Written policies queries [] w h = h
  run_all-Written policies queries (f ∷ fs) w h =
      Turn-Written f (run_all zero services policies queries fs)
        (run_all-Written policies queries fs) w (run_frames zero services policies queries f w)
        (run_frames-Turn policies queries f w) h

  -- The file at the end leaves both alone.
  saved :
      (save : List (CsvRow Float) → Exec S String) (fs : List ℤ) (w : Sweep Float S)
      (p : Result (Unit {0}) × Sweep Float S)
      → Written p.1
      → Progress fs w p
      → Written (continue p.0 (λ _. save_rows zero services save) p.1).1
        × Progress fs w (continue p.0 (λ _. save_rows zero services save) p.1)
  saved save fs w (raised x, w') h k = (h, k)
  saved save fs w (ok _, w') h (done, rest, e, posted, complete) =
      (h, (done, rest, e, posted, Complete-empty (save w'.sweep_rows w'.app.env).0 complete))

  -- If sweep_rows holds the rows of the results posted before, one for each policy with its size, hit
  -- rate, misses and evictions, then it holds those of all results posted after the
  -- worker, whether it raises an exception or not; and what it posts are results for the first of
  -- the sizes, in their order: for all of them, unless it raises an exception.
  pub worker-Progress :
      (save : List (CsvRow Float) → Exec S String) (policies queries : List String) (fs : List ℤ)
      (w : Sweep Float S)
      → Written w
      → Written (worker zero services save policies queries fs w).1
        × Progress fs w (worker zero services save policies queries fs w)
  unfolding worker
  worker-Progress save policies queries fs w h =
      saved save fs w (run_all zero services policies queries fs w)
        (run_all-Written policies queries fs w h) (run_all-Progress policies queries fs w)
