-- ===== src/Sweep.antt =====
-- gui-app/app/widgets/benchmark_sweep_frame.py: BenchmarkSweepFrame, which compares the policies over
-- several sizes of the buffer pool. The subtraction of floats, the literal 0.0 and the format .3f
-- are parameters.
pub mod Laws
pub mod Table
pub mod Worker
use Prim.Native.String.{◌++◌}
use mathlib.Core.List.{◌++◌ as append}
use mathlib.Core.Option
use sql_parser.Base.{
  String, Bool, true, false, Option, none, some, List, [], ◌∷◌, map, if◌then◌else◌, str_eq,
}
use sql_parser.Base.Dict.{Dict, get, get_or}
use sql_parser.Base.Int.{ℤ, leb_ℤ}
use sql_parser.Base.Result.{Result, ok, raised}
use sql_parser.Benchmark.Summary.{PolicySummary}
use sql_parser.Storage.Text.{split_at, strip, join}
use sql_parser.Value.{Runtime, real, str_int}

-- The values of metric_var.
pub data Metric : Type 0 where
  rate_mode distance_mode : Metric

pub record SweepRow (F : Type 0) : Type 0 where
  pub frames : ℤ
  pub summary : Dict (PolicySummary F)

-- The fields of the widget, and whether its button is disabled.
pub record SweepFrame (F : Type 0) : Type 0 where
  pub frames_text : String
  pub policy_vars : Dict Bool
  pub metric : Metric
  pub selected_policies : List String
  pub rows_by_frame : List (SweepRow F)
  pub info : String
  pub is_running : Bool

abbrev pub supported_policies : List String
supported_policies = "lru" ∷ "clock" ∷ "nocache" ∷ "opt" ∷ []

abbrev pub policy_labels : Dict String
policy_labels = ("lru", "LRU") ∷ ("clock", "Clock") ∷ ("nocache", "NoCache") ∷ ("opt", "OPT") ∷ []

abbrev pub contains : String → List String → Bool
contains p [] = false
contains p (q ∷ qs) = if str_eq p q then true else contains p qs

-- what int(token) gives in front of the rest, which skips a ValueError
abbrev pub and_number : Result ℤ → List ℤ → List ℤ
and_number (ok n) ns = n ∷ ns
and_number (raised e) ns = ns

module _ ⦃rt : Runtime⦄ where
  -- the loop of _run_sweep over the tokens
  unfoldable pub requested_frames : List String → List ℤ
  unfolding strip
  requested_frames [] = []
  requested_frames (token ∷ tokens) =
      let rest = requested_frames tokens in
      let word = strip rt.is_space token in
      if str_eq word "" then rest else and_number (rt.parse_int word) rest

  -- [policy for policy, variable in self.policy_vars.items() if variable.get()]
  unfoldable pub checked_policies : Dict Bool → List String
  checked_policies [] = []
  checked_policies ((p, on) ∷ vars) =
      let rest = checked_policies vars in if on then p ∷ rest else rest

  -- what _run_sweep hands to on_run_sweep
  unfoldable pub run_sweep : SweepFrame rt.Float → List ℤ × List String
  unfolding requested_frames checked_policies split_at
  run_sweep s = (requested_frames (split_at b',' s.frames_text), checked_policies s.policy_vars)

module _ {F : Type 0} where
  unfoldable pub begin_sweep : List ℤ → List String → SweepFrame F → SweepFrame F
  unfolding join str_int
  begin_sweep frames policies s = record s {
    selected_policies = policies;
    rows_by_frame = [];
    is_running = true;
    info = "Running sweep for frame sizes: " ++ join ", " (map str_int frames);
  }

  -- the sort by frames, which is stable
  unfoldable pub insert_row : SweepRow F → List (SweepRow F) → List (SweepRow F)
  insert_row r [] = r ∷ []
  insert_row r (q ∷ qs) = if leb_ℤ r.frames q.frames then r ∷ q ∷ qs else q ∷ insert_row r qs

  unfoldable pub sort_rows : List (SweepRow F) → List (SweepRow F)
  unfolding insert_row
  sort_rows [] = []
  sort_rows (r ∷ rs) = insert_row r (sort_rows rs)

  unfoldable pub add_result : SweepRow F → SweepFrame F → SweepFrame F
  unfolding sort_rows
  add_result row s = record s { rows_by_frame = sort_rows (append s.rows_by_frame (row ∷ [])) }

  unfoldable pub finish_sweep : String → SweepFrame F → SweepFrame F
  finish_sweep name s = record s { is_running = false; info = "Saved sweep results to " ++ name }

  unfoldable pub fail_sweep : SweepFrame F → SweepFrame F
  fail_sweep s = record s { is_running = false; info = "Sweep failed." }

  -- row["summary"].get(policy, {}).get("hit_rate")
  unfoldable pub hit_rate_of : SweepRow F → String → Option F
  unfolding get
  hit_rate_of row policy = elim (get policy row.summary) [ none ↦ none | some s ↦ some s.hit_rate ]

  -- whether some row has a hit rate of opt
  unfoldable pub any_opt : List (SweepRow F) → Bool
  unfolding hit_rate_of
  any_opt [] = false
  any_opt (r ∷ rs) = elim (hit_rate_of r "opt") [ none ↦ any_opt rs | some x ↦ true ]

  -- _has_opt_reference_data
  unfoldable pub has_opt_reference_data : SweepFrame F → Bool
  unfolding any_opt
  has_opt_reference_data s =
      if contains "opt" s.selected_policies then any_opt s.rows_by_frame else false

  -- the point of a row, in front of the rest
  abbrev pub and_point : ℤ → Option F → List (ℤ × F) → List (ℤ × F)
  and_point frames none ps = ps
  and_point frames (some x) ps = (frames, x) ∷ ps

-- "\u0394 " before a label, in the mode of distances
abbrev pub heading_of : Metric → String → String
heading_of rate_mode label = label
heading_of distance_mode label = "Δ " ++ label

-- the columns of _configure_table_columns that get a heading: the supported ones of those selected
unfoldable pub policy_headings : Metric → List String → List String → List (String × String)
unfolding get
policy_headings m selected [] = []
policy_headings m selected (p ∷ ps) =
    let rest = policy_headings m selected ps in
    if contains p ("frames" ∷ selected)
    then (p, heading_of m (get_or p "" policy_labels)) ∷ rest
    else rest

-- What _redraw_chart shows: a message, or its title, the ticks and a line for each policy.
pub data Chart (F : Type 0) : Type 0 where
  message : String → Chart F
  plot : String → List ℤ → List (String × List (ℤ × F)) → Chart F

abbrev pub chart_title : Metric → String
chart_title rate_mode = "Hit Rate vs Buffer Pool Size"
chart_title distance_mode = "Distance to OPT vs Buffer Pool Size"

module _ ⦃rt : Runtime⦄ (zero : rt.Float) (float_sub : rt.Float → rt.Float → rt.Float) where
  open rt use {Float}

  -- max(0.0, opt_hit_rate - policy_hit_rate), or None where one is missing
  unfoldable pub distance : Option Float → Option Float → Option Float
  distance (some x) (some y) =
      let d = float_sub x y in some (if rt.float_lt (real zero) (real d) then d else zero)
  distance _ _ = none

  -- _get_distance_to_opt
  unfoldable pub get_distance_to_opt : SweepRow Float → String → Option Float
  unfolding distance hit_rate_of
  get_distance_to_opt row policy = distance (hit_rate_of row "opt") (hit_rate_of row policy)

  -- _get_metric_value
  unfoldable pub get_metric_value : Metric → SweepRow Float → String → Option Float
  unfolding get_distance_to_opt
  get_metric_value rate_mode row policy = hit_rate_of row policy
  get_metric_value distance_mode row policy = get_distance_to_opt row policy

  -- the points of a policy, without the rows that have no value
  unfoldable pub points : Metric → String → List (SweepRow Float) → List (ℤ × Float)
  unfolding get_metric_value
  points m policy [] = []
  points m policy (r ∷ rs) = and_point r.frames (get_metric_value m r policy) (points m policy rs)

  -- the lines of the policies that have a point
  unfoldable pub series :
      Metric → List (SweepRow Float) → List String → List (String × List (ℤ × Float))
  unfolding points
  series m rows [] = []
  series m rows (p ∷ ps) =
      let rest = series m rows ps in
      elim (points m p rows) [ [] ↦ rest | q ∷ qs ↦ (p, q ∷ qs) ∷ rest ]

  abbrev pub plotted : SweepFrame Float → Chart Float
  plotted s =
      plot (chart_title s.metric) (map (λ r. r.frames) s.rows_by_frame)
        (series s.metric s.rows_by_frame s.selected_policies)

  -- _redraw_chart
  unfoldable pub redraw_chart : SweepFrame Float → Chart Float
  unfolding has_opt_reference_data series
  redraw_chart s = elim s.rows_by_frame [
    | [] ↦ message "Run a sweep to populate this chart."
    | r ∷ rs ↦ elim s.metric [
      | rate_mode ↦ plotted s
      | distance_mode ↦
          if has_opt_reference_data s
          then plotted s
          else message "OPT required to compute distance. Run sweep with OPT selected."
    ]
  ]

  module _ (format_3f : Float → String) where
    abbrev pub cell : Option Float → String
    cell none = ""
    cell (some x) = format_3f x

    -- the cells of a row of _replace_table_rows
    unfoldable pub table_cells : Metric → List String → SweepRow Float → List String
    unfolding get_metric_value
    table_cells m policies r = str_int r.frames ∷ map (λ p. cell (get_metric_value m r p)) policies

    -- _replace_table_rows
    unfoldable pub table_rows : SweepFrame Float → List (List String)
    unfolding table_cells
    table_rows s = map (table_cells s.metric s.selected_policies) s.rows_by_frame
