-- ===== src/Inspector/Handlers.antt =====
-- gui-app/app/widgets/cache_inspector_frame.py: the methods that load a trace, and those that the
-- buttons, the lists and the timer call.
use sql_parser.Base.{
  ℕ, ◌+◌, ◌-◌, String, Bool, true, false, not, ◌&&◌, ◌||◌, Option, none, some, List, [], ◌∷◌,
  length, str_eq, leb, if◌then◌else◌, ◌==◌,
}
use sql_parser.Base.Dict.{put}
use sql_parser.Base.Int.{ℤ, pos, ◌+ℤ◌, eqb_ℤ}
use sql_parser.Base.Result.{Result, ok, ◌>>=◌}
use sql_parser.Storage.Protocol.Trace.{TraceEvent}
use sql_parser.Inspector.Panels.{hidden_table}
use sql_parser.Inspector.{
  Inspector, events, update_controls, stop_playback, schedule_next_tick, render_current_event,
  bounded, refresh_policy_view,
}

-- __init__
unfoldable pub new_inspector : Inspector
unfolding update_controls
new_inspector = update_controls (record {
  policy_data = [];
  current_policy = "";
  index = 0;
  is_playing = false;
  play_job = false;
  cards = [];
  log = [];
  view = record { label = (0, 0); selected = none; pages = hidden_table "No trace loaded." };
  controls = record {
    at_first = false;
    at_last = false;
    playable = false;
    pause = false;
    combo = false;
  };
})

-- the trace of a policy from its first event on
unfoldable pub show_policy : String → Inspector → Result Inspector
unfolding stop_playback refresh_policy_view
show_policy policy s =
    refresh_policy_view (stop_playback (record s { current_policy = policy; index = 0 }))

unfoldable pub load_trace : List TraceEvent → String → ℤ → Inspector → Result Inspector
unfolding show_policy
load_trace events policy n_frames s = show_policy policy (record s {
  policy_data = put policy (record { events = events; n_frames = n_frames }) s.policy_data;
})

-- _on_policy_selected, for what the combobox holds
unfoldable pub on_policy_selected : String → Inspector → Result Inspector
unfolding show_policy
on_policy_selected selected s =
    if str_eq selected "" || str_eq selected s.current_policy then ok s else show_policy selected s

-- the current event shown, and the buttons
unfoldable pub redraw : Inspector → Result Inspector
unfolding render_current_event update_controls
redraw s = render_current_event s >>= λ s'. ok (update_controls s')

-- if not data or not data["events"]: return
abbrev pub if_events : List TraceEvent → Inspector → Result Inspector → Result Inspector
if_events [] s next = ok s
if_events (e ∷ es) s next = next

-- _on_log_selected, for what curselection() gives
unfoldable pub on_log_selected : Option ℕ → Inspector → Result Inspector
unfolding events stop_playback redraw
on_log_selected none s = ok s
on_log_selected (some line) s =
    if_events (events s) s (redraw (stop_playback (record s { index = line })))

-- whether the index is the current one, so that nothing is done
abbrev pub is_current : ℤ → List TraceEvent → Inspector → Bool
is_current index es s = (bounded index (length es) == s.index) && eqb_ℤ index (pos s.index)

-- _set_event_index, and then _stop_playback if it returned True
unfoldable pub go_to : ℤ → Inspector → Result Inspector
unfolding events bounded redraw stop_playback
go_to index s =
    let moved = redraw (record s { index = bounded index (length (events s)) }) >>= λ t.
    ok (stop_playback t) in
    if_events (events s) s (if is_current index (events s) s then ok s else moved)

abbrev pub jump_first : Inspector → Result Inspector
jump_first s = go_to (pos 0) s

-- _jump_last, which returns before if there are no events
unfoldable pub jump_last : Inspector → Result Inspector
unfolding go_to
jump_last s = go_to (pos (length (events s) - 1)) s

unfoldable pub step : ℤ → Inspector → Result Inspector
unfolding go_to ◌+ℤ◌
step delta s = go_to (pos s.index +ℤ delta) s

unfoldable pub toggle_play : Inspector → Result Inspector
unfolding events stop_playback update_controls
toggle_play s = if_events (events s) s (
    ok (
      if s.is_playing
      then stop_playback s
      else schedule_next_tick (update_controls (record s { is_playing = true }))))

-- _play_tick
unfoldable pub play_tick : Inspector → Result Inspector
unfolding events stop_playback redraw
play_tick s =
    let advance = redraw (record s { index = s.index + 1 }) >>= λ s'. ok (schedule_next_tick s') in
    if not s.is_playing || leb (length (events s)) (s.index + 1)
    then ok (stop_playback s)
    else advance

-- _on_speed_changed
abbrev pub on_speed_changed : Inspector → Inspector
on_speed_changed s = if s.is_playing then schedule_next_tick s else s
