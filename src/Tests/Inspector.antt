-- ===== src/Tests/Inspector.antt =====
-- A trace of two events that is loaded and played back.
use sql_parser.Base.{◌≡◌, refl, ◌+◌, ◌-◌, ◌<◌, true, false, [], ◌∷◌, List, length, arith}
use sql_parser.Base.Int.{pos, negsuc}
use sql_parser.Base.Dict.{get, put}
use sql_parser.Base.Result.{Result, ok, raised}
use sql_parser.Inspector.{
  Inspector, events, current_data, controls_of, update_controls, stop_playback,
  render_current_event, bounded, refresh_policy_view,
}
use sql_parser.Inspector.Agreement.{IsValid}
use sql_parser.Inspector.Handlers.{new_inspector, load_trace, toggle_play, show_policy}
use sql_parser.Inspector.Playback.{
  Reach, start, then_, load, toggle, move, handle, Reach-Returns, play_to_end, ticks,
}
use sql_parser.Storage.Protocol.Trace.{TraceEvent, Frame}

abbrev free_frame : Frame
free_frame = record {
  frame_id = pos 1;
  state = pos 0;
  table = "";
  page_id = negsuc 0;
  dirty = false;
  pin_count = pos 0;
  ref_bit = pos 0;
  last_access = pos 0;
}

abbrev used_frame : Frame
used_frame = record {
  frame_id = pos 0;
  state = pos 2;
  table = "users";
  page_id = pos 3;
  dirty = true;
  pin_count = pos 1;
  ref_bit = pos 1;
  last_access = pos 9;
}

abbrev one_event : TraceEvent
one_event = record {
  timestamp = pos 1;
  table = "users";
  page_id = pos 3;
  hit = false;
  frame_id = pos 0;
  evicted_frame = negsuc 0;
  frames = free_frame ∷ used_frame ∷ [];
}

abbrev two_events : List TraceEvent
two_events = one_event ∷ one_event ∷ []

abbrev result : Result Inspector → Inspector
result (ok s) = s
result (raised e) = new_inspector

abbrev loaded : Inspector
loaded = result (load_trace two_events "lru" (pos 2) new_inspector)

loads : load_trace two_events "lru" (pos 2) new_inspector ≡ ok loaded
unfolding new_inspector load_trace show_policy refresh_policy_view stop_playback update_controls
    controls_of events current_data render_current_event bounded put get
loads = refl

plays : toggle_play loaded ≡ ok (result (toggle_play loaded))
unfolding new_inspector load_trace show_policy refresh_policy_view stop_playback update_controls
    controls_of events current_data render_current_event bounded put get toggle_play
plays = refl

abbrev playing : Inspector
playing = result (toggle_play loaded)

reached : Reach playing
reached = then_ toggle (then_ (load two_events "lru" (pos 2)) start tt loads) tt plays

is_on : playing.is_playing ≡ true
unfolding new_inspector load_trace show_policy refresh_policy_view stop_playback update_controls
    controls_of events current_data render_current_event bounded put get toggle_play
is_on = refl

at_start : playing.index + 1 < length (events playing)
unfolding new_inspector load_trace show_policy refresh_policy_view stop_playback update_controls
    controls_of events current_data render_current_event bounded put get toggle_play
at_start = omega arith

Reach-Returns_example : (t : Inspector) × (handle (move (negsuc 0)) playing ≡ ok t) × IsValid t
Reach-Returns_example = Reach-Returns (move (negsuc 0)) reached tt

play_to_end_example :
    ((t : Inspector) × (ticks 1 playing ≡ ok t)
      × IsValid t
      × (t.index ≡ playing.index + 1)
      × (t.is_playing ≡ true)
      × (events t ≡ events playing))
    × ((t : Inspector) × (ticks (length (events playing) - playing.index) playing ≡ ok t)
        × (t.is_playing ≡ false)
        × (t.play_job ≡ false)
        × (t.index + 1 ≡ length (events playing)))
play_to_end_example = play_to_end playing 1 reached is_on at_start
