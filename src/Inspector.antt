-- ===== src/Inspector.antt =====
-- gui-app/app/widgets/cache_inspector_frame.py: CacheInspectorFrame, which plays back the events of a
-- trace. A handler takes the state of the frame and what its widgets show to the next, or raises; the
-- layout of the widgets, the names that the combobox lists and the length of a tick are left out.
pub mod Panels
pub mod Handlers
pub mod Shown
pub mod Agreement
pub mod Laws
pub mod Counts
pub mod Playback
use Prim.Native.String.{◌++◌}
use sql_parser.Base.{
  ℕ, zero, suc, ◌+◌, ◌-◌, String, Bool, true, false, not, ◌&&◌, ◌||◌, Option, none, some, List, [],
  ◌∷◌, map, length, get_elem?, min, str_eq, leb, if◌then◌else◌, ◌==◌,
}
use sql_parser.Base.Dict.{Dict, get, put}
use sql_parser.Base.Int.{ℤ, pos, negsuc, ◌+ℤ◌, eqb_ℤ}
use sql_parser.Base.Result.{Result, ok, raised, index_error, ◌>>=◌}
use sql_parser.Storage.Protocol.Trace.{TraceEvent}
use sql_parser.Inspector.Panels.{
  event_lines, Card, update_card, frame_cards, PageTable, page_table, hidden_table,
}

-- An entry of _policy_data.
pub record Trace : Type 0 where
  pub events : List TraceEvent
  pub n_frames : ℤ

-- Which buttons are enabled, whether the play button reads "Pause", and whether the combobox is on.
pub record Controls : Type 0 where
  pub at_first : Bool
  pub at_last : Bool
  pub playable : Bool
  pub pause : Bool
  pub combo : Bool

-- What the widgets show: "Event i / n", the line selected in the log, the page table.
pub record View : Type 0 where
  pub label : ℕ × ℕ
  pub selected : Option ℕ
  pub pages : PageTable

pub record Inspector : Type 0 where
  pub policy_data : Dict Trace
  pub current_policy : String
  pub index : ℕ
  pub is_playing : Bool
  -- whether a tick is scheduled
  pub play_job : Bool
  pub cards : List Card
  pub log : List String
  pub view : View
  pub controls : Controls

-- _get_current_data
unfoldable pub current_data : Dict Trace → String → Option Trace
current_data traces policy = if str_eq policy "" then none else get policy traces

abbrev pub events_of : Option Trace → List TraceEvent
events_of none = []
events_of (some t) = t.events

-- data["events"] if data else []
unfoldable pub events : Inspector → List TraceEvent
unfolding current_data
events s = events_of (current_data s.policy_data s.current_policy)

abbrev pub has_any : {A : Type 0} → List A → Bool
has_any [] = false
has_any (x ∷ xs) = true

-- what _update_controls computes
unfoldable pub controls_of : Inspector → Controls
unfolding events
controls_of s =
    let has_events = has_any (events s) in
    let at_first = not has_events || leb s.index 0 in
    let at_last = not has_events || leb (length (events s) - 1) s.index in
    record {
      at_first = at_first;
      at_last = at_last;
      playable = has_events && not at_last;
      pause = s.is_playing;
      combo = has_any s.policy_data;
    }

unfoldable pub update_controls : Inspector → Inspector
unfolding controls_of
update_controls s = record s { controls = controls_of s }

-- _stop_playback, with _cancel_play_job
unfoldable pub stop_playback : Inspector → Inspector
unfolding update_controls
stop_playback s = update_controls (record s { is_playing = false; play_job = false })

-- _schedule_next_tick
abbrev pub schedule_next_tick : Inspector → Inspector
schedule_next_tick s = record s { play_job = true }

-- the event at the index, shown
abbrev pub show_event : Inspector → TraceEvent → Inspector
show_event s event = record s {
  cards = map (update_card s.current_policy event) s.cards;
  view = record {
    label = (s.index + 1, length (events s));
    selected = some s.index;
    pages = page_table event;
  };
}

-- _render_current_event
unfoldable pub render_current_event : Inspector → Result Inspector
unfolding events update_card page_table
render_current_event s = elim (events s) [
  | [] ↦ ok s
  | _ ↦ elim (get_elem? (events s) s.index) [
    | none ↦ raised index_error
    | some event ↦ ok (show_event s event)
  ]
]

-- max(0, min(index, count - 1)), for a count above 0
unfoldable pub bounded : ℤ → ℕ → ℕ
bounded (negsuc n) count = 0
bounded (pos n) count = min n (count - 1)

-- "Event 0 / 0" and a message in place of the page table
abbrev pub show_nothing : String → Inspector → Inspector
show_nothing text s = record s {
  cards = [];
  view = record { label = (0, 0); selected = none; pages = hidden_table text };
}

-- the cards and the log for another trace; a list that is emptied has no selection
abbrev pub rebuild : Inspector → ℤ → Inspector
rebuild s n_frames = record s {
  cards = frame_cards (if has_any (events s) then n_frames else pos 0);
  log = event_lines 0 (events s);
  view = record s.view { selected = none };
}

abbrev pub refresh_events : List TraceEvent → ℤ → Inspector → Result Inspector
refresh_events [] n_frames s = ok (
    update_controls
      (show_nothing ("No events recorded for " ++ (s.current_policy ++ ".")) (rebuild s n_frames)))
refresh_events (e ∷ es) n_frames s =
    render_current_event
      (record (rebuild s n_frames) { index = bounded (pos s.index) (length (e ∷ es)) })
    >>= λ s'. ok (update_controls s')

abbrev pub refresh_data : Option Trace → Inspector → Result Inspector
refresh_data none s = ok (update_controls (show_nothing "No trace loaded." (rebuild s (pos 0))))
refresh_data (some t) s = refresh_events t.events t.n_frames s

-- _refresh_policy_view(rebuild_cards=True)
unfoldable pub refresh_policy_view : Inspector → Result Inspector
unfolding current_data render_current_event bounded update_controls frame_cards event_lines
    hidden_table
refresh_policy_view s = refresh_data (current_data s.policy_data s.current_policy) s
