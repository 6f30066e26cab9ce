-- ===== src/Inspector/Laws.antt =====
-- Inspector: no method raises, and each leaves the widgets in agreement with the state.
use sql_parser.Base.{
  ℕ, suc, ◌+◌, ◌≤◌, ◌<◌, String, true, false, not, ◌||◌, Option, none, some, List, [], ◌∷◌, length,
  leb, ◌≡◌, refl, sym, ap, ◌∙◌, inl, inr, arith, Bool-cases, ltb, ltb→lt, ap₂,
}
use mathlib.Core.Path.{subst}
use sql_parser.Base.Int.{ℤ, pos, negsuc}
use sql_parser.Base.Result.{Result, ok, ◌>>=◌}
use sql_parser.Storage.Protocol.Trace.{TraceEvent}
use sql_parser.Inspector.{
  Inspector, Trace, events, controls_of, update_controls, stop_playback, schedule_next_tick,
  bounded, current_data, events_of, refresh_policy_view, refresh_events, rebuild, show_nothing,
  refresh_data,
}
use sql_parser.Inspector.Panels.{event_lines, hidden_table}
use sql_parser.Inspector.Handlers.{
  show_policy, redraw, on_log_selected, go_to, toggle_play, play_tick, is_current, if_events,
}
use sql_parser.Inspector.Shown.{controls_of-Buttons, Deals-nothing}
use sql_parser.Inspector.Agreement.{IsValid, Shows-nothing, drawn, redraw-ok}

-- A handler that returns, with the widgets in agreement again.
abbrev pub Returns : Result Inspector → Type 0
Returns r = (t : Inspector) × (r ≡ ok t) × IsValid t

pub stop_playback-IsValid : {s : Inspector} → IsValid s → IsValid (stop_playback s)
unfolding stop_playback update_controls controls_of events
stop_playback-IsValid {s} v = record {
  ticking = refl;
  logged = v.logged;
  buttons = controls_of-Buttons (record s { is_playing = false; play_job = false });
  shown = v.shown;
  dealt = v.dealt;
}

-- Nothing is done without events.
if_events-Returns :
    (es : List TraceEvent) (s : Inspector) (next : Result Inspector)
    → IsValid s
    → (0 < length es → Returns next)
    → Returns (if_events es s next)
if_events-Returns [] s next v h = (s, refl, v)
if_events-Returns (e ∷ es) s next v h = h (omega arith)

redraw-Returns :
    (s : Inspector)
    → s.index < length (events s)
    → s.log ≡ event_lines 0 (events s)
    → s.play_job ≡ s.is_playing
    → Returns (redraw s)
redraw-Returns s h logged ticking =
    let (event, e, v) = redraw-ok s h logged ticking in (drawn s event, e, v)

bounded-lt : (index : ℤ) (count : ℕ) → 0 < count → bounded index count < count
unfolding bounded
bounded-lt (pos n) count h = omega arith
bounded-lt (negsuc n) count h = h

stopped-Returns : (r : Result Inspector) → Returns r → Returns (r >>= λ t. ok (stop_playback t))
stopped-Returns r (t, e, v) = (stop_playback t, rw e, stop_playback-IsValid v)

pub go_to-Returns : (index : ℤ) (s : Inspector) → IsValid s → Returns (go_to index s)
unfolding go_to events
go_to-Returns index s v = if_events-Returns (events s) s _ v λ some_events.
    elim (Bool-cases (is_current index (events s) s)) [
      | inl same ↦ rw same (s, refl, v)
      | inr moves ↦
          let n = length (events s) in
          rw moves (
            stopped-Returns _ (
              redraw-Returns (record s { index = bounded index n }) (bounded-lt index n some_events)
                v.logged v.ticking))
    ]

length-event_lines : (k : ℕ) (es : List TraceEvent) → length (event_lines k es) ≡ length es
unfolding event_lines
length-event_lines k [] = refl
length-event_lines k (e ∷ es) = ap suc (length-event_lines (k + 1) es)

pub on_log_selected-Returns :
    (i : ℕ) (s : Inspector) → IsValid s → i < length s.log → Returns (on_log_selected (some i) s)
unfolding on_log_selected events stop_playback update_controls
on_log_selected-Returns i s v h = if_events-Returns (events s) s _ v λ some_events.
    let lines = ap (λ (ls : List String). length ls) v.logged ∙ length-event_lines 0 (events s) in
    redraw-Returns (stop_playback (record s { index = i })) (subst (λ n. i < n) lines h) v.logged
      refl

pub toggle_play-Returns : (s : Inspector) → IsValid s → Returns (toggle_play s)
unfolding toggle_play events update_controls controls_of
toggle_play-Returns s v = if_events-Returns (events s) s _ v λ some_events.
    elim (Bool-cases s.is_playing) [
      | inl playing ↦ rw playing (stop_playback s, refl, stop_playback-IsValid v)
      | inr paused ↦ rw paused (
        _,
        refl,
        record {
          ticking = refl;
          logged = v.logged;
          buttons = controls_of-Buttons (record s { is_playing = true });
          shown = v.shown;
          dealt = v.dealt;
        },
      )
    ]

-- A tick that finds a next event shows it, and the playback goes on.
pub play_tick-next :
    (s : Inspector)
    → IsValid s
    → s.is_playing ≡ true
    → s.index + 1 < length (events s)
    → (t : Inspector) × (play_tick s ≡ ok t)
      × IsValid t
      × (t.index ≡ s.index + 1)
      × (t.is_playing ≡ true)
      × (events t ≡ events s)
unfolding play_tick events drawn update_controls controls_of
play_tick-next s v playing h =
    let s' = record s { index = s.index + 1 } in
    let (event, e, v') = redraw-ok s' h v.logged v.ticking in
    let more : leb (length (events s)) (s.index + 1) ≡ false = ground arith in
    let goes_on : (not s.is_playing || leb (length (events s)) (s.index + 1)) ≡ false =
      ap₂ (λ p q. not p || q) playing more in
    (
      schedule_next_tick (drawn s' event),
      rw goes_on (ap (λ (r : Result Inspector). r >>= λ t. ok (schedule_next_tick t)) e),
      record {
        ticking = sym playing;
        logged = v'.logged;
        buttons = v'.buttons;
        shown = v'.shown;
        dealt = v'.dealt;
      },
      refl,
      playing,
      refl,
    )

-- A tick that finds none stops the playback.
pub play_tick-last :
    (s : Inspector)
    → IsValid s
    → length (events s) ≤ s.index + 1
    → play_tick s ≡ ok (stop_playback s)
unfolding play_tick
play_tick-last s v h =
    let over : leb (length (events s)) (s.index + 1) ≡ true = ground arith in
    elim (Bool-cases s.is_playing) [ inl e ↦ rw (e, over) | inr e ↦ rw e ]

pub play_tick-Returns : (s : Inspector) → IsValid s → Returns (play_tick s)
play_tick-Returns s v = elim (Bool-cases s.is_playing) [
  | inr paused ↦ (stop_playback s, unfold play_tick in rw paused, stop_playback-IsValid v)
  | inl playing ↦ elim (Bool-cases (ltb (s.index + 1) (length (events s)))) [
    | inl more ↦
        let next = play_tick-next s v playing (ltb→lt (s.index + 1) (length (events s)) more) in
        (next.0, next.1, next.2)
    | inr over ↦ (stop_playback s, play_tick-last s v (ground arith), stop_playback-IsValid v)
  ]
]

-- A trace without events.
nothing-Returns :
    (text : String) (n : ℤ) (s : Inspector)
    → events s ≡ []
    → s.index ≡ 0
    → s.play_job ≡ s.is_playing
    → Returns (ok (update_controls (show_nothing text (rebuild s n))))
unfolding events update_controls controls_of hidden_table
nothing-Returns text n s e first ticking = (
  _,
  refl,
  record {
    ticking = ticking;
    logged = refl;
    buttons = controls_of-Buttons (show_nothing text (rebuild s n));
    shown = Shows-nothing (events s) s.index _ e first;
    dealt = Deals-nothing (events s) s.index s.current_policy e;
  },
)

-- The trace of a policy is shown from its first event on.
refresh_events-Returns :
    (es : List TraceEvent) (n : ℤ) (s : Inspector)
    → events s ≡ es
    → s.index ≡ 0
    → s.play_job ≡ s.is_playing
    → Returns (refresh_events es n s)
unfolding events update_controls controls_of hidden_table
refresh_events-Returns [] n s e first ticking = nothing-Returns _ n s e first ticking
refresh_events-Returns (d ∷ es) n s e first ticking =
    unfold redraw in
    redraw-Returns (record (rebuild s n) { index = bounded (pos s.index) (length (d ∷ es)) })
      (subst (λ xs. bounded (pos s.index) (length (d ∷ es)) < length xs) (sym e)
        (bounded-lt (pos s.index) (length (d ∷ es)) (omega arith)))
      refl ticking

refresh_data-Returns :
    (o : Option Trace) (s : Inspector)
    → current_data s.policy_data s.current_policy ≡ o
    → s.index ≡ 0
    → s.play_job ≡ s.is_playing
    → Returns (refresh_data o s)
unfolding events
refresh_data-Returns none s e first ticking =
    nothing-Returns "No trace loaded." (pos 0) s (ap events_of e) first ticking
refresh_data-Returns (some t) s e first ticking =
    refresh_events-Returns t.events t.n_frames s (ap events_of e) first ticking

pub show_policy-Returns : (policy : String) (s : Inspector) → Returns (show_policy policy s)
unfolding show_policy refresh_policy_view stop_playback update_controls
show_policy-Returns policy s = refresh_data-Returns _ _ refl refl refl
