-- ===== src/Inspector/Playback.antt =====
-- Inspector: what a session of the frame leads to, and how a playback ends.
use sql_parser.Base.{
  ℕ, zero, suc, ◌+◌, ◌-◌, ◌<◌, String, true, false, some, List, length, ◌≡◌, refl, sym, ap, ◌∙◌,
  arith, Bool-cases, inl, inr, ◌||◌, str_eq, Bool, if◌then◌else◌,
}
use mathlib.Core.Path.{subst}
use sql_parser.Base.Int.{ℤ, pos, ◌+ℤ◌}
use sql_parser.Base.Result.{Result, ok, ◌>>=◌, ok-injective}
use sql_parser.Storage.Protocol.Trace.{TraceEvent}
use sql_parser.Inspector.{Inspector, events, stop_playback, controls_of, schedule_next_tick}
use sql_parser.Inspector.Shown.{controls_of-Buttons}
use sql_parser.Inspector.Agreement.{IsValid}
use sql_parser.Inspector.Handlers.{
  new_inspector, load_trace, on_policy_selected, on_log_selected, jump_first, jump_last, step,
  toggle_play, play_tick, on_speed_changed,
}
use sql_parser.Inspector.Laws.{
  Returns, go_to-Returns, on_log_selected-Returns, toggle_play-Returns, play_tick-Returns,
  play_tick-next, play_tick-last, show_policy-Returns,
}
use sql_parser.Inspector.Panels.{event_lines, hidden_table}
use sql_parser.Base.Dict.{put}

-- What the program, the user and the timer do with the frame.
pub data Action : Type 0 where
  load : List TraceEvent → String → ℤ → Action
  choose_policy : String → Action
  choose_line : ℕ → Action
  first last : Action
  move : ℤ → Action
  toggle tick change_speed : Action

abbrev pub handle : Action → Inspector → Result Inspector
handle (load es policy n) s = load_trace es policy n s
handle (choose_policy p) s = on_policy_selected p s
handle (choose_line i) s = on_log_selected (some i) s
handle first s = jump_first s
handle last s = jump_last s
handle (move delta) s = step delta s
handle toggle s = toggle_play s
handle tick s = play_tick s
handle change_speed s = ok (on_speed_changed s)

-- A line can be chosen if the log has it, and the timer calls only what was scheduled.
abbrev pub Allowed : Action → Inspector → Type 0
Allowed (choose_line i) s = i < length s.log
Allowed tick s = s.play_job ≡ true
Allowed _ s = Unit

new_inspector-IsValid : IsValid new_inspector
unfolding new_inspector event_lines hidden_table
new_inspector-IsValid = record {
  ticking = refl;
  logged = refl;
  buttons = controls_of-Buttons new_inspector;
  shown = (refl, refl, refl, refl);
  dealt = refl;
}

on_speed_changed-IsValid : (s : Inspector) → IsValid s → IsValid (on_speed_changed s)
unfolding controls_of events
on_speed_changed-IsValid s v = elim (Bool-cases s.is_playing) [
  | inl playing ↦ after true playing (record {
    ticking = sym playing;
    logged = v.logged;
    buttons = v.buttons;
    shown = v.shown;
    dealt = v.dealt;
  })
  | inr paused ↦ after false paused v
]
  where
    after :
        (b : Bool)
        → s.is_playing ≡ b
        → IsValid (if b then schedule_next_tick s else s)
        → IsValid (on_speed_changed s)
    after b e = subst (λ c. IsValid (if c then schedule_next_tick s else s)) (sym e)

handle-Returns : (a : Action) (s : Inspector) → Allowed a s → IsValid s → Returns (handle a s)
unfolding load_trace on_policy_selected jump_last step
handle-Returns (load es policy n) s h v =
    show_policy-Returns policy
      (record s { policy_data = put policy (record { events = es; n_frames = n }) s.policy_data })
handle-Returns (choose_policy p) s h v =
    elim (Bool-cases (str_eq p "" || str_eq p s.current_policy)) [
      | inl same ↦ rw same (s, refl, v)
      | inr other ↦ rw other (show_policy-Returns p s)
    ]
handle-Returns (choose_line i) s h v = on_log_selected-Returns i s v h
handle-Returns first s h v = go_to-Returns (pos 0) s v
handle-Returns last s h v = go_to-Returns (pos (length (events s) - 1)) s v
handle-Returns (move delta) s h v = go_to-Returns (pos s.index +ℤ delta) s v
handle-Returns toggle s h v = toggle_play-Returns s v
handle-Returns tick s h v = play_tick-Returns s v
handle-Returns change_speed s h v = (on_speed_changed s, refl, on_speed_changed-IsValid s v)

-- The states that a session leads to.
pub data Reach : Inspector → Type 0 where
  start : Reach new_inspector
  then_ : {s t : Inspector} (a : Action) → Reach s → Allowed a s → handle a s ≡ ok t → Reach t

pub Reach-IsValid : {s : Inspector} → Reach s → IsValid s
Reach-IsValid start = new_inspector-IsValid
Reach-IsValid (then_ {s} {t} a r h e) =
    let (t', e', v) = handle-Returns a s h (Reach-IsValid r) in
    subst IsValid (ok-injective (sym e' ∙ e)) v

-- In every state of a session, whatever may be done next raises nothing, and after it: the buttons
-- to earlier events are off exactly at the first event or without events, those to later ones
-- exactly from the last event on, and play is on exactly before it; the combobox is on exactly if
-- there is a trace; the log has the line of each event, in the order of the events; the number, the
-- selected line and the page table are those of the current event, and without events there is none
-- of them and no card; each card shows the last frame of the current event that has its number, if
-- one has it; and a tick is scheduled, and the play button reads Pause, exactly while the trace is
-- played.
pub Reach-Returns :
    {s : Inspector} (a : Action)
    → Reach s
    → Allowed a s
    → (t : Inspector) × (handle a s ≡ ok t) × IsValid t
Reach-Returns {s} a r h = handle-Returns a s h (Reach-IsValid r)

-- n ticks in a row
abbrev pub ticks : ℕ → Inspector → Result Inspector
ticks zero s = ok s
ticks (suc n) s = play_tick s >>= λ t. ticks n t

ticks-next :
    (k : ℕ) (s : Inspector)
    → IsValid s
    → s.is_playing ≡ true
    → s.index + k < length (events s)
    → (t : Inspector) × (ticks k s ≡ ok t)
      × IsValid t
      × (t.index ≡ s.index + k)
      × (t.is_playing ≡ true)
      × (events t ≡ events s)
ticks-next zero s v p h = (s, refl, v, omega arith, p, refl)
ticks-next (suc k) s v p h =
    let (u, e, v', i, p', same) = play_tick-next s v p (omega arith) in
    let (t, f, w, j, q, same') = ticks-next k u v' p' (rw (i, same) (omega arith)) in
    (t, rw e f, w, omega arith, q, same' ∙ same)

-- The last tick is one that finds no next event.
ticks-last :
    (k : ℕ) (s : Inspector)
    → IsValid s
    → s.is_playing ≡ true
    → suc (s.index + k) ≡ length (events s)
    → (t : Inspector) × (ticks (suc k) s ≡ ok t)
      × (t.is_playing ≡ false)
      × (t.play_job ≡ false)
      × (t.index ≡ s.index + k)
unfolding stop_playback
ticks-last zero s v p h =
    (stop_playback s, rw (play_tick-last s v (omega arith)), refl, refl, omega arith)
ticks-last (suc k) s v p h =
    let (u, e, v', i, p', same) = play_tick-next s v p (omega arith) in
    let (t, f, off, idle, j) = ticks-last k u v' p' (rw (i, same) (omega arith)) in
    (t, rw e f, off, idle, omega arith)

-- A playback in a session ends: after k ticks, as long as there are events, the k-th event from the
-- current one on is shown and the playback goes on; and after as many ticks as there are events
-- from the current one on, it has stopped at the last event, with nothing scheduled.
pub play_to_end :
    (s : Inspector) (k : ℕ)
    → Reach s
    → s.is_playing ≡ true
    → s.index + k < length (events s)
    → ((t : Inspector) × (ticks k s ≡ ok t)
        × IsValid t
        × (t.index ≡ s.index + k)
        × (t.is_playing ≡ true)
        × (events t ≡ events s))
      × ((t : Inspector) × (ticks (length (events s) - s.index) s ≡ ok t)
          × (t.is_playing ≡ false)
          × (t.play_job ≡ false)
          × (t.index + 1 ≡ length (events s)))
play_to_end s k r p h =
    let v = Reach-IsValid r in
    let n = length (events s) - 1 - s.index in
    let rounds : length (events s) - s.index ≡ suc n = omega arith in
    let (t, e, off, idle, i) = ticks-last n s v p (omega arith) in
    (ticks-next k s v p h, (t, ap (λ (m : ℕ). ticks m s) rounds ∙ e, off, idle, omega arith))
