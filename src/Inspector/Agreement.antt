-- ===== src/Inspector/Agreement.antt =====
-- Inspector: what its widgets show agrees with its state, wherever it is drawn.
use sql_parser.Base.{
  ℕ, zero, suc, ◌+◌, ◌-◌, ◌≤◌, ◌<◌, String, none, some, List, [], ◌∷◌, length, get_elem?, ◌≡◌, refl,
  arith,
}
use sql_parser.Base.Result.{ok}
use sql_parser.Storage.Protocol.Trace.{TraceEvent}
use sql_parser.Inspector.{
  Inspector, View, events, controls_of, update_controls, render_current_event, show_event,
}
use sql_parser.Inspector.Shown.{Buttons, Deals, Deals-intro, controls_of-Buttons}
use sql_parser.Inspector.Panels.{page_table, event_lines, hidden_table}
use sql_parser.Inspector.Handlers.{redraw}

-- The widgets show the event at an index: its number among the events, its line of the log, and its
-- page table. Of a trace without events they show nothing.
abbrev pub Shows : List TraceEvent → ℕ → View → Type 0
Shows [] i v = (v.label ≡ (0, 0)) × (v.selected ≡ none) × (v.pages.rows ≡ []) × (i ≡ 0)
Shows (e ∷ es) i v =
    (event : TraceEvent) × (get_elem? (e ∷ es) i ≡ some event)
    × (v ≡ record { label = (i + 1, length (e ∷ es)); selected = some i; pages = page_table event })

-- A tick is scheduled exactly while the trace is played.
pub record IsValid (s : Inspector) : Type 0 where
  pub ticking : s.play_job ≡ s.is_playing
  pub logged : s.log ≡ event_lines 0 (events s)
  pub buttons : Buttons (events s) s.index s.is_playing s.policy_data s.controls
  pub shown : Shows (events s) s.index s.view
  pub dealt : Deals (events s) s.index s.current_policy s.cards

pub Shows-intro :
    (es : List TraceEvent) (i : ℕ) (event : TraceEvent)
    → get_elem? es i ≡ some event
    → Shows es i
        (record { label = (i + 1, length es); selected = some i; pages = page_table event })
Shows-intro [] i event e = cc
Shows-intro (d ∷ es) i event e = (event, e, refl)

pub Shows-nothing :
    (es : List TraceEvent) (i : ℕ) (text : String)
    → es ≡ []
    → i ≡ 0
    → Shows es i (record { label = (0, 0); selected = none; pages = hidden_table text })
unfolding hidden_table
Shows-nothing [] i text e first = (refl, refl, refl, first)
Shows-nothing (d ∷ es) i text e first = cc

get_elem?-lt :
    {A : Type 0} (xs : List A) (i : ℕ) → i < length xs → (a : A) × (get_elem? xs i ≡ some a)
get_elem?-lt [] i h = absurd (omega arith)
get_elem?-lt (x ∷ xs) zero h = (x, refl)
get_elem?-lt (x ∷ xs) (suc i) h = get_elem?-lt xs i (omega arith)

lt-get_elem? : {A : Type 0} (xs : List A) (i : ℕ) {a : A} → get_elem? xs i ≡ some a → i < length xs
lt-get_elem? [] i h = cc
lt-get_elem? (x ∷ xs) zero h = omega arith
lt-get_elem? (x ∷ xs) (suc i) h = omega (arith, lt-get_elem? xs i h)

-- The index is that of an event, if there is one.
pub Shows-lt : (es : List TraceEvent) (i : ℕ) (v : View) → Shows es i v → i ≤ length es - 1
Shows-lt [] i v h = omega arith
Shows-lt (e ∷ es) i v (event, found, _) = omega (arith, lt-get_elem? (e ∷ es) i found)

-- Drawing succeeds at an event, and sets the view to it.
render-ok :
    (s : Inspector) (es : List TraceEvent) (event : TraceEvent)
    → events s ≡ es
    → get_elem? es s.index ≡ some event
    → render_current_event s ≡ ok (show_event s event)
unfolding render_current_event
render-ok s [] event e h = cc
render-ok s (d ∷ es) event e h = ground arith

unfoldable pub drawn : Inspector → TraceEvent → Inspector
unfolding update_controls
drawn s event = update_controls (show_event s event)

pub redraw-ok :
    (s : Inspector)
    → s.index < length (events s)
    → s.log ≡ event_lines 0 (events s)
    → s.play_job ≡ s.is_playing
    → (event : TraceEvent) × (redraw s ≡ ok (drawn s event)) × IsValid (drawn s event)
unfolding redraw drawn update_controls controls_of events
redraw-ok s h logged ticking =
    let (event, found) = get_elem?-lt (events s) s.index h in
    let rendered = render-ok s (events s) event refl found in
    (
      event,
      rw rendered,
      record {
        ticking = ticking;
        logged = logged;
        buttons = controls_of-Buttons (show_event s event);
        shown = Shows-intro (events s) s.index event found;
        dealt = Deals-intro (events s) s.index s.current_policy event s.cards found;
      },
    )
