-- ===== src/Inspector/Shown.antt =====
-- Inspector: what its cards and its buttons say of the state, apart from the code that sets them.
use sql_parser.Base.{
  ℕ, ◌+◌, ◌-◌, ◌≤◌, ◌<◌, String, Bool, true, false, not, ◌||◌, ◌&&◌, leb, some, none, List, [], ◌∷◌,
  ◌++◌, map, length, get_elem?, ◌≡◌, ◌≢◌, refl, ap, ◌⊎◌, inl, inr, ◌↔◌, All, Bool-cases, arith,
}
use sql_parser.Base.Dict.{Dict}
use sql_parser.Base.Int.{ℤ, pos, eqb_ℤ}
use sql_parser.Storage.Protocol.Trace.{TraceEvent, Frame}
use sql_parser.Inspector.{Inspector, Trace, Controls, has_any, events, controls_of}
use sql_parser.Inspector.Panels.{Card, card_details, find_frame, update_card}

-- The last of the frames with a number, and no frame with it.
abbrev pub NoFrame : ℕ → List Frame → Type 0
NoFrame n frames = All (λ f. f.frame_id ≢ pos n) frames

abbrev pub LastFrame : ℕ → List Frame → Frame → Type 0
LastFrame n frames f =
    (before : List Frame) × (after : List Frame) × (frames ≡ before ++ f ∷ after)
    × (f.frame_id ≡ pos n)
    × NoFrame n after

-- A card shows the last frame of an event with the card's number, if there is one.
abbrev pub CardShows : String → TraceEvent → Card → Type 0
CardShows policy event card =
    ((f : Frame) × LastFrame card.frame_id event.frames f
      × (card.details ≡ some (card_details policy f event)))
    ⊎ NoFrame card.frame_id event.frames

-- The cards show the frames at the event at an index; without events there are no cards.
abbrev pub Deals : List TraceEvent → ℕ → String → List Card → Type 0
Deals [] i policy cards = cards ≡ []
Deals (e ∷ es) i policy cards =
    (event : TraceEvent) × (get_elem? (e ∷ es) i ≡ some event) × All (CardShows policy event) cards

-- The buttons at an index: to the first event and back are off at the first event, to the last and
-- on at the last, and play is on before it. The combobox is on if there is a trace.
abbrev pub Buttons : List TraceEvent → ℕ → Bool → Dict Trace → Controls → Type 0
Buttons es i playing traces c =
    ((c.at_first ≡ true) ↔ ((es ≡ []) ⊎ (i ≡ 0)))
    × ((c.at_last ≡ true) ↔ (length es ≤ i + 1))
    × ((c.playable ≡ true) ↔ (i + 1 < length es))
    × (c.pause ≡ playing)
    × ((c.combo ≡ true) ↔ (traces ≢ []))

find_frame-LastFrame :
    (n : ℕ) (frames : List Frame)
    → ((f : Frame) × (find_frame n frames ≡ some f) × LastFrame n frames f)
      ⊎ ((find_frame n frames ≡ none) × NoFrame n frames)
unfolding find_frame
find_frame-LastFrame n [] = inr (refl, tt)
find_frame-LastFrame n (g ∷ gs) = elim (find_frame-LastFrame n gs) [
  | inl (f, e, (before, after, split, same, none_later)) ↦
      inl (f, rw e refl, (g ∷ before, after, ap (λ fs. g ∷ fs) split, same, none_later))
  | inr (e, absent) ↦ elim (Bool-cases (eqb_ℤ g.frame_id (pos n))) [
    | inl same ↦ inl (g, rw (e, same) refl, ([], gs, refl, eqb_ℤ-eq g.frame_id n same, absent))
    | inr other ↦ inr (rw (e, other) refl, (eqb_ℤ-ne g.frame_id n other, absent))
  ]
]
  where
    eqb_ℤ-eq : (a : ℤ) (k : ℕ) → eqb_ℤ a (pos k) ≡ true → a ≡ pos k
    eqb_ℤ-eq a k h = ground arith

    eqb_ℤ-ne : (a : ℤ) (k : ℕ) → eqb_ℤ a (pos k) ≡ false → a ≢ pos k
    eqb_ℤ-ne a k h = ground arith

update_card-CardShows :
    (policy : String) (event : TraceEvent) (card : Card)
    → CardShows policy event (update_card policy event card)
unfolding update_card
update_card-CardShows policy event card = elim (find_frame-LastFrame card.frame_id event.frames) [
  | inl (f, e, last) ↦ rw (e, update_card) (inl (f, last, refl))
  | inr (e, absent) ↦ rw (e, update_card) (inr absent)
]

update_cards-CardShows :
    (policy : String) (event : TraceEvent) (cards : List Card)
    → All (CardShows policy event) (map (update_card policy event) cards)
update_cards-CardShows policy event [] = tt
update_cards-CardShows policy event (card ∷ cards) =
    (update_card-CardShows policy event card, update_cards-CardShows policy event cards)

pub Deals-intro :
    (es : List TraceEvent) (i : ℕ) (policy : String) (event : TraceEvent) (cards : List Card)
    → get_elem? es i ≡ some event
    → Deals es i policy (map (update_card policy event) cards)
Deals-intro [] i policy event cards e = cc
Deals-intro (d ∷ es) i policy event cards e = (event, e, update_cards-CardShows policy event cards)

pub Deals-nothing :
    (es : List TraceEvent) (i : ℕ) (policy : String) → es ≡ [] → Deals es i policy []
Deals-nothing [] i policy e = refl
Deals-nothing (d ∷ es) i policy e = cc

has_any-ne : {A : Type 0} (xs : List A) → (has_any xs ≡ true) ↔ (xs ≢ [])
has_any-ne [] = ((λ h. cc), (λ h. absurd (h refl)))
has_any-ne (x ∷ xs) = ((λ h e. cc), (λ h. refl))

at_first_iff :
    (es : List TraceEvent) (i : ℕ) → ((not (has_any es) || leb i 0) ≡ true) ↔ ((es ≡ []) ⊎ (i ≡ 0))
at_first_iff [] i = ((λ h. inl refl), (λ h. refl))
at_first_iff (e ∷ es) i =
    ((λ h. inr (ground arith)), (λ h. elim h [ inl none_at_all ↦ cc | inr e₀ ↦ ground arith ]))

at_last_iff :
    (es : List TraceEvent) (i : ℕ)
    → ((not (has_any es) || leb (length es - 1) i) ≡ true) ↔ (length es ≤ i + 1)
at_last_iff [] i = ((λ h. omega arith), (λ h. refl))
at_last_iff (e ∷ es) i = ((λ h. ground arith), (λ h. ground arith))

playable_iff :
    (es : List TraceEvent) (i : ℕ)
    → ((has_any es && not (not (has_any es) || leb (length es - 1) i)) ≡ true) ↔ (i + 1 < length es)
playable_iff [] i = ((λ h. cc), (λ h. absurd (omega arith)))
playable_iff (e ∷ es) i = ((λ h. ground arith), (λ h. ground arith))

-- What _update_controls computes.
pub controls_of-Buttons :
    (s : Inspector) → Buttons (events s) s.index s.is_playing s.policy_data (controls_of s)
unfolding controls_of
controls_of-Buttons s = (
  at_first_iff (events s) s.index,
  at_last_iff (events s) s.index,
  playable_iff (events s) s.index,
  refl,
  has_any-ne s.policy_data,
)
