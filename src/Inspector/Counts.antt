-- ===== src/Inspector/Counts.antt =====
-- Inspector/Panels: the counts of the page table.
use sql_parser.Base.{
  ℕ, suc, ◌+◌, List, [], ◌∷◌, length, ◌≡◌, refl, ap, ◌∙◌, ◌⊎◌, inl, inr, arith, All, Bool-cases,
}
use sql_parser.Base.Int.{pos, eqb_ℤ, leb_ℤ}
use sql_parser.Storage.Protocol.Trace.{TraceEvent, Frame}
use sql_parser.Inspector.Panels.{
  insert_frame, sort_frames, count_state, used_frames, page_rows, page_table,
}

length-insert_frame : (f : Frame) (fs : List Frame) → length (insert_frame f fs) ≡ suc (length fs)
unfolding insert_frame
length-insert_frame f [] = refl
length-insert_frame f (g ∷ gs) = ground (arith, length-insert_frame f gs)

length-sort_frames : (fs : List Frame) → length (sort_frames fs) ≡ length fs
unfolding sort_frames
length-sort_frames [] = refl
length-sort_frames (f ∷ fs) =
    length-insert_frame f (sort_frames fs) ∙ ap suc (length-sort_frames fs)

-- A frame is free, occupied or pinned.
abbrev pub HasState : Frame → Type 0
HasState f = (f.state ≡ pos 0) ⊎ (f.state ≡ pos 1) ⊎ (f.state ≡ pos 2)

All-insert_frame :
    (f : Frame) (fs : List Frame) → HasState f → All HasState fs → All HasState (insert_frame f fs)
unfolding insert_frame
All-insert_frame f [] h k = (h, tt)
All-insert_frame f (g ∷ gs) h k = elim (Bool-cases (leb_ℤ f.frame_id g.frame_id)) [
  | inl e ↦ rw e (h, k)
  | inr e ↦ rw e (k.0, All-insert_frame f gs h k.1)
]

All-sort_frames : (fs : List Frame) → All HasState fs → All HasState (sort_frames fs)
unfolding sort_frames
All-sort_frames [] h = tt
All-sort_frames (f ∷ fs) h = All-insert_frame f (sort_frames fs) h.0 (All-sort_frames fs h.1)

length-page_rows : (i : ℕ) (fs : List Frame) → length (page_rows i fs) ≡ length fs
unfolding page_rows
length-page_rows i [] = refl
length-page_rows i (f ∷ fs) = ap suc (length-page_rows (i + 1) fs)

used-free : (fs : List Frame) → length (used_frames fs) + count_state (pos 0) fs ≡ length fs
unfolding used_frames count_state
used-free [] = omega arith
used-free (f ∷ fs) = elim (Bool-cases (eqb_ℤ f.state (pos 0))) [
  | inl e ↦ rw e (omega (arith, used-free fs))
  | inr e ↦ rw e (omega (arith, used-free fs))
]

states-length :
    (fs : List Frame)
    → All HasState fs
    → count_state (pos 1) fs + count_state (pos 2) fs + count_state (pos 0) fs ≡ length fs
unfolding count_state
states-length [] h = omega arith
states-length (f ∷ fs) (inl e, h) = rw e (omega (arith, states-length fs h))
states-length (f ∷ fs) (inr (inl e), h) = rw e (omega (arith, states-length fs h))
states-length (f ∷ fs) (inr (inr e), h) = rw e (omega (arith, states-length fs h))

-- The page table of an event whose frames are free, occupied or pinned: the pool is the number of
-- the event's frames, which is the sum of the three counts, and there is a line for each frame that
-- is not free.
pub page_table-counts :
    (event : TraceEvent)
    → All HasState event.frames
    → ((page_table event).pool ≡ length event.frames)
      × ((page_table event).occupied + (page_table event).pinned + (page_table event).free
          ≡ length event.frames)
      × (length (page_table event).rows + (page_table event).free ≡ length event.frames)
unfolding page_table
page_table-counts event h =
    let frames = sort_frames event.frames in
    let same = length-sort_frames event.frames in
    (
      same,
      states-length frames (All-sort_frames event.frames h) ∙ same,
      omega (arith, length-page_rows 0 (used_frames frames), used-free frames),
    )
