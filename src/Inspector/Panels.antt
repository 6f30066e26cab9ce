-- ===== src/Inspector/Panels.antt =====
-- gui-app/app/widgets/cache_inspector_frame.py: what its panels show of one event of a trace: a line
-- of the log, the cards of the frames, and the page table. Colours are named, and the widgets that
-- draw them left out.
use Prim.Native.String.{◌++◌}
use sql_parser.Base.{
  ℕ, zero, suc, ◌+◌, ◌%◌, String, ◌||◌, Option, none, some, List, [], ◌∷◌, length, str_eq,
  if◌then◌else◌, ◌==◌,
}
use sql_parser.Base.Int.{ℤ, pos, negsuc, leb_ℤ, eqb_ℤ}
use sql_parser.Storage.Protocol.Trace.{TraceEvent, Frame}
use sql_parser.Value.{str_int, digits_of}

-- _format_event_line
unfoldable pub format_event_line : ℕ → TraceEvent → String
unfolding str_int digits_of
format_event_line index event =
    let kind : String =
      if leb_ℤ (pos 0) event.evicted_frame then "EVICT" else if event.hit then "HIT" else "MISS" in
    "Event "
    ++ (digits_of (index + 1)
        ++ (" | "
            ++ (kind
                ++ (" | "
                    ++ (event.table
                        ++ (":"
                            ++ (str_int event.page_id
                                ++ (" -> frame " ++ str_int event.frame_id))))))))

-- the lines of the log, from an index on
unfoldable pub event_lines : ℕ → List TraceEvent → List String
unfolding format_event_line
event_lines index [] = []
event_lines index (event ∷ events) = format_event_line index event ∷ event_lines (index + 1) events

pub data Highlight : Type 0 where
  border danger success warning : Highlight

-- What a card shows of its frame; ref_bit and last_access may be hidden.
pub record Details : Type 0 where
  pub badge : String
  pub highlight : Highlight
  pub table : String
  pub page : String
  pub dirty : String
  pub pin : String
  pub ref_bit : Option String
  pub last_access : Option String

pub record Card : Type 0 where
  pub frame_id : ℕ
  pub details : Option Details

abbrev pub badge_text : ℤ → String
badge_text state =
    if eqb_ℤ state (pos 0) then "FREE" else if eqb_ℤ state (pos 2) then "PINNED" else "OCCUPIED"

abbrev pub highlight_of : Frame → TraceEvent → Highlight
highlight_of frame event =
    if eqb_ℤ frame.frame_id event.evicted_frame
    then danger
    else if eqb_ℤ frame.frame_id event.frame_id
    then (if event.hit then success else warning)
    else border

-- frame['table'] or '-'
abbrev pub or_dash : String → String
or_dash s = if str_eq s "" then "-" else s

-- _update_frame_card
unfoldable pub card_details : String → Frame → TraceEvent → Details
unfolding str_int
card_details policy frame event = record {
  badge = badge_text frame.state;
  highlight = highlight_of frame event;
  table = "table: " ++ or_dash frame.table;
  page = "page: " ++ str_int frame.page_id;
  dirty = "dirty: " ++ (if frame.dirty then "yes" else "no");
  pin = "pin: " ++ str_int frame.pin_count;
  ref_bit = if str_eq policy "clock" then some ("ref_bit: " ++ str_int frame.ref_bit) else none;
  last_access =
      if str_eq policy "lru" || str_eq policy "opt"
      then some ("last_access: " ++ str_int frame.last_access)
      else none;
}

-- {frame["frame_id"]: frame for frame in frames}.get(n): the last frame with the number
unfoldable pub find_frame : ℕ → List Frame → Option Frame
find_frame n [] = none
find_frame n (frame ∷ frames) = elim (find_frame n frames) [
  | some later ↦ some later
  | none ↦ if eqb_ℤ frame.frame_id (pos n) then some frame else none
]

unfoldable pub update_card : String → TraceEvent → Card → Card
unfolding find_frame card_details
update_card policy event card = elim (find_frame card.frame_id event.frames) [
  | none ↦ card
  | some frame ↦ record card { details = some (card_details policy frame event) }
]

-- range(n_frames), from a number on
unfoldable pub new_cards : ℕ → ℕ → List Card
new_cards zero n = []
new_cards (suc count) n = record { frame_id = n; details = none } ∷ new_cards count (n + 1)

-- _rebuild_frame_cards
unfoldable pub frame_cards : ℤ → List Card
unfolding new_cards
frame_cards (pos n) = new_cards n 0
frame_cards (negsuc n) = []

-- A line of the page table, with its tag.
pub record PageRow : Type 0 where
  pub frame : ℤ
  pub table : String
  pub page_id : ℤ
  pub state : String
  pub tag : String

pub record PageTable : Type 0 where
  pub pool : ℕ
  pub occupied : ℕ
  pub pinned : ℕ
  pub free : ℕ
  pub rows : List PageRow
  -- what stands in place of the table, if it is hidden
  pub message : Option String

-- sorted(frames, key=frame_id): Python's sort is stable.
unfoldable pub insert_frame : Frame → List Frame → List Frame
insert_frame f [] = f ∷ []
insert_frame f (g ∷ gs) = if leb_ℤ f.frame_id g.frame_id then f ∷ g ∷ gs else g ∷ insert_frame f gs

unfoldable pub sort_frames : List Frame → List Frame
unfolding insert_frame
sort_frames [] = []
sort_frames (f ∷ fs) = insert_frame f (sort_frames fs)

-- sum(1 for frame in frames if frame["state"] == n)
unfoldable pub count_state : ℤ → List Frame → ℕ
count_state n [] = 0
count_state n (f ∷ fs) = if eqb_ℤ f.state n then suc (count_state n fs) else count_state n fs

-- [frame for frame in frames if frame["state"] != 0]
unfoldable pub used_frames : List Frame → List Frame
used_frames [] = []
used_frames (f ∷ fs) = if eqb_ℤ f.state (pos 0) then used_frames fs else f ∷ used_frames fs

abbrev pub page_row : ℕ → Frame → PageRow
page_row index f =
    let pinned = eqb_ℤ f.state (pos 2) in
    record {
      frame = f.frame_id;
      table = or_dash f.table;
      page_id = f.page_id;
      state = if pinned then "PINNED" else "OCCUPIED";
      tag =
          (if pinned then "pinned" else "occupied") ++ (if index % 2 == 0 then "_even" else "_odd");
    }

unfoldable pub page_rows : ℕ → List Frame → List PageRow
page_rows index [] = []
page_rows index (f ∷ fs) = page_row index f ∷ page_rows (index + 1) fs

-- _update_page_table
unfoldable pub page_table : TraceEvent → PageTable
unfolding sort_frames count_state used_frames page_rows
page_table event =
    let frames = sort_frames event.frames in
    record {
      pool = length frames;
      occupied = count_state (pos 1) frames;
      pinned = count_state (pos 2) frames;
      free = count_state (pos 0) frames;
      rows = page_rows 0 (used_frames frames);
      message = none;
    }

-- _show_page_table_message
unfoldable pub hidden_table : String → PageTable
hidden_table text = record {
  pool = 0;
  occupied = 0;
  pinned = 0;
  free = 0;
  rows = [];
  message = some text;
}
