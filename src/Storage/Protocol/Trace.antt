-- ===== src/Storage/Protocol/Trace.antt =====
-- The TRACE_EVENTS item of a response, in _read_response of sql-engine/storage_server.py.
use sql_parser.Base.{
  ℕ, zero, suc, String, Bool, true, false, ◌&&◌, none, some, List, [], ◌∷◌, ◌++◌, if◌then◌else◌,
  length, ◌==◌, str_eq, get_elem?,
}
use sql_parser.Base.Int.{ℤ, pos, eqb_ℤ}
use sql_parser.Base.Exec.{◌>>=◌, pure, lift}
use sql_parser.Base.Result
use sql_parser.Base.Result.{Result, ok, raised, Error, value_error, index_error, connection_error}
use sql_parser.Value.{Runtime}
use sql_parser.Storage.Text.{split}
use sql_parser.Storage.Protocol.Wire.{Stream, at, recv_line, int_at, flag_at}

-- One frame of the buffer pool in a trace event.
pub record Frame : Type 0 where
  pub frame_id : ℤ
  pub state : ℤ
  pub table : String
  pub page_id : ℤ
  pub dirty : Bool
  pub pin_count : ℤ
  pub ref_bit : ℤ
  pub last_access : ℤ

pub record TraceEvent : Type 0 where
  pub timestamp : ℤ
  pub table : String
  pub page_id : ℤ
  pub hit : Bool
  pub frame_id : ℤ
  pub evicted_frame : ℤ
  pub frames : List Frame

module _ ⦃rt : Runtime⦄ where
  unfoldable pub read_frame : List String → Result Frame
  read_frame parts = Result.◌>>=◌ (int_at parts 2) λ state. Result.◌>>=◌ (at parts 3) λ table.
      Result.◌>>=◌ (int_at parts 1) λ frame_id. Result.◌>>=◌ (int_at parts 4) λ page_id.
        Result.◌>>=◌ (flag_at parts 5) λ dirty. Result.◌>>=◌ (int_at parts 6) λ pin_count.
          Result.◌>>=◌ (int_at parts 7) λ ref_bit. Result.◌>>=◌ (int_at parts 8) λ last_access.
            ok (record {
              frame_id = frame_id;
              state = state;
              table = if str_eq table "." && eqb_ℤ state (pos 0) then "" else table;
              page_id = page_id;
              dirty = dirty;
              pin_count = pin_count;
              ref_bit = ref_bit;
              last_access = last_access;
            })

  -- `len(parts) != n or parts[0] != word`, negated
  abbrev pub tagged : ℕ → String → List String → Bool
  tagged n word [] = false
  tagged n word (p ∷ ps) = length (p ∷ ps) == n && str_eq p word

  unfoldable pub add_frame : List Frame → String → Result (List Frame)
  unfolding read_frame
  add_frame frames line = elim (tagged 9 "FRAME" (split line)) [
    | true ↦ Result.◌>>=◌ (read_frame (split line)) λ f. ok (frames ++ (f ∷ []))
    | false ↦ ok frames
  ]

  unfoldable pub read_frames : ℕ → List Frame → Stream (List Frame)
  unfolding add_frame recv_line
  read_frames zero frames = pure frames
  read_frames (suc n) frames = do
    line ← recv_line
    frames' ← lift (add_frame frames line)
    read_frames n frames'

  unfoldable pub read_event : List String → List Frame → Result TraceEvent
  read_event parts frames = Result.◌>>=◌ (int_at parts 1) λ timestamp.
      Result.◌>>=◌ (at parts 2) λ table. Result.◌>>=◌ (int_at parts 3) λ page_id.
        Result.◌>>=◌ (flag_at parts 4) λ hit. Result.◌>>=◌ (int_at parts 5) λ frame_id.
          Result.◌>>=◌ (int_at parts 6) λ evicted_frame. ok (record {
            timestamp = timestamp;
            table = table;
            page_id = page_id;
            hit = hit;
            frame_id = frame_id;
            evicted_frame = evicted_frame;
            frames = frames;
          })

  -- One event and its frames; a line of another shape is passed over, and no frames are read for it.
  unfoldable pub event_if : Bool → ℕ → List TraceEvent → String → Stream (List TraceEvent)
  unfolding read_event read_frames
  event_if false frame_count events line = pure events
  event_if true frame_count events line = do
    frames ← read_frames frame_count []
    event ← lift (read_event (split line) frames)
    pure (events ++ (event ∷ []))

  unfoldable pub add_event : ℕ → List TraceEvent → String → Stream (List TraceEvent)
  unfolding event_if
  add_event frame_count events line =
      event_if (tagged 7 "EVENT" (split line)) frame_count events line

  unfoldable pub read_events : ℕ → ℕ → List TraceEvent → Stream (List TraceEvent)
  unfolding add_event recv_line
  read_events zero frame_count events = pure events
  read_events (suc n) frame_count events = do
    line ← recv_line
    events' ← add_event frame_count events line
    read_events n frame_count events'

  -- int(header_parts[2]) if len(header_parts) > 2 else 0
  abbrev pub third_or_zero : List String → Result ℤ
  third_or_zero parts = elim (get_elem? parts 2) [ none ↦ ok (pos 0) | some s ↦ rt.parse_int s ]
