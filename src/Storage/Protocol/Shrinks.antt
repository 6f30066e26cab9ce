-- ===== src/Storage/Protocol/Shrinks.antt =====
-- The readers below _read_response leave no more to read than there was.
use sql_parser.Base.{
  ℕ, zero, suc, ◌≤◌, ◌<◌, String, Bool, true, false, ◌≡◌, refl, ap, List, [], ◌∷◌, ◌++◌, length,
  leb, ◌==◌, arith, length-drop, Bool-cases, inl, inr,
}
use sql_parser.Base.Exec.{◌>>=◌, pure, lift, continue}
use sql_parser.Base.Result.{Result, ok, raised}
use sql_parser.Value.{Runtime}
use sql_parser.Storage.Row.{SchemaColumn}
use sql_parser.Storage.Text.{split}
use sql_parser.Storage.Protocol.Wire.{Stream, recv_line, recv_line_from, recv_bytes}
use sql_parser.Storage.Protocol.Trace.{
  TraceEvent, Frame, read_frames, add_event, read_events, tagged, event_if, read_event, add_frame,
}
use sql_parser.Storage.Protocol.Columns.{read_schema, read_column}

-- The call leaves no more to read than there was.
abbrev pub Shrinks : {A : Type 0} → Stream A → Type 0
Shrinks m = (s : List ℕ) → length (m s).1 ≤ length s

module _ {A B : Type 0} where
  pub Shrinks->>= :
      (m : Stream A) (f : A → Stream B) → Shrinks m → ((a : A) → Shrinks (f a)) → Shrinks (m >>= f)
  Shrinks->>= m f h k s = by_outcome (m s) (h s)
    where
      by_outcome :
          (p : Result A × List ℕ) → length p.1 ≤ length s → length (continue p.0 f p.1).1 ≤ length s
      by_outcome (ok a, s') e = omega (arith, k a s')
      by_outcome (raised e', s') e = e

  -- Two continuations that agree on what the first call gives.
  pub >>=-cong :
      (m : Stream A) (f g : A → Stream B) (s : List ℕ)
      → ((a : A) (s' : List ℕ) → m s ≡ (ok a, s') → f a s' ≡ g a s')
      → (m >>= f) s ≡ (m >>= g) s
  >>=-cong m f g s h = by_outcome (m s) refl
    where
      by_outcome : (p : Result A × List ℕ) → m s ≡ p → continue p.0 f p.1 ≡ continue p.0 g p.1
      by_outcome (ok a, s') e = h a s' e
      by_outcome (raised e', s') e = refl

pub Shrinks-pure : {A : Type 0} (a : A) → Shrinks (pure a)
Shrinks-pure a s = omega arith

pub after_lift :
    {A B : Type 0} (r : Result A) (f : A → Stream B)
    → ((a : A) → Shrinks (f a))
    → Shrinks (lift r >>= f)
after_lift (ok a) f k s = k a s
after_lift (raised e) f k s = omega arith

module _ ⦃rt : Runtime⦄ where
  pub recv_line_from-Shrinks : (buf : List ℕ) → Shrinks (recv_line_from buf)
  unfolding recv_line_from
  recv_line_from-Shrinks buf [] = omega arith
  recv_line_from-Shrinks buf (c ∷ s) = elim (Bool-cases (c == 10)) [
    | inl e ↦ rw e (omega arith)
    | inr e ↦ rw e (omega (arith, recv_line_from-Shrinks (buf ++ (c ∷ [])) s))
  ]

  -- A line that was read has left less to read.
  pub recv_line_from-takes :
      (buf s : List ℕ) (t : String) (s' : List ℕ)
      → recv_line_from buf s ≡ (ok t, s')
      → length s' < length s
  unfolding recv_line_from
  recv_line_from-takes buf [] t s' h = cc
  recv_line_from-takes buf (c ∷ s) t s' h = elim (Bool-cases (c == 10)) [
    | inl e ↦
        let k = rw e at h in
        let same : length s ≡ length s' = ap (λ (p : Result String × List ℕ). length p.1) k in
        omega arith
    | inr e ↦ let k = rw e at h in omega (arith, recv_line_from-takes (buf ++ (c ∷ [])) s t s' k)
  ]

  pub recv_line-takes :
      (s : List ℕ) (t : String) (s' : List ℕ) → recv_line s ≡ (ok t, s') → length s' < length s
  unfolding recv_line
  recv_line-takes s t s' h = recv_line_from-takes [] s t s' h

  pub recv_line-Shrinks : Shrinks recv_line
  unfolding recv_line
  recv_line-Shrinks = recv_line_from-Shrinks []

  pub recv_bytes-Shrinks : (n : ℕ) → Shrinks (recv_bytes n)
  unfolding recv_bytes
  recv_bytes-Shrinks n s = elim (Bool-cases (leb n (length s))) [
    | inl e ↦ rw e (omega (arith, length-drop n s))
    | inr e ↦ rw e (omega arith)
  ]

  pub read_schema-Shrinks : (n : ℕ) (columns : List SchemaColumn) → Shrinks (read_schema n columns)
  unfolding read_schema
  read_schema-Shrinks zero columns = Shrinks-pure columns
  read_schema-Shrinks (suc n) columns =
      Shrinks->>= recv_line _ recv_line-Shrinks
        λ line. after_lift (read_column line) _ λ col. read_schema-Shrinks n _

  pub read_frames-Shrinks : (n : ℕ) (frames : List Frame) → Shrinks (read_frames n frames)
  unfolding read_frames
  read_frames-Shrinks zero frames = Shrinks-pure frames
  read_frames-Shrinks (suc n) frames =
      Shrinks->>= recv_line _ recv_line-Shrinks
        λ line. after_lift (add_frame frames line) _ λ frames'. read_frames-Shrinks n frames'

  pub event_if-Shrinks :
      (b : Bool) (n : ℕ) (events : List TraceEvent) (line : String)
      → Shrinks (event_if b n events line)
  unfolding event_if
  event_if-Shrinks false n events line = Shrinks-pure events
  event_if-Shrinks true n events line =
      Shrinks->>= (read_frames n []) _ (read_frames-Shrinks n [])
        λ frames. after_lift (read_event (split line) frames) _ λ event s. omega arith

  pub add_event-Shrinks :
      (n : ℕ) (events : List TraceEvent) (line : String) → Shrinks (add_event n events line)
  unfolding add_event
  add_event-Shrinks n events line = event_if-Shrinks (tagged 7 "EVENT" (split line)) n events line

  pub read_events-Shrinks : (n m : ℕ) (events : List TraceEvent) → Shrinks (read_events n m events)
  unfolding read_events
  read_events-Shrinks zero m events = Shrinks-pure events
  read_events-Shrinks (suc n) m events = Shrinks->>= recv_line _ recv_line-Shrinks λ line.
      Shrinks->>= (add_event m events line) _ (add_event-Shrinks m events line)
        λ events'. read_events-Shrinks n m events'
