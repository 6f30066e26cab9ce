-- ===== src/Storage/Protocol/Fuel.antt =====
-- The reading loop of _read_response ends: each turn takes a line from what is left to read.
use sql_parser.Base.{
  ℕ, zero, suc, ◌≤◌, String, Bool, true, false, ◌≡◌, refl, sym, ◌∙◌, Option, none, some, List, [],
  ◌∷◌, if◌then◌else◌, length, drop, str_eq, arith,
}
use sql_parser.Base.Exec.{◌>>=◌, pure}
use sql_parser.Base.Result.{Result, ok, raised, connection_error}
use sql_parser.Value.{Runtime}
use sql_parser.Storage.Row.{SchemaColumn, deserialize_row}
use sql_parser.Storage.Text.{startswith, split}
use sql_parser.Storage.Protocol.Wire.{Stream, recv_line, recv_line_from, recv_bytes, int_at}
use sql_parser.Storage.Protocol.{
  Response, read_row, or_line, other_line, metrics_line, columns_line, trace_line, read_item,
  read_items, row_header, caught, add_line,
}
use sql_parser.Storage.Protocol.Trace.{read_events, third_or_zero}
use sql_parser.Storage.Protocol.Columns.{read_schema, read_metrics}
use sql_parser.Base.Int.{pos_part}
use mathlib.Core.Path.{subst}
use sql_parser.Storage.Protocol.Shrinks.{
  Shrinks, Shrinks->>=, >>=-cong, Shrinks-pure, after_lift, recv_line-takes, recv_bytes-Shrinks,
  read_schema-Shrinks, read_events-Shrinks,
}

module _ ⦃rt : Runtime⦄ where
  read_row-Shrinks :
      (columns : List SchemaColumn) (line : String) (r : Response)
      → Shrinks (read_row columns line r)
  unfolding read_row
  read_row-Shrinks columns line r = after_lift (row_header (split line)) _ λ h.
      Shrinks->>= (recv_bytes h.1) _ (recv_bytes-Shrinks h.1)
        λ bytes. after_lift (deserialize_row bytes columns) _ λ row s. omega arith

  either :
      {A : Type 0} (b : Bool) (p q : A × List ℕ) (n : ℕ)
      → length p.1 ≤ n
      → length q.1 ≤ n
      → length (if b then p else q).1 ≤ n
  either true p q n h k = h
  either false p q n h k = k

  or_line-Shrinks :
      (line : String) (r : Response) (p : Result Response × List ℕ) (n : ℕ)
      → length p.1 ≤ n
      → length (or_line line r p).1 ≤ n
  unfolding or_line
  or_line-Shrinks line r (ok r', s) n h = h
  or_line-Shrinks line r (raised e, s) n h =
      either (caught e) (ok (add_line line r), s) (raised e, s) n h h

  other_line-Shrinks :
      (columns : Option (List SchemaColumn)) (line : String) (r : Response)
      → Shrinks (other_line columns line r)
  unfolding other_line
  other_line-Shrinks none line r s = omega arith
  other_line-Shrinks (some columns) line r s =
      or_line-Shrinks line r (read_row columns line r s) (length s)
        (read_row-Shrinks columns line r s)

  metrics_line-Shrinks : (line : String) (r : Response) → Shrinks (metrics_line line r)
  unfolding metrics_line
  metrics_line-Shrinks line r =
      after_lift (read_metrics r.metrics (drop 1 (split line))) _ λ m s. omega arith

  columns_line-Shrinks : (line : String) (r : Response) → Shrinks (columns_line line r)
  unfolding columns_line
  columns_line-Shrinks line r = after_lift (int_at (split line) 1) _ λ n.
      Shrinks->>= (read_schema (pos_part n) r.columns) _
        (read_schema-Shrinks (pos_part n) r.columns) λ columns s. omega arith

  trace_line-Shrinks : (line : String) (r : Response) → Shrinks (trace_line line r)
  unfolding trace_line
  trace_line-Shrinks line r = after_lift (int_at (split line) 1) _ λ n.
      after_lift (third_or_zero (split line)) _ λ m.
        Shrinks->>= (read_events (pos_part n) (pos_part m) r.trace_events) _
          (read_events-Shrinks (pos_part n) (pos_part m) r.trace_events) λ events s. omega arith

  choose-Shrinks :
      {A : Type 0} (b : Bool) (m k : Stream A)
      → Shrinks m
      → Shrinks k
      → Shrinks (if b then m else k)
  choose-Shrinks true m k h h' = h
  choose-Shrinks false m k h h' = h'

  read_item-Shrinks :
      (columns : Option (List SchemaColumn)) (line : String) (r : Response)
      → Shrinks (read_item columns line r)
  unfolding read_item
  read_item-Shrinks columns line r =
      choose-Shrinks (startswith line "METRICS ") _ _ (metrics_line-Shrinks line r) (
        choose-Shrinks (startswith line "COLUMNS ") _ _ (columns_line-Shrinks line r) (
          choose-Shrinks (startswith line "TRACE_EVENTS ") _ _ (trace_line-Shrinks line r)
            (other_line-Shrinks columns line r)))

  -- `next` of one turn of read_items.
  turn-Shrinks :
      (columns : Option (List SchemaColumn)) (line : String) (r : Response)
      → Shrinks (
          if str_eq line "END"
          then pure none
          else (read_item columns line r >>= λ r'. pure (some r')))
  turn-Shrinks columns line r =
      choose-Shrinks (str_eq line "END") _ _ (Shrinks-pure {A = Option Response} none) (
        Shrinks->>= (read_item columns line r) _ (read_item-Shrinks columns line r)
          λ r' s. omega arith)

  read_items-empty :
      (fuel : ℕ) (columns : Option (List SchemaColumn)) (r : Response)
      → read_items fuel columns r [] ≡ (raised connection_error, [])
  unfolding read_items recv_line recv_line_from
  read_items-empty zero columns r = refl
  read_items-empty (suc fuel) columns r = refl

  -- Fuel for as many turns as there are bytes left to read is enough: with more the loop does the same.
  pub read_items-fuel :
      (fuel more : ℕ) (columns : Option (List SchemaColumn)) (r : Response) (bytes : List ℕ)
      → length bytes ≤ fuel
      → fuel ≤ more
      → read_items fuel columns r bytes ≡ read_items more columns r bytes
  unfolding read_items
  read_items-fuel fuel more columns r [] h k =
      read_items-empty fuel columns r ∙ sym (read_items-empty more columns r)
  read_items-fuel zero more columns r (c ∷ bytes) h k = absurd (omega arith)
  read_items-fuel (suc fuel) zero columns r (c ∷ bytes) h k = absurd (omega arith)
  read_items-fuel (suc fuel) (suc more) columns r (c ∷ bytes) h k =
      >>=-cong recv_line _ _ (c ∷ bytes) λ line s e.
        let fewer = recv_line-takes (c ∷ bytes) line s e in
        >>=-cong
          (if str_eq line "END"
            then pure none
            else (read_item columns line r >>= λ r'. pure (some r')))
          _ _ s
          λ next s' e'.
            let left = subst (λ p. length p.1 ≤ length s) e' (turn-Shrinks columns line r s) in
            after_turn (λ r'' s'' le. read_items-fuel fuel more columns r'' s'' le (omega arith))
              next s' (omega arith)
    where
      after_turn :
          ((r' : Response) (s' : List ℕ)
            → length s' ≤ fuel
            → read_items fuel columns r' s' ≡ read_items more columns r' s')
          → (next : Option Response) (s' : List ℕ) → length s' ≤ fuel
          → (elim next as (λ _. Stream Response) [
            | none ↦ pure r
            | some r' ↦ read_items fuel columns r'
          ])
              s'
            ≡ (elim next as (λ _. Stream Response) [
              | none ↦ pure r
              | some r' ↦ read_items more columns r'
            ])
                s'
      after_turn again none s' le = refl
      after_turn again (some r') s' le = again r' s' le
