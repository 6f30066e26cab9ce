-- ===== src/Storage/Protocol/Wire.antt =====
-- _recv_line and _recv_bytes of sql-engine/storage_server.py, and the parts of a line. The state is
-- what the server still has to send on the socket.
use sql_parser.Base.{
  ℕ, String, Bool, not, none, some, List, [], ◌∷◌, ◌++◌, if◌then◌else◌, length, take, drop, leb,
  ◌==◌, get_elem?,
}
use sql_parser.Base.Int.{ℤ, pos, eqb_ℤ}
use sql_parser.Base.Exec.{Exec}
use sql_parser.Base.Result
use sql_parser.Base.Result.{Result, ok, raised, Error, value_error, index_error, connection_error}
use sql_parser.Value.{Runtime}

abbrev pub Stream : Type 0 → Type 0
Stream A = Exec (List ℕ) A

-- xs[i]
abbrev pub at : List String → ℕ → Result String
at parts i = elim (get_elem? parts i) [ none ↦ raised index_error | some s ↦ ok s ]

module _ ⦃rt : Runtime⦄ where
  unfoldable pub recv_line_from : List ℕ → Stream String
  recv_line_from buf [] = (raised connection_error, [])
  recv_line_from buf (c ∷ bytes) =
      let more = recv_line_from (buf ++ (c ∷ [])) bytes in
      if c == 10 then (ok (rt.decode buf), bytes) else more

  unfoldable pub recv_line : Stream String
  unfolding recv_line_from
  recv_line = recv_line_from []

  -- The loop joins the chunks that `recv` gives, which are the next bytes however they are cut.
  unfoldable pub recv_bytes : ℕ → Stream (List ℕ)
  recv_bytes n bytes =
      if leb n (length bytes)
      then (ok (take n bytes), drop n bytes)
      else (raised connection_error, [])

  abbrev pub int_at : List String → ℕ → Result ℤ
  int_at parts i = Result.◌>>=◌ (at parts i) rt.parse_int

  -- bool(int(parts[i]))
  abbrev pub flag_at : List String → ℕ → Result Bool
  flag_at parts i = Result.◌>>=◌ (int_at parts i) λ n. ok (not (eqb_ℤ n (pos 0)))
