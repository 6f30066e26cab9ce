-- ===== src/Server.antt =====
-- gui-app/app/services/server_service.py: ServerService, which starts, watches and stops the process
-- of the C server. The operating system is `System`: processes, the clock and the network. The paths
-- of the binary and of the data are parameters.
pub mod Laws
pub mod Wait
use Prim.Native.String.{◌++◌}
use sql_parser.Base.{
  String, Bool, true, false, Option, none, some, List, [], ◌∷◌, ℕ, zero, suc, ◌+◌, ltb, not,
  if◌then◌else◌,
}
use sql_parser.Base.Exec.{Exec, ◌>>=◌, pure}
use sql_parser.Base.Result.{Result, ok, raised, runtime_error}
use sql_parser.Benchmark.{ServerConfig}
use sql_parser.Value.{Runtime, str_int}

-- What the service asks of the operating system, on a state `S`, with handles `P` of processes.
pub record System (S P : Type 0) : Type 0 where
  pub binary_exists : S → Bool
  -- subprocess.Popen
  pub spawn : List String → Exec S P
  -- poll() is not None
  pub exited : P → S → Bool
  pub terminate : P → Exec S (Unit {0})
  pub kill : P → Exec S (Unit {0})
  -- wait(timeout=5): false where it raises TimeoutExpired
  pub wait : P → S → Bool × S
  -- what stdout and stderr hold
  pub read_logs : P → S → (String × String) × S
  -- time.time(), in milliseconds
  pub clock : S → ℕ
  -- socket.create_connection((host, port)), closed at once: false where it raises OSError
  pub connect : String → ℕ → S → Bool × S
  -- time.sleep, in milliseconds
  pub sleep : ℕ → S → S

-- The service's only field, and what is outside.
pub record Service (S P : Type 0) : Type 0 where
  pub env : S
  pub process : Option P

-- The outcome of a call that waits; `none` where the fuel is used up.
abbrev pub Outcome : Type 0 → Type 0 → Type 0
Outcome S P = Option (Result (Unit {0}) × Service S P)

module _ {S P : Type 0} (sys : System S P) where
  -- is_running
  unfoldable pub is_running : Service S P → Bool
  is_running s = elim s.process [ none ↦ false | some p ↦ not (sys.exited p s.env) ]

  -- self._process and self._process.poll() is not None
  unfoldable pub has_exited : Service S P → Bool
  has_exited s = elim s.process [ none ↦ false | some p ↦ sys.exited p s.env ]

  -- is_available
  unfoldable pub is_available : String → ℕ → Service S P → Bool × Service S P
  unfolding is_running
  is_available host port s =
      if is_running s
      then (true, s)
      else let (reached, env) = sys.connect host port s.env in (reached, record s { env = env })

  -- read_recent_logs
  unfoldable pub read_recent_logs : Service S P → (String × String) × Service S P
  read_recent_logs s = elim s.process [
    | none ↦ (("", ""), s)
    | some p ↦ let (logs, env) = sys.read_logs p s.env in (logs, record s { env = env })
  ]

  -- the exception for a server that is gone, whose text has its output
  unfoldable pub raise_exited : String → Service S P → Result (Unit {0}) × Service S P
  unfolding read_recent_logs
  raise_exited what s =
      let ((stdout, stderr), s') = read_recent_logs s in
      let text = what ++ ("\nstdout:\n" ++ (stdout ++ ("\nstderr:\n" ++ stderr))) in
      (raised (runtime_error text), s')

  -- the end of a round: a connection, or a pause and the next round
  unfoldable pub connected_or : (Service S P → Outcome S P) → Service S P → Bool × S → Outcome S P
  connected_or again s (true, env) = some (ok tt, record s { env = env })
  connected_or again s (false, env) = again (record s { env = sys.sleep 150 env })

  -- the end of start: a server that has exited is forgotten
  unfoldable pub confirm : Service S P → Result (Unit {0}) × Service S P
  unfolding has_exited raise_exited
  confirm s =
      let (error, s') = raise_exited "Server exited just after startup." s in
      if has_exited s then (error, record s' { process = none }) else (ok tt, s)

  unfoldable pub settle : Outcome S P → Outcome S P
  unfolding confirm
  settle none = none
  settle (some (raised e, s)) = some (raised e, s)
  settle (some (ok _, s)) = some (confirm (record s { env = sys.sleep 100 s.env }))

module _ {S P : Type 0} (sys : System S P) (host : String) (port : ℕ) where
  -- a round of the loop of _wait_until_ready
  unfoldable pub attempt : (Service S P → Outcome S P) → ℕ → Service S P → Outcome S P
  unfolding has_exited raise_exited connected_or
  attempt again deadline s =
      if ltb (sys.clock s.env) deadline
      then if has_exited sys s
        then some (raise_exited sys "Server exited during startup." s)
        else connected_or sys again s (sys.connect host port s.env)
      else some (raised (runtime_error "Server did not become reachable on port 5433."), s)

  -- the loop of _wait_until_ready
  unfoldable pub poll_until : ℕ → ℕ → Service S P → Outcome S P
  unfolding attempt
  poll_until zero deadline s = none
  poll_until (suc fuel) deadline s = attempt (poll_until fuel deadline) deadline s

  -- _wait_until_ready
  unfoldable pub wait_until_ready : ℕ → Service S P → Outcome S P
  unfolding poll_until
  wait_until_ready fuel s = poll_until fuel (sys.clock s.env + 5000) s

  -- the new process, and the wait for it
  unfoldable pub launch : ℕ → Service S P → Result P × S → Outcome S P
  unfolding wait_until_ready settle
  launch fuel s (raised e, env) = some (raised e, record s { env = env })
  launch fuel s (ok p, env) =
      settle sys (wait_until_ready fuel (record { env = env; process = some p }))

module _ {S P : Type 0} (sys : System S P) where
  -- the second wait, whose TimeoutExpired is not caught
  unfoldable pub after_kill : Bool × S → Result (Unit {0}) × S
  after_kill (true, env) = (ok tt, env)
  after_kill (false, env) = (raised (runtime_error "TimeoutExpired"), env)

  -- the first wait, and kill() where it is too short
  unfoldable pub after_terminate : P → Bool × S → Result (Unit {0}) × S
  unfolding after_kill
  after_terminate p (true, env) = (ok tt, env)
  after_terminate p (false, env) = (sys.kill p >>= λ _. λ s. after_kill (sys.wait p s)) env

  unfoldable pub end_process : P → Exec S (Unit {0})
  unfolding after_terminate
  end_process p s =
      if sys.exited p s
      then (ok tt, s)
      else (sys.terminate p >>= λ _. λ s'. after_terminate p (sys.wait p s')) s

  unfoldable pub stop_process : Option P → S → Result (Unit {0}) × Service S P
  unfolding end_process
  stop_process none env = (ok tt, record { env = env; process = none })
  stop_process (some p) env =
      let (r, env') = end_process p env in (r, record { env = env'; process = none })

  -- stop
  unfoldable pub stop : Exec (Service S P) (Unit {0})
  unfolding stop_process
  stop s = stop_process s.process s.env

module _ ⦃rt : Runtime⦄ {S P : Type 0} (sys : System S P) (binary data_dir : String) where
  abbrev pub command : ServerConfig → List String
  command config = binary ∷ data_dir ∷ str_int config.frames ∷ config.policy ∷ []

  abbrev pub not_found : String
  not_found =
      "Server binary not found at " ++ (binary ++ ". Build it first with `cd server && make`.")

  -- start
  unfoldable pub start : ℕ → ServerConfig → Service S P → Outcome S P
  unfolding is_running launch
  start fuel config s =
      if is_running sys s
      then some (raised (runtime_error "Server is already running."), s)
      else if sys.binary_exists s.env
      then launch sys config.host config.port fuel s (sys.spawn (command config) s.env)
      else some (raised (runtime_error not_found), s)
