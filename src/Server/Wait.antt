-- ===== src/Server/Wait.antt =====
-- Server: the wait for a new process ends.
use sql_parser.Base.{
  String, Bool, true, false, none, some, ◌≡◌, refl, ℕ, zero, suc, ◌+◌, ◌*◌, ◌≤◌, ltb, Bool-cases,
  inl, inr, arith, tests,
}
use sql_parser.Base.Result.{Result, ok, raised}
use sql_parser.Benchmark.{ServerConfig}
use sql_parser.Server.{
  System, Service, Outcome, is_running, has_exited, connected_or, attempt, poll_until,
  wait_until_ready, settle, launch, start,
}
use sql_parser.Value.{Runtime}

module _ {S P : Type 0} (sys : System S P) (host : String) (port : ℕ) where
  -- The clock of the system never goes back, and a pause takes its time.
  abbrev pub Passes : Type 0
  Passes =
      ((s : S) → sys.clock s ≤ sys.clock (sys.connect host port s).1)
      × ((n : ℕ) (s : S) → sys.clock s + n ≤ sys.clock (sys.sleep n s))

  -- The call has an outcome.
  abbrev pub Ends : Outcome S P → Type 0
  Ends o = (r : Result (Unit {0}) × Service S P) × (o ≡ some r)

  connected_or-Ends :
      (again : Service S P → Outcome S P) (s : Service S P) (q : Bool × S)
      → Ends (again (record s { env = sys.sleep 150 q.1 }))
      → Ends (connected_or sys again s q)
  unfolding connected_or
  connected_or-Ends again s (true, env) h = (_, refl)
  connected_or-Ends again s (false, env) h = h

  attempt-Ends :
      (again : Service S P → Outcome S P) (d : ℕ) (s : Service S P)
      → (ltb (sys.clock s.env) d ≡ true
          → Ends (again (record s { env = sys.sleep 150 (sys.connect host port s.env).1 })))
      → Ends (attempt sys host port again d s)
  unfolding attempt
  attempt-Ends again d s h = elim (Bool-cases (ltb (sys.clock s.env) d)) [
    | inl early ↦ elim (Bool-cases (has_exited sys s)) [
      | inl gone ↦ rw (early, gone) (_, refl)
      | inr alive ↦ rw (early, alive) (connected_or-Ends again s _ (h early))
    ]
    | inr late ↦ rw late (_, refl)
  ]

  -- A round takes 150 ms.
  poll_until-Ends :
      Passes
      → (n d : ℕ) (s : Service S P) → d ≤ sys.clock s.env + 150 * n
      → Ends (poll_until sys host port (suc n) d s)
  unfolding poll_until
  poll_until-Ends passes zero d s h =
      attempt-Ends (poll_until sys host port zero d) d s λ early. absurd (omega tests)
  poll_until-Ends passes (suc n) d s h =
      attempt-Ends (poll_until sys host port (suc n) d) d s λ early.
        let c = passes.0 s.env in
        let p = passes.1 150 (sys.connect host port s.env).1 in
        poll_until-Ends passes n d _ (omega arith)

  settle-Ends : (o : Outcome S P) → Ends o → Ends (settle sys o)
  unfolding settle
  settle-Ends none (r, e) = cc
  settle-Ends (some (raised x, s)) (r, e) = (_, refl)
  settle-Ends (some (ok _, s)) (r, e) = (_, refl)

  launch-Ends :
      Passes
      → (n : ℕ) (s : Service S P) (q : Result P × S) → 34 ≤ n
      → Ends (launch sys host port (suc n) s q)
  unfolding launch wait_until_ready
  launch-Ends passes n s (raised x, env) h = (_, refl)
  launch-Ends passes n s (ok p, env) h =
      settle-Ends _
        (poll_until-Ends passes n _ (record { env = env; process = some p }) (omega arith))

module _ ⦃rt : Runtime⦄ {S P : Type 0} (sys : System S P) (binary data_dir : String) where
  -- With fuel for 35 rounds, a start returns or raises an exception, if the clock never goes back and
  -- a pause takes its time: 34 rounds of 150 ms are more than the five seconds that it waits.
  pub start-Ends :
      (config : ServerConfig)
      → Passes sys config.host config.port
      → (n : ℕ) (s : Service S P) → 34 ≤ n
      → Ends sys config.host config.port (start sys binary data_dir (suc n) config s)
  unfolding start
  start-Ends config passes n s h = elim (Bool-cases (is_running sys s)) [
    | inl runs ↦ rw runs (_, refl)
    | inr stopped ↦ elim (Bool-cases (sys.binary_exists s.env)) [
      | inl found ↦ rw (stopped, found) (launch-Ends sys config.host config.port passes n s _ h)
      | inr missing ↦ rw (stopped, missing) (_, refl)
    ]
  ]
