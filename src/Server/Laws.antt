-- ===== src/Server/Laws.antt =====
-- Server: what holds once a process is started, and once it is stopped.
use mathlib.Core.Path.{subst}
use sql_parser.Base.{
  String, Bool, true, false, none, some, ◌≡◌, ◌≢◌, refl, sym, ap, ◌∙◌, ℕ, zero, suc, ltb,
  Bool-cases, inl, inr, arith,
}
use sql_parser.Base.Exec.{>>=-eq-ok}
use sql_parser.Base.Result.{Result, ok, raised}
use sql_parser.Benchmark.{ServerConfig}
use sql_parser.Server.{
  System, Service, Outcome, is_running, has_exited, raise_exited, connected_or, attempt, poll_until,
  wait_until_ready, confirm, settle, launch, after_kill, after_terminate, stop_process, end_process,
  stop, command, start,
}
use sql_parser.Value.{Runtime}

module _ {S P : Type 0} (sys : System S P) (host : String) (port : ℕ) where
  -- A connection to the host and port was made, after which the state was `env`.
  abbrev pub Connected : S → Type 0
  Connected env = (t : S) × (sys.connect host port t ≡ (true, env))

  -- The wait of `s` for a connection was met in `s'`.
  abbrev Met : Service S P → Service S P → Type 0
  Met s s' = (s'.process ≡ s.process) × Connected s'.env

  -- A wait that ends with a connection.
  abbrev Waits : (Service S P → Outcome S P) → Type 0
  Waits again = (s s' : Service S P) → again s ≡ some (ok tt, s') → Met s s'

  connected_or-Met :
      (again : Service S P → Outcome S P)
      → Waits again
      → (s s' : Service S P) (q : Bool × S) → sys.connect host port s.env ≡ q
      → connected_or sys again s q ≡ some (ok tt, s')
      → Met s s'
  unfolding connected_or
  connected_or-Met again waits s s' (true, env) c e =
      let e' : record s { env = env } ≡ s' = cc in
      (
        sym (ap (λ (x : Service S P). x.process) e'),
        (s.env, c ∙ ap (λ (x : Service S P). (true, x.env)) e'),
      )
  connected_or-Met again waits s s' (false, env) c e = waits _ s' e

  raise_exited-ne :
      (what : String) (s s' : Service S P) → some (raise_exited sys what s) ≢ some (ok tt, s')
  unfolding raise_exited
  raise_exited-ne what s s' e = cc

  attempt-Met :
      (again : Service S P → Outcome S P)
      → Waits again
      → (d : ℕ) → Waits (attempt sys host port again d)
  unfolding attempt
  attempt-Met again waits d s s' e = elim (Bool-cases (ltb (sys.clock s.env) d)) [
    | inl early ↦ elim (Bool-cases (has_exited sys s)) [
      | inl gone ↦
          let e₁ : some (raise_exited sys "Server exited during startup." s) ≡ some (ok tt, s') =
            rw (early, gone) at e in
          absurd (raise_exited-ne _ s s' e₁)
      | inr alive ↦ connected_or-Met again waits s s' _ refl (rw (early, alive) at e)
    ]
    | inr late ↦ ground (arith, late)
  ]

  poll_until-Met : (fuel d : ℕ) → Waits (poll_until sys host port fuel d)
  unfolding poll_until
  poll_until-Met zero d s s' e = cc
  poll_until-Met (suc fuel) d s s' e = attempt-Met _ (poll_until-Met fuel d) d s s' e

  -- After a start that returns: the process that runs, and the connection before the last pause.
  abbrev pub Runs : P → Service S P → Type 0
  Runs p s' =
      (s'.process ≡ some p)
      × (is_running sys s' ≡ true)
      × ((t : S) × Connected t × (s'.env ≡ sys.sleep 100 t))

  confirm-alive :
      (s s' : Service S P) → confirm sys s ≡ (ok tt, s') → (has_exited sys s ≡ false) × (s ≡ s')
  unfolding confirm raise_exited
  confirm-alive s s' e = elim (Bool-cases (has_exited sys s)) [
    | inl gone ↦ ground (arith, gone)
    | inr alive ↦ (alive, ap (λ (r : Result (Unit {0}) × Service S P). r.1) (rw alive at e))
  ]

  running_of :
      (p : P) (s : Service S P)
      → s.process ≡ some p
      → has_exited sys s ≡ false
      → is_running sys s ≡ true
  unfolding has_exited is_running
  running_of p s e h = rw e (rw (rw e at h) refl)

  settle-Runs :
      (p : P) (s s' : Service S P) (o : Outcome S P)
      → s.process ≡ some p
      → ((t : Service S P) → o ≡ some (ok tt, t) → Met s t)
      → settle sys o ≡ some (ok tt, s')
      → Runs p s'
  unfolding settle
  settle-Runs p s s' none h met e = cc
  settle-Runs p s s' (some (raised x, t)) h met e = cc
  settle-Runs p s s' (some (ok _, t)) h met e =
      let paused = record t { env = sys.sleep 100 t.env } in
      let (same, alive) = confirm-alive paused s' (cc) in
      let (kept, reached) = met t refl in
      subst (Runs p) alive (kept ∙ h, running_of p paused (kept ∙ h) same, (t.env, reached, refl))

  wait_until_ready-Met :
      (fuel : ℕ) (s s' : Service S P)
      → wait_until_ready sys host port fuel s ≡ some (ok tt, s')
      → Met s s'
  unfolding wait_until_ready
  wait_until_ready-Met fuel s s' e = poll_until-Met fuel _ s s' e

  launch-Runs :
      (fuel : ℕ) (s s' : Service S P) (q : Result P × S)
      → launch sys host port fuel s q ≡ some (ok tt, s')
      → (p : P) × (env : S) × (q ≡ (ok p, env)) × Runs p s'
  unfolding launch
  launch-Runs fuel s s' (raised x, env) e = cc
  launch-Runs fuel s s' (ok p, env) e = (
    p,
    env,
    refl,
    settle-Runs p (record { env = env; process = some p }) s' _ refl (wait_until_ready-Met fuel _)
        e,
  )

module _ {S P : Type 0} (sys : System S P) where
  -- A process that has been waited for has exited.
  abbrev pub Reaps : Type 0
  Reaps = (p : P) (s s' : S) → sys.wait p s ≡ (true, s') → sys.exited p s' ≡ true

  after_kill-exited :
      Reaps
      → (p : P) (s s' : S) (q : Bool × S) → sys.wait p s ≡ q
      → after_kill sys q ≡ (ok tt, s')
      → sys.exited p s' ≡ true
  unfolding after_kill
  after_kill-exited reaps p s s' (true, t) w e =
      reaps p s s' (w ∙ ap (λ (r : Result (Unit {0}) × S). (true, r.1)) e)
  after_kill-exited reaps p s s' (false, t) w e = cc

  after_terminate-exited :
      Reaps
      → (p : P) (s s' : S) (q : Bool × S) → sys.wait p s ≡ q
      → after_terminate sys p q ≡ (ok tt, s')
      → sys.exited p s' ≡ true
  unfolding after_terminate
  after_terminate-exited reaps p s s' (true, t) w e =
      reaps p s s' (w ∙ ap (λ (r : Result (Unit {0}) × S). (true, r.1)) e)
  after_terminate-exited reaps p s s' (false, t) w e =
      let (_, u, _, k) =
        >>=-eq-ok (λ (_ : Unit {0}) v. after_kill sys (sys.wait p v)) (sys.kill p) t e in
      after_kill-exited reaps p u s' (sys.wait p u) refl k

  end_process-exited :
      Reaps → (p : P) (s s' : S) → end_process sys p s ≡ (ok tt, s') → sys.exited p s' ≡ true
  unfolding end_process
  end_process-exited reaps p s s' e = elim (Bool-cases (sys.exited p s)) [
    | inl gone ↦
        let e₁ : s ≡ s' = ap (λ (r : Result (Unit {0}) × S). r.1) (rw gone at e) in rw (← e₁) gone
    | inr alive ↦
        let (_, u, _, k) =
          >>=-eq-ok (λ (_ : Unit {0}) v. after_terminate sys p (sys.wait p v)) (sys.terminate p) s
            (rw alive at e) in
        after_terminate-exited reaps p u s' (sys.wait p u) refl k
  ]

  stop_process-exited :
      Reaps
      → (p : P) (env : S) (s' : Service S P) → stop_process sys (some p) env ≡ (ok tt, s')
      → (sys.exited p s'.env ≡ true) × (s'.process ≡ none)
  unfolding stop_process
  stop_process-exited reaps p env s' e =
      let kept = ap (λ (r : Result (Unit {0}) × Service S P). r.1.process) e in
      (
        end_process-exited reaps p env s'.env
            (ap (λ (r : Result (Unit {0}) × Service S P). (r.0, r.1.env)) e),
        sym kept,
      )

  -- A stop that returns has ended the process that the service had, and the service has no process,
  -- if a process that has been waited for has exited.
  pub stop-exited :
      Reaps
      → (p : P) (s s' : Service S P) → s.process ≡ some p
      → stop sys s ≡ (ok tt, s')
      → (sys.exited p s'.env ≡ true) × (s'.process ≡ none)
  unfolding stop
  stop-exited reaps p s s' h e =
      let e₁ : stop_process sys (some p) s.env ≡ (ok tt, s') = rw h at e in
      stop_process-exited reaps p s.env s' e₁

module _ ⦃rt : Runtime⦄ {S P : Type 0} (sys : System S P) (binary data_dir : String) where
  -- A start that returns was of a service whose server did not run, and started one process, by the
  -- command of the configuration. That process has not exited at the end, and before the last pause
  -- a connection was made to the host and port of the configuration, by whatever server.
  pub start-Runs :
      (fuel : ℕ) (config : ServerConfig) (s s' : Service S P)
      → start sys binary data_dir fuel config s ≡ some (ok tt, s')
      → (is_running sys s ≡ false)
        × ((p : P) × (env : S) × (sys.spawn (command sys binary data_dir config) s.env
              ≡ (ok p, env))
            × Runs sys config.host config.port p s')
  unfolding start
  start-Runs fuel config s s' e = elim (Bool-cases (is_running sys s)) [
    | inl runs ↦ ground (arith, runs)
    | inr stopped ↦ elim (Bool-cases (sys.binary_exists s.env)) [
      | inl found ↦
          (stopped, launch-Runs sys config.host config.port fuel s s' _ (rw (stopped, found) at e))
      | inr missing ↦ ground (arith, stopped, missing)
    ]
  ]
