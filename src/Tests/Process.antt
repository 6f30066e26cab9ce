-- ===== src/Tests/Process.antt =====
-- A system with one process, which answers after three tries, and the service that starts and stops
-- it.
use sql_parser.Base.{
  String, ◌≡◌, refl, ℕ, true, false, none, some, [], ◌∷◌, List, Bool, ◌+◌, leb, arith,
}
use sql_parser.Base.Result.{ok}
use sql_parser.Server.{System, Service, is_running, command, start, stop}
use sql_parser.Server.Laws.{Runs, Reaps, start-Runs, stop-exited}
use sql_parser.Server.Wait.{Passes, Ends, start-Ends}
use sql_parser.Tests.Benchmark.{lru_config}
use sql_parser.Tests.Sample.{sample}
use sql_parser.Value.{str_int}

-- The clock, and whether the process has been ended. The process is what it was started with.
pub record Machine : Type 0 where
  pub now : ℕ
  pub ended : Bool

abbrev machine : System Machine (List String)
machine = record {
  binary_exists = λ s. true;
  spawn = λ words s. (ok words, s);
  exited = λ p s. s.ended;
  terminate = λ p s. (ok tt, s);
  kill = λ p s. (ok tt, record s { ended = true });
  wait = λ p s. (s.ended, s);
  read_logs = λ p s. (("", ""), s);
  clock = λ s. s.now;
  connect = λ host port s. (leb 300 s.now, s);
  sleep = λ n s. record s { now = s.now + n };
}

abbrev idle : Service Machine (List String)
idle = record { env = record { now = 0; ended = false }; process = none }

abbrev words : List String
words = "minidbms-server" ∷ "data" ∷ "4" ∷ "lru" ∷ []

abbrev busy : Service Machine (List String)
busy = record { env = record { now = 400; ended = false }; process = some words }

started : start machine "minidbms-server" "data" 35 lru_config idle ≡ some (ok tt, busy)
unfolding start str_int
started = refl

start-Runs_example :
    (is_running machine idle ≡ false)
    × ((p : List String) × (env : Machine) × (machine.spawn
            (command machine "minidbms-server" "data" lru_config)
            idle.env
          ≡ (ok p, env))
        × Runs machine "localhost" 5433 p busy)
start-Runs_example = start-Runs machine "minidbms-server" "data" 35 lru_config idle busy started

-- The clock of the machine goes on by the pauses alone.
passes : Passes machine "localhost" 5433
passes = ((λ s. omega arith), (λ n s. omega arith))

start-Ends_example :
    Ends machine "localhost" 5433 (start machine "minidbms-server" "data" 35 lru_config idle)
start-Ends_example =
    start-Ends machine "minidbms-server" "data" lru_config passes 34 idle (omega arith)

abbrev over : Service Machine (List String)
over = record { env = record { now = 400; ended = true }; process = none }

-- The process does not end in time, and is killed.
stopped : stop machine busy ≡ (ok tt, over)
unfolding stop
stopped = refl

reaps : Reaps machine
reaps p s s' e = cc

stop-exited_example : (machine.exited words over.env ≡ true) × (over.process ≡ none)
stop-exited_example = stop-exited machine reaps words busy over refl stopped
