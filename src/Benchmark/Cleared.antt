-- ===== src/Benchmark/Cleared.antt =====
-- Benchmark: the trace after an exception.
use sql_parser.Base.{String, List, ◌≡◌, refl, ap, ◌∙◌, ◌⊎◌, inl, inr}
use sql_parser.Base.Exec.{Exec, ◌>>=◌, continue}
use sql_parser.Base.Result.{Result, ok, raised, Error}
use sql_parser.Storage.Protocol.Trace.{TraceEvent}
use sql_parser.Benchmark.{
  ServerConfig, Services, Bench, outside, record_queries, clear_and_raise, record_policy,
}
use sql_parser.Value.{Runtime}

-- An exception, as that of a call without a value.
abbrev same_error : {A : Type 0} → Result A → Result (Unit {0})
same_error (ok a) = ok tt
same_error (raised e) = raised e

module _ ⦃rt : Runtime⦄ {S : Type 0} (services : Services S) where
  open rt use {Float}

  -- The trace was cleared, or the exception is that of clearing it.
  abbrev pub Clears : ServerConfig → Error → S → Type 0
  Clears config x after =
      (s : S) × ((services.trace_clear config s ≡ (ok tt, after))
        ⊎ (services.trace_clear config s ≡ (raised x, after)))

  cleared_env :
      {A : Type 0} (config : ServerConfig) (x y : Error) (b₀ b : Bench Float S)
      (q : Result (Unit {0}) × S)
      → services.trace_clear config b₀.env ≡ q
      → continue {B = A} q.0 (λ _ c. (raised y, c)) (record b₀ { env = q.1 }) ≡ (raised x, b)
      → Clears config x b.env
  cleared_env {A} config x y b₀ b (ok _, s) k e =
      (b₀.env, inl (k ∙ ap (λ (p : Result A × Bench Float S). (ok tt, p.1.env)) e))
  cleared_env {A} config x y b₀ b (raised z, s) k e =
      (b₀.env, inr (k ∙ ap (λ (p : Result A × Bench Float S). (same_error p.0, p.1.env)) e))

  clear_and_raise-cleared :
      {A : Type 0} (config : ServerConfig) (p : Result A × Bench Float S) (x : Error)
      (b : Bench Float S)
      → clear_and_raise services config p ≡ (raised x, b)
      → Clears config x b.env
  clear_and_raise-cleared config (ok a, b₀) x b e = cc
  clear_and_raise-cleared config (raised y, b₀) x b e =
      cleared_env config x y b₀ b (services.trace_clear config b₀.env) refl e

  -- If the collection of a trace raises an exception, then what it did last is a call that cleared
  -- the trace, or the exception is that of this call or of the one that starts the trace.
  pub record_policy-cleared :
      (config : ServerConfig) (policy : String) (queries : List String) (b b' : Bench Float S)
      (x : Error)
      → record_policy services config policy queries b ≡ (raised x, b')
      → (services.trace_start config b.env ≡ (raised x, b'.env)) ⊎ Clears config x b'.env
  unfolding record_policy
  record_policy-cleared config policy queries b b' x e =
      split (services.trace_start config b.env) refl e
    where
      body : Exec (Bench Float S) (List TraceEvent)
      body = record_queries services config policy queries >>= λ _.
          outside (services.trace_stop config)

      split :
          (q : Result (Unit {0}) × S)
          → services.trace_start config b.env ≡ q
          → continue q.0 (λ _ c. clear_and_raise services config (body c)) (record b { env = q.1 })
            ≡ (raised x, b')
          → (services.trace_start config b.env ≡ (raised x, b'.env)) ⊎ Clears config x b'.env
      split (ok _, s) started h =
          inr (clear_and_raise-cleared config (body (record b { env = s })) x b' h)
      split (raised y, s) failed h = inl (
          failed
          ∙ ap (λ (p : Result (List TraceEvent) × Bench Float S). (same_error p.0, p.1.env)) h)
