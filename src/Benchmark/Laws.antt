-- ===== src/Benchmark/Laws.antt =====
-- Benchmark: the records of a run.
use mathlib.Core.List.{◌++◌, append-nil, append_assoc, map-append}
use mathlib.Core.Path.{subst}
use sql_parser.Base.{
  String, true, false, List, [], ◌∷◌, map, ◌≡◌, refl, sym, ap, ◌∙◌, ◌⊎◌, inl, inr, Bool-cases,
  str_eq, if◌then◌else◌, eq_iff,
}
use sql_parser.Base.Exec.{Exec, ◌>>=◌, >>=-eq-ok}
use sql_parser.Base.Int.{ℤ}
use sql_parser.Base.Result.{Result, ok, raised}
use sql_parser.Storage.Protocol.Trace.{TraceEvent}
use sql_parser.Benchmark.{
  ServerConfig, server_config, Services, BenchmarkRecord, Bench, outside, record_of, add_record,
  is_blank, record_queries, clear_and_raise, record_policy, keep_trace, run_config, write_opt_trace,
  run_opt, stop_if_running, run_policy, run_policies, save_trace, frame_count_from_trace,
}
use sql_parser.Value.{Runtime}

abbrev Pairs : Type 0
Pairs = List (String × String)

module _ ⦃rt : Runtime⦄ {S : Type 0} where
  open rt use {Float}

  -- The policies and the queries of the records.
  abbrev pub recorded : Bench Float S → Pairs
  recorded b = map (λ r. (r.policy, r.query)) b.run.records

  -- Where `m` returns, it has added records for these pairs.
  abbrev Adds : {A : Type 0} → Pairs → Exec (Bench Float S) A → Type 0
  Adds {A} ps m = (b b' : Bench Float S) (a : A) → m b ≡ (ok a, b') → recorded b' ≡ recorded b ++ ps

  Adds-bind :
      {A B : Type 0} (ps qs : Pairs) (m : Exec (Bench Float S) A) (f : A → Exec (Bench Float S) B)
      → Adds ps m
      → ((a : A) → Adds qs (f a))
      → Adds (ps ++ qs) (m >>= f)
  Adds-bind ps qs m f h k b b' c e =
      let (a, t, e₁, e₂) = >>=-eq-ok f m b e in
      k a t b' c e₂ ∙ ap (λ rs. rs ++ qs) (h b t a e₁) ∙ append_assoc (recorded b) ps qs

  -- Nothing is added before, or nothing after.
  Adds-last :
      {A B : Type 0} (ps : Pairs) (m : Exec (Bench Float S) A) (f : A → Exec (Bench Float S) B)
      → Adds ps m
      → ((a : A) → Adds [] (f a))
      → Adds ps (m >>= f)
  Adds-last ps m f h k = subst (λ qs. Adds qs (m >>= f)) (append-nil ps) (Adds-bind ps [] m f h k)

  Adds-same :
      {A : Type 0} (m : Exec (Bench Float S) A)
      → ((b : Bench Float S) → (m b).1.run.records ≡ b.run.records)
      → Adds [] m
  Adds-same m h b b' a e =
      ap recorded (sym (ap (λ p. p.1) e))
      ∙ ap (map (λ r. (r.policy, r.query))) (h b)
      ∙ sym (append-nil (recorded b))

  Adds-outside : {A : Type 0} (m : Exec S A) → Adds [] (outside m)
  Adds-outside m = Adds-same (outside m) (λ b. refl)

  Adds-add_record :
      (r : BenchmarkRecord Float) → Adds ((r.policy, r.query) ∷ []) (add_record {S = S} r)
  Adds-add_record r b b' a e =
      ap recorded (sym (ap (λ p. p.1) e))
      ∙ map-append (λ r. (r.policy, r.query)) b.run.records (r ∷ [])

module _ ⦃rt : Runtime⦄ {S : Type 0} (services : Services S) where
  open rt use {Float}

  -- A pair for each query that is not blank.
  abbrev pub own_pairs : String → List String → Pairs
  own_pairs policy [] = []
  own_pairs policy (q ∷ qs) =
      if is_blank q then own_pairs policy qs else (policy, q) ∷ own_pairs policy qs

  record_queries-Adds :
      (config : ServerConfig) (policy : String) (queries : List String)
      → Adds (own_pairs policy queries) (record_queries services config policy queries)
  unfolding record_queries
  record_queries-Adds config policy [] = Adds-same _ (λ b. refl)
  record_queries-Adds config policy (q ∷ qs) = elim (Bool-cases (is_blank q)) [
    | inl blank ↦ rw blank (record_queries-Adds config policy qs)
    | inr full ↦ rw full (
        Adds-bind [] _ _ _ (Adds-outside (services.execute config q)) λ report.
          Adds-bind ((policy, q) ∷ []) _ _ _ (Adds-add_record (record_of policy q report))
            λ _. record_queries-Adds config policy qs)
  ]

  clear_and_raise-ok :
      {A : Type 0} (config : ServerConfig) (p : Result A × Bench Float S) (a : A)
      (b : Bench Float S)
      → clear_and_raise services config p ≡ (ok a, b)
      → p ≡ (ok a, b)
  clear_and_raise-ok config (ok a', b') a b e = e
  clear_and_raise-ok config (raised x, b') a b e =
      let (_, t, _, k) =
        >>=-eq-ok (λ _ b''. (raised x, b'')) (outside (services.trace_clear config)) b' e in
      cc

  record_policy-Adds :
      (config : ServerConfig) (policy : String) (queries : List String)
      → Adds (own_pairs policy queries) (record_policy services config policy queries)
  unfolding record_policy
  record_policy-Adds config policy queries =
      let body = record_queries services config policy queries >>= λ _.
      outside (services.trace_stop config) in
      let counted : Adds (own_pairs policy queries) body =
        Adds-last (own_pairs policy queries) _ _ (record_queries-Adds config policy queries)
          (λ _. Adds-outside (services.trace_stop config)) in
      Adds-bind [] _ _ _ (Adds-outside (services.trace_start config))
        λ _ b b' a e. counted b b' a (clear_and_raise-ok config (body b) a b' e)

  keep_trace-Adds :
      (policy : String) (frames : ℤ) (events : List TraceEvent)
      → Adds [] (keep_trace services policy frames events)
  unfolding keep_trace
  keep_trace-Adds policy frames events =
      let count = frame_count_from_trace events frames in
      let ready = services.on_trace_ready policy events count in
      let saved = save_trace policy events count in
      Adds-bind [] [] saved (λ _. outside ready) (Adds-same saved (λ b. refl))
        (λ _. Adds-outside ready)

  run_config-Adds :
      (policy : String) (queries : List String) (frames : ℤ)
      → Adds (own_pairs policy queries) (run_config services policy queries frames)
  unfolding run_config
  run_config-Adds policy queries frames =
      let config : ServerConfig = server_config policy frames in
      let ps = own_pairs policy queries in
      let keep : List TraceEvent → Exec (Bench Float S) (Unit {0}) =
        λ events. keep_trace services policy frames events in
      let measure = record_policy services config policy queries >>= keep in
      let made = outside (services.query_service config) in
      Adds-bind [] ps (outside (services.start config)) (λ _. made >>= λ _. measure)
        (Adds-outside (services.start config))
        (λ _.
          Adds-bind [] ps made (λ _. measure) (Adds-outside (services.query_service config))
            (λ _.
              Adds-last ps (record_policy services config policy queries) keep
                (record_policy-Adds config policy queries)
                (λ events. keep_trace-Adds policy frames events)))

  run_opt-Adds :
      (queries : List String) (frames : ℤ)
      → Adds (own_pairs "opt" queries) (run_opt services queries frames)
  unfolding run_opt
  run_opt-Adds queries frames =
      let traced = write_opt_trace services queries frames in
      Adds-bind [] (own_pairs "opt" queries) (outside traced)
        (λ _. run_config services "opt" queries frames) (Adds-outside traced)
        (λ _. run_config-Adds "opt" queries frames)

  stop_if_running-Adds : Adds [] (stop_if_running services)
  stop_if_running-Adds = Adds-same (stop_if_running services) same
    where
      same : (b : Bench Float S) → (stop_if_running services b).1.run.records ≡ b.run.records
      same b = elim (Bool-cases (services.is_running b.env)) [ inl e ↦ rw e | inr e ↦ rw e ]

  run_policy-Adds :
      (policy : String) (queries : List String) (frames : ℤ)
      → Adds (own_pairs policy queries) (run_policy services policy queries frames)
  unfolding run_policy
  run_policy-Adds policy queries frames =
      Adds-bind [] (own_pairs policy queries) (stop_if_running services) _ stop_if_running-Adds
        λ _. chosen (Bool-cases (str_eq policy "opt"))
    where
      chosen :
          (str_eq policy "opt" ≡ true) ⊎ (str_eq policy "opt" ≡ false)
          → Adds (own_pairs policy queries) (
              if str_eq policy "opt"
              then run_opt services queries frames
              else run_config services policy queries frames)
      chosen (inl e) =
          let same = (eq_iff policy "opt").0 e in
          rw e (
            subst (λ p. Adds (own_pairs p queries) (run_opt services queries frames)) (sym same)
              (run_opt-Adds queries frames))
      chosen (inr e) = rw e (run_config-Adds policy queries frames)

  -- The pairs of all policies, one policy after the other.
  abbrev pub all_pairs : List String → List String → Pairs
  all_pairs [] queries = []
  all_pairs (p ∷ ps) queries = own_pairs p queries ++ all_pairs ps queries

  -- A run that raises nothing adds a record for each policy and each query that is not blank, in
  -- this order.
  pub run_policies-recorded :
      (policies queries : List String) (frames : ℤ) (b b' : Bench Float S)
      → run_policies services policies queries frames b ≡ (ok tt, b')
      → recorded b' ≡ recorded b ++ all_pairs policies queries
  unfolding run_policies
  run_policies-recorded policies queries frames b b' e = all policies b b' tt e
    where
      all :
          (ps : List String) → Adds (all_pairs ps queries) (run_policies services ps queries frames)
      all [] = Adds-same _ (λ b. refl)
      all (p ∷ ps) =
          Adds-bind (own_pairs p queries) (all_pairs ps queries)
            (run_policy services p queries frames) (λ _. run_policies services ps queries frames)
            (run_policy-Adds p queries frames) (λ _. all ps)
