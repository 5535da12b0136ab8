-- ===== src/Orchestrator/Monitoring/Totals.antt =====
-- What one test case of bench_orchestrator.py sends and reports in all.
use sndv_kv.Prelude.{
  ℕ, ◌+◌, ◌≡◌, refl, ◌≤◌, Text, text, decimal, Option, none, some, [], ◌++◌, arith,
}
use sndv_kv.Python.{Wire, answered, unreachable, Trace, Host}
use sndv_kv.Python.Floats.{Floats}
use sndv_kv.Python.Loops.{Ends, Never, Ends-bind, Ends-map, for_range, for_range-Ends}
use sndv_kv.Python.Counts.{answers, sent}
use sndv_kv.Bench.{item, post}
use sndv_kv.Orchestrator.{StressStats, benchmark_single, benchmark_batch, benchmark_stress}
use sndv_kv.Orchestrator.Single.{benchmark_single-counts}
use sndv_kv.Orchestrator.Batch.{benchmark_batch-counts}
use sndv_kv.Orchestrator.Stress.{benchmark_stress-counts}
use sndv_kv.Orchestrator.Monitoring.{
  stress_ops, warmup_round, run_stress, run_benchmarks_with_monitoring,
}

-- The requests of a stress test that may be left out.
abbrev pub requests_of : Option ℕ → ℕ
requests_of none = 0
requests_of (some ops) = ops

-- A stress test that ran has the given number of operations, no more successes than that, and
-- there is none otherwise.
abbrev pub Stressed : {Float : Type 0} → Option ℕ → Option (StressStats Float) → Type 0
Stressed none o = o ≡ none
Stressed (some ops) none = ⊥
Stressed (some ops) (some st) = (st.count ≡ ops) × (st.success ≤ ops)

module _ {Float : Type 0} (fl : Floats Float) (host : Host Float) (server_url : Text) where
  warmup_at :
      (i n : ℕ) (w : Trace) (a : Wire)
      → host.http w (post (server_url ++ text "/put") [] (item (text "w" ++ decimal i) 64)) ≡ a
      → sent w ≡ n
      → Ends (λ _ v. sent v ≡ n + 1) Never (warmup_round fl host server_url i tt w)
  unfolding warmup_round answers
  warmup_at i n w (unreachable reason) e h = rw e (ground arith)
  warmup_at i n w (answered status reason body) e h = rw e (ground arith)

  warmup-Ends :
      (w : Trace)
      → Ends
          (λ _ v. sent v ≡ sent w + 100)
          Never
          (for_range 100 0 (warmup_round fl host server_url) tt w)
  warmup-Ends w =
      for_range-Ends (λ i _ v. sent v ≡ sent w + i) Never (warmup_round fl host server_url)
        (λ i s v h.
          Ends-map (λ _ u. sent u ≡ (sent w + i) + 1) (λ _ u. sent u ≡ sent w + (i + 1)) Never _
            (λ _ u k. omega arith) (warmup_at i (sent w + i) v _ refl h))
        100 0 100 tt w (omega arith) (omega arith)

  run_stress-Ends :
      (ops : Option ℕ) (w : Trace)
      → Ends
          (λ o v. Stressed ops o × (sent v ≡ sent w + requests_of ops))
          Never
          (run_stress fl host server_url ops w)
  unfolding run_stress
  run_stress-Ends none w = (refl, omega arith)
  run_stress-Ends (some ops) w =
      Ends-bind _ _ Never (benchmark_stress fl host server_url ops) _ w
        (benchmark_stress-counts fl host server_url ops w) λ st v h. ((h.0, h.1), h.3)

  -- The benchmarks of a test case never raise. In all they send 1150 requests and one for each
  -- operation of the stress test. They report at most 1000 successes of single operations and at
  -- most 5000 items of batches. A stress test is reported exactly for a load that has one, with its
  -- number of operations and no more successes.
  pub run_benchmarks-totals :
      (load_type : Text) (w : Trace)
      → Ends
          (λ r v.
            (r.single.success ≤ 1000)
            × (r.batch.success ≤ 5000)
            × Stressed (stress_ops load_type) r.stress
            × (sent v ≡ sent w + (1150 + requests_of (stress_ops load_type))))
          Never
          (run_benchmarks_with_monitoring fl host server_url load_type w)
  unfolding run_benchmarks_with_monitoring
  run_benchmarks-totals load_type w =
      Ends-bind _ _ Never (for_range 100 0 (warmup_round fl host server_url) tt) _ w (warmup-Ends w)
        λ _ v1 h1.
          Ends-bind _ _ Never (benchmark_single fl host server_url 1000) _ v1
            (benchmark_single-counts fl host server_url 1000 v1)
            λ single v2 h2.
              Ends-bind _ _ Never (benchmark_batch fl host server_url 5000 100) _ v2
                (benchmark_batch-counts fl host server_url 100 5000 v2 (omega arith))
                λ batch v3 h3.
                  Ends-bind _ _ Never (run_stress fl host server_url (stress_ops load_type)) _ v3
                    (run_stress-Ends (stress_ops load_type) v3)
                    λ stress v4 h4. (h2.1, h3.1, h4.0, omega (arith, h1, h2.3, h3.2, h4.1))
