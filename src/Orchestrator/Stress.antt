-- ===== src/Orchestrator/Stress.antt =====
-- `benchmark_stress` of bench_orchestrator.py: what it counts, and which keys it reads.
use sndv_kv.Prelude.{
  ℕ, ◌+◌, ◌-◌, ◌%◌, pos, sub_ℕ, decimal, decimal_ℤ, ◌≡◌, refl, ◌≤◌, ◌<◌, true, false, Text, text,
  [], ◌∷◌, ◌++◌, arith, ◌==◌,
}
use sndv_kv.Python.{Wire, answered, unreachable, Trace, read_clock, Host}
use sndv_kv.Python.Floats.{Floats}
use sndv_kv.Python.Loops.{Ends, Never, Ends-bind, for_range, for_range-Ends}
use sndv_kv.Python.Counts.{answers, accepted, sent}
use sndv_kv.Bench.{item, post, get}
use sndv_kv.Orchestrator.{stress_request, stress_round, benchmark_stress}

module _ {Float : Type 0} (fl : Floats Float) (host : Host Float) (server_url : Text) where
  record Counted (w₀ : Trace) (i success : ℕ) (w : Trace) : Type 0 where
    successes : answers accepted w ≡ answers accepted w₀ + success
    requests : sent w ≡ sent w₀ + i
    bounded : success ≤ i

  round_at :
      (w₀ : Trace) (i success : ℕ) (w : Trace) (a : Wire)
      → host.http w (stress_request server_url i) ≡ a
      → Counted w₀ i success w
      → Ends (Counted w₀ (i + 1)) Never (stress_round fl host server_url i success w)
  unfolding stress_round answers
  round_at w₀ i success w (unreachable reason) e h = rw e (ground arith)
  round_at w₀ i success w (answered status reason body) e h = rw e (ground arith)

  -- The stress test never raises. It sends one request for each count, and reports the count and,
  -- as its successes, the answers with status 200 or 201, no more than the count.
  pub benchmark_stress-counts :
      (count : ℕ) (w : Trace)
      → Ends
          (λ st v.
            (st.count ≡ count)
            × (st.success ≤ count)
            × (answers accepted v ≡ answers accepted w + st.success)
            × (sent v ≡ sent w + count))
          Never
          (benchmark_stress fl host server_url count w)
  unfolding benchmark_stress answers
  benchmark_stress-counts count w =
      Ends-bind (Counted (read_clock ∷ w) count) _ Never
        (for_range count 0 (stress_round fl host server_url) 0) _ (read_clock ∷ w)
        (for_range-Ends (Counted (read_clock ∷ w)) Never (stress_round fl host server_url)
          (λ i s v. round_at (read_clock ∷ w) i s v _ refl) count 0 count 0 (read_clock ∷ w)
          (omega arith) (omega arith))
        λ s v h. (refl, h.bounded, h.successes, h.requests)

-- In every round `i` from the hundredth on with `i % 3` of 1, the request reads a key that the
-- request of an earlier round writes.
pub stress_request-reads_written :
    (server_url : Text) (i : ℕ)
    → i % 3 ≡ 1
    → 100 ≤ i
    → (j : ℕ) × (j < i)
      × (stress_request server_url j
          ≡ post (server_url ++ text "/put") [] (item (text "stress_" ++ decimal j) 256))
      × (stress_request server_url i
          ≡ get (server_url ++ (text "/get?key=stress_" ++ decimal j)) [])
unfolding stress_request decimal_ℤ
stress_request-reads_written server_url i e h =
    let written : ((i - 100) % 3 == 0) ≡ true = ground arith in
    let other : (i % 3 == 0) ≡ false = ground arith in
    let read : (i % 3 == 1) ≡ true = ground arith in
    let index : sub_ℕ i 100 ≡ pos (i - 100) = ground arith in
    (i - 100, omega arith, rw written, rw (other, read, index))
