-- ===== src/Orchestrator/Batch.antt =====
-- `benchmark_batch` of bench_orchestrator.py: what it counts.
use native.Mathlib.Nat.{div-add-mod, mul_comm}
use sndv_kv.Prelude.{
  ℕ, ◌+◌, ◌*◌, ◌/◌, ◌≡◌, refl, ◌≤◌, ◌<◌, false, Text, text, [], ◌∷◌, ◌++◌, arith, ◌==◌,
}
use sndv_kv.Python.{Wire, answered, unreachable, Trace, read_clock, Host}
use sndv_kv.Python.Floats.{Floats}
use sndv_kv.Python.Loops.{Ends, Never, Ends-bind, for_range, for_range-Ends}
use sndv_kv.Python.Counts.{answers, created, sent}
use sndv_kv.Bench.{batch_items, post_batch}
use sndv_kv.Orchestrator.{batch_round, benchmark_batch}

batches-le-total : (total size : ℕ) → (total / size) * size ≤ total
batches-le-total total size = omega (arith, div-add-mod total size, mul_comm (total / size) size)

module _ {Float : Type 0} (fl : Floats Float) (host : Host Float) (server_url : Text)
    (size : ℕ) where
  record Counted (w₀ : Trace) (i success : ℕ) (w : Trace) : Type 0 where
    successes : created w * size ≡ created w₀ * size + success
    requests : sent w ≡ sent w₀ + i
    bounded : success ≤ i * size

  round_at :
      (w₀ : Trace) (i success : ℕ) (w : Trace) (a : Wire)
      → host.http w
          (post_batch (server_url ++ text "/batch") [] (batch_items (text "batch_") i size 128))
        ≡ a
      → Counted w₀ i success w
      → Ends (Counted w₀ (i + 1)) Never (batch_round fl host server_url size i success w)
  unfolding batch_round answers
  round_at w₀ i success w (unreachable reason) e h = rw e (ground arith)
  round_at w₀ i success w (answered status reason body) e h = rw e (ground arith)

  -- With a batch size above 0 the benchmark never raises. It sends one request for each batch that
  -- fits into the total, and reports their number. Its successes are the batch size times the
  -- number of answers with status 201, and no more than the total.
  pub benchmark_batch-counts :
      (total : ℕ) (w : Trace)
      → 0 < size
      → Ends
          (λ st v.
            (created v * size ≡ created w * size + st.success)
            × (st.success ≤ total)
            × (sent v ≡ sent w + total / size)
            × (st.batches ≡ total / size))
          Never
          (benchmark_batch fl host server_url total size w)
  unfolding benchmark_batch answers
  benchmark_batch-counts total w pos =
      let e : (size == 0) ≡ false = ground arith in
      rw e (
        Ends-bind (Counted (read_clock ∷ w) (total / size)) _ Never
          (for_range (total / size) 0 (batch_round fl host server_url size) 0) _ (read_clock ∷ w)
          (for_range-Ends (Counted (read_clock ∷ w)) Never (batch_round fl host server_url size)
            (λ i s v. round_at (read_clock ∷ w) i s v _ refl) (total / size) 0 (total / size) 0
            (read_clock ∷ w) (omega arith) (omega arith))
          λ s v h. omega (arith, batches-le-total total size))
