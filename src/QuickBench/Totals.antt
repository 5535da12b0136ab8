-- ===== src/QuickBench/Totals.antt =====
-- The requests of quick_bench.py, and the items that its batch benchmark counts.
use sndv_kv.Prelude.{
  ℕ, ◌+◌, ◌*◌, ◌≡◌, refl, ◌<◌, ◌⊎◌, inl, inr, Bool-cases, text, decimal, List, [], ◌∷◌, ◌++◌, arith,
  All, length, if◌then◌else◌, ltb,
}
use sndv_kv.Python.{Wire, answered, unreachable, Trace, read_clock, Host}
use sndv_kv.Python.Floats.{Floats}
use sndv_kv.Python.Loops.{Ends, Never}
use sndv_kv.Python.Counts.{answers, created, sent}
use sndv_kv.Bench.{item, batch_items, post, post_batch}
use sndv_kv.QuickBench.{
  BenchmarkMetrics, new_metrics, add_success, add_error, collect_batches, single_put_request,
  batch_put_request,
}

module _ {Float : Type 0} (fl : Floats Float) (host : Host Float) where
  single_at :
      (i : ℕ) (w : Trace) (a : Wire)
      → host.http
          (read_clock ∷ w)
          (post (text "http://localhost:8080/put") [] (item (text "key" ++ decimal i) 64))
        ≡ a
      → Ends
          (λ r v. (created v ≡ created w + (if r.0 then 1 else 0)) × (sent v ≡ sent w + 1))
          Never
          (single_put_request fl host i w)
  unfolding single_put_request answers
  single_at i w (unreachable reason) e = rw e (ground arith)
  single_at i w (answered status reason body) e = rw e (ground arith)

  batch_at :
      (i size : ℕ) (w : Trace) (a : Wire)
      → host.http (read_clock ∷ w) (
          post_batch
            (text "http://localhost:8080/batch")
            []
            (batch_items (text "batch_") i size 64))
        ≡ a
      → Ends
          (λ r v.
            ((r.0 ≡ 0) ⊎ (r.0 ≡ size))
            × (created v * size ≡ created w * size + r.0)
            × (sent v ≡ sent w + 1))
          Never
          (batch_put_request fl host i size w)
  unfolding batch_put_request answers
  batch_at i size w (unreachable reason) e = rw e (ground arith)
  batch_at i size w (answered status reason body) e = rw e (ground arith)

  -- A request of either benchmark never raises and sends one request. A single PUT is a success
  -- exactly if its answer had status 201, and a batch counts all its items then, and none if not.
  pub put_requests :
      (i size : ℕ) (w : Trace)
      → Ends
          (λ r v. (created v ≡ created w + (if r.0 then 1 else 0)) × (sent v ≡ sent w + 1))
          Never
          (single_put_request fl host i w)
        × Ends
            (λ r v.
              ((r.0 ≡ 0) ⊎ (r.0 ≡ size))
              × (created v * size ≡ created w * size + r.0)
              × (sent v ≡ sent w + 1))
            Never
            (batch_put_request fl host i size w)
  put_requests i size w = (single_at i w _ refl, batch_at i size w _ refl)

module _ {Float : Type 0} (size : ℕ) (positive : 0 < size) where
  -- A batch that failed counts 0 items, and every other all its items.
  abbrev pub IsBatch : ℕ × Float → Type 0
  IsBatch r = (r.0 ≡ 0) ⊎ (r.0 ≡ size)

  collect_batches_lem :
      (m : BenchmarkMetrics Float) (total : ℕ) (done : List (ℕ × Float))
      → All IsBatch done
      → total ≡ m.success * size
      → ((collect_batches m total done).1 ≡ (collect_batches m total done).0.success * size)
        × ((collect_batches m total done).0.success + (collect_batches m total done).0.errors
            ≡ m.success + m.errors + length done)
  unfolding collect_batches add_success add_error
  collect_batches_lem m total [] h e = (e, omega arith)
  collect_batches_lem m total ((n, x) ∷ done) h e = elim (Bool-cases (ltb 0 n)) [
    | inl some_items ↦
        let full : n ≡ size = ground (arith, h.0) in
        let (t, c) = collect_batches_lem (add_success m x) (total + n) done h.1 (omega arith) in
        rw (some_items, collect_batches) (t, omega (arith, c))
    | inr no_items ↦
        let (t, c) = collect_batches_lem (add_error m) total done h.1 e in
        rw (no_items, collect_batches) (t, omega (arith, c))
  ]

  -- For results that each count 0 items or a whole batch, of a size above 0, the items in total are
  -- the batch size times the number of batches that succeeded, and each batch is counted once.
  pub collect_batches-total :
      (done : List (ℕ × Float))
      → All IsBatch done
      → ((collect_batches new_metrics 0 done).1
          ≡ (collect_batches new_metrics 0 done).0.success * size)
        × ((collect_batches new_metrics 0 done).0.success
              + (collect_batches new_metrics 0 done).0.errors
            ≡ length done)
  collect_batches-total done h =
      let (t, c) = collect_batches_lem new_metrics 0 done h (omega arith) in (t, omega (arith, c))
