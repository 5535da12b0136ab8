-- ===== src/Tests/Benchmarks.antt =====
-- The theorems about bench_orchestrator.py, at short runs.
use sndv_kv.Prelude.{
  ℕ, ◌+◌, ◌*◌, ◌/◌, ◌≡◌, ◌≤◌, ◌<◌, false, Text, text, [], ◌++◌, decimal, ltb, arith, refl,
}
use sndv_kv.Python.{Request}
use sndv_kv.Python.Loops.{Ends, Never}
use sndv_kv.Python.Counts.{answers, accepted, created, sent}
use sndv_kv.Bench.{item, post, get}
use sndv_kv.Bench.Poll.{poll, Polled, poll-Polled}
use sndv_kv.Orchestrator.{stress_request, benchmark_single, benchmark_batch, benchmark_stress}
use sndv_kv.Orchestrator.Single.{benchmark_single-counts, benchmark_single-percentiles}
use sndv_kv.Orchestrator.Batch.{benchmark_batch-counts}
use sndv_kv.Orchestrator.Stress.{benchmark_stress-counts, stress_request-reads_written}
use sndv_kv.Tests.{floats, floats-IsOrdered, host, time_runs}

abbrev url : Text
url = text "http://kv"

abbrev metrics : Request
metrics = get (url ++ text "/metrics") []

poll-Polled_example :
    Ends (Polled floats host metrics 30 []) Never (poll floats host metrics 30 3 [])
poll-Polled_example = poll-Polled floats host metrics 30 [] 2 time_runs 2 (omega arith)

benchmark_single-counts_example :
    Ends
      (λ st v.
        (st.count ≡ 3)
        × (st.success ≤ 3)
        × (created v ≡ created [] + st.success)
        × (sent v ≡ sent [] + 3))
      Never
      (benchmark_single floats host url 3 [])
benchmark_single-counts_example = benchmark_single-counts floats host url 3 []

benchmark_single-percentiles_example :
    Ends
      (λ st _. (ltb st.p95_ms st.p50_ms ≡ false) × (ltb st.p99_ms st.p95_ms ≡ false))
      Never
      (benchmark_single floats host url 3 [])
benchmark_single-percentiles_example =
    benchmark_single-percentiles floats host url floats-IsOrdered 3 []

benchmark_batch-counts_example :
    Ends
      (λ st v.
        (created v * 4 ≡ created [] * 4 + st.success)
        × (st.success ≤ 10)
        × (sent v ≡ sent [] + 10 / 4)
        × (st.batches ≡ 10 / 4))
      Never
      (benchmark_batch floats host url 10 4 [])
benchmark_batch-counts_example = benchmark_batch-counts floats host url 4 10 [] (omega arith)

benchmark_stress-counts_example :
    Ends
      (λ st v.
        (st.count ≡ 4)
        × (st.success ≤ 4)
        × (answers accepted v ≡ answers accepted [] + st.success)
        × (sent v ≡ sent [] + 4))
      Never
      (benchmark_stress floats host url 4 [])
benchmark_stress-counts_example = benchmark_stress-counts floats host url 4 []

stress_request-reads_written_example :
    (j : ℕ) × (j < 103)
    × (stress_request url j ≡ post (url ++ text "/put") [] (item (text "stress_" ++ decimal j) 256))
    × (stress_request url 103 ≡ get (url ++ (text "/get?key=stress_" ++ decimal j)) [])
stress_request-reads_written_example = stress_request-reads_written url 103 refl (omega arith)
