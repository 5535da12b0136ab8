-- ===== src/Orchestrator.antt =====
-- bench_orchestrator.py: the benchmarks that it runs against a server.
pub mod Single
pub mod Batch
pub mod Stress
pub mod Monitoring
pub mod Disk
pub mod Resources
pub mod Cases
pub mod Setup
pub mod Artifacts
pub mod Report
pub mod Main
use sndv_kv.Prelude.{
  ℕ, ◌+◌, ◌*◌, ◌/◌, ◌%◌, sub_ℕ, decimal_ℤ, Text, text, decimal, List, [], ◌∷◌, ◌++◌, length, ◌==◌,
  ◌||◌, Bool, Option, if◌then◌else◌,
}
use sndv_kv.Python.{Host, Request, zero_division_error}
use sndv_kv.Python.Actions.{Py, pure, throw, ◌>>=◌, catch, now, send_request}
use sndv_kv.Python.Floats.{Floats, rate}
use sndv_kv.Python.Loops.{for_range}
use sndv_kv.Python.Sort.{sort}
use sndv_kv.Bench.Poll.{poll}
use sndv_kv.Bench.{item, batch_items, post, post_batch, get, index}

-- The dictionaries that the benchmarks return.
pub record SingleStats (Float : Type 0) : Type 0 where
  pub count : ℕ
  pub success : ℕ
  pub tps : Float
  pub p50_ms : Float
  pub p95_ms : Float
  pub p99_ms : Float
  pub avg_ms : Float

pub record BatchStats (Float : Type 0) : Type 0 where
  pub total : ℕ
  pub batch_size : ℕ
  pub success : ℕ
  pub tps : Float
  pub batches : ℕ

pub record StressStats (Float : Type 0) : Type 0 where
  pub count : ℕ
  pub success : ℕ
  pub tps : Float

-- The variables of the loop of `benchmark_single`.
pub record Tally (Float : Type 0) : Type 0 where
  pub latencies : List Float
  pub success : ℕ

module _ {Float : Type 0} (fl : Floats Float) where
  -- `latencies[i] if latencies else 0`
  unfoldable pub index_or_zero : List Float → ℕ → Py Float
  index_or_zero [] i = pure (fl.of_ℕ 0)
  index_or_zero (x ∷ xs) i = index (x ∷ xs) i

  -- `statistics.mean(latencies) if latencies else 0`
  abbrev pub mean_or_zero : List Float → Float
  mean_or_zero [] = fl.of_ℕ 0
  mean_or_zero (x ∷ xs) = fl.mean (x ∷ xs)

  -- The dictionary of `benchmark_single`. `int(n * 0.95)` is `n * 95 / 100` rounded down: the
  -- rounding of the float product changes it at no length up to 2000000.
  unfoldable pub single_stats : ℕ → ℕ → Float → List Float → Py (SingleStats Float)
  single_stats count success duration latencies = do
    p50 ← index_or_zero latencies (length latencies / 2)
    p95 ← index_or_zero latencies (length latencies * 95 / 100)
    p99 ← index_or_zero latencies (length latencies * 99 / 100)
    pure (record {
      count = count;
      success = success;
      tps = rate fl success duration;
      p50_ms = p50;
      p95_ms = p95;
      p99_ms = p99;
      avg_ms = mean_or_zero latencies;
    })

-- The three operations of the stress test, by `i % 3`.
unfoldable pub stress_request : Text → ℕ → Request
stress_request server_url i =
    if i % 3 == 0
    then post (server_url ++ text "/put") [] (item (text "stress_" ++ decimal i) 256)
    else if i % 3 == 1
    then get (server_url ++ (text "/get?key=stress_" ++ decimal_ℤ (sub_ℕ i 100))) []
    else post_batch (server_url ++ text "/batch") [] (batch_items (text "stress_b_") i 10 1)

module _ {Float : Type 0} (fl : Floats Float) (host : Host Float) (server_url : Text) where
  -- With the default timeout of 15 seconds, which is also what its caller gives.
  unfoldable pub wait_for_server : ℕ → Py (Option Bool)
  wait_for_server = poll fl host (get (server_url ++ text "/metrics") []) (fl.of_ℕ 15)

  -- One round of `benchmark_single`: a failed request counts as 3000 ms.
  unfoldable pub single_round : ℕ → Tally Float → Py (Tally Float)
  single_round i s = do
    t0 ← now host
    catch
        (do
          resp ←
              send_request host
                (post (server_url ++ text "/put") [] (item (text "single_" ++ decimal i) 128))
          t1 ← now host
          pure (record {
            latencies = s.latencies ++ fl.mul (fl.sub t1 t0) (fl.of_ℕ 1000) ∷ [];
            success = if resp.status == 201 then s.success + 1 else s.success;
          }))
        (λ _. pure (record s { latencies = s.latencies ++ fl.of_ℕ 3000 ∷ [] }))

  unfoldable pub benchmark_single : ℕ → Py (SingleStats Float)
  benchmark_single count = do
    start ← now host
    s ← for_range count 0 single_round (record { latencies = []; success = 0 })
    stop ← now host
    single_stats fl count s.success (fl.sub stop start) (sort fl s.latencies)

  unfoldable pub batch_round : ℕ → ℕ → ℕ → Py ℕ
  batch_round batch_size i success =
      catch
        (do
          resp ← send_request host (
              post_batch (server_url ++ text "/batch") []
                (batch_items (text "batch_") i batch_size 128))
          pure (if resp.status == 201 then success + batch_size else success))
        (λ _. pure success)

  -- `total // batch_size` raises at a batch size of 0.
  unfoldable pub benchmark_batch : ℕ → ℕ → Py (BatchStats Float)
  benchmark_batch total batch_size = if batch_size == 0 then throw zero_division_error else do
    start ← now host
    success ← for_range (total / batch_size) 0 (batch_round batch_size) 0
    stop ← now host
    pure (record {
      total = total;
      batch_size = batch_size;
      success = success;
      tps = rate fl success (fl.sub stop start);
      batches = total / batch_size;
    })

  unfoldable pub stress_round : ℕ → ℕ → Py ℕ
  stress_round i success =
      catch
        (do
          resp ← send_request host (stress_request server_url i)
          pure (if resp.status == 200 || resp.status == 201 then success + 1 else success))
        (λ _. pure success)

  unfoldable pub benchmark_stress : ℕ → Py (StressStats Float)
  benchmark_stress count = do
    start ← now host
    success ← for_range count 0 stress_round 0
    stop ← now host
    pure (record { count = count; success = success; tps = rate fl success (fl.sub stop start) })
