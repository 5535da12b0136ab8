-- ===== src/QuickBench.antt =====
-- quick_bench.py: the metrics of a benchmark, its requests, and its two parallel benchmarks.
pub mod Order
pub mod Totals
pub mod Process
use sndv_kv.Prelude.{
  ℕ, zero, suc, ◌+◌, ◌-◌, ◌*◌, ◌/◌, ◌%◌, Text, text, decimal, Bool, true, false, List, [], ◌∷◌,
  ◌++◌, Option, none, some, map, range_from, length, get_elem?, ltb, ◌==◌, if◌then◌else◌,
}
use sndv_kv.Python.{Host, zero_division_error}
use sndv_kv.Python.Actions.{Py, pure, throw, ◌>>=◌, catch, now, send_request}
use sndv_kv.Python.Floats.{Floats, rate}
use sndv_kv.Python.Sort.{sort}
use sndv_kv.Bench.{item, batch_items, post, post_batch}

pub record BenchmarkMetrics (Float : Type 0) : Type 0 where
  pub latencies : List Float
  pub errors : ℕ
  pub success : ℕ

abbrev pub new_metrics : {Float : Type 0} → BenchmarkMetrics Float
new_metrics = record { latencies = []; errors = 0; success = 0 }

unfoldable pub add_success :
    {Float : Type 0} → BenchmarkMetrics Float → Float → BenchmarkMetrics Float
add_success m latency_ms = record m {
  latencies = m.latencies ++ latency_ms ∷ [];
  success = m.success + 1;
}

unfoldable pub add_error : {Float : Type 0} → BenchmarkMetrics Float → BenchmarkMetrics Float
add_error m = record m { errors = m.errors + 1 }

-- The dictionary of `get_stats`.
pub record Stats (Float : Type 0) : Type 0 where
  pub min : Float
  pub max : Float
  pub avg : Float
  pub p50 : Float
  pub p95 : Float
  pub p99 : Float

-- The loop over `as_completed(futures)` in `benchmark_single_parallel`.
unfoldable pub collect :
    {Float : Type 0} → BenchmarkMetrics Float → List (Bool × Float) → BenchmarkMetrics Float
unfolding add_success add_error
collect m [] = m
collect m ((success, latency) ∷ done) =
    collect (if success then add_success m latency else add_error m) done

-- The same loop in `benchmark_batch_parallel`, with the items of the batches that succeeded.
unfoldable pub collect_batches :
    {Float : Type 0} → BenchmarkMetrics Float → ℕ → List (ℕ × Float) → BenchmarkMetrics Float × ℕ
unfolding add_success add_error
collect_batches m total [] = (m, total)
collect_batches m total ((success_count, latency) ∷ done) =
    collect_batches (if ltb 0 success_count then add_success m latency else add_error m)
      (if ltb 0 success_count then total + success_count else total) done

module _ {Float : Type 0} (fl : Floats Float) where
  -- `min(xs)` and `max(xs)` of a list that begins with `m`.
  min_from : Float → List Float → Float
  min_from m [] = m
  min_from m (x ∷ xs) = min_from (if fl.lt x m then x else m) xs

  max_from : Float → List Float → Float
  max_from m [] = m
  max_from m (x ∷ xs) = max_from (if fl.lt m x then x else m) xs

  -- `xs[i]` of a list that begins with `d`, for an index in range.
  item_at : Float → List Float → ℕ → Float
  item_at d xs i = elim (get_elem? (d ∷ xs) i) [ none ↦ d | some x ↦ x ]

  -- `statistics.median` of an ascending list.
  median : Float → List Float → Float
  unfolding item_at
  median d xs =
      let n = length (d ∷ xs) in
      if n % 2 == 1
      then item_at d xs (n / 2)
      else fl.div (fl.add (item_at d xs (n / 2 - 1)) (item_at d xs (n / 2))) (fl.of_ℕ 2)

  stats_of : List Float → Option (Stats Float)
  unfolding min_from max_from item_at median
  stats_of [] = none
  stats_of (x ∷ xs) =
      let n = length (x ∷ xs) in
      some (record {
        min = min_from x xs;
        max = max_from x xs;
        avg = fl.mean (x ∷ xs);
        p50 = median x xs;
        p95 = item_at x xs (if ltb 20 n then n * 95 / 100 else n - 1);
        p99 = item_at x xs (if ltb 100 n then n * 99 / 100 else n - 1);
      })

  -- `None` for no latencies. `int(n * 0.95)` is `n * 95 / 100` rounded down: the rounding of the
  -- float product changes it at no length up to 2000000.
  unfoldable pub get_stats : BenchmarkMetrics Float → Option (Stats Float)
  unfolding stats_of
  get_stats m = stats_of (sort fl m.latencies)

module _ {Float : Type 0} (fl : Floats Float) (host : Host Float) where
  abbrev since : Float → Py Float
  since start = do t ← now host; pure (fl.mul (fl.sub t start) (fl.of_ℕ 1000))

  unfoldable pub single_put_request : ℕ → Py (Bool × Float)
  single_put_request i = do
    start ← now host
    catch
        (do
          resp ←
              send_request host
                (post (text "http://localhost:8080/put") [] (item (text "key" ++ decimal i) 64))
          latency ← since start
          pure (resp.status == 201, latency))
        (λ _. do latency ← since start; pure (false, latency))

  unfoldable pub batch_put_request : ℕ → ℕ → Py (ℕ × Float)
  batch_put_request batch_id batch_size = do
    start ← now host
    catch
        (do
          resp ← send_request host (
              post_batch (text "http://localhost:8080/batch") []
                (batch_items (text "batch_") batch_id batch_size 64))
          latency ← since start
          pure (if resp.status == 201 then batch_size else 0, latency))
        (λ _. do latency ← since start; pure (0, latency))

  -- `pool` is the `ThreadPoolExecutor` with `as_completed`: it runs the jobs and returns their
  -- results in the order of their completion.
  unfoldable pub benchmark_single_parallel :
      (List (Py (Bool × Float)) → Py (List (Bool × Float))) → ℕ → Py Float
  benchmark_single_parallel pool count = do
    start_time ← now host
    done ← pool (map single_put_request (range_from 0 count))
    let metrics = collect new_metrics done
    stop ← now host
    pure (rate fl metrics.success (fl.sub stop start_time))

  unfoldable pub benchmark_batch_parallel :
      (List (Py (ℕ × Float)) → Py (List (ℕ × Float))) → ℕ → ℕ → Py Float
  benchmark_batch_parallel pool total_items batch_size =
      if batch_size == 0 then throw zero_division_error else do
        start_time ← now host
        done ←
            pool
              (map (λ i. batch_put_request i batch_size) (range_from 0 (total_items / batch_size)))
        let totals = collect_batches new_metrics 0 done
        stop ← now host
        pure (rate fl totals.1 (fl.sub stop start_time))
