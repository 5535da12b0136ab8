-- ===== src/Orchestrator/Monitoring.antt =====
-- `run_benchmarks_with_monitoring` of bench_orchestrator.py: the benchmarks of one test case.
pub mod Totals
use sndv_kv.Prelude.{
  ℕ, Text, text, text_eq, decimal, Option, none, some, ◌++◌, ◌||◌, if◌then◌else◌, [],
}
use sndv_kv.Python.{Host}
use sndv_kv.Python.Actions.{Py, pure, ◌>>=◌, ◌>>◌, catch, send_request}
use sndv_kv.Python.Floats.{Floats}
use sndv_kv.Python.Loops.{for_range}
use sndv_kv.Bench.{item, post}
use sndv_kv.Orchestrator.{
  SingleStats, BatchStats, StressStats, benchmark_single, benchmark_batch, benchmark_stress,
}

-- The entries of `results` that the benchmarks fill; `stress` stays empty for a light load.
pub record Results (Float : Type 0) : Type 0 where
  pub single : SingleStats Float
  pub batch : BatchStats Float
  pub stress : Option (StressStats Float)

-- `10000 if load_type == 'high' else 5000`, for a load of 'medium' or 'high'.
unfoldable pub stress_ops : Text → Option ℕ
stress_ops load_type =
    if text_eq load_type (text "medium") || text_eq load_type (text "high")
    then some (if text_eq load_type (text "high") then 10000 else 5000)
    else none

module _ {Float : Type 0} (fl : Floats Float) (host : Host Float) (server_url : Text) where
  unfoldable pub warmup_round : ℕ → Unit {0} → Py (Unit {0})
  warmup_round i s =
      catch
        (do
          send_request host (post (server_url ++ text "/put") [] (item (text "w" ++ decimal i) 64))
          pure tt)
        (λ _. pure tt)

  unfoldable pub run_stress : Option ℕ → Py (Option (StressStats Float))
  run_stress none = pure none
  run_stress (some ops) = do stress ← benchmark_stress fl host server_url ops; pure (some stress)

  unfoldable pub run_benchmarks_with_monitoring : Text → Py (Results Float)
  unfolding stress_ops
  run_benchmarks_with_monitoring load_type = do
    for_range 100 0 warmup_round tt
    single ← benchmark_single fl host server_url 1000
    batch ← benchmark_batch fl host server_url 5000 100
    stress ← run_stress (stress_ops load_type)
    pure (record { single = single; batch = batch; stress = stress })
