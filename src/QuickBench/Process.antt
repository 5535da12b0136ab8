-- ===== src/QuickBench/Process.antt =====
-- quick_bench.py: the server that it builds and starts, and `main`.
pub mod Lifetime
use sndv_kv.Prelude.{
  ℕ, zero, suc, Text, text, Bool, true, false, List, [], ◌∷◌, ◌==◌, if◌then◌else◌,
}
use sndv_kv.Python.{Host, system_exit}
use sndv_kv.Python.Actions.{Py, pure, throw, ◌>>=◌, ◌>>◌, catch, sleep, send_request}
use sndv_kv.Python.Files.{write_file}
use sndv_kv.Python.Floats.{Floats}
use sndv_kv.Python.Processes.{run_program, popen, wait, terminate, kill, finally}
use sndv_kv.Bench.{get}
use sndv_kv.QuickBench.{benchmark_single_parallel, benchmark_batch_parallel}

abbrev pub build_cmd : List Text
build_cmd =
    text "go" ∷ text "build" ∷ text "-o" ∷ text "sndv-kv.exe" ∷ text "cmd/server/main.go" ∷ []

abbrev pub server_cmd : List Text
server_cmd = text "./sndv-kv.exe" ∷ text "-config" ∷ text "config_fast.json" ∷ []

module _ {Float : Type 0} (fl : Floats Float) (host : Host Float) where
  unfoldable pub save_results : Py (Unit {0})
  save_results = write_file host (text "results.json")

  unfoldable pub build_server : Py Bool
  build_server = do code ← run_program host build_cmd; pure (code == 0)

  -- One request of the loop of `start_server`: an exception is slept over, an answer with another
  -- status is not.
  abbrev pub ask : Py Bool
  ask =
      catch
        (do
          resp ← send_request host (get (text "http://localhost:8080/metrics") [])
          pure (resp.status == 200))
        (λ _. do sleep; pure false)

  -- `for _ in range(5)`: whether a round returned.
  unfoldable pub probe : ℕ → Py Bool
  probe zero = pure false
  probe (suc n) = let rest = probe n in do up ← ask; if up then pure true else rest

  -- Whether it returns the process or `None`.
  unfoldable pub start_server : Py Bool
  unfolding probe
  start_server =
      catch
        (do
          popen host server_cmd
          sleep
          up ← probe 5
          if up then pure true else (do kill; pure false))
        (λ _. pure false)

  -- The `finally` block of `main`.
  unfoldable pub stop_server : Py (Unit {0})
  stop_server = do terminate; catch (wait host) (λ _. kill)

  module _ (single_pool : List (Py (Bool × Float)) → Py (List (Bool × Float)))
      (batch_pool : List (Py (ℕ × Float)) → Py (List (ℕ × Float))) where
    -- The `try` block of `main`.
    unfoldable pub run_benchmarks : Py (Unit {0})
    unfolding save_results
    run_benchmarks = do
      benchmark_single_parallel fl host single_pool 2000
      benchmark_batch_parallel fl host batch_pool 20000 100
      save_results

    unfoldable pub main : Py (Unit {0})
    unfolding build_server start_server run_benchmarks stop_server
    main = do
      built ← build_server
      if built
          then (do
            started ← start_server
            if started then finally run_benchmarks stop_server else throw (system_exit 1))
          else throw (system_exit 1)
