-- ===== src/Profile.antt =====
-- profile_server.py: a server under load, and its profiles.
pub mod Load
pub mod Lifetime
use sndv_kv.Prelude.{
  ℕ, ◌+◌, Text, text, decimal, Bool, true, false, List, [], ◌∷◌, ◌++◌, map, range_from, ◌==◌,
  if◌then◌else◌,
}
use sndv_kv.Python.{Host, Json, zero_division_error, system_exit}
use sndv_kv.Python.Actions.{Py, pure, throw, ◌>>=◌, ◌>>◌, catch, now, sleep, send_request}
use sndv_kv.Python.Floats.{Floats, is_zero}
use sndv_kv.Python.Loops.{for_range}
use sndv_kv.Python.Processes.{run_program, popen, wait, terminate, kill, finally}
use sndv_kv.Bench.{item, batch_items, post, post_batch, get}

abbrev pub build_cmd : List Text
build_cmd =
    text "go"
    ∷ text "build"
    ∷ text "-o"
    ∷ text "sndv-kv-profile.exe"
    ∷ text "cmd/server/main.go"
    ∷ []

abbrev pub server_cmd : List Text
server_cmd = text "./sndv-kv-profile.exe" ∷ text "-config" ∷ text "config_fast.json" ∷ []

-- The command that saves one profile.
abbrev curl : Text → Text → List Text
curl file path =
    text "curl" ∷ text "-o" ∷ file ∷ (text "http://localhost:6060/debug/pprof/" ++ path) ∷ []

-- A command that shows the most expensive functions of a profile.
abbrev pprof : List Text → List Text
pprof args = text "go" ∷ text "tool" ∷ text "pprof" ∷ text "-top" ∷ text "-nodecount=20" ∷ args

module _ {Float : Type 0} (fl : Floats Float) (host : Host Float) where
  -- The check that the server is up, after `Popen`.
  abbrev pub ask : Py Bool
  ask =
      catch
        (do
          resp ← send_request host (get (text "http://localhost:8080/metrics") [])
          pure (resp.status == 200))
        (λ _. pure false)

  -- Whether it returns the process or `None`. `Popen` stands outside of the `try`.
  unfoldable pub start_server_with_profiling : Py Bool
  start_server_with_profiling = do
    code ← run_program host build_cmd
    if code == 0
        then (do
          popen host server_cmd
          sleep
          up ← ask
          if up then pure true else (do kill; pure false))
        else pure false

  unfoldable pub single_round : ℕ → ℕ → Py ℕ
  single_round i success =
      catch
        (do
          resp ←
              send_request host
                (post (text "http://localhost:8080/put") [] (item (text "key" ++ decimal i) 64))
          pure (if resp.status == 201 then success + 1 else success))
        (λ _. pure success)

  unfoldable pub batch_round : ℕ → ℕ → Py ℕ
  batch_round batch_num success =
      catch
        (do
          resp ← send_request host (
              post_batch (text "http://localhost:8080/batch") []
                (batch_items (text "batch") batch_num 100 64))
          pure (if resp.status == 201 then success + 100 else success))
        (λ _. pure success)

  -- `success / duration`, with no test for 0; the quotient is only printed.
  abbrev pub per_second : ℕ → Float → Py Float
  per_second success duration =
      if is_zero fl duration
      then throw zero_division_error
      else pure (fl.div (fl.of_ℕ success) duration)

  -- What is returned here is what the source prints: the rates of single and of batch operations.
  unfoldable pub run_load_test : Py (Float × Float)
  run_load_test = do
    start ← now host
    success ← for_range 1000 0 single_round 0
    stop ← now host
    tps ← per_second success (fl.sub stop start)
    start' ← now host
    items ← for_range 100 0 batch_round 0
    stop' ← now host
    batch_tps ← per_second items (fl.sub stop' start')
    pure (tps, batch_tps)

  -- The exit codes of `curl` are not read.
  unfoldable pub capture_profiles : Py Bool
  capture_profiles =
      catch
        (do
          run_program host (curl (text "cpu.prof") (text "profile?seconds=30"))
          run_program host (curl (text "heap.prof") (text "heap"))
          run_program host (curl (text "goroutine.prof") (text "goroutine"))
          pure true)
        (λ _. pure false)

  unfoldable pub analyze_profiles : Py (Unit {0})
  analyze_profiles = do
    run_program host (pprof (text "cpu.prof" ∷ []))
    run_program host (pprof (text "-alloc_space" ∷ text "heap.prof" ∷ []))
    pure tt

  -- The `try` block of `main`.
  unfoldable pub run_profile : Py (Unit {0})
  unfolding run_load_test capture_profiles analyze_profiles
  run_profile = do
    run_load_test
    captured ← capture_profiles
    if captured then analyze_profiles else throw (system_exit 1)

  -- The `finally` block of `main`.
  unfoldable pub stop_server : Py (Unit {0})
  stop_server = do terminate; wait host

  unfoldable pub main : Py (Unit {0})
  unfolding start_server_with_profiling run_profile stop_server
  main = do
    started ← start_server_with_profiling
    if started then finally run_profile stop_server else throw (system_exit 1)
