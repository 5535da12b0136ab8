-- ===== src/Tests/Processes.antt =====
-- The theorems about whole runs of the benchmark programs, in the concrete world.
use sndv_kv.Prelude.{ℕ, ◌+◌, ◌≡◌, ◌≤◌, refl, text, true, List, [], ◌∷◌}
use sndv_kv.Python.Actions.{Py, pure, ◌>>=◌}
use sndv_kv.Python.Loops.{Ends, Never}
use sndv_kv.Python.Counts.{sent}
use sndv_kv.Python.Processes.{ended, signalled, Always}
use sndv_kv.Orchestrator.Monitoring.{stress_ops, run_benchmarks_with_monitoring}
use sndv_kv.Orchestrator.Monitoring.Totals.{Stressed, requests_of, run_benchmarks-totals}
use sndv_kv.QuickBench.Process
use sndv_kv.QuickBench.Process.Lifetime.{main-ended}
use sndv_kv.Profile
use sndv_kv.Profile.Lifetime.{main-signalled}
use sndv_kv.Tests.{floats, host}

-- A pool with one worker.
abbrev pool : {A : Type 0} → List (Py A) → Py (List A)
pool [] = pure []
pool (job ∷ jobs) = let rest = pool jobs in do result ← job; results ← rest; pure (result ∷ results)

abbrev batch : ℕ
batch = 3

abbrev position : ℕ
position = 14

run_benchmarks-totals_example :
    Ends
      (λ r v.
        (r.single.success ≤ 1000)
        × (r.batch.success ≤ 5000)
        × Stressed (stress_ops (text "high")) r.stress
        × (sent v ≡ sent [] + (1150 + requests_of (stress_ops (text "high")))))
      Never
      (run_benchmarks_with_monitoring floats host (text "http://kv") (text "high") [])
run_benchmarks-totals_example =
    run_benchmarks-totals floats host (text "http://kv") (text "high") []

nothing_started : ended [] ≡ true
unfolding ended
nothing_started = refl

main-ended_example : Always (λ v. ended v ≡ true) (Process.main floats host pool pool [])
main-ended_example = main-ended floats host pool pool [] nothing_started

nothing_running : signalled [] ≡ true
unfolding signalled
nothing_running = refl

main-signalled_example : Always (λ v. signalled v ≡ true) (Profile.main floats host [])
main-signalled_example = main-signalled floats host [] nothing_running
