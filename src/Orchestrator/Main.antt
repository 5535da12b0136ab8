-- ===== src/Orchestrator/Main.antt =====
-- `main` of bench_orchestrator.py.
pub mod Exit
use sndv_kv.Prelude.{ℕ, Text, Bool, true, false, Option, none, some, if◌then◌else◌}
use sndv_kv.Python.{Host}
use sndv_kv.Python.Actions.{Py, pure, ◌>>=◌, ◌>>◌}
use sndv_kv.Python.Floats.{Floats}
use sndv_kv.Orchestrator.Cases.{Store, run_all}
use sndv_kv.Orchestrator.Setup.{setup}
use sndv_kv.Orchestrator.Artifacts.{build_image}
use sndv_kv.Orchestrator.Report.{generate_comprehensive_report}

module _ (run_id cwd : Text) {Float : Type 0} (fl : Floats Float) (host : Host Float) where
  -- From the report on; the exit code, or `none` when the fuel of a wait ran out.
  unfoldable pub report_at_end : Option (Store Float) → Py (Option ℕ)
  unfolding generate_comprehensive_report
  report_at_end none = pure none
  report_at_end (some st) = do
    report ← generate_comprehensive_report fl run_id host st
    pure (some 0)

  unfoldable pub main : ℕ → Py (Option ℕ)
  unfolding report_at_end setup build_image run_all
  main fuel = do
    setup host run_id
    built ← build_image run_id host
    if built
        then (do store ← run_all run_id cwd fl host fuel; report_at_end store)
        else pure (some 1)
