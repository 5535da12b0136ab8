-- ===== src/Orchestrator/Artifacts.antt =====
-- `build_image` and `extract_build_artifacts` of bench_orchestrator.py.
pub mod Cleanup
use sndv_kv.Prelude.{Text, text, ℕ, Bool, true, false, List, [], ◌∷◌, ◌++◌, ◌==◌, if◌then◌else◌}
use sndv_kv.Python.{Host}
use sndv_kv.Python.Actions.{Py, pure, ◌>>=◌, ◌>>◌, catch}
use sndv_kv.Python.Processes.{run_program, run_captured, run_checked, finally}
use sndv_kv.Orchestrator.Cases.{results_dir}

unfoldable pub build_cmd : List Text
build_cmd =
    text "docker"
    ∷ text "build"
    ∷ text "-f"
    ∷ text "Dockerfile.benchmark"
    ∷ text "-t"
    ∷ text "sndv-kv:benchmark"
    ∷ text "."
    ∷ []

module _ (run_id : Text) where
  unfoldable pub temp_container : Text
  temp_container = text "extract-" ++ run_id

  unfoldable pub create_cmd : List Text
  unfolding temp_container
  create_cmd =
      text "docker" ∷ text "create" ∷ text "--name" ∷ temp_container ∷ text "sndv-kv:benchmark" ∷ []

  unfoldable pub copy_cmd : List Text
  unfolding temp_container results_dir
  copy_cmd =
      text "docker"
      ∷ text "cp"
      ∷ (temp_container ++ text ":/artifacts/.")
      ∷ (results_dir run_id ++ text "/build_artifacts")
      ∷ []

  unfoldable pub remove_cmd : List Text
  unfolding temp_container
  remove_cmd = text "docker" ∷ text "rm" ∷ temp_container ∷ []

  module _ {Float : Type 0} (host : Host Float) where
    -- The tests of what was extracted only print.
    unfoldable pub extract_build_artifacts : Py (Unit {0})
    unfolding create_cmd copy_cmd remove_cmd
    extract_build_artifacts =
        finally (catch (do run_checked host create_cmd; run_checked host copy_cmd) (λ _. pure tt))
          (do run_program host remove_cmd; pure tt)

    unfoldable pub build_image : Py Bool
    unfolding extract_build_artifacts build_cmd
    build_image = do
      result ← run_captured host build_cmd
      if result.0 == 0 then (do extract_build_artifacts; pure true) else pure false
