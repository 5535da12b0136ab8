-- ===== src/Integration/Main.antt =====
-- scripts/docker_integration.py: a whole run, from the wait for the server to the exit status.
use mathlib.Core.Option
use sndv_kv.Prelude.{ℕ, Text, text, Bool, true, false, [], ◌++◌, Option, none, some, if◌then◌else◌}
use sndv_kv.Python.{Host, Result, ok, raise}
use sndv_kv.Python.Files.{write_file}
use sndv_kv.Python.Actions.{Py, pure, ◌>>=◌, ◌>>◌, catch}
use sndv_kv.Python.Floats.{Floats}
use sndv_kv.Bench.{get}
use sndv_kv.Bench.Poll.{poll}
use sndv_kv.Integration.Token.{LogFile, get_token_from_logs}
use sndv_kv.Integration.{
  Results, no_results, server_not_ready, test_failed, test_happy_path, test_critical_path,
  benchmark_single, benchmark_batch,
}

-- One step of the `try` block of `run_all`: an exception ends the run, and what the steps
-- before it recorded stays.
abbrev pub settle :
    {Float A : Type 0}
    → Results Float
    → (A → Results Float)
    → (Results Float → Py (Bool × Results Float))
    → Result A
    → Py (Bool × Results Float)
settle r note next (ok a) w = next (note a) w
settle r note next (raise e) w = (ok (false, record r { error = some (test_failed e) }), w)

abbrev pub step :
    {Float A : Type 0}
    → Results Float
    → Py A
    → (A → Results Float)
    → (Results Float → Py (Bool × Results Float))
    → Py (Bool × Results Float)
step r m note next w = let (x, w') = m w in settle r note next x w'

-- The `try` block of `run_all`, from its last line to its first.
module _ {Float : Type 0} (fl : Floats Float) (host : Host Float) (base_url token : Text) where
  unfoldable pub run_batch : Results Float → Py (Bool × Results Float)
  run_batch r =
      step r (benchmark_batch fl host base_url token 2000 100)
        (λ a. record r { benchmark_batch = some a }) λ s. pure (true, s)

  unfoldable pub run_single : Results Float → Py (Bool × Results Float)
  run_single r =
      step r (benchmark_single fl host base_url token 500)
        (λ a. record r { benchmark_single = some a }) run_batch

  unfoldable pub run_critical : Results Float → Py (Bool × Results Float)
  run_critical r =
      step r (test_critical_path fl host base_url token) (λ a. record r { critical_path = some a })
        run_single

  unfoldable pub run_tests : Py (Bool × Results Float)
  unfolding run_batch run_single run_critical
  run_tests =
      step no_results (test_happy_path fl host base_url token)
        (λ a. record no_results { happy_path = some a }) run_critical

-- `save_results`, which writes two files.
unfoldable pub save_results : {Float : Type 0} → Host Float → Text → Py (Unit {0})
save_results host artifacts_dir = do
  write_file host (artifacts_dir ++ text "/integration_results.json")
  write_file host (artifacts_dir ++ text "/SUMMARY.txt")

module _ {Float : Type 0} (fl : Floats Float) (host : Host Float)
    (base_url artifacts_dir : Text) where
  unfoldable pub wait_for_ready : ℕ → Py (Option Bool)
  wait_for_ready = poll fl host (get (base_url ++ text "/health") []) (fl.of_ℕ 30)

  abbrev pub after_wait : LogFile → Option Bool → Py (Option (Bool × Results Float))
  after_wait log none = pure none
  after_wait log (some false) = do
    save_results host artifacts_dir
    pure (some (false, record no_results { error = some server_not_ready }))
  after_wait log (some true) = do
    token ← get_token_from_logs log
    outcome ← run_tests fl host base_url token
    save_results host artifacts_dir
    pure (some outcome)

  -- `none` when the fuel of the wait runs out.
  unfoldable pub run_all : LogFile → ℕ → Py (Option (Bool × Results Float))
  run_all log fuel = do ready ← wait_for_ready fuel; after_wait log ready

  -- `sys.exit(0 if test.run_all() else 1)`: an exception that nothing catches ends Python with
  -- status 1.
  unfoldable pub exit_code : LogFile → ℕ → Py (Option ℕ)
  unfolding run_all
  exit_code log fuel =
      catch
        (do
          outcome ← run_all log fuel
          pure (Option.map (λ (o : Bool × Results Float). if o.0 then 0 else 1) outcome))
        λ e. pure (some 1)
