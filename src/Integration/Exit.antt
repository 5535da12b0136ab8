-- ===== src/Integration/Exit.antt =====
-- The exit status of scripts/docker_integration.py against a server that is never ready.
use mathlib.Core.Option
use sndv_kv.Prelude.{
  ℕ, suc, ◌≡◌, refl, ◌≤◌, inl, inr, Bool, true, false, Text, text, [], ◌++◌, Option, some,
  if◌then◌else◌,
}
use sndv_kv.Integration.Token.{LogFile}
use sndv_kv.Python.{Request, Trace, Host}
use sndv_kv.Python.Actions.{Py, pure, ◌>>=◌}
use sndv_kv.Python.Floats.{Floats}
use sndv_kv.Python.Loops.{Ends, Never, Ends-bind, Ends-catch, Ends-Never}
use sndv_kv.Python.Counts.{has_status, naps}
use sndv_kv.Bench.{get}
use sndv_kv.Bench.Poll.{Polled, poll-Polled}
use sndv_kv.Integration.{Results, no_results, server_not_ready}
use sndv_kv.Integration.Main.{after_wait, wait_for_ready, run_all, exit_code}
use sndv_kv.Integration.Runs.{Broken, saved}

not_both : {b : Bool} → b ≡ false → b ≡ true → ⊥
not_both h k = cc

abbrev not_ready : {Float : Type 0} → Results Float
not_ready = record no_results { error = some server_not_ready }

module _ {Float : Type 0} (fl : Floats Float) (host : Host Float)
    (base_url artifacts_dir : Text) where
  module _ (n : ℕ) (w : Trace)
      (down : (u : Trace)
        → has_status 200 (host.http u (get (base_url ++ text "/health") [])) ≡ false)
      (runs : (v : Trace)
        → n ≤ naps v
        → fl.lt (fl.sub (host.clock (v ++ w)) (host.clock w)) (fl.of_ℕ 30) ≡ false) where
    after_wait-down :
        (log : LogFile) (ready : Option Bool) (v : Trace)
        → Polled fl host (get (base_url ++ text "/health") []) (fl.of_ℕ 30) w ready v
        → Ends
            (λ o _. o ≡ some (false, not_ready))
            (Broken fl host base_url artifacts_dir log)
            (after_wait fl host base_url artifacts_dir log ready v)
    after_wait-down log ready v (inl (u, _, _, up)) = absurd (not_both (down u) up)
    after_wait-down log ready v (inr (e, _)) = rw e (
        saved fl host base_url artifacts_dir log (λ o _. o ≡ some (false, not_ready)) _ v λ _. refl)

    run_all-down :
        (log : LogFile) (fuel : ℕ)
        → n ≤ fuel
        → Ends
            (λ o _. o ≡ some (false, not_ready))
            (Broken fl host base_url artifacts_dir log)
            (run_all fl host base_url artifacts_dir log (suc fuel) w)
    unfolding run_all wait_for_ready
    run_all-down log fuel le =
        let request : Request = get (base_url ++ text "/health") [] in
        Ends-bind (Polled fl host request (fl.of_ℕ 30) w) (λ o _. o ≡ some (false, not_ready))
          (Broken fl host base_url artifacts_dir log)
          (wait_for_ready fl host base_url artifacts_dir (suc fuel))
          (after_wait fl host base_url artifacts_dir log) w
          (Ends-Never (Polled fl host request (fl.of_ℕ 30) w)
            (Broken fl host base_url artifacts_dir log)
            (wait_for_ready fl host base_url artifacts_dir (suc fuel) w)
            (poll-Polled fl host request (fl.of_ℕ 30) w n runs fuel le))
          (after_wait-down log)

    -- Against a server that never answers its "/health" with status 200, once 30 seconds have
    -- passed after at most `n` sleeps, `n` + 1 rounds of the wait are enough for the run to end,
    -- and its exit status is 1.
    pub exit_code-not_ready :
        (log : LogFile) (fuel : ℕ)
        → n ≤ fuel
        → Ends
            (λ code _. code ≡ some 1)
            Never
            (exit_code fl host base_url artifacts_dir log (suc fuel) w)
    unfolding exit_code
    exit_code-not_ready log fuel le =
        let ends : Option (Bool × Results Float) → Py (Option ℕ) = λ outcome.
          pure (Option.map (λ (o : Bool × Results Float). if o.0 then 0 else 1) outcome) in
        let run : Py (Option (Bool × Results Float)) =
          run_all fl host base_url artifacts_dir log (suc fuel) in
        Ends-catch (λ code _. code ≡ some 1) (Broken fl host base_url artifacts_dir log) Never
          (run >>= ends) (λ e. pure (some 1)) w
          (Ends-bind (λ o _. o ≡ some (false, not_ready)) (λ code _. code ≡ some 1)
            (Broken fl host base_url artifacts_dir log) run ends w (run_all-down log fuel le)
            λ o v e. rw e refl)
          λ e v _. refl
