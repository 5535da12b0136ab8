-- ===== src/Integration/Runs.antt =====
-- The runs of scripts/docker_integration.py: how they end, and what they leave in the results.
use sndv_kv.Prelude.{
  ℕ, ◌≡◌, ◌≢◌, refl, ◌⊎◌, inl, inr, Bool, true, false, Text, text, [], ◌++◌, Option, none, some,
}
use sndv_kv.Integration.Token.{
  LogFile, missing, unreadable, undecodable, holds, find_token, lines, get_token_from_logs,
}
use sndv_kv.Python.{Exn, os_error, value_error, Result, ok, raise, Trace, Host}
use sndv_kv.Python.Actions.{Py, pure, ◌>>◌}
use sndv_kv.Python.Floats.{Floats}
use sndv_kv.Python.Loops.{Ends, Never, Ends-bind, Ends-mono, Ends-Never}
use sndv_kv.Python.Files.{write_file, Refused, write_file-wrote}
use sndv_kv.Bench.{get}
use sndv_kv.Bench.Poll.{poll-returns}
use sndv_kv.Integration.{
  Results, no_results, server_not_ready, test_failed, test_happy_path, test_critical_path,
  benchmark_single, benchmark_batch,
}
use sndv_kv.Integration.Main.{
  step, run_tests, settle, run_batch, run_single, run_critical, after_wait, wait_for_ready, run_all,
  save_results,
}

none-ne-some : {A : Type 0} {a : A} → some a ≢ none
none-ne-some h = cc

module _ {Float : Type 0} where
  -- A run that reports success has an entry for every test and no error. One that does not has
  -- stopped at an exception, before the last test could record its entry.
  abbrev pub Settled : Bool × Results Float → Type 0
  Settled (true, r) =
      (r.error ≡ none)
      × (r.happy_path ≢ none)
      × (r.critical_path ≢ none)
      × (r.benchmark_single ≢ none)
      × (r.benchmark_batch ≢ none)
  Settled (false, r) = (e : Exn) × (r.error ≡ some (test_failed e)) × (r.benchmark_batch ≡ none)

  settle-Ends :
      {A : Type 0} (r : Results Float) (note : A → Results Float)
      (next : Results Float → Py (Bool × Results Float)) (x : Result A) (v : Trace)
      → r.benchmark_batch ≡ none
      → ((a : A) (u : Trace) → Ends (λ o _. Settled o) Never (next (note a) u))
      → Ends (λ o _. Settled o) Never (settle r note next x v)
  settle-Ends r note next (ok a) v h k = k a v
  settle-Ends r note next (raise e) v h k = (e, refl, h)

  step-Ends :
      {A : Type 0} (r : Results Float) (m : Py A) (note : A → Results Float)
      (next : Results Float → Py (Bool × Results Float)) (w : Trace)
      → r.benchmark_batch ≡ none
      → ((a : A) (v : Trace) → Ends (λ o _. Settled o) Never (next (note a) v))
      → Ends (λ o _. Settled o) Never (step r m note next w)
  step-Ends r m note next w h k = settle-Ends r note next (m w).0 (m w).1 h k

module _ {Float : Type 0} (fl : Floats Float) (host : Host Float) (base_url token : Text) where
  run_batch-Settled :
      (r : Results Float) (w : Trace)
      → r.error ≡ none
      → r.happy_path ≢ none
      → r.critical_path ≢ none
      → r.benchmark_single ≢ none
      → r.benchmark_batch ≡ none
      → Ends (λ o _. Settled o) Never (run_batch fl host base_url token r w)
  unfolding run_batch
  run_batch-Settled r w e h c s b =
      step-Ends r (benchmark_batch fl host base_url token 2000 100)
        (λ a. record r { benchmark_batch = some a }) (λ o. pure (true, o)) w b
        λ a u. (e, h, c, s, none-ne-some)

  run_single-Settled :
      (r : Results Float) (w : Trace)
      → r.error ≡ none
      → r.happy_path ≢ none
      → r.critical_path ≢ none
      → r.benchmark_batch ≡ none
      → Ends (λ o _. Settled o) Never (run_single fl host base_url token r w)
  unfolding run_single
  run_single-Settled r w e h c b =
      step-Ends r (benchmark_single fl host base_url token 500)
        (λ a. record r { benchmark_single = some a }) (run_batch fl host base_url token) w b
        λ a u. run_batch-Settled (record r { benchmark_single = some a }) u e h c none-ne-some b

  run_critical-Settled :
      (r : Results Float) (w : Trace)
      → r.error ≡ none
      → r.happy_path ≢ none
      → r.benchmark_batch ≡ none
      → Ends (λ o _. Settled o) Never (run_critical fl host base_url token r w)
  unfolding run_critical
  run_critical-Settled r w e h b =
      step-Ends r (test_critical_path fl host base_url token)
        (λ a. record r { critical_path = some a }) (run_single fl host base_url token) w b
        λ a u. run_single-Settled (record r { critical_path = some a }) u e h none-ne-some b

  run_tests-Settled :
      (w : Trace) → Ends (λ o _. Settled o) Never (run_tests fl host base_url token w)
  unfolding run_tests
  run_tests-Settled w =
      step-Ends no_results (test_happy_path fl host base_url token)
        (λ a. record no_results { happy_path = some a }) (run_critical fl host base_url token) w
        refl
        λ a u.
          run_critical-Settled (record no_results { happy_path = some a }) u refl none-ne-some refl

module _ {Float : Type 0} (fl : Floats Float) (host : Host Float)
    (base_url artifacts_dir : Text) where
  -- The results of a run that comes to an end, whatever the server does.
  abbrev pub Finished : Option (Bool × Results Float) → Type 0
  Finished none = Unit
  Finished (some (b, r)) =
      ((b ≡ false) × (r ≡ record no_results { error = some server_not_ready })) ⊎ Settled (b, r)

  -- The exception of a log file that cannot be read.
  abbrev pub Unread : LogFile → Exn → Type 0
  Unread unreadable e = e ≡ os_error
  Unread undecodable e = e ≡ value_error
  Unread _ e = ⊥

  -- The exceptions that leave a run: a file of the results, or the log file.
  abbrev pub Broken : LogFile → Exn → Trace → Type 0
  Broken log e v = Refused host e v ⊎ Unread log e

  wrote_at :
      (path : Text) (w : Trace) → Ends (λ _ _. Unit {0}) (Refused host) (write_file host path w)
  wrote_at path w =
      Ends-mono (λ _ v. v ≡ _) (λ _ _. Unit {0}) (Refused host) (Refused host)
        (write_file host path w) (λ _ _ _. tt) (λ _ _ r. r) (write_file-wrote host path w)

  save_results-Refused :
      (w : Trace) → Ends (λ _ _. Unit {0}) (Refused host) (save_results host artifacts_dir w)
  unfolding save_results
  save_results-Refused w =
      Ends-bind (λ _ _. Unit {0}) (λ _ _. Unit {0}) (Refused host)
        (write_file host (artifacts_dir ++ text "/integration_results.json")) _ w (wrote_at _ w)
        λ _ v _. wrote_at _ v

  -- What a run returns after `save_results`, and how that may fail.
  pub saved :
      (log : LogFile) (Q : Option (Bool × Results Float) → Trace → Type 0)
      (o : Option (Bool × Results Float)) (w : Trace)
      → ((v : Trace) → Q o v)
      → Ends Q (Broken log) ((save_results host artifacts_dir >> pure o) w)
  saved log Q o w h =
      Ends-bind (λ _ _. Unit {0}) Q (Broken log) (save_results host artifacts_dir) (λ _. pure o) w
        (Ends-mono (λ _ _. Unit {0}) (λ _ _. Unit {0}) (Refused host) (Broken log)
          (save_results host artifacts_dir w) (λ _ _ _. tt) (λ _ _ r. inl r)
          (save_results-Refused w))
        λ _ v _. h v

  get_token-Unread :
      (log : LogFile) (w : Trace) → Ends (λ _ _. Unit {0}) (Broken log) (get_token_from_logs log w)
  unfolding get_token_from_logs
  get_token-Unread missing w = tt
  get_token-Unread unreadable w = inr refl
  get_token-Unread undecodable w = inr refl
  get_token-Unread (holds content) w = go (find_token (lines content)) refl
    where
      go :
          (o : Option Text)
          → find_token (lines content) ≡ o
          → Ends (λ _ _. Unit {0}) (Broken (holds content)) (get_token_from_logs (holds content) w)
      go none e = rw (e, get_token_from_logs) tt
      go (some t) e = rw (e, get_token_from_logs) tt

  after_wait-Finished :
      (log : LogFile) (ready : Option Bool) (w : Trace)
      → Ends
          (λ o _. Finished o)
          (Broken log)
          (after_wait fl host base_url artifacts_dir log ready w)
  after_wait-Finished log none w = tt
  after_wait-Finished log (some false) w = saved log (λ o _. Finished o) _ w λ v. inl (refl, refl)
  after_wait-Finished log (some true) w =
      Ends-bind (λ _ _. Unit {0}) (λ o _. Finished o) (Broken log) (get_token_from_logs log) _ w
        (get_token-Unread log w)
        λ token v _.
          Ends-bind (λ o _. Settled o) (λ o _. Finished o) (Broken log)
            (run_tests fl host base_url token) _ v
            (Ends-Never (λ o _. Settled o) (Broken log) (run_tests fl host base_url token v)
              (run_tests-Settled fl host base_url token v))
            λ o u h. saved log (λ o _. Finished o) (some o) u λ _. inr h

  -- A run that comes to an end without an exception reports failure with the error "Server not
  -- ready" and no entry, or failure with the exception that stopped a test and no entry for the
  -- last test, or success with an entry for every test, whatever it says, and no error. The
  -- exceptions that leave it are that of a file of the results that cannot be written, and that of a
  -- log file that cannot be read or decoded, and no others.
  pub run_all-Finished :
      (log : LogFile) (fuel : ℕ) (w : Trace)
      → Ends (λ o _. Finished o) (Broken log) (run_all fl host base_url artifacts_dir log fuel w)
  unfolding run_all wait_for_ready
  run_all-Finished log fuel w =
      let wait : Py (Option Bool) = wait_for_ready fl host base_url artifacts_dir fuel in
      Ends-bind (λ _ _. Unit {0}) (λ o _. Finished o) (Broken log) wait
        (after_wait fl host base_url artifacts_dir log) w
        (Ends-Never (λ _ _. Unit {0}) (Broken log) (wait w)
          (poll-returns fl host (get (base_url ++ text "/health") []) (fl.of_ℕ 30) fuel w))
        λ ready v _. after_wait-Finished log ready v
