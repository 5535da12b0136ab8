-- ===== src/Python/Processes.antt =====
-- `subprocess` of Python, `try … finally`, and what a trace says of the process that was started.
use sndv_kv.Prelude.{Text, ℕ, Bool, true, false, List, [], ◌∷◌, ◌==◌, if◌then◌else◌}
use sndv_kv.Python.{
  Ran, exited, not_run, timed_out, called_process_error, os_error, timeout_expired, Result, ok,
  raise, Trace, Host, ran, spawned, terminated, killed, waited,
}
use sndv_kv.Python.Actions.{Py, pure, catch, ◌>>=◌}
use sndv_kv.Python.Loops.{Ends, Never, Ends-bind}

-- The end of `try: m finally: k`: an exception of `k` takes the place of what `m` came to.
abbrev resume : {A : Type 0} → Result A → Result (Unit {0}) × Trace → Result A × Trace
resume r (ok u, w) = (r, w)
resume r (raise e, w) = (raise e, w)

abbrev pub finally : {A : Type 0} → Py A → Py (Unit {0}) → Py A
finally m k w = let (r, w') = m w in resume r (k w')

abbrev ran_result : Ran → Result ℕ
ran_result (exited code out) = ok code
ran_result not_run = raise os_error
ran_result timed_out = raise timeout_expired

abbrev captured_result : Ran → Result (ℕ × Text)
captured_result (exited code out) = ok (code, out)
captured_result not_run = raise os_error
captured_result timed_out = raise timeout_expired

abbrev checked_result : Ran → Result (Unit {0})
checked_result (exited code out) = if code == 0 then ok tt else raise called_process_error
checked_result not_run = raise os_error
checked_result timed_out = raise timeout_expired

module _ {Float : Type 0} (host : Host Float) where
  -- `subprocess.run`, with its exit code
  abbrev pub run_program : List Text → Py ℕ
  run_program args w = let r = host.run w args in (ran_result r, ran args r ∷ w)

  -- `subprocess.run` with its exit code and its output
  abbrev pub run_captured : List Text → Py (ℕ × Text)
  run_captured args w = let r = host.run w args in (captured_result r, ran args r ∷ w)

  -- `subprocess.run(…, check=True)`
  abbrev pub run_checked : List Text → Py (Unit {0})
  run_checked args w = let r = host.run w args in (checked_result r, ran args r ∷ w)

  -- `subprocess.Popen`
  abbrev pub popen : List Text → Py (Unit {0})
  popen args w = if host.starts w args then (ok tt, spawned args ∷ w) else (raise os_error, w)

  -- `proc.wait(timeout=5)`
  abbrev pub wait : Py (Unit {0})
  wait w =
      if host.stops w then (ok tt, waited true ∷ w) else (raise timeout_expired, waited false ∷ w)

-- `proc.terminate()` and `proc.kill()`
abbrev pub terminate : Py (Unit {0})
terminate w = (ok tt, terminated ∷ w)

abbrev pub kill : Py (Unit {0})
kill w = (ok tt, killed ∷ w)

-- Whether every process that was started has been sent a signal to end.
unfoldable pub signalled : Trace → Bool
signalled [] = true
signalled (spawned _ ∷ w) = false
signalled (terminated ∷ w) = true
signalled (killed ∷ w) = true
signalled (_ ∷ w) = signalled w

-- Whether every process that was started has ended, or was killed.
unfoldable pub ended : Trace → Bool
ended [] = true
ended (spawned _ ∷ w) = false
ended (killed ∷ w) = true
ended (waited b ∷ w) = if b then true else ended w
ended (_ ∷ w) = ended w

-- What holds whenever an action ends, with a result or an exception.
abbrev pub Always : {A : Type 0} → (Trace → Type 0) → Result A × Trace → Type 0
Always P = Ends (λ _ v. P v) (λ _ v. P v)

-- A `finally` block that always establishes `P` does so whatever was tried before.
pub finally-Always :
    {A : Type 0} (m : Py A) (k : Py (Unit {0})) (P : Trace → Type 0) (w : Trace)
    → ((v : Trace) → Always P (k v))
    → Always P (finally m k w)
finally-Always {A} m k P w h = go (m w).0 (k (m w).1) (h (m w).1)
  where
    go : (r : Result A) (s : Result (Unit {0}) × Trace) → Always P s → Always P (resume r s)
    go (ok a) (ok u, v) p = p
    go (raise e) (ok u, v) p = p
    go r (raise e, v) p = p

pub Always-bind :
    {A B : Type 0} (P : Trace → Type 0) (m : Py A) (f : A → Py B) (w : Trace)
    → Always P (m w)
    → ((a : A) (v : Trace) → P v → Always P (f a v))
    → Always P ((m >>= f) w)
Always-bind P m f w h k = Ends-bind (λ _ v. P v) (λ _ v. P v) (λ _ v. P v) m f w h k

-- The same where neither of them raises.
pub finally-Never :
    {A : Type 0} (Q : A → Type 0) (R : Trace → Type 0) (m : Py A) (k : Py (Unit {0})) (w : Trace)
    → Ends (λ a _. Q a) Never (m w)
    → ((v : Trace) → Ends (λ _ u. R u) Never (k v))
    → Ends (λ a u. Q a × R u) Never (finally m k w)
finally-Never {A} Q R m k w h c = go (m w) (k (m w).1) h (c (m w).1)
  where
    go :
        (s : Result A × Trace) (t : Result (Unit {0}) × Trace)
        → Ends (λ a _. Q a) Never s
        → Ends (λ _ u. R u) Never t
        → Ends (λ a u. Q a × R u) Never (resume s.0 t)
    go (ok a, v) (ok u, x) q c = (q, c)
    go (ok a, v) (raise e, x) q c = elim c [ ]
    go (raise e, v) t q c = elim q [ ]

-- A handler that handles everything.
pub catch-Never :
    {A : Type 0} (m : Py A) (a : A) (w : Trace)
    → Ends (λ _ _. Unit {0}) Never (catch m (λ _. pure a) w)
catch-Never {A} m a w = go (m w)
  where
    go : (s : Result A × Trace) → Ends (λ _ _. Unit {0}) Never (catch (λ _. s) (λ _. pure a) w)
    go (ok x, v) = tt
    go (raise e, v) = tt
