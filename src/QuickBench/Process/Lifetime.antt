-- ===== src/QuickBench/Process/Lifetime.antt =====
-- The server process of quick_bench.py: when it is started, and that it does not outlive a run.
use sndv_kv.Prelude.{
  ℕ, zero, suc, ◌+◌, ◌≡◌, refl, ◌∙◌, ◌≤◌, inl, inr, Bool, true, false, Bool-cases, List, [], ◌∷◌,
  text, arith, if◌then◌else◌,
}
use sndv_kv.Python.{
  Ran, exited, not_run, timed_out, Wire, answered, unreachable, Trace, Host, Result, ok, raise,
  slept, spawned, terminated,
}
use sndv_kv.Python.Actions.{Py, pure, catch, ◌>>=◌, ◌>>◌}
use sndv_kv.Python.Floats.{Floats}
use sndv_kv.Python.Loops.{Ends, Never, Ends-bind, Ends-map, Ends-Never}
use sndv_kv.Python.Counts.{answers, has_status, sent}
use sndv_kv.Python.Processes.{ended, finally-Always, Always, kill}
use sndv_kv.Bench.{get}
use sndv_kv.QuickBench.Process.{
  ask, probe, build_server, start_server, stop_server, run_benchmarks, main, server_cmd, build_cmd,
}

module _ {Float : Type 0} (fl : Floats Float) (host : Host Float) where
  -- What the loop of `start_server` has done after `n` rounds at most.
  abbrev pub Probed : ℕ → Trace → Bool → Trace → Type 0
  Probed n w up v =
      (ended v ≡ ended w)
      × (sent v ≤ sent w + n)
      × (answers (has_status 200) v
          ≡ answers (has_status 200) w + (elim up [ true ↦ 1 | false ↦ 0 ]))

  ask-Probed :
      (w : Trace) (a : Wire)
      → host.http w (get (text "http://localhost:8080/metrics") []) ≡ a
      → Ends (Probed 1 w) Never (ask fl host w)
  unfolding answers ended
  ask-Probed w (unreachable reason) e = rw e (ground arith)
  ask-Probed w (answered status reason body) e = rw e (ground arith)

  probe-Probed : (n : ℕ) (w : Trace) → Ends (Probed n w) Never (probe fl host n w)
  unfolding probe
  probe-Probed zero w = (refl, omega arith, omega arith)
  probe-Probed (suc n) w =
      Ends-bind (Probed 1 w) (Probed (suc n) w) Never (ask fl host) _ w (ask-Probed w _ refl)
        (elim [
          | true ↦ λ v h. (h.0, omega (arith, h.1), h.2)
          | false ↦ λ v h.
              Ends-map (Probed n v) (Probed (suc n) w) Never (probe fl host n v)
                (λ up u k. (k.0 ∙ h.0, omega (arith, h.1, k.1), omega (arith, h.2, k.2)))
                (probe-Probed n v)
        ])

  -- What `start_server` returns: true after one answer of status 200 more, false after none, with
  -- every process ended or killed.
  abbrev pub Started : Trace → Bool → Trace → Type 0
  Started w true v =
      (sent v ≤ sent w + 5) × (answers (has_status 200) v ≡ answers (has_status 200) w + 1)
  Started w false v =
      (sent v ≤ sent w + 5)
      × (answers (has_status 200) v ≡ answers (has_status 200) w)
      × (ended v ≡ true)

  probed_lem :
      (w u : Trace) (r : Result Bool × Trace)
      → sent u ≡ sent w
      → answers (has_status 200) u ≡ answers (has_status 200) w
      → Ends (Probed 5 u) Never r
      → Ends (Started w) Never (
          catch
            ((λ _. r) >>= λ up. if up then pure true else (do kill; pure false))
            (λ _. pure false)
            u)
  unfolding ended answers
  probed_lem w u (ok true, v) s a h = (omega (arith, s, h.1), omega (arith, a, h.2))
  probed_lem w u (ok false, v) s a h = (omega (arith, s, h.1), omega (arith, a, h.2), refl)
  probed_lem w u (raise e, v) s a h = elim h [ ]

  -- If no process is left over from before, `start_server` never raises and sends at most five
  -- requests. It reports a process after exactly one answer of status 200. If it reports none, there
  -- was no such answer, and a process that it started was killed.
  pub start_server-Started :
      (w : Trace) → ended w ≡ true → Ends (Started w) Never (start_server fl host w)
  unfolding start_server ended answers
  start_server-Started w e = elim (Bool-cases (host.starts w server_cmd)) [
    | inr e0 ↦ rw e0 (omega arith, refl, e)
    | inl up ↦
        let u : Trace = slept ∷ spawned server_cmd ∷ w in
        rw up (probed_lem w u (probe fl host 5 u) refl refl (probe-Probed 5 u))
  ]

  stop_server-ended : (w : Trace) → Always (λ v. ended v ≡ true) (stop_server fl host w)
  unfolding stop_server ended
  stop_server-ended w = elim (Bool-cases (host.stops (terminated ∷ w))) [
    | inl e ↦ rw e refl
    | inr e ↦ rw e refl
  ]

  build_server-ended :
      (w : Trace) (r : Ran)
      → host.run w build_cmd ≡ r
      → ended w ≡ true
      → Always (λ v. ended v ≡ true) (build_server fl host w)
  unfolding build_server ended
  build_server-ended w (exited code out) e h = rw e h
  build_server-ended w not_run e h = rw e h
  build_server-ended w timed_out e h = rw e h

  -- If no process is left over from before, then whenever `main` ends, with or without an
  -- exception, whatever the thread pools do, the server process has ended or was killed.
  pub main-ended :
      (single_pool : List (Py (Bool × Float)) → Py (List (Bool × Float)))
      (batch_pool : List (Py (ℕ × Float)) → Py (List (ℕ × Float))) (w : Trace)
      → ended w ≡ true
      → Always (λ v. ended v ≡ true) (main fl host single_pool batch_pool w)
  unfolding main
  main-ended single_pool batch_pool w h =
      let stops : Trace → Type 0 = λ v. ended v ≡ true in
      Ends-bind (λ _ v. stops v) (λ _ v. stops v) (λ _ v. stops v) (build_server fl host) _ w
        (build_server-ended w _ refl h)
        (elim [
          | false ↦ λ v e. e
          | true ↦ λ v e.
              Ends-bind (Started v) (λ _ u. stops u) (λ _ u. stops u) (start_server fl host) _ v
                (Ends-Never (Started v) (λ _ u. stops u) _ (start_server-Started v e))
                (elim [
                  | false ↦ λ u s. s.2
                  | true ↦ λ u s.
                      finally-Always (run_benchmarks fl host single_pool batch_pool)
                        (stop_server fl host) stops u stop_server-ended
                ])
        ])
