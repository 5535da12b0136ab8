-- ===== src/Orchestrator/Cases/Container.antt =====
-- The container of a test case of bench_orchestrator.py: it is stopped whatever happens.
use sndv_kv.Prelude.{
  ℕ, suc, ◌≡◌, refl, ◌≤◌, inl, inr, Text, text, Bool, true, false, Bool-cases, [], ◌∷◌, ◌++◌,
  Option, none, some, ◌==◌, arith, if◌then◌else◌,
}
use sndv_kv.Python.{Ran, exited, not_run, timed_out, ran, Trace, Host, Request}
use sndv_kv.Python.Floats.{Floats}
use sndv_kv.Python.Loops.{Ends, Ends-bind, Ends-Never}
use sndv_kv.Python.Counts.{naps}
use sndv_kv.Python.Actions.{pure, ◌>>=◌}
use sndv_kv.Python.Files.{make_directory}
use sndv_kv.Python.Processes.{Always, Always-bind, finally-Always, run_captured}
use sndv_kv.Python.Running.{texts_eq_refl, succeeded, left_running, left_running-ran}
use sndv_kv.Bench.{get}
use sndv_kv.Bench.Poll.{poll-Polled, Polled}
use sndv_kv.Orchestrator.{wait_for_server}
use sndv_kv.Orchestrator.Cases.{
  Case, Store, returned, run_cmd, stop_cmd, server_url, measure, stop_container, after_start,
  run_test_case, test_cases, is_listed, case_dir,
}

module _ (run_id cwd : Text) {Float : Type 0} (fl : Floats Float) (host : Host Float)
    (c : Case) where
  abbrev pub Stopped : Trace → Type 0
  Stopped w = left_running (run_cmd run_id cwd c) (stop_cmd run_id cwd c) w ≡ false

  ran_stop : (r : Ran) (w : Trace) → Stopped (ran (stop_cmd run_id cwd c) r ∷ w)
  unfolding left_running
  ran_stop r w = rw (texts_eq_refl (stop_cmd run_id cwd c)) refl

  stop_at :
      (w : Trace) (r : Ran)
      → host.run w (stop_cmd run_id cwd c) ≡ r
      → Always Stopped (stop_container run_id cwd fl host c w)
  unfolding stop_container left_running
  stop_at w (exited code out) e = rw e (ran_stop (exited code out) w)
  stop_at w not_run e = rw e (ran_stop not_run w)
  stop_at w timed_out e = rw e (ran_stop timed_out w)

  give_up_at :
      (st : Store Float) (w : Trace) (r : Ran)
      → host.run w (stop_cmd run_id cwd c) ≡ r
      → Always Stopped (after_start run_id cwd fl host c st (some false) w)
  unfolding after_start
  give_up_at st w (exited code out) e = rw e (ran_stop (exited code out) w)
  give_up_at st w not_run e = rw e (ran_stop not_run w)
  give_up_at st w timed_out e = rw e (ran_stop timed_out w)

  directory_at : (path : Text) (w : Trace) → Stopped w → Always Stopped (make_directory host path w)
  unfolding left_running
  directory_at path w h = elim (Bool-cases (host.allows w path)) [ inl e ↦ rw e h | inr e ↦ rw e h ]

  -- After `docker run`: the container runs, or there is none.
  abbrev Launched : ℕ × Text → Trace → Type 0
  Launched (code, out) v = if code == 0 then Unit {0} else Stopped v

  ran_failed :
      (w : Trace) (r : Ran)
      → succeeded r ≡ false
      → Stopped w
      → Stopped (ran (run_cmd run_id cwd c) r ∷ w)
  ran_failed w r e h =
      rw
        (left_running-ran (run_cmd run_id cwd c) (stop_cmd run_id cwd c) (run_cmd run_id cwd c) r w)
        (ground (arith, h, e))

  run_at :
      (w : Trace) (r : Ran)
      → host.run w (run_cmd run_id cwd c) ≡ r
      → Stopped w
      → Ends Launched (λ _ v. Stopped v) (run_captured host (run_cmd run_id cwd c) w)
  run_at w (exited code out) e h = elim (Bool-cases (code == 0)) [
    | inl up ↦ rw (e, up) tt
    | inr failed ↦ rw (e, failed) (ran_failed w (exited code out) failed h)
  ]
  run_at w not_run e h = rw e (ran_failed w not_run refl h)
  run_at w timed_out e h = rw e (ran_failed w timed_out refl h)

  module _ (n fuel : ℕ) (le : n ≤ fuel)
      (runs : (w v : Trace)
        → n ≤ naps v
        → fl.lt (fl.sub (host.clock (v ++ w)) (host.clock w)) (fl.of_ℕ 15) ≡ false) where
    after_start-Always :
        (st : Store Float) (w v : Trace) (ready : Option Bool)
        → Polled fl host
            (get (server_url run_id cwd c ++ text "/metrics") [])
            (fl.of_ℕ 15)
            w
            ready
            v
        → Always Stopped (after_start run_id cwd fl host c st ready v)
    unfolding after_start
    after_start-Always st w v none h = elim h [ inl (u, e, _, _) ↦ cc | inr (e, _) ↦ cc ]
    after_start-Always st w v (some false) h = give_up_at st v _ refl
    after_start-Always st w v (some true) h =
        finally-Always (measure run_id cwd fl host c st) (stop_container run_id cwd fl host c)
          Stopped v (λ u. stop_at u _ refl)

    after_run_at :
        (st : Store Float) (result : ℕ × Text) (v : Trace)
        → Launched result v
        → Always Stopped (
            (if result.0 == 0
                then (do
                  ready ← wait_for_server fl host (server_url run_id cwd c) (suc fuel)
                  after_start run_id cwd fl host c st ready)
                else pure (returned none, st))
              v)
    unfolding wait_for_server
    after_run_at st (code, out) v h = elim (Bool-cases (code == 0)) [
      | inr failed ↦ rw failed (rw failed at h)
      | inl up ↦
          let request : Request = get (server_url run_id cwd c ++ text "/metrics") [] in
          rw up (
            Ends-bind (Polled fl host request (fl.of_ℕ 15) v) (λ _ u. Stopped u) (λ _ u. Stopped u)
              (wait_for_server fl host (server_url run_id cwd c) (suc fuel)) _ v
              (Ends-Never (Polled fl host request (fl.of_ℕ 15) v) (λ _ u. Stopped u)
                (wait_for_server fl host (server_url run_id cwd c) (suc fuel) v)
                (poll-Polled fl host request (fl.of_ℕ 15) v n (runs v) fuel le))
              λ ready u k. after_start-Always st v u ready k)
    ]

    -- Where the wait times out after `n` sleeps, which the fuel allows, and the container of the case
    -- was not left running before: whatever the programs and the network answer, and whatever
    -- `run_test_case` returns or raises, a `docker run` that succeeded is followed by `docker stop`.
    pub run_test_case-Stopped :
        (st : Store Float) (w : Trace)
        → Stopped w
        → Always Stopped (run_test_case run_id cwd fl host (suc fuel) c st w)
    unfolding run_test_case wait_for_server
    run_test_case-Stopped st w h =
        let P : Trace → Type 0 = λ v. Stopped v in
        let dir : Text = case_dir run_id cwd c in
        elim (Bool-cases (is_listed c test_cases)) [
          | inr no_case ↦ rw no_case h
          | inl listed ↦ rw listed (
              Always-bind P (make_directory host dir) _ w (directory_at dir w h) λ _ v1 h1.
                Always-bind P (make_directory host (dir ++ text "/data")) _ v1
                  (directory_at (dir ++ text "/data") v1 h1)
                  λ _ v2 h2.
                    Always-bind P (make_directory host (dir ++ text "/logs")) _ v2
                      (directory_at (dir ++ text "/logs") v2 h2)
                      λ _ v3 h3.
                        Always-bind P (make_directory host (dir ++ text "/metrics")) _ v3
                          (directory_at (dir ++ text "/metrics") v3 h3)
                          λ _ v4 h4.
                            Ends-bind Launched (λ _ v. P v) (λ _ v. P v)
                              (run_captured host (run_cmd run_id cwd c)) _ v4 (run_at v4 _ refl h4)
                              λ result v5 h5. after_run_at st result v5 h5)
        ]
