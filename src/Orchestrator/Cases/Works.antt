-- ===== src/Orchestrator/Cases/Works.antt =====
-- A test case of bench_orchestrator.py on a host where programs run and files can be written.
use sndv_kv.Prelude.{
  ℕ, suc, ◌≡◌, ◌≢◌, refl, ◌≤◌, inl, inr, Text, text, Bool, true, false, Bool-cases, List, [], ◌∷◌,
  ◌++◌, Option, none, some, length, ◌==◌,
}
use sndv_kv.Python.{Json, exited, ran, read_clock, slept, Trace, Host, Request}
use sndv_kv.Python.Files.{write_file, dump_json, make_directory}
use sndv_kv.Python.Floats.{Floats}
use sndv_kv.Python.Loops.{Ends, Never, Ends-bind, Ends-map, Quiet, Quiet-bind}
use sndv_kv.Python.Counts.{naps}
use sndv_kv.Python.Processes.{finally-Never, catch-Never, run_captured, run_program}
use sndv_kv.Bench.{get}
use sndv_kv.Bench.Poll.{poll-Polled, Polled}
use sndv_kv.Orchestrator.{wait_for_server}
use sndv_kv.Orchestrator.Monitoring.Totals.{run_benchmarks-totals}
use sndv_kv.Orchestrator.Monitoring.{run_benchmarks_with_monitoring}
use sndv_kv.Orchestrator.Disk.{collect_disk_metrics}
use sndv_kv.Orchestrator.Resources.{
  no_metrics, collect_resource_metrics, stats_cmd, stats_or_none, read_stats,
}
use sndv_kv.Orchestrator.Cases.{
  Case, CaseResult, Store, Outcome, out_of_fuel, returned, run_cmd, stop_cmd, server_url, measure,
  stop_container, after_start, run_test_case, test_cases, is_listed, case_dir, container_name,
}

-- A host on which every program can be run to its end and every file can be written.
pub record Works {Float : Type 0} (host : Host Float) : Type 0 where
  pub runs :
      (w : Trace) (args : List Text)
      → (code : ℕ) × (out : Text) × (host.run w args ≡ exited code out)
  pub writes : (w : Trace) (path : Text) → host.allows w path ≡ true

module _ {Float : Type 0} (host : Host Float) (works : Works host) where
  write_at : (path : Text) (w : Trace) → Quiet (write_file host path w)
  write_at path w = rw (works.writes w path) tt

  pub dump_at : (path : Text) (j : Json) (w : Trace) → Quiet (dump_json host path j w)
  dump_at path j w = rw (works.writes w path) tt

  pub make_at : (path : Text) (w : Trace) → Quiet (make_directory host path w)
  make_at path w = rw (works.writes w path) tt

  pub run_at : (args : List Text) (w : Trace) → Quiet (run_program host args w)
  run_at args w = let (code, out, e) = works.runs w args in rw e tt

  pub captured_at : (args : List Text) (w : Trace) → Quiet (run_captured host args w)
  captured_at args w = let (code, out, e) = works.runs w args in rw e tt

module _ (run_id cwd : Text) {Float : Type 0} (fl : Floats Float) (host : Host Float)
    (works : Works host) where
  stats_at :
      (dir : Text) (result : ℕ × Text) (w : Trace) → Quiet (stats_or_none fl host dir result w)
  unfolding stats_or_none
  stats_at dir (code, []) w = tt
  stats_at dir (code, c ∷ out) w = elim (Bool-cases (code == 0)) [
    | inl e ↦ rw e (catch-Never (read_stats fl host dir (c ∷ out)) (no_metrics fl host) w)
    | inr e ↦ rw e tt
  ]

  pub resources_at :
      (container dir : Text) (w : Trace) → Quiet (collect_resource_metrics fl host container dir w)
  unfolding collect_resource_metrics
  resources_at container dir w =
      Quiet-bind (λ _ _. Unit) (run_captured host (stats_cmd container)) _ w
        (captured_at host works (stats_cmd container) w) λ result v. stats_at dir result v

  pub disk_at : (dir : Text) (w : Trace) → Quiet (collect_disk_metrics fl host dir w)
  unfolding collect_disk_metrics
  disk_at dir w =
      Quiet-bind (λ _ _. Unit) (write_file host (dir ++ text "/metrics/disk.json")) _ w
        (write_at host works (dir ++ text "/metrics/disk.json") w) λ _ _. tt

  -- A value that `measure` or a case without a result returns, and what it adds to the store.
  abbrev pub Added : Store Float → Outcome × Store Float → Type 0
  Added st (returned none, st') = st' ≡ st
  Added st (returned (some ref), st') =
      (ref ≡ length st.objects)
      × ((r : CaseResult Float) × (st'.objects ≡ st.objects ++ r ∷ []))
      × (st'.all_results ≡ st.all_results ++ length st.objects ∷ [])
  Added st (out_of_fuel, st') = ⊥

  benchmarks_at :
      (c : Case) (w : Trace)
      → Quiet (run_benchmarks_with_monitoring fl host (server_url run_id cwd c) c.load_type w)
  benchmarks_at c w =
      Ends-map _ (λ _ _. Unit) Never _ (λ _ _ _. tt)
        (run_benchmarks-totals fl host (server_url run_id cwd c) c.load_type w)

  module _ (c : Case) where
    measure_at :
        (st : Store Float) (w : Trace)
        → Ends (λ o _. Added st o) Never (measure run_id cwd fl host c st w)
    unfolding measure
    measure_at st w =
        let Q : Outcome × Store Float → Trace → Type 0 = λ o _. Added st o in
        let dir : Text = case_dir run_id cwd c in
        let container : Text = container_name run_id cwd c in
        Quiet-bind Q (run_benchmarks_with_monitoring fl host (server_url run_id cwd c) c.load_type)
          _ w (benchmarks_at c w)
          λ results v1.
            Quiet-bind Q (collect_resource_metrics fl host container dir) _ (read_clock ∷ v1)
              (resources_at container dir (read_clock ∷ v1))
              λ resources v2.
                Quiet-bind Q (collect_disk_metrics fl host dir) _ v2 (disk_at dir v2) λ disk v3.
                  Quiet-bind Q (write_file host (dir ++ text "/metrics/results.json")) _ v3
                    (write_at host works (dir ++ text "/metrics/results.json") v3)
                    λ _ v4. (refl, (_, refl), refl)

    -- The latest calls are those of the `finally` block, and a result is reported only then.
    abbrev pub Removed : Trace → Type 0
    Removed v =
        (w : Trace) × (code : ℕ) × (out : Text) × (host.run w (stop_cmd run_id cwd c)
          ≡ exited code out)
        × (v ≡ slept ∷ ran (stop_cmd run_id cwd c) (exited code out) ∷ w)

    abbrev pub Measured : Store Float → Outcome × Store Float → Trace → Type 0
    Measured st (returned (some ref), st') v = Added st (returned (some ref), st') × Removed v
    Measured st (outcome, st') v = Added st (outcome, st')

    Added-Measured :
        (st : Store Float) (o : Outcome × Store Float) (v : Trace)
        → Added st o × Removed v
        → Measured st o v
    Added-Measured st (returned none, st') v h = h.0
    Added-Measured st (returned (some ref), st') v h = h
    Added-Measured st (out_of_fuel, st') v h = h.0

    stop_at : (w : Trace) → Ends (λ _ v. Removed v) Never (stop_container run_id cwd fl host c w)
    unfolding stop_container
    stop_at w =
        let (code, out, e) = works.runs w (stop_cmd run_id cwd c) in rw e (w, code, out, e, refl)

    after_start_at :
        (st : Store Float) (ready : Option Bool) (w : Trace)
        → ready ≢ none
        → Ends (Measured st) Never (after_start run_id cwd fl host c st ready w)
    unfolding after_start
    after_start_at st none w h = absurd (h refl)
    after_start_at st (some false) w h =
        Quiet-bind (Measured st) (run_program host (stop_cmd run_id cwd c)) _ w
          (run_at host works (stop_cmd run_id cwd c) w) λ _ _. refl
    after_start_at st (some true) w h = Ends-map _ (Measured st) Never _ (Added-Measured st) (
        finally-Never (Added st) Removed (measure run_id cwd fl host c st)
          (stop_container run_id cwd fl host c) w (measure_at st w) stop_at)

    module _ (n fuel : ℕ) (le : n ≤ fuel)
        (runs : (w v : Trace)
          → n ≤ naps v
          → fl.lt (fl.sub (host.clock (v ++ w)) (host.clock w)) (fl.of_ℕ 15) ≡ false)
        (listed : is_listed c test_cases ≡ true) where
      ready_at :
          (w : Trace)
          → Ends
              (λ r _. r ≢ none)
              Never
              (wait_for_server fl host (server_url run_id cwd c) (suc fuel) w)
      unfolding wait_for_server
      ready_at w =
          let request : Request = get (server_url run_id cwd c ++ text "/metrics") [] in
          Ends-map (Polled fl host request (fl.of_ℕ 15) w) (λ r _. r ≢ none) Never _
            (λ r v h e. elim h [ inl (u, f, _, _) ↦ cc | inr (f, _) ↦ cc ])
            (poll-Polled fl host request (fl.of_ℕ 15) w n (runs w) fuel le)

      pub run_test_case_at :
          (st : Store Float) (w : Trace)
          → Ends (Measured st) Never (run_test_case run_id cwd fl host (suc fuel) c st w)
      unfolding run_test_case
      run_test_case_at st w =
          let Q : Outcome × Store Float → Trace → Type 0 = Measured st in
          let dir : Text = case_dir run_id cwd c in
          rw listed (
            Quiet-bind Q (make_directory host dir) _ w (make_at host works dir w) λ _ v1.
              Quiet-bind Q (make_directory host (dir ++ text "/data")) _ v1
                (make_at host works (dir ++ text "/data") v1)
                λ _ v2.
                  Quiet-bind Q (make_directory host (dir ++ text "/logs")) _ v2
                    (make_at host works (dir ++ text "/logs") v2)
                    λ _ v3.
                      Quiet-bind Q (make_directory host (dir ++ text "/metrics")) _ v3
                        (make_at host works (dir ++ text "/metrics") v3)
                        λ _ v4.
                          Quiet-bind Q (run_captured host (run_cmd run_id cwd c)) _ v4
                            (captured_at host works (run_cmd run_id cwd c) v4)
                            λ result v5. elim (Bool-cases (result.0 == 0)) [
                              | inr failed ↦ rw failed refl
                              | inl up ↦ rw up (
                                  Ends-bind (λ r _. r ≢ none) Q Never
                                    (wait_for_server fl host (server_url run_id cwd c) (suc fuel)) _
                                    v5 (ready_at v5) λ ready v6 h. after_start_at st ready v6 h)
                            ])
