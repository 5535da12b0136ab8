-- ===== src/Orchestrator/Main/Exit.antt =====
-- How bench_orchestrator.py ends.
use sndv_kv.Prelude.{
  ℕ, suc, ◌≡◌, refl, ◌≤◌, ◌⊎◌, inl, inr, Text, text, Bool, true, false, Bool-cases, List, [], ◌∷◌,
  ◌++◌, Option, some,
}
use sndv_kv.Python.{Exn, object, value_error, Trace, Host}
use sndv_kv.Python.Counts.{naps}
use sndv_kv.Python.Files.{dump_json, make_directory, written, Refused}
use sndv_kv.Python.Floats.{Floats, IsOrdered}
use sndv_kv.Python.Loops.{Ends, Never, Ends-bind, Ends-mono, Ends-Never, Quiet, Quiet-bind}
use sndv_kv.Python.Running.{succeeded}
use sndv_kv.Orchestrator.Cases.{Store, results_dir, config_path, run_all}
use sndv_kv.Orchestrator.Cases.Works.{Works, dump_at, make_at}
use sndv_kv.Orchestrator.Cases.Shared.{IsBlank, Removes, run_all-IsBlank}
use sndv_kv.Orchestrator.Setup.{
  Config, fields_of, configs, write_configs, generate_all_configs, setup,
}
use sndv_kv.Orchestrator.Artifacts.{build_cmd, build_image}
use sndv_kv.Orchestrator.Artifacts.Cleanup.{build_image-result}
use sndv_kv.Orchestrator.Report.{generate_comprehensive_report}
use sndv_kv.Orchestrator.Report.Best.{Shown, generate_comprehensive_report-Shown}
use sndv_kv.Orchestrator.Main.{report_at_end, main}

module _ {Float : Type 0} (host : Host Float) (works : Works host) where
  write_configs_at :
      (entries : List (Text × Config)) (w : Trace) → Quiet (write_configs host entries w)
  unfolding write_configs
  write_configs_at [] w = tt
  write_configs_at ((name, config) ∷ entries) w =
      Quiet-bind (λ _ _. Unit {0}) (dump_json host (config_path name) (object (fields_of config))) _
        w (dump_at host works (config_path name) (object (fields_of config)) w)
        λ _ v. write_configs_at entries v

  setup_at : (run_id : Text) (w : Trace) → Quiet (setup host run_id w)
  unfolding setup generate_all_configs
  setup_at run_id w =
      let Q : Unit {0} → Trace → Type 0 = λ _ _. Unit {0} in
      let dir : Text = results_dir run_id in
      let artifacts : Text = dir ++ text "/build_artifacts" in
      Quiet-bind Q (make_directory host dir) _ w (make_at host works dir w) λ _ v1.
        Quiet-bind Q (make_directory host artifacts) _ v1 (make_at host works artifacts v1) λ _ v2.
          Quiet-bind Q (make_directory host (text "bench_configs")) _ v2
            (make_at host works (text "bench_configs") v2) λ _ v3. write_configs_at configs v3

module _ (run_id cwd : Text) {Float : Type 0} (fl : Floats Float) (host : Host Float) where
  abbrev pub Reported : Trace → Type 0
  Reported v = written (results_dir run_id ++ text "/COMPREHENSIVE_REPORT.md") v ≡ true

  -- The exit code is 1 without an image, and else 0 with a report.
  abbrev pub Exited : Option ℕ → Trace → Type 0
  Exited code v = (code ≡ some 1) ⊎ ((code ≡ some 0) × Reported v)

  module _ (works : Works host) (removes : Removes run_id cwd fl host) (ordered : IsOrdered fl)
      (n fuel : ℕ) (le : n ≤ fuel)
      (runs : (w v : Trace)
        → n ≤ naps v
        → fl.lt (fl.sub (host.clock (v ++ w)) (host.clock w)) (fl.of_ℕ 15) ≡ false) where
    distinct : {A : Type 0} {b : Bool} → b ≡ true → b ≡ false → A
    distinct e f = absurd (cc (e, f))

    abbrev Fails : Exn → Trace → Type 0
    Fails e v = (e ≡ value_error) × Reported v

    report_at :
        (store : Option (Store Float)) (w : Trace)
        → (st : Store Float) × (store ≡ some st) × IsBlank run_id cwd fl host st
        → Ends Exited Fails (report_at_end run_id cwd fl host store w)
    unfolding report_at_end
    report_at store w (st, e, (zeros, valid)) = rw e (
        Ends-bind (λ report v. Shown fl ordered st.objects report × Reported v) Exited Fails
          (generate_comprehensive_report fl run_id host st) _ w
          (Ends-mono (λ report v. Shown fl ordered st.objects report × Reported v) _
            (λ e v. Refused host e v ⊎ ((e ≡ value_error) × ((st.objects ≡ []) × Reported v))) Fails
            _ (λ _ _ h. h)
            (λ e v h. elim h [
              | inl (_, (path, refused)) ↦ distinct (works.writes v path) refused
              | inr (kind, (_, reported)) ↦ (kind, reported)
            ])
            (generate_comprehensive_report-Shown fl ordered run_id host st w valid))
          λ report v (_, reported). inr (refl, reported))

    -- On a host where programs run and files can be written, where `docker stop` succeeds and
    -- `docker stats` fails after it, with floats that are ordered and a wait that times out after
    -- `n` sleeps, which the fuel allows: `main` ends, with exit code 1 or with exit code 0 and the
    -- report's file written, and it raises no exception but `ValueError`, once that file was opened.
    pub main-Exited : (w : Trace) → Ends Exited Fails (main run_id cwd fl host (suc fuel) w)
    unfolding main
    main-Exited w =
        Ends-bind (λ _ _. Unit {0}) Exited Fails (setup host run_id) _ w
          (Ends-Never (λ _ _. Unit {0}) Fails _ (setup_at host works run_id w))
          λ _ v1 _.
            Ends-bind (λ _ _. Unit {0}) Exited Fails (build_image run_id host) _ v1
              (Ends-mono (λ b _. b ≡ succeeded (host.run v1 build_cmd)) _ Never Fails _
                (λ _ _ _. tt) (λ _ _ h. absurd h) (build_image-result run_id host works v1))
              λ built v2 _. elim (Bool-cases built) [
                | inr failed ↦ rw failed (inl refl)
                | inl done ↦ rw done (
                    Ends-bind
                      (λ r _. (st : Store Float) × (r ≡ some st) × IsBlank run_id cwd fl host st)
                      Exited Fails (run_all run_id cwd fl host (suc fuel)) _ v2
                      (Ends-Never
                        (λ r _. (st : Store Float) × (r ≡ some st) × IsBlank run_id cwd fl host st)
                        Fails (run_all run_id cwd fl host (suc fuel) v2)
                        (run_all-IsBlank run_id cwd fl host works removes n fuel le runs v2))
                      λ store v3 h. report_at store v3 h)
              ]
