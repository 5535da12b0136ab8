-- ===== src/Orchestrator/Artifacts/Cleanup.antt =====
-- The image of bench_orchestrator.py: the result of the build does not depend on the extraction, and
-- the container that is created for it is removed.
use sndv_kv.Prelude.{◌≡◌, refl, Text, text_eq, Bool, false, Bool-cases, ◌∷◌, ◌==◌, inl, inr}
use sndv_kv.Python.{Ran, exited, not_run, timed_out, ran, Trace, Host}
use sndv_kv.Python.Actions.{pure, catch, ◌>>◌}
use sndv_kv.Python.Loops.{Ends, Never, Ends-bind, Ends-map, Quiet, Quiet-bind}
use sndv_kv.Python.Processes.{
  Always, Always-bind, finally-Always, finally-Never, catch-Never, run_program, run_captured,
  run_checked,
}
use sndv_kv.Python.Running.{texts_eq, texts_eq_refl, succeeded, left_running, left_running-ran}
use sndv_kv.Orchestrator.Cases.Works.{Works, run_at}
use sndv_kv.Orchestrator.Artifacts.{
  build_cmd, create_cmd, copy_cmd, remove_cmd, extract_build_artifacts, build_image,
}

module _ (run_id : Text) {Float : Type 0} (host : Host Float) where
  abbrev pub Cleaned : Trace → Type 0
  Cleaned w = left_running (create_cmd run_id) (remove_cmd run_id) w ≡ false

  ran_remove : (r : Ran) (w : Trace) → Cleaned (ran (remove_cmd run_id) r ∷ w)
  ran_remove r w =
      rw
        (
          left_running-ran (create_cmd run_id) (remove_cmd run_id) (remove_cmd run_id) r w,
          texts_eq_refl (remove_cmd run_id),
        )
        refl

  remove_at :
      (w : Trace) (r : Ran)
      → host.run w (remove_cmd run_id) ≡ r
      → Always Cleaned ((run_program host (remove_cmd run_id) >> pure tt) w)
  remove_at w (exited code out) e = rw e (ran_remove (exited code out) w)
  remove_at w not_run e = rw e (ran_remove not_run w)
  remove_at w timed_out e = rw e (ran_remove timed_out w)

  extract_Always : (w : Trace) → Always Cleaned (extract_build_artifacts run_id host w)
  unfolding extract_build_artifacts
  extract_Always w =
      finally-Always
        (catch (run_checked host (create_cmd run_id) >> run_checked host (copy_cmd run_id))
          (λ _. pure tt))
        (run_program host (remove_cmd run_id) >> pure tt) Cleaned w λ v. remove_at v _ refl

  -- The build itself leaves no container.
  ran_build : (r : Ran) (w : Trace) → Cleaned w → Cleaned (ran build_cmd r ∷ w)
  unfolding build_cmd create_cmd remove_cmd texts_eq text_eq
  ran_build r w h = rw (left_running-ran (create_cmd run_id) (remove_cmd run_id) build_cmd r w) h

  build_at :
      (w : Trace) (r : Ran)
      → host.run w build_cmd ≡ r
      → Cleaned w
      → Always Cleaned (run_captured host build_cmd w)
  build_at w (exited code out) e h = rw e (ran_build (exited code out) w h)
  build_at w not_run e h = rw e (ran_build not_run w h)
  build_at w timed_out e h = rw e (ran_build timed_out w h)

  -- If the container for the extraction was not left before, then whatever the programs answer, and
  -- whatever `build_image` returns or raises, a `docker create` that succeeded is followed by
  -- `docker rm`.
  pub build_image-Cleaned : (w : Trace) → Cleaned w → Always Cleaned (build_image run_id host w)
  unfolding build_image
  build_image-Cleaned w h =
      Always-bind Cleaned (run_captured host build_cmd) _ w (build_at w _ refl h) λ result v k.
        elim (Bool-cases (result.0 == 0)) [
          | inl built ↦ rw built (
              Always-bind Cleaned (extract_build_artifacts run_id host) _ v (extract_Always v)
                λ _ v' k'. k')
          | inr failed ↦ rw failed k
        ]

  module _ (works : Works host) where
    extract_at : (w : Trace) → Quiet (extract_build_artifacts run_id host w)
    unfolding extract_build_artifacts
    extract_at w =
        Ends-map _ (λ _ _. Unit {0}) Never _ (λ _ _ _. tt)
          (finally-Never (λ _. Unit {0}) (λ _. Unit {0})
            (catch (run_checked host (create_cmd run_id) >> run_checked host (copy_cmd run_id))
              (λ _. pure tt))
            (run_program host (remove_cmd run_id) >> pure tt) w
            (catch-Never
              (run_checked host (create_cmd run_id) >> run_checked host (copy_cmd run_id)) tt w)
            λ v.
              Quiet-bind (λ _ _. Unit {0}) (run_program host (remove_cmd run_id)) _ v
                (run_at host works (remove_cmd run_id) v) λ _ _. tt)

    -- On a host where programs run, `build_image` raises nothing, and returns whether `docker build`
    -- succeeded, also when the artifacts cannot be extracted.
    pub build_image-result :
        (w : Trace)
        → Ends
            (λ built _. built ≡ succeeded (host.run w build_cmd))
            Never
            (build_image run_id host w)
    unfolding build_image
    build_image-result w =
        let (code, out, e) = works.runs w build_cmd in
        let Q : Bool → Trace → Type 0 = λ built _. built ≡ succeeded (host.run w build_cmd) in
        let captured : Ends (λ r _. r ≡ (code, out)) Never (run_captured host build_cmd w) =
          rw e refl in
        Ends-bind (λ r _. r ≡ (code, out)) Q Never (run_captured host build_cmd) _ w captured
          λ result v same. elim (Bool-cases (code == 0)) [
            | inl built ↦
                rw (same, built)
                  (Quiet-bind Q (extract_build_artifacts run_id host) _ v (extract_at v)
                    λ _ _. rw (e, built) refl)
            | inr failed ↦ rw (same, failed) (rw (e, failed) refl)
          ]
