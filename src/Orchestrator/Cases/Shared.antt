-- ===== src/Orchestrator/Cases/Shared.antt =====
-- `run_all` of bench_orchestrator.py: what becomes of the metrics, which are collected twice.
use sndv_kv.Prelude.{
  ℕ, suc, ◌≡◌, refl, sym, ap, ◌∙◌, ◌≤◌, Text, text_eq, true, false, List, [], ◌∷◌, ◌++◌, Option,
  none, some, All, All-snoc, length, length-snoc, range_from, range_from-suc, ◌==◌, arith,
}
use sndv_kv.Python.{exited, ran, slept, Trace, Host}
use sndv_kv.Python.Actions.{Py, pure}
use sndv_kv.Python.Floats.{Floats}
use sndv_kv.Python.Loops.{Ends, Never, Ends-bind, Ends-map, Quiet-bind}
use sndv_kv.Python.Counts.{naps}
use sndv_kv.Orchestrator.Disk.{collect_disk_metrics}
use sndv_kv.Orchestrator.Resources.{no_metrics, collect_resource_metrics, stats_cmd, stats_or_none}
use sndv_kv.Orchestrator.Cases.{
  Case, CaseResult, Store, no_results, Outcome, out_of_fuel, returned, stop_cmd, run_test_case,
  case_eq, test_cases, is_listed, case_dir, container_name, modify, collect_again, run_cases,
  run_all,
}
use sndv_kv.Orchestrator.Cases.Works.{Works, Removed, Measured, run_test_case_at, disk_at}

modify-snoc :
    {A : Type 0} (f : A → A) (xs : List A) (x : A)
    → modify (length xs) f (xs ++ x ∷ []) ≡ xs ++ f x ∷ []
unfolding modify
modify-snoc f [] x = refl
modify-snoc f (y ∷ xs) x = ap (λ t. y ∷ t) (modify-snoc f xs x)

module _ (run_id cwd : Text) {Float : Type 0} (fl : Floats Float) (host : Host Float) where
  -- Every result that was reported stands in `all_results`, with zeros for its memory and CPU.
  abbrev pub IsBlank : Store Float → Type 0
  IsBlank st =
      All (λ r. r.resources ≡ no_metrics fl host) st.objects
      × (st.all_results ≡ range_from 0 (length st.objects))

  -- A container that was started with `--rm` is stopped by `docker stop`, and `docker stats` fails on
  -- its name from then on.
  pub record Removes : Type 0 where
    pub stops :
        (c : Case) (w : Trace) → (out : Text) × (host.run w (stop_cmd run_id cwd c) ≡ exited 0 out)
    pub gone :
        (c : Case) (w : Trace) (out : Text)
        → host.run w (stop_cmd run_id cwd c) ≡ exited 0 out
        → (code : ℕ) × (err : Text) × (host.run
              (slept ∷ ran (stop_cmd run_id cwd c) (exited 0 out) ∷ w)
              (stats_cmd (container_name run_id cwd c))
            ≡ exited (suc code) err)

  IsBlank-snoc :
      (st st' : Store Float) (r : CaseResult Float)
      → IsBlank st
      → r.resources ≡ no_metrics fl host
      → st'.objects ≡ st.objects ++ r ∷ []
      → st'.all_results ≡ st.all_results ++ length st.objects ∷ []
      → IsBlank st'
  IsBlank-snoc st st' r (zeros, reported) zero_r e f =
      let n : ℕ = length st.objects in
      let more : range_from 0 (length st'.objects) ≡ range_from 0 n ++ n ∷ [] =
        ap (λ xs. range_from 0 (length xs)) e
        ∙ ap (λ k. range_from 0 k) (length-snoc st.objects r ∙ omega arith)
        ∙ range_from-suc 0 n
        ∙ ap (λ k. range_from 0 n ++ k ∷ []) (omega arith) in
      (
        rw e (All-snoc (λ q. q.resources ≡ no_metrics fl host) st.objects r zeros zero_r),
        f ∙ ap (λ xs. xs ++ n ∷ []) reported ∙ sym more,
      )

  module _ (works : Works host) (removes : Removes) where
    failed_at :
        (container dir : Text) (v : Trace) (code : ℕ) (out : Text)
        → host.run v (stats_cmd container) ≡ exited (suc code) out
        → Ends
            (λ r _. r ≡ no_metrics fl host)
            Never
            (collect_resource_metrics fl host container dir v)
    unfolding collect_resource_metrics stats_or_none
    failed_at container dir v code [] e = rw e refl
    failed_at container dir v code (o ∷ out) e =
        let fails : (suc code == 0) ≡ false = ground arith in rw (e, fails) refl

    zeros_at :
        (c : Case) (v : Trace)
        → Removed run_id cwd fl host works c v
        → Ends
            (λ r _. r ≡ no_metrics fl host)
            Never
            (collect_resource_metrics fl host
              (container_name run_id cwd c)
              (case_dir run_id cwd c)
              v)
    zeros_at c v (w, code, out, e, here) =
        let (out', e') = removes.stops c w in
        let (code', err, g) = removes.gone c w out' e' in
        let same : exited 0 out' ≡ exited code out = sym e' ∙ e in
        let g' : host.run v (stats_cmd (container_name run_id cwd c)) ≡ exited (suc code') err =
          rw (here, ← same) g in
        failed_at (container_name run_id cwd c) (case_dir run_id cwd c) v code' err g'

    Kept : Option (Store Float) → Type 0
    Kept none = ⊥
    Kept (some st) = IsBlank st

    some_of : (r : Option (Store Float)) → Kept r → (st : Store Float) × (r ≡ some st) × IsBlank st
    unfolding Kept
    some_of none h = elim h [ ]
    some_of (some st) h = (st, refl, h)

    -- What a round leaves.
    Blank : Outcome × Store Float → Trace → Type 0
    Blank (out_of_fuel, st) v = ⊥
    Blank (returned ref, st) v = IsBlank st

    again_at :
        (c : Case) (st : Store Float) (o : Outcome × Store Float) (v : Trace)
        → IsBlank st
        → Measured run_id cwd fl host works c st o v
        → Ends Blank Never (collect_again run_id cwd fl host c o v)
    unfolding Blank collect_again
    again_at c st (out_of_fuel, st') v h m = m
    again_at c st (returned none, st') v h m = rw m h
    again_at c st (returned (some ref), st') v h ((e, (r, added), reported), removed) =
        let dir : Text = case_dir run_id cwd c in
        Ends-bind (λ r _. r ≡ no_metrics fl host) Blank Never
          (collect_resource_metrics fl host (container_name run_id cwd c) dir) _ v
          (zeros_at c v removed)
          λ resources v1 zeros.
            Quiet-bind Blank (collect_disk_metrics fl host dir) _ v1
              (disk_at run_id cwd fl host works dir v1)
              λ disk v2.
                let update : CaseResult Float → CaseResult Float =
                  λ q. record q { resources = resources; disk = disk } in
                let changed : modify ref update st'.objects ≡ st.objects ++ update r ∷ [] =
                  rw (e, added) (modify-snoc update st.objects r) in
                IsBlank-snoc st (record st' { objects = modify ref update st'.objects }) (update r)
                  h zeros changed reported

    module _ (n fuel : ℕ) (le : n ≤ fuel)
        (runs : (w v : Trace)
          → n ≤ naps v
          → fl.lt (fl.sub (host.clock (v ++ w)) (host.clock w)) (fl.of_ℕ 15) ≡ false) where
      continue_at :
          (cases : List Case) (o : Outcome × Store Float) (v : Trace)
          → ((st : Store Float) (w : Trace)
              → IsBlank st
              → Ends (λ r _. Kept r) Never (run_cases run_id cwd fl host (suc fuel) cases st w))
          → Blank o v
          → Ends
              (λ r _. Kept r)
              Never
              (let next : Py (Option (Store Float)) = elim o.0 [
                | out_of_fuel ↦ pure none
                | returned _ ↦ run_cases run_id cwd fl host (suc fuel) cases o.1
              ] in
                next v)
      unfolding Blank
      continue_at cases (out_of_fuel, st) v k h = elim h [ ]
      continue_at cases (returned ref, st) v k h = k st v h

      run_cases_at :
          (cases : List Case) (st : Store Float) (w : Trace)
          → All (λ c. is_listed c test_cases ≡ true) cases
          → IsBlank st
          → Ends (λ r _. Kept r) Never (run_cases run_id cwd fl host (suc fuel) cases st w)
      unfolding run_cases Kept
      run_cases_at [] st w listed h = h
      run_cases_at (c ∷ cases) st w listed h =
          let Q : Option (Store Float) → Trace → Type 0 = λ r _. Kept r in
          Ends-bind (Measured run_id cwd fl host works c st) Q Never
            (run_test_case run_id cwd fl host (suc fuel) c st) _ w
            (run_test_case_at run_id cwd fl host works c n fuel le runs listed.0 st w)
            λ o v m.
              Ends-bind Blank Q Never (collect_again run_id cwd fl host c o) _ v
                (again_at c st o v h m)
                λ again v' k.
                  continue_at cases again v' (λ st' w'. run_cases_at cases st' w' listed.1) k

      -- On a host where programs run and files can be written, where `docker stop` succeeds and
      -- `docker stats` fails after it, and where the wait times out after `n` sleeps, which the fuel
      -- allows: `run_all` ends without an exception, `all_results` refers to every result that was
      -- made, in order, and each of them has zeros for its memory and its CPU.
      pub run_all-IsBlank :
          (w : Trace)
          → Ends
              (λ r _. (st : Store Float) × (r ≡ some st) × IsBlank st)
              Never
              (run_all run_id cwd fl host (suc fuel) w)
      unfolding run_all range_from test_cases is_listed case_eq text_eq
      run_all-IsBlank w =
          Ends-map _ (λ r _. (st : Store Float) × (r ≡ some st) × IsBlank st) Never _
            (λ r v h. some_of r h)
            (run_cases_at test_cases no_results w (refl, (refl, tt)) (tt, refl))
