-- ===== src/Orchestrator/Report/Best.antt =====
-- The report of bench_orchestrator.py: it shows every result, and the best of them.
use sndv_kv.Prelude.{
  ℕ, zero, suc, ◌+◌, ◌≡◌, refl, sym, ap, ◌∙◌, ◌⊎◌, inl, inr, Text, text, text_eq_iff, true, false,
  Bool-cases, List, [], ◌∷◌, ◌++◌, map, some, All, get_elem?, length, length-snoc, range_from,
  arith, if◌then◌else◌,
}
use sndv_kv.Python.{Exn, value_error, wrote_file, Trace, Host}
use sndv_kv.Python.Files.{write_file, written, Refused, write_file-wrote}
use sndv_kv.Python.Floats.{Floats, IsOrdered}
use sndv_kv.Python.Loops.{Ends, Ends-bind, Ends-mono}
use sndv_kv.Orchestrator.Cases.{CaseResult, Store, results_dir}
use sndv_kv.Orchestrator.Report.{
  Report, dereference, performance_row, disk_row, best_from, best_by, generate_comprehensive_report,
}

get_elem?-length :
    {A : Type 0} (xs : List A) (y : A) (ys : List A) → get_elem? (xs ++ y ∷ ys) (length xs) ≡ some y
unfolding get_elem?
get_elem?-length [] y ys = refl
get_elem?-length (x ∷ xs) y ys = get_elem?-length xs y ys

append_snoc : {A : Type 0} (xs : List A) (y : A) (ys : List A) → (xs ++ y ∷ []) ++ ys ≡ xs ++ y ∷ ys
append_snoc [] y ys = refl
append_snoc (x ∷ xs) y ys = ap (λ t. x ∷ t) (append_snoc xs y ys)

length-range_from : (i n : ℕ) → length (range_from i n) ≡ n
unfolding range_from
length-range_from i zero = refl
length-range_from i (suc n) = ap suc (length-range_from (i + 1) n)

wrote_written : (path : Text) (w : Trace) → written path (wrote_file path ∷ w) ≡ true
unfolding written
wrote_written path w = ground (arith, text_eq_iff path path)

module _ {Float : Type 0} where
  dereference-cons :
      (objects : List (CaseResult Float)) (ref : ℕ) (refs : List ℕ) (r : CaseResult Float)
      → get_elem? objects ref ≡ some r
      → dereference objects (ref ∷ refs) ≡ r ∷ dereference objects refs
  unfolding dereference
  dereference-cons objects ref refs r e = rw (e, dereference) refl

  dereference-append :
      (xs ys : List (CaseResult Float))
      → dereference (xs ++ ys) (range_from (length xs) (length ys)) ≡ ys
  unfolding range_from dereference
  dereference-append xs [] = refl
  dereference-append xs (y ∷ ys) =
      let rest : dereference (xs ++ y ∷ ys) (range_from (length xs + 1) (length ys)) ≡ ys =
        ap (λ n. dereference (xs ++ y ∷ ys) (range_from n (length ys))) (sym (length-snoc xs y))
        ∙ ap (λ t. dereference t (range_from (length (xs ++ y ∷ [])) (length ys)))
            (sym (append_snoc xs y ys))
        ∙ dereference-append (xs ++ y ∷ []) ys in
      dereference-cons (xs ++ y ∷ ys) (length xs) (range_from (length xs + 1) (length ys)) y
        (get_elem?-length xs y ys)
      ∙ ap (λ t. y ∷ t) rest

  module _ (fl : Floats Float) (ordered : IsOrdered fl) (key : CaseResult Float → Float) where
    better : CaseResult Float → CaseResult Float → CaseResult Float
    better best r = if fl.lt (key best) (key r) then r else best

    better_ge :
        (best r : CaseResult Float)
        → (fl.lt (key (better best r)) (key best) ≡ false)
          × (fl.lt (key (better best r)) (key r) ≡ false)
    unfolding better
    better_ge best r = elim (Bool-cases (fl.lt (key best) (key r))) [
      | inl e ↦
          rw e (ordered.asymm (key best) (key r) e, ground (arith, ordered.asymm (key r) (key r)))
      | inr e ↦ rw e (ground (arith, ordered.asymm (key best) (key best)), e)
    ]

    better_cases : (best r : CaseResult Float) → (better best r ≡ best) ⊎ (better best r ≡ r)
    unfolding better
    better_cases best r = elim (Bool-cases (fl.lt (key best) (key r))) [
      | inl e ↦ rw e (inr refl)
      | inr e ↦ rw e (inl refl)
    ]

    best_from_ge :
        (best : CaseResult Float) (rs : List (CaseResult Float))
        → (fl.lt (key (best_from fl key best rs)) (key best) ≡ false)
          × All (λ r. fl.lt (key (best_from fl key best rs)) (key r) ≡ false) rs
    unfolding best_from better
    best_from_ge best [] = (ground (arith, ordered.asymm (key best) (key best)), tt)
    best_from_ge best (r ∷ rs) =
        let (p, q) = better_ge best r in
        let (h, hs) = best_from_ge (better best r) rs in
        (
          ordered.le_trans (key best) (key (better best r)) _ p h,
          (ordered.le_trans (key r) (key (better best r)) _ q h, hs),
        )

    best_from_elem :
        (best : CaseResult Float) (rs : List (CaseResult Float))
        → (best_from fl key best rs ≡ best)
          ⊎ ((i : ℕ) × (get_elem? rs i ≡ some (best_from fl key best rs)))
    unfolding best_from get_elem? better
    best_from_elem best [] = inl refl
    best_from_elem best (r ∷ rs) = elim (best_from_elem (better best r) rs) [
      | inr later ↦ inr (suc later.0, later.1)
      | inl e ↦ elim (better_cases best r) [
        | inl same ↦ inl (e ∙ same)
        | inr new ↦ inr (0, ap some (sym (e ∙ new)))
      ]
    ]

    -- One of the results, and none is greater.
    pub record IsBest (rs : List (CaseResult Float)) (best : CaseResult Float) : Type 0 where
      pub listed : (i : ℕ) × (get_elem? rs i ≡ some best)
      pub greatest : All (λ r. fl.lt (key best) (key r) ≡ false) rs

    listed_at :
        (r : CaseResult Float) (rs : List (CaseResult Float))
        → (i : ℕ) × (get_elem? (r ∷ rs) i ≡ some (best_from fl key r rs))
    unfolding get_elem?
    listed_at r rs = elim (best_from_elem r rs) [
      | inl first ↦ (0, ap some (sym first))
      | inr later ↦ (suc later.0, later.1)
    ]

    best_by-IsBest :
        (rs : List (CaseResult Float)) (w : Trace)
        → Ends
            (λ best v. IsBest rs best × (v ≡ w))
            (λ e v. (e ≡ value_error) × ((rs ≡ []) × (v ≡ w)))
            (best_by fl key rs w)
    unfolding best_by
    best_by-IsBest [] w = (refl, (refl, refl))
    best_by-IsBest (r ∷ rs) w =
        (record { listed = listed_at r rs; greatest = best_from_ge r rs }, refl)

  -- A report of all the results.
  pub record Shown (fl : Floats Float) (ordered : IsOrdered fl) (results : List (CaseResult Float))
      (report : Report Float) : Type 0 where
    pub count : report.count ≡ length results
    pub performance : report.performance ≡ map performance_row results
    pub disk_usage : report.disk_usage ≡ map disk_row results
    pub best_single : IsBest fl ordered (λ r. r.benchmarks.single.tps) results report.best_single
    pub best_batch : IsBest fl ordered (λ r. r.benchmarks.batch.tps) results report.best_batch

  dereference_all :
      (st : Store Float)
      → st.all_results ≡ range_from 0 (length st.objects)
      → dereference st.objects st.all_results ≡ st.objects
  dereference_all st valid =
      ap (λ refs. dereference st.objects refs) valid ∙ dereference-append [] st.objects

  -- With floats that are ordered and references to all results, in order: the report has a line for
  -- each result in both tables, its two best results are results with the greatest rates, and its
  -- file was written. `generate_comprehensive_report` raises only where a file cannot be written, or
  -- else `ValueError`, with no results, after the report's file was opened.
  pub generate_comprehensive_report-Shown :
      (fl : Floats Float) (ordered : IsOrdered fl) (run_id : Text) (host : Host Float)
      (st : Store Float) (w : Trace)
      → st.all_results ≡ range_from 0 (length st.objects)
      → Ends
          (λ report v.
            Shown fl ordered st.objects report
            × (written (results_dir run_id ++ text "/COMPREHENSIVE_REPORT.md") v ≡ true))
          (λ e v.
            Refused host e v
            ⊎ ((e ≡ value_error)
                × ((st.objects ≡ [])
                    × (written (results_dir run_id ++ text "/COMPREHENSIVE_REPORT.md") v ≡ true))))
          (generate_comprehensive_report fl run_id host st w)
  unfolding generate_comprehensive_report
  generate_comprehensive_report-Shown fl ordered run_id host st w valid =
      let results : List (CaseResult Float) = dereference st.objects st.all_results in
      let path : Text = results_dir run_id ++ text "/COMPREHENSIVE_REPORT.md" in
      let json : Text = results_dir run_id ++ text "/all_results.json" in
      let all : results ≡ st.objects = dereference_all st valid in
      let Q : Report Float → Trace → Type 0 =
        λ report v. Shown fl ordered st.objects report × (written path v ≡ true) in
      let E : Exn → Trace → Type 0 = λ e v.
        Refused host e v ⊎ ((e ≡ value_error) × ((st.objects ≡ []) × (written path v ≡ true))) in
      let wrote_at : (p : Text) (v : Trace)
          → Ends (λ _ _. Unit {0}) E (write_file host p v)
            × Ends (λ _ u. written p u ≡ true) E (write_file host p v) =
        λ p v. (
          Ends-mono (λ _ u. u ≡ wrote_file p ∷ v) _ (Refused host) E (write_file host p v)
              (λ _ _ _. tt) (λ _ _ h. inl h) (write_file-wrote host p v),
          Ends-mono (λ _ u. u ≡ wrote_file p ∷ v) _ (Refused host) E (write_file host p v)
              (λ _ u h. rw h (wrote_written p v)) (λ _ _ h. inl h) (write_file-wrote host p v),
        ) in
      let best_at : (key : CaseResult Float → Float) (v : Trace)
          → written path v ≡ true
          → Ends (λ best u. IsBest fl ordered key st.objects best × (u ≡ v)) E
              (best_by fl key results v) =
        λ key v here. rw all (
          Ends-mono (λ best u. IsBest fl ordered key st.objects best × (u ≡ v)) _
            (λ e u. (e ≡ value_error) × ((st.objects ≡ []) × (u ≡ v))) E
            (best_by fl key st.objects v) (λ _ _ h. h)
            (λ e u (h, (empty, same)). inr (h, (empty, rw same here)))
            (best_by-IsBest fl ordered key st.objects v)) in
      Ends-bind (λ _ v. Unit {0}) Q E (write_file host json) _ w (wrote_at json w).0
        λ _ v1 _.
          Ends-bind (λ _ v. written path v ≡ true) Q E (write_file host path) _ v1
            (wrote_at path v1).1
            λ _ v2 here.
              Ends-bind
                (λ best u.
                  IsBest fl ordered (λ r. r.benchmarks.single.tps) st.objects best × (u ≡ v2))
                Q E (best_by fl (λ r. r.benchmarks.single.tps) results) _ v2
                (best_at (λ r. r.benchmarks.single.tps) v2 here)
                λ single v3 (single_best, same).
                  Ends-bind
                    (λ best u.
                      IsBest fl ordered (λ r. r.benchmarks.batch.tps) st.objects best × (u ≡ v3))
                    Q E (best_by fl (λ r. r.benchmarks.batch.tps) results) _ v3
                    (best_at (λ r. r.benchmarks.batch.tps) v3 (rw same here))
                    λ batch v4 (batch_best, same'). (
                      record {
                        count = rw valid (length-range_from 0 (length st.objects));
                        performance = ap (map performance_row) all;
                        disk_usage = ap (map disk_row) all;
                        best_single = single_best;
                        best_batch = batch_best;
                      },
                      rw (same', same) here,
                    )
