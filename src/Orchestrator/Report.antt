-- ===== src/Orchestrator/Report.antt =====
-- `generate_comprehensive_report` of bench_orchestrator.py. The report is the data that it shows: how
-- the numbers are rounded and laid out as Markdown is left out.
pub mod Best
use sndv_kv.Prelude.{
  ℕ, Text, text, List, [], ◌∷◌, ◌++◌, map, Option, none, some, get_elem?, length, if◌then◌else◌,
}
use sndv_kv.Python.{Host, value_error}
use sndv_kv.Python.Actions.{Py, pure, throw, ◌>>=◌, ◌>>◌}
use sndv_kv.Python.Files.{write_file}
use sndv_kv.Python.Floats.{Floats}
use sndv_kv.Orchestrator.Cases.{CaseResult, Store, results_dir}

-- A line of the performance table.
pub record PerformanceRow (Float : Type 0) : Type 0 where
  pub test_case : Text
  pub vcpu : Text
  pub memory : Text
  pub single_tps : Float
  pub batch_tps : Float
  pub p95_ms : Float
  pub memory_mb : Float
  pub cpu_percent : Float

-- A line of the table of disk usage.
pub record DiskRow (Float : Type 0) : Type 0 where
  pub test_case : Text
  pub data_mb : Float
  pub wal_mb : Float
  pub sstable_mb : Float
  pub wal_files : ℕ

pub record Report (Float : Type 0) : Type 0 where
  pub count : ℕ
  pub performance : List (PerformanceRow Float)
  pub disk_usage : List (DiskRow Float)
  pub best_single : CaseResult Float
  pub best_batch : CaseResult Float

module _ {Float : Type 0} where
  -- The dictionaries that references stand for; none of the program's references dangles.
  unfoldable pub dereference : List (CaseResult Float) → List ℕ → List (CaseResult Float)
  dereference objects [] = []
  dereference objects (ref ∷ refs) =
      let rest = dereference objects refs in
      elim (get_elem? objects ref) [ none ↦ rest | some r ↦ r ∷ rest ]

  unfoldable pub performance_row : CaseResult Float → PerformanceRow Float
  performance_row r = record {
    test_case = r.test_case;
    vcpu = r.details.vcpu;
    memory = r.details.memory;
    single_tps = r.benchmarks.single.tps;
    batch_tps = r.benchmarks.batch.tps;
    p95_ms = r.benchmarks.single.p95_ms;
    memory_mb = r.resources.memory_mb;
    cpu_percent = r.resources.cpu_percent;
  }

  unfoldable pub disk_row : CaseResult Float → DiskRow Float
  disk_row r = record {
    test_case = r.test_case;
    data_mb = r.disk.data_mb;
    wal_mb = r.disk.wal_mb;
    sstable_mb = r.disk.sstable_mb;
    wal_files = r.disk.wal_files;
  }

  module _ (fl : Floats Float) where
    -- The rest of `max(…, key=key)`, with the best element so far.
    unfoldable pub best_from :
        (CaseResult Float → Float) → CaseResult Float → List (CaseResult Float) → CaseResult Float
    best_from key best [] = best
    best_from key best (r ∷ rs) = best_from key (if fl.lt (key best) (key r) then r else best) rs

    -- `max(rs, key=key)`
    unfoldable pub best_by :
        (CaseResult Float → Float) → List (CaseResult Float) → Py (CaseResult Float)
    unfolding best_from
    best_by key [] = throw value_error
    best_by key (r ∷ rs) = pure (best_from key r rs)

    unfoldable pub generate_comprehensive_report :
        Text → Host Float → Store Float → Py (Report Float)
    unfolding best_by dereference performance_row disk_row results_dir
    generate_comprehensive_report run_id host st = do
      let results : List (CaseResult Float) = dereference st.objects st.all_results
      write_file host (results_dir run_id ++ text "/all_results.json")
      write_file host (results_dir run_id ++ text "/COMPREHENSIVE_REPORT.md")
      best_single ← best_by (λ r. r.benchmarks.single.tps) results
      best_batch ← best_by (λ r. r.benchmarks.batch.tps) results
      pure (record {
        count = length st.all_results;
        performance = map performance_row results;
        disk_usage = map disk_row results;
        best_single = best_single;
        best_batch = best_batch;
      })
