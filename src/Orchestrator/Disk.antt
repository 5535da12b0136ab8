-- ===== src/Orchestrator/Disk.antt =====
-- `collect_disk_metrics` of bench_orchestrator.py.
pub mod Shares
use sndv_kv.Prelude.{ℕ, ◌+◌, ◌*◌, Text, text, Bool, List, [], ◌∷◌, ◌++◌, ◌&&◌, if◌then◌else◌}
use sndv_kv.Python.{Host, Item}
use sndv_kv.Python.Actions.{Py, pure, ◌>>=◌, ◌>>◌}
use sndv_kv.Python.Files.{write_file}
use sndv_kv.Python.Floats.{Floats}
use sndv_kv.Python.Texts.{starts_with, ends_with}

-- `data_dir.glob('wal.log*')` and `data_dir.rglob('*.sst')`, as tests of an entry.
unfoldable pub is_wal : Item → Bool
unfolding starts_with
is_wal i = i.at_top && starts_with (text "wal.log") i.name

unfoldable pub is_sstable : Item → Bool
unfolding ends_with
is_sstable i = ends_with (text ".sst") i.name

-- The sizes of the files that pass a test, in bytes, and the number of entries that do.
unfoldable pub sizes : (Item → Bool) → List Item → ℕ
sizes p [] = 0
sizes p (i ∷ items) = (if p i && i.is_file then i.size else 0) + sizes p items

unfoldable pub entries : (Item → Bool) → List Item → ℕ
entries p [] = 0
entries p (i ∷ items) = (if p i then 1 else 0) + entries p items

-- What is counted, before the conversion into megabytes.
pub record Usage : Type 0 where
  pub data_size : ℕ
  pub wal_size : ℕ
  pub sstable_size : ℕ
  pub wal_files : ℕ
  pub sstable_files : ℕ
  pub total_files : ℕ

unfoldable pub usage_of : List Item → Usage
unfolding sizes entries is_wal is_sstable
usage_of items = record {
  data_size = sizes (λ _. Bool.true) items;
  wal_size = sizes is_wal items;
  sstable_size = sizes is_sstable items;
  wal_files = entries is_wal items;
  sstable_files = entries is_sstable items;
  total_files = entries (λ _. Bool.true) items;
}

-- The dictionary of the metrics.
pub record DiskMetrics (Float : Type 0) : Type 0 where
  pub data_mb : Float
  pub wal_mb : Float
  pub sstable_mb : Float
  pub wal_files : ℕ
  pub sstable_files : ℕ
  pub total_files : ℕ

module _ {Float : Type 0} (fl : Floats Float) (host : Host Float) where
  -- `size / (1024 * 1024)`
  abbrev pub megabytes : ℕ → Float
  megabytes size = fl.div (fl.of_ℕ size) (fl.of_ℕ (1024 * 1024))

  unfoldable pub metrics_of : Usage → DiskMetrics Float
  metrics_of u = record {
    data_mb = megabytes u.data_size;
    wal_mb = megabytes u.wal_size;
    sstable_mb = megabytes u.sstable_size;
    wal_files = u.wal_files;
    sstable_files = u.sstable_files;
    total_files = u.total_files;
  }

  -- The listings of the directory are taken at one moment, when nothing else writes to it.
  unfoldable pub collect_disk_metrics : Text → Py (DiskMetrics Float)
  unfolding metrics_of usage_of
  collect_disk_metrics case_dir w =
      let m = metrics_of (usage_of (host.found w (case_dir ++ text "/data"))) in
      (write_file host (case_dir ++ text "/metrics/disk.json") >> pure m) w
