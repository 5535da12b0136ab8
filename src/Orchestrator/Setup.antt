-- ===== src/Orchestrator/Setup.antt =====
-- `setup` and `generate_all_configs` of bench_orchestrator.py.
pub mod Durability
use sndv_kv.Prelude.{
  ℕ, ℤ, pos, negsuc, Text, text, text_eq, Bool, true, false, List, [], ◌∷◌, ◌++◌, if◌then◌else◌,
}
use sndv_kv.Python.{Json, number, string, boolean, object, Fields, end, field, int, Host}
use sndv_kv.Python.Actions.{Py, pure, ◌>>=◌, ◌>>◌}
use sndv_kv.Python.Files.{dump_json, make_directory}
use sndv_kv.Orchestrator.Cases.{results_dir, config_path}

-- The entries of a dictionary, in the order in which the keys came in.
abbrev pub Config : Type 0
Config = List (Text × Json)

-- `{**config, key: value}`
unfoldable pub with_entry : Text → Json → Config → Config
with_entry key v [] = (key, v) ∷ []
with_entry key v ((j, x) ∷ entries) =
    if text_eq j key then (j, v) ∷ entries else (j, x) ∷ with_entry key v entries

-- The object that `json.dump` writes for a dictionary.
unfoldable pub fields_of : Config → Fields
fields_of [] = end
fields_of ((key, v) ∷ entries) = field key v (fields_of entries)

unfoldable pub base : Config
base =
    (text "server_port", int (pos 8080))
    ∷ (text "data_directory_path", string (text "/app/data"))
    ∷ (text "write_ahead_log_file_path", string (text "/app/data/wal.log"))
    ∷ (text "log_directory_path", string (text "/app/logs"))
    ∷ (text "maximum_memtable_size_in_bytes", int (pos 67108864))
    ∷ (text "level_zero_compaction_trigger_count", int (pos 4))
    ∷ (text "sstable_block_size_in_bytes", int (pos 4096))
    ∷ (text "bloom_filter_false_positive_rate", number (pos 1) (negsuc 1))
    ∷ (text "compaction_interval_in_seconds", int (pos 5))
    ∷ (text "authentication_secret", string (text "BENCHMARK_SECRET"))
    ∷ (text "authentication_token", string [])
    ∷ (text "maximum_cpu_count", int (pos 0))
    ∷ (text "maximum_system_memory_in_bytes", int (pos 0))
    ∷ (text "enable_pprof_profiling", boolean false)
    ∷ (text "key_cache_capacity_count", int (pos 40000))
    ∷ (text "log_severity_level", string (text "INFO"))
    ∷ []

unfoldable pub configs : List (Text × Config)
unfolding base with_entry
configs =
    let safe : Config = with_entry (text "enable_disk_durability") (boolean true) base in
    let fast : Config = with_entry (text "enable_disk_durability") (boolean false) base in
    (text "safe-single", safe)
    ∷ (text "safe-batch", safe)
    ∷ (text "fast-single", fast)
    ∷ (text "fast-batch", fast)
    ∷ []

module _ {Float : Type 0} (host : Host Float) where
  unfoldable pub write_configs : List (Text × Config) → Py (Unit {0})
  unfolding config_path fields_of
  write_configs [] = pure tt
  write_configs ((name, config) ∷ rest) = do
    dump_json host (config_path name) (object (fields_of config))
    write_configs rest

  unfoldable pub generate_all_configs : Py (Unit {0})
  unfolding write_configs configs
  generate_all_configs = do make_directory host (text "bench_configs"); write_configs configs

  unfoldable pub setup : Text → Py (Unit {0})
  unfolding generate_all_configs results_dir
  setup run_id = do
    make_directory host (results_dir run_id)
    make_directory host (results_dir run_id ++ text "/build_artifacts")
    generate_all_configs
