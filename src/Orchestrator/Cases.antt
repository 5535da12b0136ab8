-- ===== src/Orchestrator/Cases.antt =====
-- `run_test_case` and `run_all` of bench_orchestrator.py, with the containers that they start.
pub mod Container
pub mod Works
pub mod Shared
use sndv_kv.Prelude.{
  ℕ, zero, suc, Text, text, text_eq, decimal, Bool, true, false, List, [], ◌∷◌, ◌++◌, Option, none,
  some, length, get_elem?, ◌==◌, ◌&&◌, ◌||◌, if◌then◌else◌,
}
use sndv_kv.Python.{Host, value_error}
use sndv_kv.Python.Actions.{Py, pure, throw, ◌>>=◌, ◌>>◌, now, sleep}
use sndv_kv.Python.Files.{write_file, make_directory}
use sndv_kv.Python.Floats.{Floats}
use sndv_kv.Python.Processes.{run_program, run_captured, finally}
use sndv_kv.Orchestrator.{wait_for_server}
use sndv_kv.Orchestrator.Monitoring.{Results, run_benchmarks_with_monitoring}
use sndv_kv.Orchestrator.Disk.{DiskMetrics, collect_disk_metrics}
use sndv_kv.Orchestrator.Resources.{ResourceMetrics, collect_resource_metrics}

-- An element of `self.test_cases`.
pub record Case : Type 0 where
  pub mode : Text
  pub vcpu : Text
  pub memory : Text
  pub port : ℕ
  pub load_type : Text

unfoldable pub test_cases : List Case
test_cases =
    record {
      mode = text "safe-single";
      vcpu = text "2.0";
      memory = text "2048M";
      port = 8092;
      load_type = text "high";
    }
    ∷ record {
      mode = text "fast-batch";
      vcpu = text "2.0";
      memory = text "2048M";
      port = 8096;
      load_type = text "high";
    }
    ∷ []

unfoldable pub case_eq : Case → Case → Bool
case_eq c d =
    text_eq c.mode d.mode
    && (text_eq c.vcpu d.vcpu
        && (text_eq c.memory d.memory && (c.port == d.port && text_eq c.load_type d.load_type)))

-- Whether `self.test_cases.index(case)` finds it.
unfoldable pub is_listed : Case → List Case → Bool
unfolding case_eq
is_listed c [] = false
is_listed c (d ∷ cases) = case_eq c d || is_listed c cases

unfoldable pub case_name : Case → Text
case_name c = c.mode ++ (text "-" ++ (c.vcpu ++ (text "cpu-" ++ c.memory)))

unfoldable pub config_path : Text → Text
config_path name = text "bench_configs/" ++ (name ++ text ".json")

-- The dictionary of one test case, with its time stamp.
pub record CaseResult (Float : Type 0) : Type 0 where
  pub test_case : Text
  pub details : Case
  pub timestamp : Float
  pub benchmarks : Results Float
  pub resources : ResourceMetrics Float
  pub disk : DiskMetrics Float

-- The dictionaries that were made, and `self.all_results`, which refers to them by position: the
-- callers of `run_test_case` hold the same objects.
pub record Store (Float : Type 0) : Type 0 where
  pub objects : List (CaseResult Float)
  pub all_results : List ℕ

abbrev pub no_results : {Float : Type 0} → Store Float
no_results = record { objects = []; all_results = [] }

-- What `run_test_case` returns: a reference to a dictionary, or `None`. `out_of_fuel` is no
-- behaviour of the program: the fuel of the wait ran out.
pub data Outcome : Type 0 where
  returned : Option ℕ → Outcome
  out_of_fuel : Outcome

-- A write to one object.
unfoldable pub modify : {A : Type 0} → ℕ → (A → A) → List A → List A
modify i f [] = []
modify zero f (x ∷ xs) = f x ∷ xs
modify (suc i) f (x ∷ xs) = x ∷ modify i f xs

unfoldable pub results_dir : Text → Text
results_dir run_id = text "benchmark_results_" ++ run_id

module _ (run_id cwd : Text) where
  unfoldable pub case_dir : Case → Text
  unfolding results_dir case_name
  case_dir c = results_dir run_id ++ (text "/" ++ case_name c)

  unfoldable pub container_name : Case → Text
  unfolding case_name
  container_name c = text "bench-" ++ (case_name c ++ (text "-" ++ run_id))

  -- `path.absolute()` of a relative path
  unfoldable pub absolute : Text → Text
  absolute path = cwd ++ (text "/" ++ path)

  unfoldable pub run_cmd : Case → List Text
  unfolding container_name case_dir absolute config_path
  run_cmd c =
      text "docker"
      ∷ text "run"
      ∷ text "--name"
      ∷ container_name c
      ∷ text "--rm"
      ∷ text "-d"
      ∷ text "--cpus"
      ∷ c.vcpu
      ∷ text "--memory"
      ∷ c.memory
      ∷ text "-v"
      ∷ (absolute (case_dir c ++ text "/data") ++ text ":/app/data")
      ∷ text "-v"
      ∷ (absolute (case_dir c ++ text "/logs") ++ text ":/app/logs")
      ∷ text "-v"
      ∷ (absolute (config_path c.mode) ++ text ":/config/config.json:ro")
      ∷ text "-p"
      ∷ (decimal c.port ++ text ":8080")
      ∷ text "sndv-kv:benchmark"
      ∷ text "-config"
      ∷ text "/config/config.json"
      ∷ []

  unfoldable pub stop_cmd : Case → List Text
  unfolding container_name
  stop_cmd c = text "docker" ∷ text "stop" ∷ container_name c ∷ []

  unfoldable pub server_url : Case → Text
  server_url c = text "http://localhost:" ++ decimal c.port

  module _ {Float : Type 0} (fl : Floats Float) (host : Host Float) where
    -- The `try` block of `run_test_case`.
    unfoldable pub measure : Case → Store Float → Py (Outcome × Store Float)
    measure c st = do
      results ← run_benchmarks_with_monitoring fl host (server_url c) c.load_type
      timestamp ← now host
      resources ← collect_resource_metrics fl host (container_name c) (case_dir c)
      disk ← collect_disk_metrics fl host (case_dir c)
      write_file host (case_dir c ++ text "/metrics/results.json")
      pure (
        returned (some (length st.objects)),
        record {
          objects =
              st.objects
              ++ record {
                test_case = case_name c;
                details = c;
                timestamp = timestamp;
                benchmarks = results;
                resources = resources;
                disk = disk;
              }
                ∷ [];
          all_results = st.all_results ++ length st.objects ∷ [];
        },
      )

    -- The `finally` block.
    unfoldable pub stop_container : Case → Py (Unit {0})
    stop_container c = do run_program host (stop_cmd c); sleep

    -- From the wait for the server on.
    unfoldable pub after_start : Case → Store Float → Option Bool → Py (Outcome × Store Float)
    unfolding measure stop_container
    after_start c st none = pure (out_of_fuel, st)
    after_start c st (some false) = do run_program host (stop_cmd c); pure (returned none, st)
    after_start c st (some true) = finally (measure c st) (stop_container c)

    unfoldable pub run_test_case : ℕ → Case → Store Float → Py (Outcome × Store Float)
    unfolding after_start is_listed
    run_test_case fuel c st =
        if is_listed c test_cases
        then (do
          make_directory host (case_dir c)
          make_directory host (case_dir c ++ text "/data")
          make_directory host (case_dir c ++ text "/logs")
          make_directory host (case_dir c ++ text "/metrics")
          result ← run_captured host (run_cmd c)
          if result.0 == 0
              then (do ready ← wait_for_server fl host (server_url c) fuel; after_start c st ready)
              else pure (returned none, st))
        else throw value_error

    -- The rest of a round of `run_all`: the metrics are collected again, and written into the result.
    unfoldable pub collect_again : Case → Outcome × Store Float → Py (Outcome × Store Float)
    unfolding modify
    collect_again c (returned (some ref), st) = do
      resources ← collect_resource_metrics fl host (container_name c) (case_dir c)
      disk ← collect_disk_metrics fl host (case_dir c)
      pure (
        returned (some ref),
        record st {
          objects = modify ref (λ r. record r { resources = resources; disk = disk }) st.objects;
        },
      )
    collect_again c (outcome, st) = pure (outcome, st)

    -- `none` when the fuel of a wait ran out.
    unfoldable pub run_cases : ℕ → List Case → Store Float → Py (Option (Store Float))
    unfolding collect_again
    run_cases fuel [] st = pure (some st)
    run_cases fuel (c ∷ cases) st = do
      outcome ← run_test_case fuel c st
      again ← collect_again c outcome
      elim again.0 [ out_of_fuel ↦ pure none | returned _ ↦ run_cases fuel cases again.1 ]

    unfoldable pub run_all : ℕ → Py (Option (Store Float))
    unfolding test_cases
    run_all fuel = run_cases fuel test_cases no_results
