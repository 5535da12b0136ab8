-- ===== src/Tests/Cases.antt =====
-- The theorems about the test cases of bench_orchestrator.py, on a host with docker.
use sndv_kv.Prelude.{
  ℕ, ◌-◌, ◌*◌, ◌≡◌, ◌≤◌, ◌⊎◌, refl, text, text_eq, Text, true, false, ltb, List, [], ◌∷◌, ◌++◌,
  none, some, All, range_from, length, arith, if◌then◌else◌, Bool,
}
use sndv_kv.Python.{exited, Ran, Trace, Host, ok, raise, value_error}
use sndv_kv.Python.Counts.{naps}
use sndv_kv.Python.Files.{written, Refused}
use sndv_kv.Python.Loops.{Ends, Never}
use sndv_kv.Python.Processes.{Always}
use sndv_kv.Python.Texts.{starts_with}
use sndv_kv.Python.Running.{left_running}
use sndv_kv.Orchestrator.Cases.{
  Case, Store, no_results, run_test_case, run_all, test_cases, is_listed, results_dir, stop_cmd,
  CaseResult, case_eq,
}
use sndv_kv.Orchestrator.Cases.Container.{Stopped, run_test_case-Stopped}
use sndv_kv.Orchestrator.Cases.Works.{Works}
use sndv_kv.Orchestrator.Cases.Shared.{IsBlank, Removes, run_all-IsBlank}
use sndv_kv.Orchestrator.Resources.{stats_cmd, memory_of}
use sndv_kv.Orchestrator.Resources.Figures.{IsFigure, memory_of_units}
use sndv_kv.Orchestrator.Setup.{setup}
use sndv_kv.Orchestrator.Setup.Durability.{IsMounted, Switches, setup-durability}
use sndv_kv.Orchestrator.Artifacts.{build_image}
use sndv_kv.Orchestrator.Artifacts.Cleanup.{Cleaned, build_image-Cleaned}
use sndv_kv.Orchestrator.Report.Best.{Shown, generate_comprehensive_report-Shown}
use sndv_kv.Orchestrator.Report.{generate_comprehensive_report}
use sndv_kv.Orchestrator.Main.{main}
use sndv_kv.Orchestrator.Main.Exit.{Exited, Reported, main-Exited}
use sndv_kv.Tests.{floats, floats-IsOrdered, host, naps-append}

-- `docker stats` fails, and every other program succeeds.
abbrev answer : List Text → Ran
answer (docker ∷ command ∷ args) =
    if text_eq command (text "stats") then exited 1 [] else exited 0 []
answer args = exited 0 []

abbrev docker_host : Host ℕ
docker_host = record host { run = λ w args. answer args }

abbrev run_id : Text
run_id = text "20260101"

abbrev cwd : Text
cwd = text "/srv"

answers_works : (args : List Text) → (code : ℕ) × (out : Text) × (answer args ≡ exited code out)
answers_works [] = (0, [], refl)
answers_works (docker ∷ []) = (0, [], refl)
answers_works (docker ∷ command ∷ args) = go (text_eq command (text "stats"))
  where
    go :
        (b : Bool)
        → (code : ℕ) × (out : Text) × ((if b then exited 1 [] else exited 0 []) ≡ exited code out)
    go true = (1, [], refl)
    go false = (0, [], refl)

docker_host-Works : Works docker_host
docker_host-Works = record { runs = λ w args. answers_works args; writes = λ w path. refl }

docker_host-Removes : Removes run_id cwd floats docker_host
unfolding text_eq stop_cmd stats_cmd
docker_host-Removes = record { stops = λ c w. ([], refl); gone = λ c w out e. (0, [], refl) }

waits : (w v : Trace) → 1 ≤ naps v → ltb (naps (v ++ w) * 15 - naps w * 15) 15 ≡ false
waits w v h = ground (arith, naps-append v w)

abbrev some_case : Case
some_case = record {
  mode = text "fast-batch";
  vcpu = text "2.0";
  memory = text "2048M";
  port = 8096;
  load_type = text "high";
}

some_case-listed : is_listed some_case test_cases ≡ true
unfolding is_listed test_cases case_eq text_eq
some_case-listed = refl

nothing_left : Stopped run_id cwd floats docker_host some_case []
unfolding left_running
nothing_left = refl

run_test_case-Stopped_example :
    Always
      (Stopped run_id cwd floats docker_host some_case)
      (run_test_case run_id cwd floats docker_host 2 some_case no_results [])
run_test_case-Stopped_example =
    run_test_case-Stopped run_id cwd floats docker_host some_case 1 1 (omega arith) waits no_results
      [] nothing_left

run_all-IsBlank_example :
    Ends
      (λ r _. (st : Store ℕ) × (r ≡ some st) × IsBlank run_id cwd floats docker_host st)
      Never
      (run_all run_id cwd floats docker_host 2 [])
run_all-IsBlank_example =
    run_all-IsBlank run_id cwd floats docker_host docker_host-Works docker_host-Removes 1 1
      (omega arith) waits []

main-Exited_example :
    Ends
      (Exited run_id cwd floats docker_host)
      (λ e v. (e ≡ value_error) × Reported run_id cwd floats docker_host v)
      (main run_id cwd floats docker_host 2 [])
main-Exited_example =
    main-Exited run_id cwd floats docker_host docker_host-Works docker_host-Removes floats-IsOrdered
      1 1 (omega arith) waits []

no_container : Cleaned run_id docker_host []
unfolding left_running
no_container = refl

build_image-Cleaned_example :
    Always (Cleaned run_id docker_host) (build_image run_id docker_host [])
build_image-Cleaned_example = build_image-Cleaned run_id docker_host [] no_container

setup-durability_example :
    (path : Text) × IsMounted run_id cwd some_case path
    × Ends
        (λ _ v. Switches path (starts_with (text "safe-") some_case.mode) v)
        (Refused docker_host)
        (setup docker_host run_id [])
setup-durability_example = setup-durability docker_host run_id cwd some_case [] some_case-listed

abbrev some_result : ℕ → CaseResult ℕ
some_result tps = record {
  test_case = text "fast-batch";
  details = some_case;
  timestamp = 0;
  benchmarks = record {
    single = record {
      count = 1;
      success = 1;
      tps = tps;
      p50_ms = 1;
      p95_ms = 1;
      p99_ms = 1;
      avg_ms = 1;
    };
    batch = record { total = 1; batch_size = 1; success = 1; tps = 10 - tps; batches = 1 };
    stress = none;
  };
  resources = record { memory_mb = 0; cpu_percent = 0 };
  disk = record {
    data_mb = 0;
    wal_mb = 0;
    sstable_mb = 0;
    wal_files = 0;
    sstable_files = 0;
    total_files = 0;
  };
}

abbrev some_store : Store ℕ
some_store = record { objects = some_result 3 ∷ some_result 7 ∷ []; all_results = 0 ∷ 1 ∷ [] }

some_store-valid : some_store.all_results ≡ range_from 0 (length some_store.objects)
unfolding range_from
some_store-valid = refl

generate_comprehensive_report-Shown_example :
    Ends
      (λ report v.
        Shown floats floats-IsOrdered some_store.objects report
        × (written (results_dir run_id ++ text "/COMPREHENSIVE_REPORT.md") v ≡ true))
      (λ e v.
        Refused docker_host e v
        ⊎ ((e ≡ value_error)
            × ((some_store.objects ≡ [])
                × (written (results_dir run_id ++ text "/COMPREHENSIVE_REPORT.md") v ≡ true))))
      (generate_comprehensive_report floats run_id docker_host some_store [])
generate_comprehensive_report-Shown_example =
    generate_comprehensive_report-Shown floats floats-IsOrdered run_id docker_host some_store []
      some_store-valid

-- No text with a unit is a number, and "512" is.
abbrev parsing_host : Host ℕ
parsing_host = record host { parse = λ s. if text_eq s (text "512") then some 512 else none }

figures_512 : All IsFigure (text "512")
figures_512 = ground arith

memory_of_units_example :
    (memory_of floats parsing_host ((text "512" ++ text "MiB") ++ (text " / " ++ text "2GiB")) []
      ≡ (ok 512, []))
    × (memory_of floats parsing_host ((text "512" ++ text "GiB") ++ (text " / " ++ text "2GiB")) []
        ≡ (ok 524288, []))
    × (memory_of floats parsing_host ((text "512" ++ text "KiB") ++ (text " / " ++ text "2GiB")) []
        ≡ (raise value_error, []))
unfolding text_eq
memory_of_units_example =
    memory_of_units floats parsing_host (text "512") (text "2GiB") figures_512 [] refl
