-- ===== src/Orchestrator/Setup/Durability.antt =====
-- The configuration files of bench_orchestrator.py: the one that a test case mounts, and what
-- stands in it.
use sndv_kv.Prelude.{
  ◌≡◌, refl, sym, inl, inr, Text, text, text_eq, text_eq_iff, Bool, true, Bool-cases, List, [], ◌∷◌,
  ◌++◌, Option, some, ◌||◌, arith, if◌then◌else◌,
}
use mathlib.Core.Path.{subst}
use sndv_kv.Python.{Json, object, Fields, boolean, wrote_json, Trace, Host}
use sndv_kv.Python.Files.{
  make_directory, dump_json, content_of, Refused, make_directory-Refused, dump_json-wrote,
}
use sndv_kv.Python.Loops.{Ends, Ends-bind, Ends-map}
use sndv_kv.Python.Texts.{starts_with}
use sndv_kv.Client.{get_field}
use sndv_kv.Orchestrator.Cases.{
  Case, case_eq, case_name, test_cases, is_listed, results_dir, config_path, container_name,
  case_dir, absolute, run_cmd,
}
use sndv_kv.Orchestrator.Setup.{
  Config, fields_of, with_entry, base, configs, write_configs, generate_all_configs, setup,
}

-- Options of `docker run` that take no value.
abbrev is_bare : Text → Bool
is_bare flag = text_eq flag (text "--rm") || text_eq flag (text "-d")

-- The volumes among the arguments of `docker run`: its options come first, and each takes a value
-- if it is not a bare one.
unfoldable pub volumes_among : List Text → List Text
unfolding starts_with
volumes_among [] = []
volumes_among (flag ∷ []) = []
volumes_among (flag ∷ value ∷ args) =
    let bare = volumes_among (value ∷ args) in
    let more = volumes_among args in
    if is_bare flag
    then bare
    else if text_eq flag (text "-v")
    then value ∷ more
    else if starts_with (text "-") flag
    then more
    else []

-- What follows the image: the arguments of the program in the container.
unfoldable pub program_among : List Text → List Text
unfolding starts_with
program_among [] = []
program_among (flag ∷ []) = []
program_among (flag ∷ value ∷ args) =
    let bare = program_among (value ∷ args) in
    let more = program_among args in
    if is_bare flag then bare else if starts_with (text "-") flag then more else value ∷ args

abbrev pub volumes_of : List Text → List Text
volumes_of (docker ∷ run ∷ args) = volumes_among args
volumes_of args = []

abbrev pub program_of : List Text → List Text
program_of (docker ∷ run ∷ args) = program_among args
program_of args = []

same_case :
    (c d : Case)
    → c.mode ≡ d.mode
    → c.vcpu ≡ d.vcpu
    → c.memory ≡ d.memory
    → c.port ≡ d.port
    → c.load_type ≡ d.load_type
    → c ≡ d
same_case c d mode vcpu memory port load i = record {
  mode = mode i;
  vcpu = vcpu i;
  memory = memory i;
  port = port i;
  load_type = load i;
}

case_eq_lem : (c d : Case) → case_eq c d ≡ true → c ≡ d
unfolding case_eq
case_eq_lem c d h =
    let same : (s t : Text) → text_eq s t ≡ true → s ≡ t = λ s t. (text_eq_iff s t).0 in
    same_case c d (same c.mode d.mode (ground arith)) (same c.vcpu d.vcpu (ground arith))
      (same c.memory d.memory (ground arith)) (ground arith)
      (same c.load_type d.load_type (ground arith))

abbrev safe_case : Case
safe_case = record {
  mode = text "safe-single";
  vcpu = text "2.0";
  memory = text "2048M";
  port = 8092;
  load_type = text "high";
}

abbrev fast_case : Case
fast_case = record {
  mode = text "fast-batch";
  vcpu = text "2.0";
  memory = text "2048M";
  port = 8096;
  load_type = text "high";
}

-- What holds of the two test cases holds of a listed one.
for_listed :
    (P : Case → Type 0)
    → P safe_case
    → P fast_case
    → (c : Case) → is_listed c test_cases ≡ true
    → P c
unfolding is_listed test_cases
for_listed P safe fast c h = elim (Bool-cases (case_eq c safe_case)) [
  | inl e ↦ subst P (sym (case_eq_lem c safe_case e)) safe
  | inr e ↦ subst P (sym (case_eq_lem c fast_case (ground (arith, h, e)))) fast
]

-- The container of a test case has the file mounted, read-only, from which the server reads its
-- configuration, and beside it only its directories for data and logs.
abbrev pub IsMounted : Text → Text → Case → Text → Type 0
IsMounted run_id cwd c path =
    (volumes_of (run_cmd run_id cwd c)
      ≡ (absolute run_id cwd (case_dir run_id cwd c ++ text "/data") ++ text ":/app/data")
        ∷ (absolute run_id cwd (case_dir run_id cwd c ++ text "/logs") ++ text ":/app/logs")
        ∷ (cwd ++ (text "/" ++ path) ++ text ":/config/config.json:ro")
        ∷ [])
    × (program_of (run_cmd run_id cwd c) ≡ text "-config" ∷ text "/config/config.json" ∷ [])

-- The file was last written with an object that has the durability switched on or off.
abbrev pub Switches : Text → Bool → Trace → Type 0
Switches path on v =
    (fs : Fields) × (content_of path v ≡ some (object fs))
    × (get_field (text "enable_disk_durability") fs ≡ boolean on)

-- What the files of a list of configurations leave in one file.
latest : Text → List (Text × Config) → Option Json → Option Json
latest path [] o = o
latest path ((name, config) ∷ entries) o =
    latest path entries
      (if text_eq path (config_path name) then some (object (fields_of config)) else o)

module _ {Float : Type 0} (host : Host Float) where
  write_configs-latest :
      (path : Text) (entries : List (Text × Config)) (w : Trace)
      → Ends
          (λ _ v. content_of path v ≡ latest path entries (content_of path w))
          (Refused host)
          (write_configs host entries w)
  unfolding write_configs latest text_eq content_of
  write_configs-latest path [] w = refl
  write_configs-latest path ((name, config) ∷ entries) w =
      let j : Json = object (fields_of config) in
      let Q : Unit {0} → Trace → Type 0 =
        λ _ v. content_of path v ≡ latest path ((name, config) ∷ entries) (content_of path w) in
      Ends-bind (λ _ v. v ≡ wrote_json (config_path name) j ∷ w) Q (Refused host)
        (dump_json host (config_path name) j) _ w (dump_json-wrote host (config_path name) j w)
        λ _ v e.
          subst (λ u. Ends Q (Refused host) (write_configs host entries u)) (sym e)
            (write_configs-latest path entries (wrote_json (config_path name) j ∷ w))

  setup-latest :
      (run_id path : Text) (w : Trace)
      → Ends
          (λ _ v. (o : Option Json) × (content_of path v ≡ latest path configs o))
          (Refused host)
          (setup host run_id w)
  unfolding setup generate_all_configs
  setup-latest run_id path w =
      let Q : Unit {0} → Trace → Type 0 =
        λ _ v. (o : Option Json) × (content_of path v ≡ latest path configs o) in
      let dir : Text = results_dir run_id in
      let artifacts : Text = dir ++ text "/build_artifacts" in
      Ends-bind (λ _ _. Unit {0}) Q (Refused host) (make_directory host dir) _ w
        (make_directory-Refused host dir w)
        λ _ v1 _.
          Ends-bind (λ _ _. Unit {0}) Q (Refused host) (make_directory host artifacts) _ v1
            (make_directory-Refused host artifacts v1)
            λ _ v2 _.
              Ends-bind (λ _ _. Unit {0}) Q (Refused host)
                (make_directory host (text "bench_configs")) _ v2
                (make_directory-Refused host (text "bench_configs") v2)
                λ _ v3 _.
                  Ends-map _ Q (Refused host) (write_configs host configs v3)
                    (λ _ v e. (content_of path v3, e)) (write_configs-latest path configs v3)

  abbrev MountsIts : Text → Text → Trace → Case → Type 0
  MountsIts run_id cwd w c =
      (path : Text) × IsMounted run_id cwd c path
      × Ends (λ _ v. Switches path (starts_with (text "safe-") c.mode) v) (Refused host)
          (setup host run_id w)

  safe_case_lem : (run_id cwd : Text) (w : Trace) → MountsIts run_id cwd w safe_case
  unfolding latest configs with_entry base fields_of text_eq starts_with config_path volumes_among
      program_among run_cmd case_dir absolute container_name case_name get_field
  safe_case_lem run_id cwd w = (
    config_path (text "safe-single"),
    (refl, refl),
    Ends-map _ _ (Refused host) (setup host run_id w) (λ _ v h. (_, h.1, refl))
        (setup-latest run_id (config_path (text "safe-single")) w),
  )

  fast_case_lem : (run_id cwd : Text) (w : Trace) → MountsIts run_id cwd w fast_case
  unfolding latest configs with_entry base fields_of text_eq starts_with config_path volumes_among
      program_among run_cmd case_dir absolute container_name case_name get_field
  fast_case_lem run_id cwd w = (
    config_path (text "fast-batch"),
    (refl, refl),
    Ends-map _ _ (Refused host) (setup host run_id w) (λ _ v h. (_, h.1, refl))
        (setup-latest run_id (config_path (text "fast-batch")) w),
  )

  -- For a listed test case there is a file, relative to the working directory, that the
  -- command of its container mounts as the file from which the server reads its configuration;
  -- when `setup` returns, that file was last written with an object whose entry
  -- "enable_disk_durability" is true exactly if the mode of the case is a safe one. The only
  -- exception of `setup` is that of a file or directory that cannot be written.
  pub setup-durability :
      (run_id cwd : Text) (c : Case) (w : Trace)
      → is_listed c test_cases ≡ true
      → (path : Text) × IsMounted run_id cwd c path
        × Ends
            (λ _ v. Switches path (starts_with (text "safe-") c.mode) v)
            (Refused host)
            (setup host run_id w)
  setup-durability run_id cwd c w h =
      for_listed (MountsIts run_id cwd w) (safe_case_lem run_id cwd w) (fast_case_lem run_id cwd w)
        c h
