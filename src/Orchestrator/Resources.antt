-- ===== src/Orchestrator/Resources.antt =====
-- `collect_resource_metrics` of bench_orchestrator.py, and what it reads off `docker stats`.
pub mod Figures
use sndv_kv.Prelude.{
  ℕ, zero, suc, Text, text, Bool, true, false, List, [], ◌∷◌, ◌++◌, Option, none, some, ◌==◌, ◌||◌,
  if◌then◌else◌,
}
use sndv_kv.Python.{Json, string, object, Fields, end, field, Host, attribute_error, value_error}
use sndv_kv.Prelude.{text_eq}
use sndv_kv.Python.Actions.{Py, pure, throw, ◌>>=◌, ◌>>◌, catch, decode}
use sndv_kv.Python.Files.{write_file}
use sndv_kv.Python.Floats.{Floats}
use sndv_kv.Python.Processes.{run_captured}
use sndv_kv.Python.Texts.{cut, strip, remove, contains}

-- The dictionary of the metrics; the raw answer, which nothing reads, is left out.
pub record ResourceMetrics (Float : Type 0) : Type 0 where
  pub memory_mb : Float
  pub cpu_percent : Float

-- `s.split(p)[0]`
unfoldable pub first_part : Text → Text → Text
unfolding cut
first_part p s = elim (cut p s) [ none ↦ s | some (before, _) ↦ before ]

-- `stats.get(key, default)` of a dictionary with texts, on which the caller calls a method of `str`.
unfoldable pub text_field : Text → Text → Fields → Option Text
text_field key default end = some default
text_field key default (field j v fs) =
    if text_eq j key then (elim v [ string s ↦ some s | _ ↦ none ]) else text_field key default fs

-- `stats.get(key, default)` of what `json.loads` returned.
unfoldable pub get_text : Text → Text → Json → Py Text
unfolding text_field
get_text key default (object fs) = elim (text_field key default fs) [
  | none ↦ throw attribute_error
  | some s ↦ pure s
]
get_text key default _ = throw attribute_error

-- `mem_used_str`, without its unit.
unfoldable pub used_part : Text → Text
unfolding first_part strip
used_part mem_usage = strip (first_part (text "/") mem_usage)

unfoldable pub without_unit : Text → Text
unfolding remove strip
without_unit mem_used = strip (remove (text "GiB") (remove (text "MiB") mem_used))

unfoldable pub stats_cmd : Text → List Text
stats_cmd container =
    text "docker"
    ∷ text "stats"
    ∷ container
    ∷ text "--no-stream"
    ∷ text "--format"
    ∷ text "{{json .}}"
    ∷ []

module _ {Float : Type 0} (fl : Floats Float) (host : Host Float) where
  -- `float(s)`
  abbrev pub float_of : Text → Py Float
  float_of s = elim (host.parse s) [ none ↦ throw value_error | some x ↦ pure x ]

  unfoldable pub memory_of : Text → Py Float
  unfolding used_part without_unit contains
  memory_of mem_usage = do
    mem_value ← float_of (without_unit (used_part mem_usage))
    pure (
        if contains (text "GiB") (used_part mem_usage)
        then fl.mul mem_value (fl.of_ℕ 1024)
        else mem_value)

  unfoldable pub cpu_of : Text → Py Float
  unfolding remove strip
  cpu_of percent = elim (strip (remove (text "%") percent)) [
    | [] ↦ pure (fl.of_ℕ 0)
    | c ∷ s ↦ float_of (c ∷ s)
  ]

  -- What is returned after a failure.
  abbrev pub no_metrics : ResourceMetrics Float
  no_metrics = record { memory_mb = fl.of_ℕ 0; cpu_percent = fl.of_ℕ 0 }

  -- The `try` block. `current_result` is never set.
  unfoldable pub read_stats : Text → Text → Py (ResourceMetrics Float)
  unfolding memory_of cpu_of get_text
  read_stats case_dir out = do
    stats ← decode host out
    mem_usage ← get_text (text "MemUsage") (text "0 / 0") stats
    mem_value ← memory_of mem_usage
    percent ← get_text (text "CPUPerc") (text "0%") stats
    cpu_value ← cpu_of percent
    write_file host (case_dir ++ text "/metrics/resources.json")
    pure (record { memory_mb = mem_value; cpu_percent = cpu_value })

  -- `result.returncode == 0 and result.stdout`
  unfoldable pub stats_or_none : Text → ℕ × Text → Py (ResourceMetrics Float)
  unfolding read_stats
  stats_or_none case_dir (code, []) = pure no_metrics
  stats_or_none case_dir (code, c ∷ out) =
      if code == 0
      then catch (read_stats case_dir (c ∷ out)) (λ _. pure no_metrics)
      else pure no_metrics

  unfoldable pub collect_resource_metrics : Text → Text → Py (ResourceMetrics Float)
  unfolding stats_or_none stats_cmd
  collect_resource_metrics container case_dir = do
    result ← run_captured host (stats_cmd container)
    stats_or_none case_dir result
