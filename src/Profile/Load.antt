-- ===== src/Profile/Load.antt =====
-- `run_load_test` of profile_server.py: what it sends, and how it can fail.
use sndv_kv.Prelude.{ℕ, ◌+◌, ◌≡◌, ◌≤◌}
use sndv_kv.Python.{Exn, zero_division_error, Trace}
use sndv_kv.Python.Floats.{Floats}
use sndv_kv.Python.Counts.{sent}

-- A division by zero, after at least `n` requests.
abbrev pub DividedAfter : ℕ → Trace → Exn → Trace → Type 0
DividedAfter n w e v = (e ≡ zero_division_error) × (sent w + n ≤ sent v)
