-- ===== src/Tests.antt =====
-- A concrete world for the theorems: floats that count whole units, a clock that moves with each
-- sleep, and a server that has one key.
mod Client
mod Benchmarks
mod Integration
mod QuickBench
mod Server
mod Processes
mod Cases
mod Store
mod Api
mod Compaction
mod Rotation
use sndv_kv.Prelude.{
  ℕ, ◌+◌, ◌-◌, ◌*◌, ◌/◌, ◌≡◌, ◌≤◌, true, false, ltb, List, [], ◌∷◌, ◌++◌, some, Text, text, text_eq,
  arith, if◌then◌else◌,
}
use sndv_kv.Python.{
  Wire, answered, arrived, unreachable, Json, object, field, string, end, Trace, Request, Host,
  read_clock, slept, exchange, wrote_file, wrote_json, made_directory, ran, spawned, terminated,
  killed, waited, exited,
}
use sndv_kv.Python.Floats.{Floats, IsOrdered}
use sndv_kv.Python.Linear.{IsLinear}
use sndv_kv.Python.Counts.{naps}

abbrev total : List ℕ → ℕ
total [] = 0
total (x ∷ xs) = x + total xs

abbrev count : List ℕ → ℕ
count [] = 0
count (x ∷ xs) = 1 + count xs

abbrev pub floats : Floats ℕ
floats = record {
  of_ℕ = λ n. n;
  half = 0;
  add = λ a b. a + b;
  sub = λ a b. a - b;
  mul = λ a b. a * b;
  div = λ a b. a / b;
  lt = ltb;
  mean = λ xs. total xs / count xs;
}

pub floats-IsOrdered : IsOrdered floats
floats-IsOrdered = record { asymm = λ a b h. ground arith; le_trans = λ a b c h k. ground arith }

pub floats-IsLinear : IsLinear floats
floats-IsLinear = record {
  asymm = λ a b h. ground arith;
  le_trans = λ a b c h k. ground arith;
  le_antisymm = λ a b h k. ground arith;
}

-- Reads are answered with status 200, and writes with 201.
abbrev pub serve : Trace → Request → Wire
serve w r =
    if text_eq r.method (text "GET")
    then answered 200 (text "OK") (text "{}")
    else answered 201 (text "Created") []

-- A sleep takes 15 units.
abbrev pub host : Host ℕ
host = record {
  http = serve;
  urlopen = λ w r. arrived (serve w r);
  clock = λ w. naps w * 15;
  run = λ w args. exited 0 [];
  starts = λ w args. true;
  stops = λ w. true;
  allows = λ w path. true;
  found = λ w path. [];
  parse = λ s. some 0;
  loads = λ s. some (object (field (text "val") (string (text "value")) end));
}

pub naps-append : (v w : Trace) → naps (v ++ w) ≡ naps v + naps w
unfolding naps
naps-append [] w = omega arith
naps-append (read_clock ∷ v) w = naps-append v w
naps-append (slept ∷ v) w = omega (arith, naps-append v w)
naps-append (exchange r a ∷ v) w = naps-append v w
naps-append (wrote_file path ∷ v) w = naps-append v w
naps-append (wrote_json path j ∷ v) w = naps-append v w
naps-append (made_directory path ∷ v) w = naps-append v w
naps-append (ran args r ∷ v) w = naps-append v w
naps-append (spawned args ∷ v) w = naps-append v w
naps-append (terminated ∷ v) w = naps-append v w
naps-append (killed ∷ v) w = naps-append v w
naps-append (waited b ∷ v) w = naps-append v w

-- Two sleeps use up 30 units.
pub time_runs : (v : Trace) → 2 ≤ naps v → ltb (naps (v ++ []) * 15 - naps [] * 15) 30 ≡ false
unfolding naps
time_runs v h = ground (arith, naps-append v [])
