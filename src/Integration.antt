-- ===== src/Integration.antt =====
-- scripts/docker_integration.py: the integration test of a running server.
pub mod Benchmarks
pub mod Main
pub mod Runs
pub mod Exit
pub mod Token
use mathlib.Core.Option
use sndv_kv.Prelude.{
  ℕ, suc, ◌+◌, ◌*◌, ◌/◌, Text, text, text_eq, decimal, Bool, true, false, List, [], ◌∷◌, ◌++◌,
  Option, none, some, map, range_from, length, pos, ◌==◌, ◌&&◌, if◌then◌else◌,
}
use sndv_kv.Python.{
  Json, string, object, array, field, end, int, Host, Exn, attribute_error, zero_division_error,
  Result, ok, raise, wrote_file,
}
use sndv_kv.Python.Actions.{
  Py, pure, throw, ◌>>=◌, ◌>>◌, now, sleep, decode, send_request, Response,
}
use sndv_kv.Python.Floats.{Floats, is_zero}
use sndv_kv.Python.Loops.{for_range}
use sndv_kv.Python.Sort.{sort}
use sndv_kv.Bench.{item, batch_items, post, post_batch, get, index}
use sndv_kv.Bench.Poll.{poll}
use sndv_kv.Client.{get_field}

-- The entries of `self.results["tests"]`.
pub record HappyPath (Float : Type 0) : Type 0 where
  pub passed : Bool
  pub put_ms : Float
  pub get_ms : Float

pub record CriticalPath (Float : Type 0) : Type 0 where
  pub passed : Bool
  pub batch_ms : Float
  pub verified : ℕ

pub record SingleResult (Float : Type 0) : Type 0 where
  pub count : ℕ
  pub success : ℕ
  pub tps : Float
  pub p50_ms : Float
  pub p95_ms : Float
  pub p99_ms : Float

pub record BatchResult (Float : Type 0) : Type 0 where
  pub total : ℕ
  pub success : ℕ
  pub tps : Float

-- `self.results`: a test that has not run has no entry. `error` is "Server not ready" or the
-- exception that ended the run.
pub data Failure : Type 0 where
  server_not_ready : Failure
  test_failed : Exn → Failure

pub record Results (Float : Type 0) : Type 0 where
  pub happy_path : Option (HappyPath Float)
  pub critical_path : Option (CriticalPath Float)
  pub benchmark_single : Option (SingleResult Float)
  pub benchmark_batch : Option (BatchResult Float)
  pub error : Option Failure

abbrev pub no_results : {Float : Type 0} → Results Float
no_results = record {
  happy_path = none;
  critical_path = none;
  benchmark_single = none;
  benchmark_batch = none;
  error = none;
}

-- `resp.json().get("val") == "value"`
abbrev pub has_value : Text → Json → Py Bool
has_value expected (object fs) =
    pure (elim (get_field (text "val") fs) [ string s ↦ text_eq s expected | _ ↦ false ])
has_value expected _ = throw attribute_error

-- `{"Authorization": self.token}`
abbrev pub headers : Text → List (Text × Text)
headers token = (text "Authorization", token) ∷ []

-- `{"key": f"c{i}", "value": f"v{i}", "ttl": 0}`
unfoldable pub critical_item : ℕ → Json
critical_item i = object (
    field (text "key") (string (text "c" ++ decimal i)) (
      field (text "value") (string (text "v" ++ decimal i)) (field (text "ttl") (int (pos 0)) end)))

-- The variables of the loop of `benchmark_single`.
pub record Tally (Float : Type 0) : Type 0 where
  pub latencies : List Float
  pub success : ℕ

module _ {Float : Type 0} (fl : Floats Float) (host : Host Float) (base_url token : Text) where
  -- `(time.time() - start) * 1000`
  abbrev since : Float → Py Float
  since start = do t ← now host; pure (fl.mul (fl.sub t start) (fl.of_ℕ 1000))

  -- A quotient by a duration, with no test for 0.
  abbrev pub per_second : ℕ → Float → Py Float
  per_second success duration =
      if is_zero fl duration
      then throw zero_division_error
      else pure (fl.div (fl.of_ℕ success) duration)

  abbrev answers_value : Response → Py Bool
  answers_value resp =
      if resp.status == 200
      then (do j ← decode host resp.body; has_value (text "value") j)
      else pure false

  unfoldable pub test_happy_path : Py (HappyPath Float)
  test_happy_path = do
    start ← now host
    send_request host (
        post (base_url ++ text "/put") (headers token) (
          object (
            field (text "key") (string (text "test")) (
              field (text "value") (string (text "value"))
                (field (text "ttl") (int (pos 0)) end)))))
    put_time ← since start
    start' ← now host
    resp ← send_request host (get (base_url ++ text "/get?key=test") (headers token))
    get_time ← since start'
    passed ← answers_value resp
    pure (record { passed = passed; put_ms = put_time; get_ms = get_time })

  unfoldable pub verify_round : ℕ → ℕ → Py ℕ
  verify_round i verified = do
    resp ← send_request host (get (base_url ++ (text "/get?key=c" ++ decimal i)) (headers token))
    pure (if resp.status == 200 then verified + 1 else verified)

  unfoldable pub test_critical_path : Py (CriticalPath Float)
  test_critical_path = do
    start ← now host
    send_request host (
        post_batch (base_url ++ text "/batch") (headers token)
          (map critical_item (range_from 0 100)))
    batch_time ← since start
    verified ← for_range 100 0 verify_round 0
    pure (record { passed = verified == 100; batch_ms = batch_time; verified = verified })

  unfoldable pub single_round : ℕ → Tally Float → Py (Tally Float)
  single_round i s = do
    t0 ← now host
    resp ←
        send_request host
          (post (base_url ++ text "/put") (headers token) (item (text "s" ++ decimal i) 64))
    latency ← since t0
    pure (record {
      latencies = s.latencies ++ latency ∷ [];
      success = if resp.status == 201 then s.success + 1 else s.success;
    })

  -- The reads by position have no guard: at a count of 0 they raise. `int(n * 0.95)` is
  -- `n * 95 / 100` rounded down, as in bench_orchestrator.py.
  report : ℕ → Tally Float → Float → Py (SingleResult Float)
  report count s duration = do
    tps ← per_second s.success duration
    let latencies = sort fl s.latencies
    p50 ← index latencies (length latencies / 2)
    p95 ← index latencies (length latencies * 95 / 100)
    p99 ← index latencies (length latencies * 99 / 100)
    pure (record {
      count = count;
      success = s.success;
      tps = tps;
      p50_ms = p50;
      p95_ms = p95;
      p99_ms = p99;
    })

  unfoldable pub benchmark_single : ℕ → Py (SingleResult Float)
  unfolding report
  benchmark_single count = do
    start ← now host
    s ← for_range count 0 single_round (record { latencies = []; success = 0 })
    stop ← now host
    report count s (fl.sub stop start)

  unfoldable pub batch_round : ℕ → ℕ → ℕ → Py ℕ
  batch_round batch_size i success = do
    resp ← send_request host (
        post_batch (base_url ++ text "/batch") (headers token)
          (batch_items (text "b") i batch_size 64))
    pure (if resp.status == 201 then success + batch_size else success)

  unfoldable pub benchmark_batch : ℕ → ℕ → Py (BatchResult Float)
  benchmark_batch total batch_size = do
    start ← now host
    success ←
        (if batch_size == 0
          then throw zero_division_error
          else for_range (total / batch_size) 0 (batch_round batch_size) 0)
    stop ← now host
    tps ← per_second success (fl.sub stop start)
    pure (record { total = total; success = success; tps = tps })
