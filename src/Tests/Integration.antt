-- ===== src/Tests/Integration.antt =====
-- The theorems about scripts/docker_integration.py, and its wait against the router.
use sndv_kv.Prelude.{ℕ, ◌+◌, ◌≡◌, ◌≤◌, refl, Text, text, text_eq, [], ◌++◌, some, arith}
use sndv_kv.Python.{Trace, answered, Host}
use sndv_kv.Python.Loops.{Ends, Never}
use sndv_kv.Python.Counts.{created, sent}
use sndv_kv.Bench.{get}
use sndv_kv.Integration.{benchmark_single}
use sndv_kv.Integration.Token.{missing}
use sndv_kv.Integration.Main.{run_all, exit_code}
use sndv_kv.Integration.Runs.{Finished, Broken, run_all-Finished}
use sndv_kv.Integration.Benchmarks.{Failed, benchmark_single-created}
use sndv_kv.Server.Router.{Inbound, check_auth, route_path, handle_request}
use sndv_kv.Server.Router.Health.{HealthAnswer, exit_code-router}
use sndv_kv.Tests.{floats, host, time_runs}
use sndv_kv.Tests.Server.{engine, no_auth}

abbrev url : Text
url = text "http://kv"

abbrev dir : Text
dir = text "out"

benchmark_single-created_example :
    Ends
      (λ st v.
        (st.count ≡ 3)
        × ((st.success ≤ 3) × (created v ≡ created [] + st.success) × (sent v ≡ sent [] + 3)))
      (Failed 3)
      (benchmark_single floats host url [] 3 [])
benchmark_single-created_example = benchmark_single-created floats host url [] 3 []

run_all-Finished_example :
    Ends
      (λ o _. Finished floats host url dir o)
      (Broken floats host url dir missing)
      (run_all floats host url dir missing 3 [])
run_all-Finished_example = run_all-Finished floats host url dir missing 3 []

-- The router's answer to "/health", with authentication switched off.
abbrev health : Inbound
health = record {
  method = text "GET";
  path = text "/health";
  authorization = [];
  key = [];
  body = [];
}

abbrev router_host : Host ℕ
router_host = record host { http = λ w r. answered 404 (text "Not Found") [] }

serves :
    (u : Trace) → HealthAnswer engine no_auth (router_host.http u (get (url ++ text "/health") []))
unfolding handle_request check_auth route_path text_eq
serves u = (health, [], refl, refl)

exit_code-router_example :
    Ends (λ code _. code ≡ some 1) Never (exit_code floats router_host url dir missing 3 [])
exit_code-router_example =
    exit_code-router engine no_auth floats router_host url dir missing 2 2 [] serves time_runs
      (omega arith)
