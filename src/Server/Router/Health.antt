-- ===== src/Server/Router/Health.antt =====
-- The integration test of scripts/docker_integration.py against the router: it waits for an
-- answer of status 200 from "/health", which is no path of internal/api/http_router.go.
use sndv_kv.Prelude.{
  ℕ, suc, ◌≡◌, refl, ◌≤◌, Text, text, text_eq, false, [], ◌++◌, some, arith, ◌&&◌,
}
use sndv_kv.Python.{Wire, answered, unreachable, Trace, Host}
use sndv_kv.Python.Floats.{Floats}
use sndv_kv.Python.Loops.{Ends, Never}
use sndv_kv.Python.Counts.{has_status, naps}
use sndv_kv.Bench.{get}
use sndv_kv.Integration.Token.{LogFile}
use sndv_kv.Integration.Main.{exit_code}
use sndv_kv.Integration.Exit.{exit_code-not_ready}
use sndv_kv.Server.Router.{Inbound, Engine, Auth, check_auth, is_method_allowed, handle_request}
use sndv_kv.Server.Router.Access.{is_routed, handle_request-guarded}

module _ {State : Type 0} (engine : Engine State) (auth : Auth) where
  -- An answer of the router, in some state, to a request for "/health"; or none arrives.
  abbrev pub HealthAnswer : Wire → Type 0
  HealthAnswer (answered status reason body) =
      (r : Inbound) × (s : State) × (r.path ≡ text "/health")
      × ((handle_request engine auth r s).0.status ≡ status)
  HealthAnswer (unreachable reason) = Unit

  refused :
      (r : Inbound)
      → r.path ≡ text "/health"
      → check_auth auth r.authorization && is_routed r.path ≡ false
  unfolding is_method_allowed text_eq
  refused r e = rw e (ground arith)

  HealthAnswer-not_200 : (a : Wire) → HealthAnswer a → has_status 200 a ≡ false
  HealthAnswer-not_200 (answered status reason body) (r, s, path, e) =
      ground (arith, handle_request-guarded engine auth r s (refused r path))
  HealthAnswer-not_200 (unreachable reason) h = refl

  module _ {Float : Type 0} (fl : Floats Float) (host : Host Float)
      (base_url artifacts_dir : Text) where
    -- If every answer to "/health" is one that the router gives to that path, in some state, or none
    -- arrives, and 30 seconds have passed after at most `n` sleeps, then `n` + 1 rounds of the wait
    -- are enough for the integration test to end, and its exit status is 1.
    pub exit_code-router :
        (log : LogFile) (n fuel : ℕ) (w : Trace)
        → ((u : Trace) → HealthAnswer (host.http u (get (base_url ++ text "/health") [])))
        → ((v : Trace)
            → n ≤ naps v
            → fl.lt (fl.sub (host.clock (v ++ w)) (host.clock w)) (fl.of_ℕ 30) ≡ false)
        → n ≤ fuel
        → Ends
            (λ code _. code ≡ some 1)
            Never
            (exit_code fl host base_url artifacts_dir log (suc fuel) w)
    exit_code-router log n fuel w serves runs le =
        exit_code-not_ready fl host base_url artifacts_dir n w
          (λ u. HealthAnswer-not_200 _ (serves u)) runs log fuel le
