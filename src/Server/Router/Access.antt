-- ===== src/Server/Router/Access.antt =====
-- What the router lets through to the rest of the server.
use sndv_kv.Prelude.{◌≡◌, ◌⊎◌, Text, text, text_eq, Bool, false, [], ◌∷◌, arith, ◌&&◌}
use sndv_kv.Server.Router.{
  Inbound, Engine, Auth, check_auth, is_method_allowed, route_path, handle_put, handle_get,
  handle_batch, handle_delete, handle_metrics, handle_request,
}

-- Whether a path has a handler.
abbrev pub is_routed : Text → Bool
is_routed path =
    is_method_allowed path
      (text "/put" ∷ text "/get" ∷ text "/batch" ∷ text "/delete" ∷ text "/metrics" ∷ [])

module _ {State : Type 0} (engine : Engine State) (auth : Auth) (r : Inbound) (s : State) where
  -- A request that is not authorised, or whose path has no handler, is answered with status 401
  -- or 404 and leaves the state as it is.
  pub handle_request-guarded :
      check_auth auth r.authorization && is_routed r.path ≡ false
      → ((handle_request engine auth r s).1 ≡ s)
        × (((handle_request engine auth r s).0.status ≡ 401)
            ⊎ ((handle_request engine auth r s).0.status ≡ 404))
  unfolding handle_request route_path is_method_allowed
  handle_request-guarded h = ground arith

  -- No handler that ingests allows the method GET.
  get-not_allowed :
      r.method ≡ text "GET"
      → (is_method_allowed r.method (text "POST" ∷ text "PUT" ∷ []) ≡ false)
        × (is_method_allowed r.method (text "POST" ∷ []) ≡ false)
        × (is_method_allowed r.method (text "DELETE" ∷ text "POST" ∷ []) ≡ false)
  unfolding is_method_allowed text_eq
  get-not_allowed e = (rw e, rw e, rw e)

  get-unchanged :
      r.method ≡ text "GET"
      → ((route_path engine r s).1 ≡ s) ⊎ ((route_path engine r s).1 ≡ (engine.find r.key s).1)
  unfolding route_path handle_put handle_get handle_batch handle_delete handle_metrics
  get-unchanged e = let (p, b, d) = get-not_allowed e in ground arith

  -- A GET request leaves the state as it is, or as a search for its key leaves it.
  pub handle_request-read_only :
      r.method ≡ text "GET"
      → ((handle_request engine auth r s).1 ≡ s)
        ⊎ ((handle_request engine auth r s).1 ≡ (engine.find r.key s).1)
  unfolding handle_request
  handle_request-read_only e = ground (arith, get-unchanged e)
