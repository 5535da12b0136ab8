-- ===== src/Server/Router/Answers.antt =====
-- What the handlers of put, get and delete answer to the requests of a client.
use sndv_kv.Prelude.{◌≡◌, pos, Text, text, text_eq, true, false, [], List, some}
use sndv_kv.Server.Router.{
  Inbound, Payload, Engine, Auth, check_auth, is_method_allowed, ingested, served, handle_put,
  handle_get, handle_batch, handle_delete, route_path, handle_request,
}

-- A request with a method and a path, whose token is accepted.
pub record Arrives (auth : Auth) (method path : Text) (r : Inbound) : Type 0 where
  pub authorised : check_auth auth r.authorization ≡ true
  pub method_is : r.method ≡ method
  pub path_is : r.path ≡ path

module _ {State : Type 0} (engine : Engine State) (auth : Auth) (r : Inbound) (s : State) where
  pub put-ingested :
      (p : Payload)
      → Arrives auth (text "POST") (text "/put") r
      → engine.unmarshal_put r.body ≡ some p
      → handle_request engine auth r s ≡ ingested 201 (engine.ingest p.key p.value p.ttl false s)
  unfolding handle_request route_path handle_put is_method_allowed text_eq
  put-ingested p h e = rw (h.authorised, h.path_is, h.method_is, e)

  pub get-served :
      Arrives auth (text "GET") (text "/get") r
      → text_eq r.key [] ≡ false
      → handle_request engine auth r s ≡ served engine r.key (engine.find r.key s)
  unfolding handle_request route_path handle_get is_method_allowed text_eq
  get-served h e = rw (h.authorised, h.path_is, h.method_is, e)

  pub delete-ingested :
      Arrives auth (text "POST") (text "/delete") r
      → text_eq r.key [] ≡ false
      → handle_request engine auth r s ≡ ingested 200 (engine.ingest r.key [] (pos 0) true s)
  unfolding handle_request route_path handle_delete is_method_allowed text_eq
  delete-ingested h e = rw (h.authorised, h.path_is, h.method_is, e)

  pub batch-ingested :
      (items : List Payload)
      → Arrives auth (text "POST") (text "/batch") r
      → engine.unmarshal_batch r.body ≡ some items
      → handle_request engine auth r s ≡ ingested 201 (engine.ingest_batch items s)
  unfolding handle_request route_path handle_batch is_method_allowed text_eq
  batch-ingested items h e = rw (h.authorised, h.path_is, h.method_is, e)
