-- ===== src/Server/Router.antt =====
-- internal/api/http_router.go: which request reaches which handler, and the statuses. What the
-- handlers call in the rest of the server is an interface.
pub mod Access
pub mod Health
pub mod Answers
use sndv_kv.Prelude.{
  ℕ, ℤ, pos, ◌-◌, Text, text, text_eq, Bool, true, false, not, List, [], ◌∷◌, ◌++◌, Option, none,
  some, length, take, replicate, ◌&&◌, ◌||◌, if◌then◌else◌,
}

pub record Inbound : Type 0 where
  pub method : Text
  pub path : Text
  pub authorization : Text
  pub key : Text
  pub body : Text

pub record Answer : Type 0 where
  pub status : ℕ
  pub body : Text

-- SinglePutRequestPayload, and an item of BatchPutRequestPayload
pub record Payload : Type 0 where
  pub key : Text
  pub value : Text
  pub ttl : ℤ

-- A search for a key: it was found nowhere, or its newest entry is a tombstone or has expired, or
-- it has a value.
pub data Found : Type 0 where
  missing dead : Found
  live : Text → Found

-- What the handlers call. `ingest` is `SubmitIngestionRequest` and `ingest_batch` is
-- `SubmitBatchIngestion`, with the text of the error that they return; `find` is `findAndServe`.
-- `unmarshal_put` and `unmarshal_batch` are `json.Unmarshal`, with `none` for an error.
pub record Engine (State : Type 0) : Type 0 where
  pub ingest : Text → Text → ℤ → Bool → State → Option Text × State
  pub ingest_batch : List Payload → State → Option Text × State
  pub find : Text → State → Found × State
  pub metrics : State → Text
  pub unmarshal_put : Text → Option Payload
  pub unmarshal_batch : Text → Option (List Payload)

-- The configuration that `checkAuth` reads. `decrypts` says whether paseto accepts a token under
-- a key.
pub record Auth : Type 0 where
  pub authentication_token : Text
  pub authentication_secret : Text
  pub decrypts : Text → Text → Bool

-- `[]byte(fmt.Sprintf("%-32s", secret))[:32]`
unfoldable pub secret_key : Text → Text
secret_key secret = take 32 (secret ++ replicate (32 - length secret) b' ')

unfoldable pub check_auth : Auth → Text → Bool
check_auth auth header =
    if text_eq auth.authentication_token [] && text_eq header []
    then true
    else auth.decrypts header (secret_key auth.authentication_secret)

-- isMethodAllowed
unfoldable pub is_method_allowed : Text → List Text → Bool
is_method_allowed method [] = false
is_method_allowed method (m ∷ ms) = text_eq method m || is_method_allowed method ms

abbrev pub fail : {State : Type 0} → ℕ → Text → State → Answer × State
fail status message s = (record { status = status; body = message }, s)

-- The end of a handler that ingests.
abbrev pub ingested : {State : Type 0} → ℕ → Option Text × State → Answer × State
ingested status (none, s) = (record { status = status; body = [] }, s)
ingested status (some e, s) = fail 500 e s

-- writeJSON
unfoldable pub write_json : Text → Text → Text
write_json key value =
    text "{\"key\":\"" ++ (key ++ (text "\",\"val\":\"" ++ (value ++ text "\"}")))

module _ {State : Type 0} (engine : Engine State) where
  unfoldable pub handle_put : Inbound → State → Answer × State
  handle_put r s =
      if is_method_allowed r.method (text "POST" ∷ text "PUT" ∷ [])
      then (elim (engine.unmarshal_put r.body) [
        | none ↦ fail 400 (text "Bad Request") s
        | some p ↦ ingested 201 (engine.ingest p.key p.value p.ttl false s)
      ])
      else fail 405 (text "Method Not Allowed") s

  abbrev pub served : Text → Found × State → Answer × State
  served key (live v, s) = (record { status = 200; body = write_json key v }, s)
  served key (_, s) = fail 404 (text "Not Found") s

  unfoldable pub handle_get : Inbound → State → Answer × State
  handle_get r s =
      if is_method_allowed r.method (text "GET" ∷ [])
      then (if text_eq r.key []
          then fail 400 (text "Missing key") s
          else served r.key (engine.find r.key s))
      else fail 405 (text "Method Not Allowed") s

  unfoldable pub handle_batch : Inbound → State → Answer × State
  handle_batch r s =
      if is_method_allowed r.method (text "POST" ∷ [])
      then (elim (engine.unmarshal_batch r.body) [
        | none ↦ fail 400 (text "Bad Request") s
        | some items ↦ ingested 201 (engine.ingest_batch items s)
      ])
      else fail 405 (text "Method Not Allowed") s

  unfoldable pub handle_delete : Inbound → State → Answer × State
  handle_delete r s =
      if is_method_allowed r.method (text "DELETE" ∷ text "POST" ∷ [])
      then (if text_eq r.key []
          then fail 400 (text "Missing key") s
          else ingested 200 (engine.ingest r.key [] (pos 0) true s))
      else fail 405 (text "Method Not Allowed") s

  unfoldable pub handle_metrics : Inbound → State → Answer × State
  handle_metrics r s =
      if is_method_allowed r.method (text "GET" ∷ [])
      then (record { status = 200; body = engine.metrics s }, s)
      else fail 405 (text "Method Not Allowed") s

  -- routePath
  unfoldable pub route_path : Inbound → State → Answer × State
  route_path r s =
      if text_eq r.path (text "/put")
      then handle_put r s
      else if text_eq r.path (text "/get")
      then handle_get r s
      else if text_eq r.path (text "/batch")
      then handle_batch r s
      else if text_eq r.path (text "/delete")
      then handle_delete r s
      else if text_eq r.path (text "/metrics")
      then handle_metrics r s
      else fail 404 (text "Not Found") s

  -- handleRequest, for a handler that does not panic
  unfoldable pub handle_request : Auth → Inbound → State → Answer × State
  handle_request auth r s =
      if check_auth auth r.authorization then route_path r s else fail 401 (text "Unauthorized") s
