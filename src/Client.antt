-- ===== src/Client.antt =====
-- clients/python/sndv.py: the client of the HTTP interface, one action for each method.
pub mod Outcomes
pub mod BaseUrl
use sndv_kv.Prelude.{
  ℕ, ℤ, pos, Text, text, text_eq, Bool, true, false, not, List, [], ◌∷◌, ◌++◌, Option, none, some,
  ◌==◌, if◌then◌else◌,
}
use sndv_kv.Python.{
  Json, null, boolean, number, string, array, object, nil, Fields, end, field, int, Request, Exn,
  http_error, url_error, sndv_error, attribute_error, Host,
}
use sndv_kv.Python.Actions.{Py, pure, throw, ◌>>=◌, ◌>>◌, catch, decode, Response, urlopen}

-- `s.rstrip(c)` for one character
unfoldable pub rstrip : ℕ → Text → Text
rstrip c [] = []
rstrip c (x ∷ s) = elim (rstrip c s) [ [] ↦ if x == c then [] else x ∷ [] | y ∷ t ↦ x ∷ y ∷ t ]

-- SndvClient
pub record SndvClient : Type 0 where
  pub base_url : Text
  pub token : Text
  pub headers : List (Text × Text)

-- SndvClient.__init__
unfoldable pub init : Text → Text → SndvClient
init base_url token = record {
  base_url = rstrip b'/' base_url;
  token = token;
  headers = (text "Content-Type", text "application/json") ∷ (text "Authorization", token) ∷ [];
}

-- The truth value of a Python value.
unfoldable pub truthy : Json → Bool
truthy null = false
truthy (boolean b) = b
truthy (number mantissa _) = elim mantissa [ pos n ↦ not (n == 0) | _ ↦ true ]
truthy (string []) = false
truthy (array nil) = false
truthy (object end) = false
truthy _ = true

-- `d.get(k)` of a dictionary
unfoldable pub get_field : Text → Fields → Json
get_field k end = null
get_field k (field j v fs) = if text_eq j k then v else get_field k fs

-- `resp.get("val") if resp else None`: only a dictionary has `get`.
get_val : Json → Py Json
unfolding get_field
get_val (object fs) = pure (get_field (text "val") fs)
get_val j = throw attribute_error

-- The `except` clauses of `_request`.
translate : {A : Type 0} → Exn → Py A
translate (http_error code reason) = throw (sndv_error code reason)
translate (url_error reason) = throw (sndv_error 0 (text "Connection Failed: " ++ reason))
translate e = throw e

-- The `except` clause of `get`.
not_found : Exn → Py Json
not_found (sndv_error code message) =
    if code == 404 then pure null else throw (sndv_error code message)
not_found e = throw e

module _ {Float : Type 0} (host : Host Float) (c : SndvClient) where
  read_response : Response → Py Json
  read_response response =
      if response.status == 204
      then pure null
      else (elim response.body [ [] ↦ pure null | x ∷ s ↦ decode host (x ∷ s) ])

  unfoldable pub request : Text → Text → Option Json → Py Json
  unfolding read_response translate urlopen
  request method endpoint payload =
      catch
        (do
          response ← urlopen host (record {
            method = method;
            url = c.base_url ++ endpoint;
            headers = c.headers;
            body = payload;
          })
          read_response response)
        translate

  unfoldable pub put : Text → Text → ℤ → Py (Unit {0})
  unfolding request
  put key value ttl = do
    request (text "POST") (text "/put") (
        some (
          object (
            field (text "key") (string key)
              (field (text "value") (string value) (field (text "ttl") (int ttl) end)))))
    pure tt

  unfoldable pub get : Text → Py Json
  unfolding get_val truthy not_found
  get key =
      catch
        (do
          resp ← request (text "GET") (text "/get?key=" ++ key) none
          if truthy resp then get_val resp else pure null)
        not_found

  unfoldable pub delete : Text → Py (Unit {0})
  unfolding request
  delete key = do request (text "POST") (text "/delete?key=" ++ key) none; pure tt

  unfoldable pub metrics : Py Json
  unfolding request
  metrics = request (text "GET") (text "/metrics") none
