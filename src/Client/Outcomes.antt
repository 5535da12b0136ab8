-- ===== src/Client/Outcomes.antt =====
-- What the methods of clients/python/sndv.py return or raise, read off what `urlopen` comes to.
use sndv_kv.Prelude.{
  ℕ, ℤ, ◌≡◌, refl, ◌≤◌, ◌<◌, ◌⊎◌, inl, inr, Text, text, true, [], ◌∷◌, ◌++◌, Option, none, some,
  arith, Bool-cases, ltb, leb, ◌==◌, ◌&&◌, if◌then◌else◌,
}
use sndv_kv.Python.{
  Json, null, boolean, number, string, array, object, nil, end, field, int, Request, Reply, arrived,
  cut_off, not_sent, answered, unreachable, sndv_error, connection_lost, invalid_request,
  decode_error, attribute_error, Result, ok, raise, Trace, Host,
}
use sndv_kv.Python.Actions.{Py, pure, catch, ◌>>=◌, urlopen, logged}
use sndv_kv.Client.{SndvClient, truthy, get_field, get_val, not_found, request, put, get, delete}

-- The body of an answer without an error status, as a Python value.
body_outcome : (Text → Option Json) → ℕ → Text → Result Json
body_outcome loads status [] = ok null
body_outcome loads status (x ∷ s) =
    if status == 204
    then ok null
    else (elim (loads (x ∷ s)) [ none ↦ raise decode_error | some j ↦ ok j ])

-- What a request comes to, whatever it asks.
unfoldable pub outcome : (Text → Option Json) → Reply → Result Json
unfolding body_outcome
outcome loads (arrived (answered status reason body)) =
    if leb 200 status && ltb status 300
    then body_outcome loads status body
    else raise (sndv_error status reason)
outcome loads (arrived (unreachable reason)) =
    raise (sndv_error 0 (text "Connection Failed: " ++ reason))
outcome loads (cut_off reason) = raise (connection_lost reason)
outcome loads (not_sent reason) = raise (invalid_request reason)

-- The value of the key "val", if the answer is an object that has one.
val_outcome : Json → Result Json
val_outcome (object fs) = ok (get_field (text "val") fs)
val_outcome j = if truthy j then raise attribute_error else ok null

-- What a read comes to: an error 404 is no error, and only that one.
unfoldable pub get_outcome : (Text → Option Json) → Reply → Result Json
unfolding body_outcome val_outcome
get_outcome loads (arrived (answered status reason body)) =
    if status == 404
    then ok null
    else if leb 200 status && ltb status 300
    then (elim (body_outcome loads status body) [ ok j ↦ val_outcome j | raise e ↦ raise e ])
    else raise (sndv_error status reason)
get_outcome loads (arrived (unreachable reason)) =
    raise (sndv_error 0 (text "Connection Failed: " ++ reason))
get_outcome loads (cut_off reason) = raise (connection_lost reason)
get_outcome loads (not_sent reason) = raise (invalid_request reason)

module _ (c : SndvClient) where
  abbrev pub get_request : Text → Request
  get_request key = record {
    method = text "GET";
    url = c.base_url ++ (text "/get?key=" ++ key);
    headers = c.headers;
    body = none;
  }

  abbrev pub put_request : Text → Text → ℤ → Request
  put_request key value ttl = record {
    method = text "POST";
    url = c.base_url ++ text "/put";
    headers = c.headers;
    body = some (
        object (
          field (text "key") (string key)
            (field (text "value") (string value) (field (text "ttl") (int ttl) end))));
  }

  abbrev pub delete_request : Text → Request
  delete_request key = record {
    method = text "POST";
    url = c.base_url ++ (text "/delete?key=" ++ key);
    headers = c.headers;
    body = none;
  }

-- The end of `get`: the value of an answer, and no error where the error is a 404.
after : Result Json → Result Json
unfolding val_outcome
after (ok j) = val_outcome j
after (raise (sndv_error code message)) =
    if code == 404 then ok null else raise (sndv_error code message)
after (raise e) = raise e

after-outcome :
    (loads : Text → Option Json) (a : Reply) → after (outcome loads a) ≡ get_outcome loads a
unfolding after outcome get_outcome
after-outcome loads (arrived (unreachable reason)) = refl
after-outcome loads (cut_off reason) = refl
after-outcome loads (not_sent reason) = refl
after-outcome loads (arrived (answered status reason [])) = ground arith
after-outcome loads (arrived (answered status reason (x ∷ s))) = ground arith

get_val-val_outcome :
    (j : Json) (w : Trace) → (if truthy j then get_val j else pure null) w ≡ (val_outcome j, w)
unfolding truthy get_val val_outcome
get_val-val_outcome (object end) w = refl
get_val-val_outcome (object (field k v fs)) w = refl
get_val-val_outcome (boolean true) w = refl
get_val-val_outcome (number m e) w = elim (Bool-cases (truthy (number m e))) [
  | inl h ↦ rw h
  | inr h ↦ rw h
]
get_val-val_outcome (string []) w = refl
get_val-val_outcome (array nil) w = refl
get_val-val_outcome _ w = refl

-- A value that has no `get` is no 404.
keep_val : (j : Json) (w : Trace) → catch (λ v. (val_outcome j, v)) not_found w ≡ (val_outcome j, w)
unfolding val_outcome not_found
keep_val (object fs) w = refl
keep_val j w = elim (Bool-cases (truthy j)) [ inl h ↦ rw h | inr h ↦ rw h ]

get_steps :
    (m : Py Json) (w w' : Trace) (r : Result Json)
    → m w ≡ (r, w')
    → catch (m >>= λ resp. if truthy resp then get_val resp else pure null) not_found w
      ≡ (after r, w')
unfolding after not_found
get_steps m w w' (ok j) e = rw (e, get_val-val_outcome j w') (keep_val j w')
get_steps m w w' (raise (sndv_error code message)) e = rw e (ground arith)
get_steps m w w' (raise _) e = rw e

unfoldable pub discard : Result Json → Result (Unit {0})
discard (ok j) = ok tt
discard (raise e) = raise e

put_steps :
    (m : Py Json) (w w' : Trace) (r : Result Json)
    → m w ≡ (r, w')
    → (m >>= λ _. pure tt) w ≡ (discard r, w')
unfolding discard
put_steps m w w' (ok j) e = rw e
put_steps m w w' (raise x) e = rw e

-- An answer at which a read may return a value: a success, or a 404, which reads as `None`.
abbrev pub Readable : Reply → Json → Type 0
Readable (arrived (answered status reason body)) j =
    ((200 ≤ status) × (status < 300)) ⊎ ((status ≡ 404) × (j ≡ null))
Readable _ j = ⊥

get_outcome-Readable :
    (loads : Text → Option Json) (a : Reply) (j : Json) → get_outcome loads a ≡ ok j → Readable a j
unfolding get_outcome
get_outcome-Readable loads (arrived (answered status reason body)) j h = ground arith
get_outcome-Readable loads (arrived (unreachable reason)) j h = cc
get_outcome-Readable loads (cut_off reason) j h = cc
get_outcome-Readable loads (not_sent reason) j h = cc

module _ {Float : Type 0} (host : Host Float) (c : SndvClient) where
  -- The request that `_request` builds.
  abbrev built : Text → Text → Option Json → Request
  built method endpoint payload = record {
    method = method;
    url = c.base_url ++ endpoint;
    headers = c.headers;
    body = payload;
  }

  request_at :
      (method endpoint : Text) (payload : Option Json) (w : Trace) (a : Reply)
      → host.urlopen w (built method endpoint payload) ≡ a
      → request host c method endpoint payload w
        ≡ (outcome host.loads a, logged (built method endpoint payload) a w)
  unfolding request outcome urlopen logged
  request_at method endpoint payload w (arrived (unreachable reason)) e = rw e
  request_at method endpoint payload w (cut_off reason) e = rw e
  request_at method endpoint payload w (not_sent reason) e = rw e
  request_at method endpoint payload w (arrived (answered status reason [])) e = rw e (ground arith)
  request_at method endpoint payload w (arrived (answered status reason (x ∷ s))) e =
      rw e (ground arith)

  -- `_request` returns or raises by the reply of one `urlopen`.
  request-outcome :
      (method endpoint : Text) (payload : Option Json) (w : Trace)
      → let r : Request = built method endpoint payload in
        request host c method endpoint payload w
        ≡ (outcome host.loads (host.urlopen w r), logged r (host.urlopen w r) w)
  request-outcome method endpoint payload w = request_at method endpoint payload w _ refl

  get_at :
      (key : Text) (w : Trace) (a : Reply)
      → host.urlopen w (get_request c key) ≡ a
      → get host c key w ≡ (get_outcome host.loads a, logged (get_request c key) a w)
  unfolding get
  get_at key w a e = rw (← after-outcome host.loads a) (
      get_steps (request host c (text "GET") (text "/get?key=" ++ key) none) w _
        (outcome host.loads a) (request_at (text "GET") (text "/get?key=" ++ key) none w a e))

  -- `get` calls `urlopen` once, and returns or raises what `get_outcome` reads off its reply. Of an
  -- answer, a 404 is `None`, and every other status outside 200 to 299 is an `SndvError` with that
  -- code. Where there is none, a `URLError` is an `SndvError` with code 0, a connection lost while
  -- the answer is awaited or read raises its own exception, and so does a request that is refused
  -- before it is sent, as for a key that no URL may hold; then the trace stays as it was. Of a
  -- success, a 204 or an empty body is `None`, a body that is no JSON raises a decoding error, an
  -- object gives its key "val", and every other value is `None` if it is falsy and raises an
  -- attribute error if not.
  pub get-get_outcome :
      (key : Text) (w : Trace)
      → get host c key w ≡ (
        get_outcome host.loads (host.urlopen w (get_request c key)),
        logged (get_request c key) (host.urlopen w (get_request c key)) w,
      )
  get-get_outcome key w = get_at key w _ refl

  -- `put` calls `urlopen` once, with its arguments in the body. It raises what the reply comes to as an
  -- error, a 404 too, and returns nothing for every other reply.
  pub put-outcome :
      (key value : Text) (ttl : ℤ) (w : Trace)
      → let a : Reply = host.urlopen w (put_request c key value ttl) in
        put host c key value ttl w
        ≡ (discard (outcome host.loads a), logged (put_request c key value ttl) a w)
  unfolding put
  put-outcome key value ttl w =
      put_steps (request host c (text "POST") (text "/put") _) w _ _
        (request-outcome (text "POST") (text "/put") _ w)

  -- `delete` calls `urlopen` once, and raises what the reply comes to as an error, a 404 too.
  pub delete-outcome :
      (key : Text) (w : Trace)
      → let a : Reply = host.urlopen w (delete_request c key) in
        delete host c key w ≡ (discard (outcome host.loads a), logged (delete_request c key) a w)
  unfolding delete
  delete-outcome key w =
      put_steps (request host c (text "POST") (text "/delete?key=" ++ key) none) w _ _
        (request-outcome (text "POST") (text "/delete?key=" ++ key) none w)

  -- If `get` returns a value, the answer had a status of 200 to 299, or it had status 404 and the
  -- value is `None`: every other answer makes it raise, and so does none.
  pub get-Readable :
      (key : Text) (w : Trace) (j : Json)
      → (get host c key w).0 ≡ ok j
      → Readable (host.urlopen w (get_request c key)) j
  get-Readable key w j h = get_outcome-Readable host.loads _ j (rw get-get_outcome at h)
