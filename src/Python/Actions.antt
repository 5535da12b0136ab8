-- ===== src/Python/Actions.antt =====
-- Actions that may raise, over the trace of external calls.
use sndv_kv.Prelude.{ℕ, Text, ◌∷◌, none, some, ltb, leb, ◌&&◌, if◌then◌else◌}
use sndv_kv.Python.{
  Request, Wire, answered, unreachable, Exn, http_error, url_error, request_exception, decode_error,
  Reply, arrived, cut_off, not_sent, connection_lost, invalid_request, Json, Result, ok, raise,
  exchange, read_clock, slept, Trace, Host,
}

abbrev pub Py : Type 0 → Type 0
Py A = Trace → Result A × Trace

abbrev pub pure : {A : Type 0} → A → Py A
pure a w = (ok a, w)

abbrev pub throw : {A : Type 0} → Exn → Py A
throw e w = (raise e, w)

abbrev continue : {A B : Type 0} → Result A → (A → Py B) → Py B
continue (ok a) f w = f a w
continue (raise e) f w = (raise e, w)

infixl 5 ◌>>=◌ ◌>>◌
abbrev pub ◌>>=◌ : {A B : Type 0} → Py A → (A → Py B) → Py B
◌>>=◌ m f w = let (r, w') = m w in continue r f w'

abbrev pub ◌>>◌ : {A B : Type 0} → Py A → Py B → Py B
m >> k = m >>= λ _. k

abbrev handle : {A : Type 0} → Result A → (Exn → Py A) → Py A
handle (ok a) h w = (ok a, w)
handle (raise e) h w = h e w

-- `try: m` with `except … as e: h e`; an exception that `h` raises again passes on.
abbrev pub catch : {A : Type 0} → Py A → (Exn → Py A) → Py A
catch m h w = let (r, w') = m w in handle r h w'

module _ {Float : Type 0} (host : Host Float) where
  -- `time.time()` and `time.perf_counter()`
  abbrev pub now : Py Float
  now w = (ok (host.clock w), read_clock ∷ w)

  -- `json.loads`
  abbrev pub decode : Text → Py Json
  decode body w = elim (host.loads body) [ none ↦ (raise decode_error, w) | some j ↦ (ok j, w) ]

-- `time.sleep`
abbrev pub sleep : Py (Unit {0})
sleep w = (ok tt, slept ∷ w)

-- A response object: its status and its body.
pub record Response : Type 0 where
  pub status : ℕ
  pub body : Text

-- `urllib` returns a response for a status of 200 to 299 and raises for every other.
abbrev urllib_result : Wire → Result Response
urllib_result (answered status reason body) =
    if leb 200 status && ltb status 300
    then ok (record { status = status; body = body })
    else raise (http_error status reason)
urllib_result (unreachable reason) = raise (url_error reason)

-- `requests` returns a response for every status.
abbrev requests_result : Wire → Result Response
requests_result (answered status reason body) = ok (record { status = status; body = body })
requests_result (unreachable reason) = raise (request_exception reason)

-- `urlopen` and the read of the body.
abbrev reply_result : Reply → Result Response
reply_result (arrived a) = urllib_result a
reply_result (cut_off reason) = raise (connection_lost reason)
reply_result (not_sent reason) = raise (invalid_request reason)

-- The trace after it: a request whose answer is cut off was sent.
unfoldable pub logged : Request → Reply → Trace → Trace
logged r (arrived a) w = exchange r a ∷ w
logged r (cut_off reason) w = exchange r (unreachable reason) ∷ w
logged r (not_sent reason) w = w

module _ {Float : Type 0} (host : Host Float) where
  unfoldable pub urlopen : Request → Py Response
  urlopen r w = let a = host.urlopen w r in (reply_result a, logged r a w)

  abbrev pub send_request : Request → Py Response
  send_request r w = let a = host.http w r in (requests_result a, exchange r a ∷ w)
