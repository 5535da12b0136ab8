-- ===== src/Tests/Client.antt =====
-- The theorems about the client, at concrete answers.
use sndv_kv.Prelude.{◌≡◌, refl, text, [], text_eq}
use sndv_kv.Python.{string, ok, raise, arrived, not_sent, invalid_request}
use sndv_kv.Python.Actions.{urlopen, logged}
use sndv_kv.Client.{SndvClient, get, request, truthy, get_field}
use sndv_kv.Client.Outcomes.{get_outcome, get_request, Readable, get-get_outcome, get-Readable}
use sndv_kv.Tests.{host, serve}

abbrev client : SndvClient
client = record { base_url = text "http://kv"; token = []; headers = [] }

get-get_outcome_example : get host client (text "a") [] ≡ (
  get_outcome host.loads (arrived (serve [] (get_request client (text "a")))),
  logged (get_request client (text "a")) (arrived (serve [] (get_request client (text "a")))) [],
)
get-get_outcome_example = get-get_outcome host client (text "a") []

get_value : (get host client (text "a") []).0 ≡ ok (string (text "value"))
unfolding get request truthy get_field text_eq urlopen
get_value = refl

get-Readable_example :
    Readable (arrived (serve [] (get_request client (text "a")))) (string (text "value"))
get-Readable_example = get-Readable host client (text "a") [] (string (text "value")) get_value

-- A host that refuses every URL before a request is sent.
refused :
    get (record host { urlopen = λ w r. not_sent (text "space") }) client (text "a b") []
    ≡ (raise (invalid_request (text "space")), [])
unfolding get request urlopen logged
refused = refl
