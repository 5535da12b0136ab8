-- ===== src/Bench.antt =====
-- What the benchmark programs (bench_orchestrator.py, quick_bench.py, profile_server.py,
-- scripts/docker_integration.py) share: their requests, and reads of a list by position.
pub mod Poll
pub mod Keys
use sndv_kv.Prelude.{
  ℕ, pos, ◌≡◌, ap, Text, text, decimal, List, [], ◌∷◌, ◌++◌, map, Option, none, some, get_elem?,
  replicate, range_from,
}
use sndv_kv.Python.{Json, string, array, object, end, field, int, items_of, Request, index_error}
use sndv_kv.Python.Actions.{Py, pure, throw}
use sndv_kv.Python.Floats.{Floats}

-- `{"key": key, "value": "x" * size, "ttl": 0}`
unfoldable pub item : Text → ℕ → Json
item key size = object (
    field (text "key") (string key)
      (field (text "value") (string (replicate size b'x')) (field (text "ttl") (int (pos 0)) end)))

-- `f"{prefix}{i}_{j}"`
unfoldable pub batch_key : Text → ℕ → ℕ → Text
batch_key prefix i j = prefix ++ (decimal i ++ (text "_" ++ decimal j))

-- `[{"key": f"{prefix}{i}_{j}", "value": "x" * size, "ttl": 0} for j in range(n)]`
unfoldable pub batch_items : Text → ℕ → ℕ → ℕ → List Json
unfolding range_from
batch_items prefix i n size = map (λ j. item (batch_key prefix i j) size) (range_from 0 n)

-- `requests.post(url, json=body, headers=headers)`
unfoldable pub post : Text → List (Text × Text) → Json → Request
post url headers body = record {
  method = text "POST";
  url = url;
  headers = headers;
  body = some body;
}

-- The same with `{"items": items}` for its body.
unfoldable pub post_batch : Text → List (Text × Text) → List Json → Request
unfolding post items_of
post_batch url headers items =
    post url headers (object (field (text "items") (array (items_of items)) end))

-- `requests.get(url, headers=headers)`
unfoldable pub get : Text → List (Text × Text) → Request
get url headers = record { method = text "GET"; url = url; headers = headers; body = none }

-- `xs[i]`
abbrev pub index : {A : Type 0} → List A → ℕ → Py A
index xs i = elim (get_elem? xs i) [ none ↦ throw index_error | some x ↦ pure x ]

pub index_found :
    {A : Type 0} (xs : List A) (i : ℕ) (a : A) → get_elem? xs i ≡ some a → index xs i ≡ pure a
index_found {A} xs i a e =
    let k : Option A → Py A = elim [ none ↦ throw index_error | some x ↦ pure x ] in ap k e
