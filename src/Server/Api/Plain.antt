-- ===== src/Server/Api/Plain.antt =====
-- What the calls of a client return on a map, and what the network and the log have to do for it.
use sndv_kv.Prelude.{
  ℕ, ◌≡◌, ◌<◌, pos, Text, text, text_eq, Bool, true, false, not, List, [], ◌∷◌, Option, none, some,
  All, length, leb, ◌==◌, ◌&&◌, ◌||◌,
}
use sndv_kv.Python.{Json, null, string, object, end, field}
use sndv_kv.Client.{SndvClient}
use sndv_kv.Client.Outcomes.{put_request, get_request, delete_request}
use sndv_kv.Server.Router.{Inbound, Auth, write_json}
use sndv_kv.Server.Router.Answers.{Arrives}
use sndv_kv.Server.Store.Contents.{Contents, assign}
use sndv_kv.Server.Ingestion.{Server}
use sndv_kv.Server.Api.{Settings}
use sndv_kv.Server.Api.Network.{Call, put_call, get_call, delete_call, Network}

-- Letters, digits, `-` and `_`, which URLs and JSON leave as they are.
abbrev pub is_plain : ℕ → Bool
is_plain b =
    (leb b'0' b && leb b b'9')
    || ((leb b'A' b && leb b b'Z') || ((leb b'a' b && leb b b'z') || (b == b'-' || b == b'_')))

abbrev pub IsPlain : Text → Type 0
IsPlain = All (λ b. is_plain b ≡ true)

-- What a client sees of a read.
abbrev pub json_of : Option Text → Json
json_of none = null
json_of (some v) = string v

-- What the reads return on a map.
unfoldable pub map_values : List Call → Contents → List Json
map_values [] m = []
map_values (put_call k v ∷ calls) m = map_values calls (assign k (some v) m)
map_values (get_call k ∷ calls) m = json_of (m k) ∷ map_values calls m
map_values (delete_call k ∷ calls) m = map_values calls (assign k none m)

-- A call with plain texts, shorter than 4 GiB, whose key is not empty if it stands in the URL.
abbrev pub IsPlainCall : Call → Type 0
IsPlainCall (put_call k v) =
    IsPlain k × IsPlain v × (length k < 4294967296) × (length v < 4294967296)
IsPlainCall (get_call k) = IsPlain k × (text_eq k [] ≡ false)
IsPlainCall (delete_call k) = IsPlain k × (text_eq k [] ≡ false) × (length k < 4294967296)

-- Plain keys and values pass unchanged through the URLs, the headers and JSON, both ways.
pub record Carries (settings : Settings) (auth : Auth) (net : Network) (c : SndvClient)
    (loads : Text → Option Json) : Type 0 where
  pub put_law :
      (k v : Text)
      → IsPlain k
      → IsPlain v
      → let r : Inbound = net.inbound (put_request c k v (pos 0)) in
        Arrives auth (text "POST") (text "/put") r
        × (settings.unmarshal_put r.body ≡ some (record { key = k; value = v; ttl = pos 0 }))
  pub get_law :
      (k : Text)
      → IsPlain k
      → let r : Inbound = net.inbound (get_request c k) in
        Arrives auth (text "GET") (text "/get") r × (r.key ≡ k)
  pub delete_law :
      (k : Text)
      → IsPlain k
      → let r : Inbound = net.inbound (delete_request c k) in
        Arrives auth (text "POST") (text "/delete") r × (r.key ≡ k)
  pub value_law :
      (k v : Text)
      → IsPlain k
      → IsPlain v
      → loads (write_json k v)
        ≡ some (object (field (text "key") (string k) (field (text "val") (string v) end)))

-- The log takes every batch, or there is none.
abbrev pub Writes : Settings → Type 0
Writes settings = (s : Server) → settings.enable_disk_durability && not (settings.accepts s) ≡ false
