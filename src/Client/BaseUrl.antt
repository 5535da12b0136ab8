-- ===== src/Client/BaseUrl.antt =====
-- `base_url.rstrip("/")` in clients/python/sndv.py: how a server may be named.
use mathlib.Core.List.{get_last?}
use sndv_kv.Prelude.{ℕ, zero, suc, ◌≡◌, ◌≢◌, refl, Text, [], ◌∷◌, ◌++◌, some, arith, replicate}
use sndv_kv.Client.{rstrip, init}

rstrip-replicate : (c n : ℕ) → rstrip c (replicate n c) ≡ []
unfolding rstrip
rstrip-replicate c zero = refl
rstrip-replicate c (suc n) = rw (rstrip-replicate c n) (ground arith)

rstrip-append : (c n : ℕ) (s : Text) → rstrip c (s ++ replicate n c) ≡ rstrip c s
unfolding rstrip
rstrip-append c n [] = rstrip-replicate c n
rstrip-append c n (x ∷ s) = rw (rstrip-append c n s)

-- One more character in front.
last-step :
    (c x : ℕ) (r s : Text)
    → rstrip c s ≡ r
    → get_last? r ≢ some c
    → get_last? (rstrip c (x ∷ s)) ≢ some c
unfolding rstrip
last-step c x [] s e h = rw e (ground arith)
last-step c x (y ∷ r) s e h = rw e h

rstrip-last : (c : ℕ) (s : Text) → get_last? (rstrip c s) ≢ some c
unfolding rstrip
rstrip-last c [] = λ h. cc
rstrip-last c (x ∷ s) = last-step c x (rstrip c s) s refl (rstrip-last c s)

-- However many slashes follow the address of the server, the client is the same, and its base URL
-- does not end in a slash.
pub init_slashes :
    (url token : Text) (n : ℕ)
    → (init (url ++ replicate n b'/') token ≡ init url token)
      × (get_last? (init url token).base_url ≢ some b'/')
unfolding init
init_slashes url token n = (rw rstrip-append, rstrip-last b'/' url)
