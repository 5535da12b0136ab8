-- ===== src/Python/Counts.antt =====
-- What a trace says of the answers that came over the network.
use sndv_kv.Prelude.{ℕ, ◌+◌, Bool, true, false, [], ◌∷◌, ◌||◌, ◌==◌, if◌then◌else◌}
use sndv_kv.Python.{Wire, answered, unreachable, exchange, slept, Trace}

abbrev pub has_status : ℕ → Wire → Bool
has_status code (answered status _ _) = status == code
has_status code (unreachable _) = false

-- A status of 200 or 201.
abbrev pub accepted : Wire → Bool
accepted a = has_status 200 a || has_status 201 a

-- The number of answers that pass a test.
unfoldable pub answers : (Wire → Bool) → Trace → ℕ
answers p [] = 0
answers p (exchange r a ∷ w) = answers p w + (if p a then 1 else 0)
answers p (_ ∷ w) = answers p w

-- The number of answers with status 201, and of requests sent.
abbrev pub created : Trace → ℕ
created = answers (has_status 201)

abbrev pub sent : Trace → ℕ
sent = answers (λ _. true)

-- The number of times that the process slept.
unfoldable pub naps : Trace → ℕ
naps [] = 0
naps (slept ∷ w) = naps w + 1
naps (_ ∷ w) = naps w
