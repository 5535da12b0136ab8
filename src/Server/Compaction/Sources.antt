-- ===== src/Server/Compaction/Sources.antt =====
-- The readers of the merge as the lists of the entries that they have not given yet.
use sndv_kv.Prelude.{
  ℕ, zero, suc, ◌+◌, ◌≡◌, refl, false, List, [], ◌∷◌, Option, none, some, length, ◌==◌, arith,
}
use sndv_kv.Server.Wal.{Entry}
use sndv_kv.Server.Compaction.{next_of}

-- A reader of a list.
unfoldable pub first_entry : List Entry → Option (Entry × List Entry)
first_entry [] = none
first_entry (e ∷ es) = some (e, es)

-- What the reader with a number has left.
unfoldable pub rest_at : ℕ → List (List Entry) → List Entry
rest_at i [] = []
rest_at zero (es ∷ iters) = es
rest_at (suc i) (es ∷ iters) = rest_at i iters

unfoldable pub total : List (List Entry) → ℕ
total [] = 0
total (es ∷ iters) = length es + total iters

-- What a call of `Next` on a reader does to what the readers have left.
abbrev pub Stepped : ℕ → List (List Entry) → Option (Entry × List (List Entry)) → Type 0
Stepped i iters none = rest_at i iters ≡ []
Stepped i iters (some (e, iters')) =
    (rest_at i iters ≡ e ∷ rest_at i iters')
    × ((j : ℕ) → i == j ≡ false → rest_at j iters' ≡ rest_at j iters)
    × (total iters ≡ 1 + total iters')

kept_later :
    (i : ℕ) (es : List Entry) (iters iters' : List (List Entry))
    → ((j : ℕ) → i == j ≡ false → rest_at j iters' ≡ rest_at j iters)
    → (j : ℕ) → suc i == j ≡ false
    → rest_at j (es ∷ iters') ≡ rest_at j (es ∷ iters)
unfolding rest_at
kept_later i es iters iters' h zero ne = refl
kept_later i es iters iters' h (suc j) ne = h j (ground (arith, ne))

kept_first :
    (s t : List Entry) (iters : List (List Entry)) (j : ℕ)
    → 0 == j ≡ false
    → rest_at j (s ∷ iters) ≡ rest_at j (t ∷ iters)
unfolding rest_at
kept_first s t iters zero ne = absurd (ground arith)
kept_first s t iters (suc j) ne = refl

Stepped-later :
    (i : ℕ) (es : List Entry) (iters : List (List Entry)) (o : Option (Entry × List (List Entry)))
    → Stepped i iters o
    → Stepped
        (suc i)
        (es ∷ iters)
        (elim o [ none ↦ none | some (e, iters') ↦ some (e, es ∷ iters') ])
unfolding rest_at total
Stepped-later i es iters none h = h
Stepped-later i es iters (some (e, iters')) (here, others, count) =
    (here, kept_later i es iters iters' others, omega (arith, count))

pub next_of-Stepped :
    (i : ℕ) (iters : List (List Entry)) → Stepped i iters (next_of first_entry i iters)
unfolding next_of first_entry rest_at total
next_of-Stepped i [] = refl
next_of-Stepped zero ([] ∷ iters) = refl
next_of-Stepped zero ((e ∷ es) ∷ iters) = (refl, kept_first es (e ∷ es) iters, omega arith)
next_of-Stepped (suc i) (es ∷ iters) = Stepped-later i es iters _ (next_of-Stepped i iters)
