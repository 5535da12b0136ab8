-- ===== src/Server/Compaction/Results.antt =====
-- What a merge of lists gives.
use sndv_kv.Prelude.{
  ℕ, zero, suc, ◌≡◌, ◌≤◌, refl, ◌∙◌, inl, inr, List, [], ◌∷◌, some, arith, All, true, false, Bool,
  Bool-cases, Text, ◌||◌,
}
use sndv_kv.Server.Wal.{Entry}
use sndv_kv.Server.Compaction.{Heap, reversed, merge_iterators}
use sndv_kv.Server.Compaction.Queues.{IsHeap}
use sndv_kv.Server.Compaction.Order.{Sorted, Ascending, reversed-Ascending}
use sndv_kv.Server.Compaction.Sources.{first_entry, rest_at, total}
use sndv_kv.Server.Compaction.Kept.{has_key}
use sndv_kv.Server.Compaction.Filling.{
  filled, length-filled, Stands-filled, Every-filled, Has-filled,
}
use sndv_kv.Server.Compaction.Merging.{merge_loop-Loop}

-- Whether one of the lists has a key.
unfoldable pub any_has : Text → List (List Entry) → Bool
unfolding has_key
any_has k [] = false
any_has k (es ∷ lists) = has_key k es || any_has k lists

-- What a merge of sorted lists gives: sorted entries, no two with one key, each of them one of a
-- list, and with each of their keys.
pub record IsMerge (lists : List (List Entry)) (out : List Entry) : Type 1 where
  pub ascending : Ascending out
  pub every : (P : Entry → Type 0) → All (All P) lists → All P out
  pub has : (k : Text) → any_has k lists ≡ true → has_key k out ≡ true

All-rest_at :
    (P : List Entry → Type 0) (lists : List (List Entry))
    → P []
    → All P lists
    → (j : ℕ) → P (rest_at j lists)
unfolding rest_at
All-rest_at P [] p h j = p
All-rest_at P (es ∷ lists) p h zero = h.0
All-rest_at P (es ∷ lists) p h (suc j) = All-rest_at P lists p h.1 j

any_has-rest_at :
    (k : Text) (lists : List (List Entry))
    → any_has k lists ≡ true
    → (j : ℕ) × (has_key k (rest_at j lists) ≡ true)
unfolding any_has rest_at
any_has-rest_at k [] h = absurd (cc h)
any_has-rest_at k (es ∷ lists) h = elim (Bool-cases (has_key k es)) [
  | inl here ↦ (0, here)
  | inr there ↦ let (j, found) = any_has-rest_at k lists (rw there at h) in (suc j, found)
]

has_key-reversed :
    (k : Text) (entries es : List Entry)
    → has_key k (reversed entries es) ≡ (has_key k entries || has_key k es)
unfolding has_key reversed
has_key-reversed k [] es = refl
has_key-reversed k (e ∷ entries) es = has_key-reversed k entries (e ∷ es) ∙ ground arith

All-reversed :
    (P : Entry → Type 0) (entries es : List Entry)
    → All P entries
    → All P es
    → All P (reversed entries es)
unfolding reversed
All-reversed P [] es h g = g
All-reversed P (e ∷ entries) es h g = All-reversed P entries (e ∷ es) h.1 (h.0, g)

module _ (heap : Heap) (laws : IsHeap heap) where
  pub iterators-IsMerge :
      (fuel : ℕ) (lists : List (List Entry))
      → total lists ≤ fuel
      → All Sorted lists
      → (out : List Entry) × (merge_iterators first_entry heap fuel lists ≡ some out)
        × IsMerge lists out
  unfolding merge_iterators has_key
  iterators-IsMerge fuel lists enough sorted =
      let start = filled heap laws lists in
      let (out, e, merged) =
        merge_loop-Loop heap laws fuel start.0 start.1 []
          (omega (arith, enough, length-filled heap laws lists))
          (Stands-filled heap laws lists (All-rest_at Sorted lists tt sorted)) in
      (
        reversed out [],
        rw (e, merge_iterators) refl,
        record {
          ascending = reversed-Ascending out merged.descending;
          every = λ P h.
              All-reversed P out []
                (merged.every P (Every-filled heap laws lists P (All-rest_at (All P) lists tt h)))
                tt;
          has = λ k h.
              let (j, found) = any_has-rest_at k lists h in
              has_key-reversed k out []
              ∙ rw (merged.has k (Has-filled heap laws lists k j found)) refl;
        },
      )
