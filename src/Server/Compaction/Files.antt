-- ===== src/Server/Compaction/Files.antt =====
-- The merge of the files is the merge of the entries that were written to them.
use sndv_kv.Prelude.{
  ℕ, zero, suc, ◌+◌, ◌≡◌, ◌≤◌, refl, ◌∙◌, inl, inr, List, [], ◌∷◌, Option, none, some, Option-cases,
  length, length-append, map, arith, All,
}
use mathlib.Core.Path.{subst}
use sndv_kv.Server.Wal.{Entry}
use sndv_kv.Server.Sstable.Search.{length-encode_row}
use sndv_kv.Server.Wal.Recovery.{Fits}
use sndv_kv.Server.Sstable.{encode_row, encode_rows, next}
use sndv_kv.Server.Sstable.Reading.{next-encode_row}
use sndv_kv.Server.Compaction.{
  Heap, push_all, next_of, add_entry, merge_loop, merge_iterators, bytes_of,
}
use sndv_kv.Server.Compaction.Order.{Sorted}
use sndv_kv.Server.Compaction.Queues.{IsHeap}
use sndv_kv.Server.Compaction.Results.{IsMerge, iterators-IsMerge}
use sndv_kv.Server.Compaction.Sources.{first_entry, total}

abbrev pub encoded : List (List Entry) → List (List ℕ)
encoded lists = map encode_rows lists

abbrev as_bytes : Option (Entry × List (List Entry)) → Option (Entry × List (List ℕ))
as_bytes none = none
as_bytes (some (e, lists)) = some (e, encoded lists)

next-encode_rows-none : next (encode_rows []) ≡ none
unfolding next encode_rows
next-encode_rows-none = refl

next-encode_rows :
    (e : Entry) (es : List Entry) → Fits e → next (encode_rows (e ∷ es)) ≡ some (e, encode_rows es)
unfolding encode_rows
next-encode_rows e es h = next-encode_row e (encode_rows es) h

as_bytes-later :
    (es : List Entry) (o : Option (Entry × List (List Entry)))
    → (elim (as_bytes o) [ none ↦ none | some (e, iters) ↦ some (e, encode_rows es ∷ iters) ])
      ≡ as_bytes (elim o [ none ↦ none | some (e, iters) ↦ some (e, es ∷ iters) ])
as_bytes-later es none = refl
as_bytes-later es (some (e, iters)) = refl

next_of-encoded :
    (i : ℕ) (lists : List (List Entry))
    → All (All Fits) lists
    → next_of next i (encoded lists) ≡ as_bytes (next_of first_entry i lists)
unfolding next_of first_entry
next_of-encoded i [] h = refl
next_of-encoded zero ([] ∷ lists) h = rw (next-encode_rows-none, next_of) refl
next_of-encoded zero ((e ∷ es) ∷ lists) h = rw (next-encode_rows e es h.0.0, next_of) refl
next_of-encoded (suc i) (es ∷ lists) h =
    rw (next_of-encoded i lists h.1) (as_bytes-later es (next_of first_entry i lists))

-- What is left still fits.
abbrev LeftFits : Option (Entry × List (List Entry)) → Type 0
LeftFits none = Unit
LeftFits (some (e, lists)) = All (All Fits) lists

LeftFits-later :
    (es : List Entry) (o : Option (Entry × List (List Entry)))
    → All Fits es
    → LeftFits o
    → LeftFits (elim o [ none ↦ none | some (e, lists) ↦ some (e, es ∷ lists) ])
LeftFits-later es none h g = tt
LeftFits-later es (some (e, lists)) h g = (h, g)

next_of-LeftFits :
    (i : ℕ) (lists : List (List Entry))
    → All (All Fits) lists
    → LeftFits (next_of first_entry i lists)
unfolding next_of first_entry
next_of-LeftFits i [] h = tt
next_of-LeftFits zero ([] ∷ lists) h = tt
next_of-LeftFits zero ((e ∷ es) ∷ lists) h = (h.0.1, h.1)
next_of-LeftFits (suc i) (es ∷ lists) h =
    LeftFits-later es (next_of first_entry i lists) h.0 (next_of-LeftFits i lists h.1)

module _ (heap : Heap) where
  push_all-encoded :
      (i : ℕ) (lists : List (List Entry)) (mh : heap.MergeHeap)
      → All (All Fits) lists
      → (let r = push_all first_entry heap i lists mh in
          (push_all next heap i (encoded lists) mh ≡ (r.0, encoded r.1)) × All (All Fits) r.1)
  unfolding push_all first_entry
  push_all-encoded i [] mh h = (refl, tt)
  push_all-encoded i ([] ∷ lists) mh h =
      let (same, fits) = push_all-encoded (i + 1) lists mh h.1 in
      (rw (next-encode_rows-none, push_all, same) refl, (tt, fits))
  push_all-encoded i ((e ∷ es) ∷ lists) mh h =
      let (same, fits) =
        push_all-encoded (i + 1) lists (heap.push (record { entry = e; source_id = i }) mh) h.1 in
      (rw (next-encode_rows e es h.0.0, push_all, same) refl, (h.0.1, fits))

  merge_loop-encoded :
      (fuel : ℕ) (mh : heap.MergeHeap) (lists : List (List Entry)) (entries : List Entry)
      → All (All Fits) lists
      → merge_loop next heap fuel mh (encoded lists) entries
        ≡ merge_loop first_entry heap fuel mh lists entries
  unfolding merge_loop
  merge_loop-encoded zero mh lists entries h = refl
  merge_loop-encoded (suc fuel) mh lists entries h = elim (Option-cases (heap.pop mh)) [
    | inl e ↦ rw (e, merge_loop) refl
    | inr ((top, mh'), e) ↦ elim (Option-cases (next_of first_entry top.source_id lists)) [
      | inl stops ↦
          rw (e, next_of-encoded top.source_id lists h, stops, merge_loop)
            (merge_loop-encoded fuel mh' lists (add_entry top.entry entries) h)
      | inr ((d, lists'), gives) ↦
          rw (e, next_of-encoded top.source_id lists h, gives, merge_loop)
            (merge_loop-encoded fuel
              (heap.push (record { entry = d; source_id = top.source_id }) mh') lists'
              (add_entry top.entry entries)
              (subst LeftFits gives (next_of-LeftFits top.source_id lists h)))
    ]
  ]

  pub merge_iterators-encoded :
      (fuel : ℕ) (lists : List (List Entry))
      → All (All Fits) lists
      → merge_iterators next heap fuel (encoded lists) ≡ merge_iterators first_entry heap fuel lists
  unfolding merge_iterators
  merge_iterators-encoded fuel lists h =
      let (same, fits) = push_all-encoded 0 lists heap.empty h in
      let start = push_all first_entry heap 0 lists heap.empty in
      rw (same, merge_iterators, merge_loop-encoded fuel start.0 start.1 [] fits) refl

length-encode_rows : (es : List Entry) → length es ≤ length (encode_rows es)
unfolding encode_rows
length-encode_rows [] = omega arith
length-encode_rows (e ∷ es) = omega (
  arith,
  length-append (encode_row e) (encode_rows es),
  length-encode_row e,
  length-encode_rows es,
)

-- There is a byte at least for each entry.
pub bytes_of-encoded : (lists : List (List Entry)) → total lists ≤ bytes_of (encoded lists)
unfolding bytes_of total
bytes_of-encoded [] = omega arith
bytes_of-encoded (es ∷ lists) = omega (arith, bytes_of-encoded lists, length-encode_rows es)

-- With a heap as container/heap promises one, and with the bytes of the files as fuel, a merge of files
-- that hold entries in the order of their keys, whose lengths and expiries fit the format, ends. It
-- gives entries in strict order of their keys, each of them one of a file, and one for each key that a
-- file has.
pub merge_iterators-IsMerge :
    (heap : Heap) (lists : List (List Entry))
    → IsHeap heap
    → All (All Fits) lists
    → All Sorted lists
    → (out : List Entry) × (merge_iterators next heap (bytes_of (encoded lists)) (encoded lists)
        ≡ some out)
      × IsMerge lists out
merge_iterators-IsMerge heap lists laws fits sorted =
    let (out, e, merged) =
      iterators-IsMerge heap laws (bytes_of (encoded lists)) lists (bytes_of-encoded lists)
        sorted in
    (out, merge_iterators-encoded heap _ lists fits ∙ e, merged)
