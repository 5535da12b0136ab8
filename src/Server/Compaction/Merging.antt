-- ===== src/Server/Compaction/Merging.antt =====
-- The second loop of the merge: it ends, and what it gives.
use sndv_kv.Prelude.{
  ℕ, zero, suc, ◌+◌, ◌≡◌, ◌≤◌, refl, sym, ap, ◌∙◌, inl, inr, List, [], ◌∷◌, Option, none, some,
  Option-cases, length, arith, All, true, Text,
}
use mathlib.Core.Path.{subst}
use sndv_kv.Server.Wal.{Entry}
use sndv_kv.Server.Compaction.{MergeItem, Heap, next_of, add_entry, merge_loop}
use sndv_kv.Server.Compaction.Queues.{In, IsHeap}
use sndv_kv.Server.Compaction.Order.{Descending}
use sndv_kv.Server.Compaction.Sources.{first_entry, rest_at, total, Stepped, next_of-Stepped}
use sndv_kv.Server.Compaction.Steps.{Read, Stands, Covers, refilled, Stands-round}
use sndv_kv.Server.Compaction.Kept.{
  has_key, Every, Has, in_heap, in_reader, in_entries, Every-round, Has-round,
}

module _ (heap : Heap) (laws : IsHeap heap) where
  pub record Merged (mh : heap.MergeHeap) (iters : List (List Entry)) (entries out : List Entry)
      : Type 1 where
    pub descending : Descending out
    pub every : (P : Entry → Type 0) → Every heap laws P mh iters entries → All P out
    pub has : (k : Text) → Has heap laws k mh iters entries → has_key k out ≡ true

  abbrev pub Loop : ℕ → heap.MergeHeap → List (List Entry) → List Entry → Type 1
  Loop fuel mh iters entries =
      (out : List Entry) × (merge_loop first_entry heap fuel mh iters entries ≡ some out)
      × Merged mh iters entries out

  -- No reader has an entry left when the heap is empty.
  nothing_left :
      (mh : heap.MergeHeap) (j : ℕ) (es : List Entry)
      → heap.items mh ≡ []
      → All (Covers heap laws mh j) es
      → es ≡ []
  nothing_left mh j [] e h = refl
  nothing_left mh j (x ∷ es) e ((y, held, src, after), more) = absurd (subst (In y) e held)

  Has-ended :
      (k : Text) (mh : heap.MergeHeap) (iters : List (List Entry)) (entries : List Entry)
      → heap.items mh ≡ []
      → Stands heap laws mh iters entries
      → Has heap laws k mh iters entries
      → has_key k entries ≡ true
  unfolding has_key
  Has-ended k mh iters entries empty h (in_heap y held e) = absurd (subst (In y) empty held)
  Has-ended k mh iters entries empty h (in_reader j found) =
      let none_left : rest_at j iters ≡ [] =
        nothing_left mh j (rest_at j iters) empty (h.covered j) in
      absurd (cc (ap (has_key k) (sym none_left) ∙ found))
  Has-ended k mh iters entries empty h (in_entries found) = found

  ended :
      (fuel : ℕ) (mh : heap.MergeHeap) (iters : List (List Entry)) (entries : List Entry)
      → heap.pop mh ≡ none
      → Stands heap laws mh iters entries
      → Loop fuel mh iters entries
  unfolding merge_loop
  ended fuel mh iters entries e h = (
    entries,
    ended_at fuel e,
    record {
      descending = h.descending;
      every = λ P every. every.merged;
      has = λ k has. Has-ended k mh iters entries (laws.pop_none mh e) h has;
    },
  )
    where
      ended_at :
          (n : ℕ)
          → heap.pop mh ≡ none
          → merge_loop first_entry heap n mh iters entries ≡ some entries
      ended_at zero e = rw (e, merge_loop) refl
      ended_at (suc n) e = rw (e, merge_loop) refl

  module _ (mh mh' : heap.MergeHeap) (iters iters' : List (List Entry)) (entries : List Entry)
      (top : MergeItem) (popped : heap.pop mh ≡ some (top, mh')) (o : Option Entry)
      (read : Read top.source_id iters iters' o) where
    -- What comes out after a round comes out of the state before it.
    Merged-before :
        (out : List Entry)
        → Merged (refilled heap laws top.source_id o mh') iters' (add_entry top.entry entries) out
        → Merged mh iters entries out
    Merged-before out h = record {
      descending = h.descending;
      every = λ P every.
          h.every P (Every-round heap laws mh mh' iters iters' entries top popped P o read every);
      has = λ k has.
          h.has k (Has-round heap laws mh mh' iters iters' entries top popped k o read has);
    }

    Loop_before :
        (fuel : ℕ)
        → merge_loop first_entry heap (suc fuel) mh iters entries
          ≡ merge_loop first_entry heap fuel
              (refilled heap laws top.source_id o mh')
              iters'
              (add_entry top.entry entries)
        → Loop fuel (refilled heap laws top.source_id o mh') iters' (add_entry top.entry entries)
        → Loop (suc fuel) mh iters entries
    Loop_before fuel step (out, e, h) = (out, step ∙ e, Merged-before out h)

  loop_stops :
      (fuel : ℕ) (mh mh' : heap.MergeHeap) (iters : List (List Entry)) (entries : List Entry)
      (top : MergeItem)
      → heap.pop mh ≡ some (top, mh')
      → next_of first_entry top.source_id iters ≡ none
      → merge_loop first_entry heap (suc fuel) mh iters entries
        ≡ merge_loop first_entry heap fuel mh' iters (add_entry top.entry entries)
  unfolding merge_loop
  loop_stops fuel mh mh' iters entries top popped stops = rw (popped, stops, merge_loop) refl

  loop_gives :
      (fuel : ℕ) (mh mh' : heap.MergeHeap) (iters iters' : List (List Entry)) (entries : List Entry)
      (top : MergeItem) (e : Entry)
      → heap.pop mh ≡ some (top, mh')
      → next_of first_entry top.source_id iters ≡ some (e, iters')
      → merge_loop first_entry heap (suc fuel) mh iters entries
        ≡ merge_loop first_entry heap fuel
            (heap.push (record { entry = e; source_id = top.source_id }) mh')
            iters'
            (add_entry top.entry entries)
  unfolding merge_loop
  loop_gives fuel mh mh' iters iters' entries top e popped gives =
      rw (popped, gives, merge_loop) refl

  pub merge_loop-Loop :
      (fuel : ℕ) (mh : heap.MergeHeap) (iters : List (List Entry)) (entries : List Entry)
      → length (heap.items mh) + total iters ≤ fuel
      → Stands heap laws mh iters entries
      → Loop fuel mh iters entries
  merge_loop-Loop zero mh iters entries enough h = elim (Option-cases (heap.pop mh)) [
    | inl e ↦ ended zero mh iters entries e h
    | inr ((top, mh'), e) ↦ absurd (omega (arith, laws.pop_length mh mh' top e))
  ]
  merge_loop-Loop (suc fuel) mh iters entries enough h = elim (Option-cases (heap.pop mh)) [
    | inl e ↦ ended (suc fuel) mh iters entries e h
    | inr ((top, mh'), e) ↦ elim (Option-cases (next_of first_entry top.source_id iters)) [
      | inl stops ↦
          let read : Read top.source_id iters iters none = (
            subst (Stepped top.source_id iters) stops (next_of-Stepped top.source_id iters),
            λ j. refl,
          ) in
          Loop_before mh mh' iters iters entries top e none read fuel
            (loop_stops fuel mh mh' iters entries top e stops)
            (merge_loop-Loop fuel mh' iters (add_entry top.entry entries)
              (omega (arith, enough, laws.pop_length mh mh' top e))
              (Stands-round heap laws mh mh' iters iters entries top e none read h))
      | inr ((d, iters'), gives) ↦
          let new : MergeItem = record { entry = d; source_id = top.source_id } in
          let stepped : Stepped top.source_id iters (some (d, iters')) =
            subst (Stepped top.source_id iters) gives (next_of-Stepped top.source_id iters) in
          let read : Read top.source_id iters iters' (some d) = (stepped.0, stepped.1) in
          Loop_before mh mh' iters iters' entries top e (some d) read fuel
            (loop_gives fuel mh mh' iters iters' entries top d e gives)
            (merge_loop-Loop fuel (heap.push new mh') iters' (add_entry top.entry entries)
              (omega
                (arith, enough, laws.pop_length mh mh' top e, laws.push_length new mh', stepped.2))
              (Stands-round heap laws mh mh' iters iters' entries top e (some d) read h))
    ]
  ]
