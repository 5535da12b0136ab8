-- ===== src/Server/Compaction/Steps.antt =====
-- What holds between the rounds of the merge, and that a round keeps it.
use sndv_kv.Prelude.{
  ℕ, ◌≡◌, refl, sym, ap, ◌∙◌, inl, inr, false, Bool-cases, List, [], ◌∷◌, Option, none, some, All,
  ◌==◌, arith,
}
use mathlib.Core.Path.{subst}
use sndv_kv.Server.Wal.{Entry}
use sndv_kv.Server.Store.{text_lt}
use sndv_kv.Server.Compaction.{MergeItem, Heap, add_entry}
use sndv_kv.Server.Compaction.Order.{
  Sorted, Descending, Leads, All-map, text_lt_irrefl, text_le_trans, add_entry-Descending,
  Leads-add_entry,
}
use sndv_kv.Server.Compaction.Queues.{In, IsHeap}
use sndv_kv.Server.Compaction.Sources.{rest_at}

-- What a round takes from the readers: the reader of the top element gives an entry, or it has none.
abbrev pub Read : ℕ → List (List Entry) → List (List Entry) → Option Entry → Type 0
Read i iters iters' none = (rest_at i iters ≡ []) × ((j : ℕ) → rest_at j iters' ≡ rest_at j iters)
Read i iters iters' (some e) =
    (rest_at i iters ≡ e ∷ rest_at i iters')
    × ((j : ℕ) → i == j ≡ false → rest_at j iters' ≡ rest_at j iters)

module _ (heap : Heap) (laws : IsHeap heap) where
  abbrev pub Held : heap.MergeHeap → MergeItem → Type 0
  Held mh y = In y (heap.items mh)

  -- A reader with an entry to come has an element in the heap that does not stand after it.
  abbrev pub Covers : heap.MergeHeap → ℕ → Entry → Type 0
  Covers mh j e =
      (y : MergeItem) × Held mh y × (y.source_id ≡ j) × (text_lt e.key y.entry.key ≡ false)

  pub record Stands (mh : heap.MergeHeap) (iters : List (List Entry)) (entries : List Entry)
      : Type 0 where
    pub covered : (j : ℕ) → All (Covers mh j) (rest_at j iters)
    pub sorted : (j : ℕ) → Sorted (rest_at j iters)
    pub leads : (y : MergeItem) → Held mh y → Leads entries y.entry
    pub descending : Descending entries

  -- The heap after the round.
  abbrev pub refilled : ℕ → Option Entry → heap.MergeHeap → heap.MergeHeap
  refilled i none mh = mh
  refilled i (some e) mh = heap.push (record { entry = e; source_id = i }) mh

  pub held_later :
      (i : ℕ) (o : Option Entry) (mh : heap.MergeHeap) (y : MergeItem)
      → Held mh y
      → Held (refilled i o mh) y
  held_later i none mh y h = h
  held_later i (some e) mh y h =
      (laws.push_items (record { entry = e; source_id = i }) y mh).1 (inr h)

  module _ (mh mh' : heap.MergeHeap) (iters iters' : List (List Entry)) (entries : List Entry)
      (top : MergeItem) (popped : heap.pop mh ≡ some (top, mh')) where
    other_witness :
        (o : Option Entry) (j : ℕ) (e : Entry)
        → top.source_id == j ≡ false
        → Covers mh j e
        → Covers (refilled top.source_id o mh') j e
    other_witness o j e other (y, h, src, after) = elim ((laws.pop_items mh mh' top y popped).0 h) [
      | inl same ↦
          let at_top : top.source_id ≡ j = ap (λ (z : MergeItem). z.source_id) (sym same) ∙ src in
          absurd (ground (arith, at_top, other))
      | inr later ↦ (y, held_later top.source_id o mh' y later, src, after)
    ]

    -- The readers of the other elements.
    others_covered :
        (o : Option Entry) (j : ℕ)
        → top.source_id == j ≡ false
        → rest_at j iters' ≡ rest_at j iters
        → All (Covers mh j) (rest_at j iters)
        → All (Covers (refilled top.source_id o mh') j) (rest_at j iters')
    others_covered o j other same h =
        subst (All (Covers (refilled top.source_id o mh') j)) (sym same)
          (All-map (λ e. other_witness o j e other) (rest_at j iters) h)

    covered_round :
        (o : Option Entry)
        → Read top.source_id iters iters' o
        → Stands mh iters entries
        → (j : ℕ) → All (Covers (refilled top.source_id o mh') j) (rest_at j iters')
    covered_round none (ended, same) h j = elim (Bool-cases (top.source_id == j)) [
      | inl here ↦
          let at : top.source_id ≡ j = ground (arith, here) in
          subst (All (Covers mh' j)) (sym (same j ∙ ap (λ i. rest_at i iters) (sym at) ∙ ended)) tt
      | inr there ↦ others_covered none j there (same j) (h.covered j)
    ]
    covered_round (some e) (first, same) h j = elim (Bool-cases (top.source_id == j)) [
      | inl here ↦
          let at : top.source_id ≡ j = ground (arith, here) in
          let new : MergeItem = record { entry = e; source_id = top.source_id } in
          let sorted : Sorted (e ∷ rest_at top.source_id iters') =
            subst Sorted first (h.sorted top.source_id) in
          subst (λ i. All (Covers (heap.push new mh') i) (rest_at i iters')) at
            (All-map (λ d after. (new, (laws.push_items new new mh').1 (inl refl), refl, after))
              (rest_at top.source_id iters') sorted.0)
      | inr there ↦ others_covered (some e) j there (same j there) (h.covered j)
    ]

    Sorted-round :
        (o : Option Entry)
        → Read top.source_id iters iters' o
        → Stands mh iters entries
        → (j : ℕ) → Sorted (rest_at j iters')
    Sorted-round none (ended, same) h j = subst Sorted (sym (same j)) (h.sorted j)
    Sorted-round (some e) (first, same) h j = elim (Bool-cases (top.source_id == j)) [
      | inl here ↦
          let at : top.source_id ≡ j = ground (arith, here) in
          let sorted : Sorted (e ∷ rest_at top.source_id iters') =
            subst Sorted first (h.sorted top.source_id) in
          subst (λ i. Sorted (rest_at i iters')) at sorted.1
      | inr there ↦ subst Sorted (sym (same j there)) (h.sorted j)
    ]

    -- No element of the heap, and no entry that it covers, stands before its top.
    not_before_top : (y : MergeItem) → Held mh y → text_lt y.entry.key top.entry.key ≡ false
    not_before_top y h = elim ((laws.pop_items mh mh' top y popped).0 h) [
      | inl same ↦
          subst (λ (z : MergeItem). text_lt z.entry.key top.entry.key ≡ false) (sym same)
            (text_lt_irrefl top.entry.key)
      | inr later ↦ laws.pop_least mh mh' top y popped later
    ]

    covered-not_before_top :
        (j : ℕ) (e : Entry) → Covers mh j e → text_lt e.key top.entry.key ≡ false
    covered-not_before_top j e (y, h, src, after) =
        text_le_trans top.entry.key y.entry.key e.key (not_before_top y h) after

    Leads-round :
        (o : Option Entry)
        → Read top.source_id iters iters' o
        → Stands mh iters entries
        → (y : MergeItem) → Held (refilled top.source_id o mh') y
        → Leads (add_entry top.entry entries) y.entry
    Leads-round none read h y held =
        Leads-add_entry top.entry y.entry entries (laws.pop_least mh mh' top y popped held)
    Leads-round (some e) (first, same) h y held =
        let new : MergeItem = record { entry = e; source_id = top.source_id } in
        Leads-add_entry top.entry y.entry entries (elim ((laws.push_items new y mh').0 held) [
          | inl is_new ↦
              let covered : All (Covers mh top.source_id) (e ∷ rest_at top.source_id iters') =
                subst (All (Covers mh top.source_id)) first (h.covered top.source_id) in
              subst (λ (z : MergeItem). text_lt z.entry.key top.entry.key ≡ false) (sym is_new)
                (covered-not_before_top top.source_id e covered.0)
          | inr later ↦ laws.pop_least mh mh' top y popped later
        ])

    pub top_held : Held mh top
    top_held = (laws.pop_items mh mh' top top popped).1 (inl refl)

    pub Stands-round :
        (o : Option Entry)
        → Read top.source_id iters iters' o
        → Stands mh iters entries
        → Stands (refilled top.source_id o mh') iters' (add_entry top.entry entries)
    Stands-round o read h = record {
      covered = covered_round o read h;
      sorted = Sorted-round o read h;
      leads = Leads-round o read h;
      descending = add_entry-Descending top.entry entries (h.leads top top_held) h.descending;
    }
