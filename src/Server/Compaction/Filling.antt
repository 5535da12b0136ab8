-- ===== src/Server/Compaction/Filling.antt =====
-- The first loop of the merge, which takes one entry of each reader.
use sndv_kv.Prelude.{
  ℕ, zero, suc, ◌+◌, ◌≡◌, refl, sym, ap, ◌∙◌, ◌⊎◌, inl, inr, List, [], ◌∷◌, length, arith, All,
  true, Text, text_eq, ◌||◌, Bool-cases,
}
use mathlib.Core.Path.{subst}
use sndv_kv.Server.Wal.{Entry}
use sndv_kv.Server.Compaction.{MergeItem, Heap, push_all}
use sndv_kv.Server.Compaction.Queues.{In, IsHeap}
use sndv_kv.Server.Compaction.Order.{Sorted, All-map}
use sndv_kv.Server.Compaction.Sources.{first_entry, rest_at, total}
use sndv_kv.Server.Compaction.Steps.{Held, Stands}
use sndv_kv.Server.Compaction.Kept.{has_key, Every, Has, in_heap, in_reader}

abbrev item : Entry → ℕ → MergeItem
item e i = record { entry = e; source_id = i }

-- `i + j`
shift : ℕ → ℕ → ℕ
shift i zero = i
shift i (suc j) = shift (i + 1) j

shift_lem : (i j : ℕ) → shift i j ≡ i + j
unfolding shift
shift_lem i zero = omega arith
shift_lem i (suc j) = omega (arith, shift_lem (i + 1) j)

module _ (heap : Heap) (laws : IsHeap heap) where
  -- What the loop from the reader with the number `i` does: each reader without entries stays as it is,
  -- and the first entry of each other is in the heap.
  record Filled (i : ℕ) (mh mh' : heap.MergeHeap) (iters iters' : List (List Entry)) : Type 0 where
    source :
        (j : ℕ)
        → ((rest_at j iters ≡ []) × (rest_at j iters' ≡ []))
          ⊎ ((e : Entry) × (rest_at j iters ≡ e ∷ rest_at j iters')
              × Held heap laws mh' (item e (shift i j)))
    held :
        (y : MergeItem)
        → Held heap laws mh' y
        → Held heap laws mh y
          ⊎ ((j : ℕ) × (e : Entry) × (y ≡ item e (shift i j))
              × (rest_at j iters ≡ e ∷ rest_at j iters'))
    kept : (y : MergeItem) → Held heap laws mh y → Held heap laws mh' y
    count : length (heap.items mh') + total iters' ≡ length (heap.items mh) + total iters

  abbrev Result : ℕ → heap.MergeHeap → List (List Entry) → Type 0
  Result i mh iters = let r = push_all first_entry heap i iters mh in Filled i mh r.0 iters r.1

  source_later :
      (i : ℕ) (mh mh' : heap.MergeHeap) (s s' : List Entry) (iters iters' : List (List Entry))
      → ((rest_at 0 (s ∷ iters) ≡ []) × (rest_at 0 (s' ∷ iters') ≡ []))
        ⊎ ((e : Entry) × (rest_at 0 (s ∷ iters) ≡ e ∷ rest_at 0 (s' ∷ iters'))
            × Held heap laws mh' (item e i))
      → Filled (i + 1) mh mh' iters iters'
      → (j : ℕ)
      → ((rest_at j (s ∷ iters) ≡ []) × (rest_at j (s' ∷ iters') ≡ []))
        ⊎ ((e : Entry) × (rest_at j (s ∷ iters) ≡ e ∷ rest_at j (s' ∷ iters'))
            × Held heap laws mh' (item e (shift i j)))
  unfolding rest_at shift
  source_later i mh mh' s s' iters iters' here h zero = here
  source_later i mh mh' s s' iters iters' here h (suc j) = h.source j

  push_all-Filled : (i : ℕ) (iters : List (List Entry)) (mh : heap.MergeHeap) → Result i mh iters
  unfolding push_all first_entry rest_at total shift
  push_all-Filled i [] mh = record {
    source = λ j. inl (refl, refl);
    held = λ y h. inl h;
    kept = λ y h. h;
    count = omega arith;
  }
  push_all-Filled i ([] ∷ iters) mh =
      let h : Result (i + 1) mh iters = push_all-Filled (i + 1) iters mh in
      record {
        source = source_later i mh _ [] [] iters _ (inl (refl, refl)) h;
        held = λ y held. elim (h.held y held) [
          | inl old ↦ inl old
          | inr (j, e, same, first) ↦ inr (suc j, e, same, first)
        ];
        kept = h.kept;
        count = omega (arith, h.count);
      }
  push_all-Filled i ((e ∷ es) ∷ iters) mh =
      let mh₁ : heap.MergeHeap = heap.push (item e i) mh in
      let h : Result (i + 1) mh₁ iters = push_all-Filled (i + 1) iters mh₁ in
      record {
        source =
            source_later i mh₁ _ (e ∷ es) es iters _
              (inr (
                e,
                refl,
                h.kept (item e i) ((laws.push_items (item e i) (item e i) mh).1 (inl refl)),
              ))
              h;
        held = λ y held. elim (h.held y held) [
          | inl old ↦ elim ((laws.push_items (item e i) y mh).0 old) [
            | inl new ↦ inr (0, e, new, refl)
            | inr older ↦ inl older
          ]
          | inr (j, d, same, first) ↦ inr (suc j, d, same, first)
        ];
        kept = λ y held. h.kept y ((laws.push_items (item e i) y mh).1 (inr held));
        count = omega (arith, h.count, laws.push_length (item e i) mh);
      }

  module _ (iters : List (List Entry)) where
    abbrev pub filled : heap.MergeHeap × List (List Entry)
    filled = push_all first_entry heap 0 iters heap.empty

    filled_lem : Filled 0 heap.empty filled.0 iters filled.1
    filled_lem = push_all-Filled 0 iters heap.empty

    pub length-filled : length (heap.items filled.0) + total filled.1 ≡ total iters
    length-filled =
        filled_lem.count ∙ ap (λ ys. length ys + total iters) laws.empty_items ∙ omega arith

    not_empty : (y : MergeItem) → ¬ (Held heap laws heap.empty y)
    not_empty y h = subst (λ ys. In y ys) laws.empty_items h

    pub Stands-filled : ((j : ℕ) → Sorted (rest_at j iters)) → Stands heap laws filled.0 filled.1 []
    Stands-filled sorted = record {
      covered = λ j. elim (filled_lem.source j) [
        | inl (none_before, none_after) ↦ subst (All _) (sym none_after) tt
        | inr (e, first, held) ↦
            let both : Sorted (e ∷ rest_at j filled.1) = subst Sorted first (sorted j) in
            All-map (λ d after. (item e (shift 0 j), held, shift_lem 0 j ∙ omega arith, after))
              (rest_at j filled.1) both.0
      ];
      sorted = λ j. elim (filled_lem.source j) [
        | inl (none_before, none_after) ↦ subst Sorted (sym none_after) tt
        | inr (e, first, held) ↦
            let both : Sorted (e ∷ rest_at j filled.1) = subst Sorted first (sorted j) in both.1
      ];
      leads = λ y h. tt;
      descending = tt;
    }

    pub Every-filled :
        (P : Entry → Type 0)
        → ((j : ℕ) → All P (rest_at j iters))
        → Every heap laws P filled.0 filled.1 []
    Every-filled P h = record {
      held = λ y held. elim (filled_lem.held y held) [
        | inl old ↦ absurd (not_empty y old)
        | inr (j, e, same, first) ↦
            let both : All P (e ∷ rest_at j filled.1) = subst (All P) first (h j) in
            subst (λ (z : MergeItem). P z.entry) (sym same) both.0
      ];
      coming = λ j. elim (filled_lem.source j) [
        | inl (none_before, none_after) ↦ subst (All P) (sym none_after) tt
        | inr (e, first, held) ↦
            let both : All P (e ∷ rest_at j filled.1) = subst (All P) first (h j) in both.1
      ];
      merged = tt;
    }

    pub Has-filled :
        (k : Text) (j : ℕ)
        → has_key k (rest_at j iters) ≡ true
        → Has heap laws k filled.0 filled.1 []
    unfolding has_key
    Has-filled k j h = elim (filled_lem.source j) [
      | inl (none_before, none_after) ↦ absurd (cc (ap (has_key k) (sym none_before) ∙ h))
      | inr (e, first, held) ↦
          let found : text_eq e.key k || has_key k (rest_at j filled.1) ≡ true =
            ap (has_key k) (sym first) ∙ h in
          elim (Bool-cases (text_eq e.key k)) [
            | inl is_first ↦ in_heap (item e (shift 0 j)) held is_first
            | inr later ↦ in_reader j (rw later at found)
          ]
    ]
