-- ===== src/Server/Compaction/Kept.antt =====
-- What a round of the merge keeps of the entries: none is made, and no key is lost.
use sndv_kv.Prelude.{
  ℕ, ◌≡◌, refl, sym, ap, ◌∙◌, inl, inr, Text, text_eq, text_eq_iff, Bool, true, false, Bool-cases,
  List, [], ◌∷◌, Option, none, some, All, ◌==◌, ◌||◌, arith,
}
use mathlib.Core.Path.{subst}
use sndv_kv.Server.Wal.{Entry}
use sndv_kv.Server.Compaction.{MergeItem, Heap, add_entry}
use sndv_kv.Server.Compaction.Queues.{IsHeap}
use sndv_kv.Server.Compaction.Sources.{rest_at}
use sndv_kv.Server.Compaction.Steps.{Held, Read, refilled, held_later, top_held}

-- Whether a list has a key.
unfoldable pub has_key : Text → List Entry → Bool
has_key k [] = false
has_key k (e ∷ es) = text_eq e.key k || has_key k es

pub has_key-add_entry :
    (k : Text) (top : Entry) (entries : List Entry)
    → has_key k (add_entry top entries) ≡ (text_eq top.key k || has_key k entries)
unfolding has_key add_entry
has_key-add_entry k top [] = refl
has_key-add_entry k top (e ∷ entries) = elim (Bool-cases (text_eq e.key top.key)) [
  | inl same ↦ rw (same, (text_eq_iff e.key top.key).0 same) (ground arith)
  | inr other ↦ rw other refl
]

pub All-add_entry :
    (P : Entry → Type 0) (top : Entry) (entries : List Entry)
    → P top
    → All P entries
    → All P (add_entry top entries)
unfolding add_entry
All-add_entry P top [] p h = (p, tt)
All-add_entry P top (e ∷ entries) p h = elim (Bool-cases (text_eq e.key top.key)) [
  | inl same ↦ rw same (p, h.1)
  | inr other ↦ rw other (p, h)
]

module _ (heap : Heap) (laws : IsHeap heap) where
  -- A predicate of all entries that are in the merge.
  pub record Every (P : Entry → Type 0) (mh : heap.MergeHeap) (iters : List (List Entry))
      (entries : List Entry) : Type 0 where
    pub held : (y : MergeItem) → Held heap laws mh y → P y.entry
    pub coming : (j : ℕ) → All P (rest_at j iters)
    pub merged : All P entries

  -- A key that one of them has.
  pub data Has (k : Text) (mh : heap.MergeHeap) (iters : List (List Entry)) (entries : List Entry)
      : Type 0 where
    in_heap :
        (y : MergeItem)
        → Held heap laws mh y
        → text_eq y.entry.key k ≡ true
        → Has k mh iters entries
    in_reader : (j : ℕ) → has_key k (rest_at j iters) ≡ true → Has k mh iters entries
    in_entries : has_key k entries ≡ true → Has k mh iters entries

  module _ (mh mh' : heap.MergeHeap) (iters iters' : List (List Entry)) (entries : List Entry)
      (top : MergeItem) (popped : heap.pop mh ≡ some (top, mh')) where
    held_before : (y : MergeItem) → Held heap laws mh' y → Held heap laws mh y
    held_before y h = (laws.pop_items mh mh' top y popped).1 (inr h)

    pub Every-round :
        (P : Entry → Type 0) (o : Option Entry)
        → Read top.source_id iters iters' o
        → Every P mh iters entries
        → Every P (refilled heap laws top.source_id o mh') iters' (add_entry top.entry entries)
    Every-round P none (ended, same) h = record {
      held = λ y held. h.held y (held_before y held);
      coming = λ j. subst (All P) (sym (same j)) (h.coming j);
      merged =
          All-add_entry P top.entry entries
            (h.held top (top_held heap laws mh mh' iters iters' entries top popped)) h.merged;
    }
    Every-round P (some e) (first, same) h =
        let first_all : All P (e ∷ rest_at top.source_id iters') =
          subst (All P) first (h.coming top.source_id) in
        record {
          held = λ y held. elim ((laws.push_items _ y mh').0 held) [
            | inl is_new ↦ subst (λ (z : MergeItem). P z.entry) (sym is_new) first_all.0
            | inr later ↦ h.held y (held_before y later)
          ];
          coming = λ j. elim (Bool-cases (top.source_id == j)) [
            | inl here ↦
                let at : top.source_id ≡ j = ground (arith, here) in
                subst (λ i. All P (rest_at i iters')) at first_all.1
            | inr there ↦ subst (All P) (sym (same j there)) (h.coming j)
          ];
          merged =
              All-add_entry P top.entry entries
                (h.held top (top_held heap laws mh mh' iters iters' entries top popped)) h.merged;
        }

    Has-top :
        (k : Text) (o : Option Entry)
        → text_eq top.entry.key k ≡ true
        → Has k (refilled heap laws top.source_id o mh') iters' (add_entry top.entry entries)
    Has-top k o e = in_entries (has_key-add_entry k top.entry entries ∙ rw e refl)

    Has-coming :
        (k : Text) (o : Option Entry) (j : ℕ)
        → Read top.source_id iters iters' o
        → has_key k (rest_at j iters) ≡ true
        → Has k (refilled heap laws top.source_id o mh') iters' (add_entry top.entry entries)
    unfolding has_key
    Has-coming k none j (ended, same) h = in_reader j (ap (has_key k) (same j) ∙ h)
    Has-coming k (some e) j (first, same) h = elim (Bool-cases (top.source_id == j)) [
      | inl here ↦
          let at : top.source_id ≡ j = ground (arith, here) in
          let found : text_eq e.key k || has_key k (rest_at top.source_id iters') ≡ true =
            ap (has_key k) (sym first) ∙ ap (λ i. has_key k (rest_at i iters)) at ∙ h in
          elim (Bool-cases (text_eq e.key k)) [
            | inl is_first ↦
                let new : MergeItem = record { entry = e; source_id = top.source_id } in
                in_heap new ((laws.push_items new new mh').1 (inl refl)) is_first
            | inr later ↦ in_reader top.source_id (rw later at found)
          ]
      | inr there ↦ in_reader j (ap (has_key k) (same j there) ∙ h)
    ]

    pub Has-round :
        (k : Text) (o : Option Entry)
        → Read top.source_id iters iters' o
        → Has k mh iters entries
        → Has k (refilled heap laws top.source_id o mh') iters' (add_entry top.entry entries)
    Has-round k o read (in_heap y held e) = elim ((laws.pop_items mh mh' top y popped).0 held) [
      | inl same ↦ Has-top k o (ap (λ (z : MergeItem). text_eq z.entry.key k) (sym same) ∙ e)
      | inr later ↦ in_heap y (held_later heap laws top.source_id o mh' y later) e
    ]
    Has-round k o read (in_reader j h) = Has-coming k o j read h
    Has-round k o read (in_entries h) =
        in_entries (has_key-add_entry k top.entry entries ∙ rw h (ground arith))
