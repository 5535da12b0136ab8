-- ===== src/Server/Compaction/Queues.antt =====
-- What container/heap promises of the heap of the merge.
use sndv_kv.Prelude.{◌≡◌, ◌↔◌, ◌⊎◌, ◌+◌, false, List, [], ◌∷◌, none, some, length}
use sndv_kv.Server.Store.{text_lt}
use sndv_kv.Server.Compaction.{MergeItem, Heap}

abbrev pub In : {A : Type 0} → A → List A → Type 0
In x [] = ⊥
In x (y ∷ ys) = (x ≡ y) ⊎ In x ys

-- `Pop` gives an element with a least key, and keeps the others.
pub record IsHeap (heap : Heap) : Type 0 where
  pub empty_items : heap.items heap.empty ≡ []
  pub push_items :
      (x y : MergeItem) (h : heap.MergeHeap)
      → In y (heap.items (heap.push x h)) ↔ ((y ≡ x) ⊎ In y (heap.items h))
  pub push_length :
      (x : MergeItem) (h : heap.MergeHeap)
      → length (heap.items (heap.push x h)) ≡ 1 + length (heap.items h)
  pub pop_none : (h : heap.MergeHeap) → heap.pop h ≡ none → heap.items h ≡ []
  pub pop_items :
      (h h' : heap.MergeHeap) (x y : MergeItem)
      → heap.pop h ≡ some (x, h')
      → In y (heap.items h) ↔ ((y ≡ x) ⊎ In y (heap.items h'))
  pub pop_length :
      (h h' : heap.MergeHeap) (x : MergeItem)
      → heap.pop h ≡ some (x, h')
      → length (heap.items h) ≡ 1 + length (heap.items h')
  pub pop_least :
      (h h' : heap.MergeHeap) (x y : MergeItem)
      → heap.pop h ≡ some (x, h')
      → In y (heap.items h')
      → text_lt y.entry.key x.entry.key ≡ false
