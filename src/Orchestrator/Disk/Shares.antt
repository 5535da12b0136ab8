-- ===== src/Orchestrator/Disk/Shares.antt =====
-- What the disk metrics of bench_orchestrator.py say of one another.
use sndv_kv.Prelude.{◌+◌, ◌≡◌, ◌≤◌, refl, ◌∙◌, Bool, true, false, List, [], ◌∷◌, ◌&&◌, arith, All}
use mathlib.Core.List.{Permᴰ}
use sndv_kv.Python.{Item}
use sndv_kv.Orchestrator.Disk.{is_wal, is_sstable, sizes, entries, usage_of, Usage}

sizes-le : (p : Item → Bool) (items : List Item) → sizes p items ≤ sizes (λ _. true) items
unfolding sizes
sizes-le p [] = omega arith
sizes-le p (i ∷ items) = ground (arith, sizes-le p items)

entries-le : (p : Item → Bool) (items : List Item) → entries p items ≤ entries (λ _. true) items
unfolding entries
entries-le p [] = omega arith
entries-le p (i ∷ items) = ground (arith, entries-le p items)

-- Tests that no entry passes at once split what all entries take.
sizes_disjoint :
    (p q : Item → Bool) (items : List Item)
    → All (λ i. p i && q i ≡ false) items
    → sizes p items + sizes q items ≤ sizes (λ _. true) items
unfolding sizes
sizes_disjoint p q [] h = omega arith
sizes_disjoint p q (i ∷ items) h = ground (arith, h.0, sizes_disjoint p q items h.1)

sizes-perm : (p : Item → Bool) {xs ys : List Item} → Permᴰ xs ys → sizes p xs ≡ sizes p ys
unfolding sizes
sizes-perm p Permᴰ.nil = refl
sizes-perm p (Permᴰ.cons e h) = rw e (omega (arith, sizes-perm p h))
sizes-perm p (Permᴰ.swap e f) = rw (e, f) (omega arith)
sizes-perm p (Permᴰ.trans h k) = sizes-perm p h ∙ sizes-perm p k

entries-perm : (p : Item → Bool) {xs ys : List Item} → Permᴰ xs ys → entries p xs ≡ entries p ys
unfolding entries
entries-perm p Permᴰ.nil = refl
entries-perm p (Permᴰ.cons e h) = rw e (omega (arith, entries-perm p h))
entries-perm p (Permᴰ.swap e f) = rw (e, f) (omega arith)
entries-perm p (Permᴰ.trans h k) = entries-perm p h ∙ entries-perm p k

-- Where no log is also a sorted table, the logs and the sorted tables together take no more bytes
-- than the directory, and neither is more than all entries.
pub usage_of_bounds :
    (items : List Item)
    → All (λ i. is_wal i && is_sstable i ≡ false) items
    → let u : Usage = usage_of items in
      (u.wal_size + u.sstable_size ≤ u.data_size)
      × (u.wal_files ≤ u.total_files)
      × (u.sstable_files ≤ u.total_files)
unfolding usage_of
usage_of_bounds items h =
    (sizes_disjoint is_wal is_sstable items h, entries-le is_wal items, entries-le is_sstable items)

-- The metrics do not depend on the order in which the entries of the directory are found.
pub usage_of-perm : (xs ys : List Item) → Permᴰ xs ys → usage_of xs ≡ usage_of ys
unfolding usage_of
usage_of-perm xs ys h = rw (
  sizes-perm (λ _. true) h,
  sizes-perm is_wal h,
  sizes-perm is_sstable h,
  entries-perm is_wal h,
  entries-perm is_sstable h,
  entries-perm (λ _. true) h,
)
