-- ===== src/Server/Store/Views.antt =====
-- The searches of the server: memory tables that can be written, and tables that the filter shows.
use sndv_kv.Prelude.{
  ℕ, zero, suc, ◌≡◌, ◌≢◌, refl, sym, ap, ◌∙◌, inl, inr, Text, text_eq, true, Bool-cases,
  Option-cases, List, [], ◌∷◌, ◌++◌, Option, none, some, All, ◌+◌, ◌==◌, arith,
}
use sndv_kv.Server.Wal.{Entry}
use sndv_kv.Server.Wal.Recovery.{Fits}
use sndv_kv.Server.Memory.{
  MemoryTable, set_entry, put_shard, get_shard_id, dump_from, num_shards, new_memory_table, put,
  dump_to_slice,
}
use sndv_kv.Server.Memory.Lookups.{IsPlaced, new_memory_table-IsPlaced, put-IsPlaced}
use sndv_kv.Server.Bloom.{SharedBloomFilter, contains}
use sndv_kv.Server.Sstable.{SstableMetadata, first_of, find_in_sstable}
use sndv_kv.Server.Store.{find_newest, search_table, search_levels}

pub first_of-none : {A : Type 0} (o : Option A) → first_of o none ≡ o
unfolding first_of
first_of-none none = refl
first_of-none (some a) = refl

pub first_of_assoc :
    {A : Type 0} (o p q : Option A) → first_of (first_of o p) q ≡ first_of o (first_of p q)
unfolding first_of
first_of_assoc none p q = refl
first_of_assoc (some a) p q = refl

pub find_newest-snoc :
    {A : Type 0} (f : A → Option Entry) (xs : List A) (x : A)
    → find_newest f (xs ++ x ∷ []) ≡ first_of (f x) (find_newest f xs)
unfolding find_newest first_of
find_newest-snoc f [] x = sym (first_of-none (f x))
find_newest-snoc f (y ∷ xs) x =
    ap (λ o. first_of o (f y)) (find_newest-snoc f xs x)
    ∙ first_of_assoc (f x) (find_newest f xs) (f y)

module _ (hash checksum : Text → ℕ) where
  -- A memory table whose entries can be written.
  pub record IsSound (table : MemoryTable) : Type 0 where
    pub placed : IsPlaced hash table
    pub fits : (i : ℕ) → All Fits (table i).data_map

  pub new_memory_table-IsSound : IsSound new_memory_table
  new_memory_table-IsSound = record { placed = new_memory_table-IsPlaced hash; fits = λ i. tt }

  All-set_entry :
      (P : Entry → Type 0) (e : Entry) (es : List Entry) → P e → All P es → All P (set_entry e es)
  unfolding set_entry
  All-set_entry P e [] h k = (h, tt)
  All-set_entry P e (d ∷ es) h k = elim (Bool-cases (text_eq d.key e.key)) [
    | inl same ↦ rw same (h, k.1)
    | inr other ↦ rw other (k.0, All-set_entry P e es h k.1)
  ]

  put-Fits :
      (e : Entry) (table : MemoryTable) (i : ℕ)
      → Fits e
      → IsSound table
      → All Fits (put hash e table i).data_map
  unfolding put put_shard
  put-Fits e table i h k = elim (Bool-cases (get_shard_id hash e.key == i)) [
    | inl same ↦ rw same (All-set_entry Fits e (table i).data_map h (k.fits i))
    | inr other ↦ rw other (k.fits i)
  ]

  pub put-IsSound :
      (e : Entry) (table : MemoryTable) → Fits e → IsSound table → IsSound (put hash e table)
  put-IsSound e table h k = record {
    placed = put-IsPlaced hash e table k.placed;
    fits = λ i. put-Fits e table i h k;
  }

  All-append : (xs ys : List Entry) → All Fits xs → All Fits ys → All Fits (xs ++ ys)
  All-append [] ys h k = k
  All-append (x ∷ xs) ys h k = (h.0, All-append xs ys h.1 k)

  dump_from-Fits : (n i : ℕ) (table : MemoryTable) → IsSound table → All Fits (dump_from n i table)
  unfolding dump_from
  dump_from-Fits zero i table h = tt
  dump_from-Fits (suc n) i table h =
      All-append (table i).data_map (dump_from n (i + 1) table) (h.fits i)
        (dump_from-Fits n (i + 1) table h)

  pub dump_to_slice-Fits : (table : MemoryTable) → IsSound table → All Fits (dump_to_slice table)
  unfolding dump_to_slice
  dump_to_slice-Fits table h = dump_from-Fits num_shards 0 table h

  -- A table that the filter does not hide.
  abbrev pub Visible : SharedBloomFilter → SstableMetadata → Type 0
  Visible bloom meta =
      (k : Text) → find_in_sstable meta k ≢ none → contains checksum meta.file_id k bloom ≡ true

  pub search_table-Visible :
      (bloom : SharedBloomFilter) (k : Text) (meta : SstableMetadata)
      → Visible bloom meta
      → search_table hash checksum bloom k meta ≡ find_in_sstable meta k
  unfolding search_table
  search_table-Visible bloom k meta h = elim (Option-cases (find_in_sstable meta k)) [
    | inl e ↦ rw e (ground arith)
    | inr (found, e) ↦ rw (h k (λ z. absurd (cc (z, e)))) refl
  ]

  find_newest-Visible :
      (bloom more : SharedBloomFilter) (k : Text) (level : List SstableMetadata)
      → All (Visible bloom) level
      → All (Visible more) level
      → find_newest (search_table hash checksum more k) level
        ≡ find_newest (search_table hash checksum bloom k) level
  unfolding find_newest
  find_newest-Visible bloom more k [] h g = refl
  find_newest-Visible bloom more k (meta ∷ level) h g = rw (
    find_newest-Visible bloom more k level h.1 g.1,
    search_table-Visible bloom k meta h.0,
    search_table-Visible more k meta g.0,
  )

  pub search_levels-Visible :
      (bloom more : SharedBloomFilter) (k : Text) (levels : List (List SstableMetadata))
      → All (All (Visible bloom)) levels
      → All (All (Visible more)) levels
      → search_levels hash checksum more k levels ≡ search_levels hash checksum bloom k levels
  unfolding search_levels
  search_levels-Visible bloom more k [] h g = refl
  search_levels-Visible bloom more k (level ∷ levels) h g = rw (
    find_newest-Visible bloom more k level h.0 g.0,
    search_levels-Visible bloom more k levels h.1 g.1,
  )
