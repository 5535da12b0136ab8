-- ===== src/Server/Memory/Lookups.antt =====
-- What a read of a memory table sees, and what a dump of it holds.
use sndv_kv.Prelude.{
  ℕ, zero, suc, ◌+◌, ◌≡◌, refl, ap, ◌≤◌, ◌<◌, ◌⊎◌, inl, inr, Text, text_eq, text_eq_iff, true,
  false, Bool-cases, Option-cases, List, [], ◌∷◌, ◌++◌, none, some, ◌==◌, ==_iff, arith,
  if◌then◌else◌,
}
use sndv_kv.Server.Wal.{Entry}
use sndv_kv.Server.Memory.{
  find_entry, set_entry, MemoryTable, num_shards, put_shard, get_shard_id, put, get, dump_from,
  dump_to_slice, new_memory_table,
}

find_entry-set_entry :
    (j : Text) (e : Entry) (es : List Entry)
    → find_entry j (set_entry e es) ≡ (if text_eq e.key j then some e else find_entry j es)
unfolding find_entry set_entry
find_entry-set_entry j e [] = refl
find_entry-set_entry j e (d ∷ es) = ground (
  arith,
  find_entry-set_entry j e es,
  text_eq_iff d.key e.key,
  text_eq_iff e.key j,
  text_eq_iff d.key j,
)

find_entry-append :
    (j : Text) (xs ys : List Entry)
    → find_entry j (xs ++ ys)
      ≡ (elim (find_entry j xs) [ none ↦ find_entry j ys | some e ↦ some e ])
unfolding find_entry
find_entry-append j [] ys = refl
find_entry-append j (d ∷ xs) ys = ground (arith, find_entry-append j xs ys)

-- No key stands twice.
abbrev pub Distinct : List Entry → Type 0
Distinct [] = Unit
Distinct (e ∷ es) = (find_entry e.key es ≡ none) × Distinct es

Distinct-set_entry : (e : Entry) (es : List Entry) → Distinct es → Distinct (set_entry e es)
unfolding set_entry find_entry
Distinct-set_entry e [] h = (refl, tt)
Distinct-set_entry e (d ∷ es) h = elim (Bool-cases (text_eq d.key e.key)) [
  | inl same ↦ rw same (ground (arith, text_eq_iff d.key e.key, h.0), h.1)
  | inr other ↦ rw other (
    ground (
      arith,
      find_entry-set_entry d.key e es,
      text_eq_iff d.key e.key,
      text_eq_iff e.key d.key,
      h.0,
    ),
    Distinct-set_entry e es h.1,
  )
]

Distinct-append :
    (xs ys : List Entry)
    → Distinct xs
    → Distinct ys
    → ((j : Text) → (find_entry j xs ≡ none) ⊎ (find_entry j ys ≡ none))
    → Distinct (xs ++ ys)
unfolding find_entry
Distinct-append [] ys hx hy h = hy
Distinct-append (e ∷ xs) ys hx hy h = (
  ground (arith, find_entry-append e.key xs ys, h e.key, hx.0, text_eq_iff e.key e.key),
  Distinct-append xs ys hx.1 hy (λ j. ground (arith, h j)),
)

module _ (hash : Text → ℕ) where
  pub get-put :
      (j : Text) (e : Entry) (table : MemoryTable)
      → get hash j (put hash e table) ≡ (if text_eq e.key j then some e else get hash j table)
  unfolding get put put_shard
  get-put j e table = elim (Bool-cases (get_shard_id hash e.key == get_shard_id hash j)) [
    | inl same ↦ rw same (find_entry-set_entry j e (table (get_shard_id hash j)).data_map)
    | inr other ↦
        let apart : text_eq e.key j ≡ true → get_shard_id hash e.key ≡ get_shard_id hash j =
          λ t. ap (get_shard_id hash) ((text_eq_iff e.key j).0 t) in
        rw other (ground (arith, apart))
  ]

  -- Every entry stands in the shard of its key, and each shard is a map.
  pub record IsPlaced (table : MemoryTable) : Type 0 where
    pub placed :
        (i : ℕ) (j : Text)
        → (get_shard_id hash j == i) ≡ false
        → find_entry j (table i).data_map ≡ none
    pub distinct : (i : ℕ) → Distinct (table i).data_map

  pub new_memory_table-IsPlaced : IsPlaced new_memory_table
  unfolding find_entry
  new_memory_table-IsPlaced = record { placed = λ i j h. refl; distinct = λ i. tt }

  placed_put :
      (e : Entry) (table : MemoryTable) (i : ℕ) (j : Text)
      → IsPlaced table
      → (get_shard_id hash j == i) ≡ false
      → find_entry j (put hash e table i).data_map ≡ none
  unfolding put put_shard
  placed_put e table i j h other = elim (Bool-cases (get_shard_id hash e.key == i)) [
    | inr apart ↦ rw apart (h.placed i j other)
    | inl same ↦
        let differ : text_eq e.key j ≡ true → get_shard_id hash e.key ≡ get_shard_id hash j =
          λ t. ap (get_shard_id hash) ((text_eq_iff e.key j).0 t) in
        rw same
          (ground (arith, differ, h.placed i j other, find_entry-set_entry j e (table i).data_map))
  ]

  put-Distinct :
      (e : Entry) (table : MemoryTable) (i : ℕ)
      → IsPlaced table
      → Distinct (put hash e table i).data_map
  unfolding put put_shard
  put-Distinct e table i h = elim (Bool-cases (get_shard_id hash e.key == i)) [
    | inr apart ↦ rw apart (h.distinct i)
    | inl same ↦ rw same (Distinct-set_entry e (table i).data_map (h.distinct i))
  ]

  pub put-IsPlaced :
      (e : Entry) (table : MemoryTable) → IsPlaced table → IsPlaced (put hash e table)
  put-IsPlaced e table h = record {
    placed = λ i j other. placed_put e table i j h other;
    distinct = λ i. put-Distinct e table i h;
  }

  -- A dump of `n` shards from `i` on holds what stands in them.
  dump_from-outside :
      (n i : ℕ) (j : Text) (table : MemoryTable)
      → IsPlaced table
      → (get_shard_id hash j < i) ⊎ (i + n ≤ get_shard_id hash j)
      → find_entry j (dump_from n i table) ≡ none
  unfolding dump_from find_entry
  dump_from-outside zero i j table h out = refl
  dump_from-outside (suc n) i j table h out =
      let here : find_entry j (table i).data_map ≡ none = h.placed i j (ground arith) in
      rw (find_entry-append j (table i).data_map (dump_from n (i + 1) table), here)
        (dump_from-outside n (i + 1) j table h (ground arith))

  find_entry-dump_from :
      (n i : ℕ) (j : Text) (table : MemoryTable)
      → IsPlaced table
      → i ≤ get_shard_id hash j
      → get_shard_id hash j < i + n
      → find_entry j (dump_from n i table) ≡ get hash j table
  unfolding dump_from get
  find_entry-dump_from zero i j table h le lt = ground arith
  find_entry-dump_from (suc n) i j table h le lt =
      let rest : List Entry = dump_from n (i + 1) table in
      elim (Bool-cases (get_shard_id hash j == i)) [
        | inr other ↦
            rw (find_entry-append j (table i).data_map rest, h.placed i j other)
              (find_entry-dump_from n (i + 1) j table h (ground arith) (omega arith))
        | inl same ↦
            let e : get_shard_id hash j ≡ i = (==_iff _ _).0 same in
            let here : get hash j table ≡ find_entry j (table i).data_map =
              ap (λ k. find_entry j (table k).data_map) e in
            rw (find_entry-append j (table i).data_map rest, here)
              (elim (Option-cases (find_entry j (table i).data_map)) [
                | inl gone ↦ rw gone (dump_from-outside n (i + 1) j table h (inl (omega arith)))
                | inr (found, there) ↦ rw there refl
              ])
      ]

  Distinct-dump_from :
      (n i : ℕ) (table : MemoryTable) → IsPlaced table → Distinct (dump_from n i table)
  unfolding dump_from
  Distinct-dump_from zero i table h = tt
  Distinct-dump_from (suc n) i table h =
      Distinct-append (table i).data_map (dump_from n (i + 1) table) (h.distinct i)
        (Distinct-dump_from n (i + 1) table h)
        λ j. elim (Bool-cases (get_shard_id hash j == i)) [
          | inl here ↦ inr (dump_from-outside n (i + 1) j table h (ground arith))
          | inr other ↦ inl (h.placed i j other)
        ]

  pub find_entry-dump_to_slice :
      (j : Text) (table : MemoryTable)
      → IsPlaced table
      → find_entry j (dump_to_slice table) ≡ get hash j table
  unfolding dump_to_slice get_shard_id
  find_entry-dump_to_slice j table h =
      find_entry-dump_from num_shards 0 j table h (omega arith) (omega arith)

  pub Distinct-dump_to_slice :
      (table : MemoryTable) → IsPlaced table → Distinct (dump_to_slice table)
  unfolding dump_to_slice
  Distinct-dump_to_slice table h = Distinct-dump_from num_shards 0 table h
