-- ===== src/Server/Bloom/Members.antt =====
-- internal/storage/bloom_filter.go has no false negatives.
use sndv_kv.Prelude.{
  ℕ, zero, suc, ◌+◌, ◌%◌, ◌≡◌, refl, inl, inr, Text, Bool, true, Bool-cases, ◌==◌, ==_iff, ◌||◌,
  arith,
}
use sndv_kv.Server.Bloom.{
  SharedBloomFilter, bloom_shard_count, bit_index, add_from, contains_from, first_hash, add,
  contains,
}

-- Every bit of the first is one of the second.
abbrev Within : (ℕ → Bool) → (ℕ → Bool) → Type 0
Within bits more = (b : ℕ) → bits b ≡ true → more b ≡ true

add_from-Within : (size h n i : ℕ) (bits : ℕ → Bool) → Within bits (add_from size h n i bits)
unfolding add_from
add_from-Within size h zero i bits b e = e
add_from-Within size h (suc n) i bits b e =
    add_from-Within size h n (i + 1) (λ c. c == bit_index size h i || bits c) b (ground (arith, e))

contains_from-Within :
    (size h n i : ℕ) (bits more : ℕ → Bool)
    → Within bits more
    → contains_from size h n i bits ≡ true
    → contains_from size h n i more ≡ true
unfolding contains_from
contains_from-Within size h zero i bits more within e = refl
contains_from-Within size h (suc n) i bits more within e =
    ground
      (arith, within (bit_index size h i), contains_from-Within size h n (i + 1) bits more within)

contains_from-add_from :
    (size h n i : ℕ) (bits : ℕ → Bool) → contains_from size h n i (add_from size h n i bits) ≡ true
unfolding contains_from add_from
contains_from-add_from size h zero i bits = refl
contains_from-add_from size h (suc n) i bits =
    let set : ℕ → Bool = λ c. c == bit_index size h i || bits c in
    let here : add_from size h n (i + 1) set (bit_index size h i) ≡ true =
      add_from-Within size h n (i + 1) set (bit_index size h i) (ground arith) in
    rw here (contains_from-add_from size h n (i + 1) set)

module _ (checksum : Text → ℕ) where
  pub contains-add :
      (id : ℕ) (key : Text) (bf : SharedBloomFilter)
      → contains checksum id key (add checksum id key bf) ≡ true
  unfolding contains add
  contains-add id key bf =
      let same : (id % bloom_shard_count == id % bloom_shard_count) ≡ true = (==_iff _ _).1 refl in
      rw same (
        contains_from-add_from bf.shard_size (first_hash checksum id key) bf.hash_count 0
          (bf.bits (id % bloom_shard_count)))

  -- A key that the filter contains stays in it.
  pub contains-add_other :
      (id other : ℕ) (key added : Text) (bf : SharedBloomFilter)
      → contains checksum id key bf ≡ true
      → contains checksum id key (add checksum other added bf) ≡ true
  unfolding contains add
  contains-add_other id other key added bf h =
      elim (Bool-cases (id % bloom_shard_count == other % bloom_shard_count)) [
        | inr apart ↦ rw apart h
        | inl same ↦ rw same (
            contains_from-Within bf.shard_size (first_hash checksum id key) bf.hash_count 0
              (bf.bits (id % bloom_shard_count)) _
              (add_from-Within bf.shard_size (first_hash checksum other added) bf.hash_count 0
                (bf.bits (id % bloom_shard_count)))
              h)
      ]
