-- ===== src/Server/Bloom.antt =====
-- internal/storage/bloom_filter.go: the filter that the tables on disk share.
pub mod Members
use sndv_kv.Prelude.{
  ℕ, zero, suc, ◌+◌, ◌*◌, ◌/◌, ◌%◌, Text, text, decimal, Bool, true, false, ◌++◌, ◌==◌, ◌&&◌, ◌||◌,
  if◌then◌else◌,
}

-- SharedBloomFilter. `bits shard i` is bit `i % 64` of word `i / 64` of a shard's data.
pub record SharedBloomFilter : Type 0 where
  pub bits : ℕ → ℕ → Bool
  pub hash_count : ℕ
  pub shard_size : ℕ

abbrev pub bloom_shard_count : ℕ
bloom_shard_count = 32

-- The bit of round `i` of the loops of `Add` and `Contains`.
unfoldable pub bit_index : ℕ → ℕ → ℕ → ℕ
bit_index shard_size h1 i =
    let h2 : ℕ = h1 / 65536 in (h1 + i * h2) % 18446744073709551616 % shard_size

-- `n` rounds of the loop of `Add`, from round `i` on.
unfoldable pub add_from : ℕ → ℕ → ℕ → ℕ → (ℕ → Bool) → ℕ → Bool
unfolding bit_index
add_from shard_size h1 zero i bits = bits
add_from shard_size h1 (suc n) i bits =
    add_from shard_size h1 n (i + 1) (λ b. b == bit_index shard_size h1 i || bits b)

-- `n` rounds of the loop of `Contains`.
unfoldable pub contains_from : ℕ → ℕ → ℕ → ℕ → (ℕ → Bool) → Bool
unfolding bit_index
contains_from shard_size h1 zero i bits = true
contains_from shard_size h1 (suc n) i bits =
    let rest = contains_from shard_size h1 n (i + 1) bits in
    if bits (bit_index shard_size h1 i) then rest else false

-- `checksum` is the CRC-32 of IEEE.
module _ (checksum : Text → ℕ) where
  unfoldable pub first_hash : ℕ → Text → ℕ
  first_hash id key = checksum (decimal id ++ (text ":" ++ key))

  unfoldable pub add : ℕ → Text → SharedBloomFilter → SharedBloomFilter
  unfolding first_hash add_from
  add id key bf = record bf {
    bits = λ shard.
        if shard == id % bloom_shard_count
        then add_from bf.shard_size (first_hash id key) bf.hash_count 0 (bf.bits shard)
        else bf.bits shard;
  }

  unfoldable pub contains : ℕ → Text → SharedBloomFilter → Bool
  unfolding first_hash contains_from
  contains id key bf =
      contains_from bf.shard_size (first_hash id key) bf.hash_count 0
        (bf.bits (id % bloom_shard_count))
