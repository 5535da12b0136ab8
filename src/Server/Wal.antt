-- ===== src/Server/Wal.antt =====
-- internal/storage/write_ahead_log.go: the bytes of the log, and its replay.
pub mod Recovery
pub mod Torn
use sndv_kv.Prelude.{
  ℕ, zero, suc, ◌+◌, ◌*◌, ◌/◌, ◌%◌, Bool, true, false, List, [], ◌∷◌, ◌++◌, Option, none, some,
  length, take, get_elem?, ◌==◌, if◌then◌else◌,
}

-- common.Entry, with its strings as bytes and its `int64` expiry as the number of its 64 bits.
pub record Entry : Type 0 where
  pub key : List ℕ
  pub value : List ℕ
  pub expiry_timestamp : ℕ
  pub is_deleted : Bool

-- `PutUint32` and `PutUint64`: a number as `w` bytes, the lowest first, its higher bits dropped.
unfoldable pub le_bytes : ℕ → ℕ → List ℕ
le_bytes zero n = []
le_bytes (suc w) n = (n % 256) ∷ le_bytes w (n / 256)

-- `Uint32` and `Uint64`
unfoldable pub from_le : List ℕ → ℕ
from_le [] = 0
from_le (b ∷ bs) = b + 256 * from_le bs

-- The last nine bytes of an entry.
unfoldable pub encode_meta : Entry → List ℕ
unfolding le_bytes
encode_meta e = le_bytes 8 e.expiry_timestamp ++ (if e.is_deleted then 1 else 0) ∷ []

-- One round of the loop of `WriteBatch` that fills the buffer.
unfoldable pub encode : Entry → List ℕ
encode e =
    le_bytes 4 (length e.key)
    ++ (e.key ++ (le_bytes 4 (length e.value) ++ (e.value ++ encode_meta e)))

-- The buffer of `WriteBatch`.
unfoldable pub encode_all : List Entry → List ℕ
encode_all [] = []
encode_all (e ∷ es) = encode e ++ encode_all es

-- `WriteBatch` of a file that takes the whole buffer: the file is opened to append.
unfoldable pub write_batch : List ℕ → List Entry → List ℕ
unfolding encode_all
write_batch file entries = file ++ encode_all entries

-- `io.ReadFull` of `n` bytes: what was read and the rest, or none if there are not so many.
unfoldable pub read_full : ℕ → List ℕ → Option (List ℕ × List ℕ)
read_full zero s = some ([], s)
read_full (suc n) [] = none
read_full (suc n) (b ∷ s) = elim (read_full n s) [ none ↦ none | some (r, t) ↦ some (b ∷ r, t) ]

infixl 5 ◌>>=◌
abbrev ◌>>=◌ : {A B : Type 0} → Option A → (A → Option B) → Option B
none >>= f = none
some a >>= f = f a

-- `int64(Uint64(meta[:8]))`, by its bits, and `meta[8] == 1`
unfoldable pub meta_expiry : List ℕ → ℕ
unfolding from_le take
meta_expiry bytes = from_le (take 8 bytes)

unfoldable pub meta_deleted : List ℕ → Bool
unfolding get_elem?
meta_deleted bytes = elim (get_elem? bytes 8) [ none ↦ false | some b ↦ b == 1 ]

-- One round of the loop of `Replay`, from a place where the file has not ended.
unfoldable pub read_entry : List ℕ → Option (Entry × List ℕ)
read_entry s0 = do
  (klen, s1) ← read_full 4 s0
  (key, s2) ← read_full (from_le klen) s1
  (vlen, s3) ← read_full 4 s2
  (value, s4) ← read_full (from_le vlen) s3
  (bytes, s5) ← read_full 9 s4
  some (
    record {
      key = key;
      value = value;
      expiry_timestamp = meta_expiry bytes;
      is_deleted = meta_deleted bytes;
    },
    s5,
  )

-- How a replay ends: at the end of the file, in the middle of an entry, or with the fuel used up.
pub data End : Type 0 where
  complete truncated unfinished : End

-- `Replay`: the entries that the callback was given, in order, and how it ended. An entry takes 17
-- bytes at least, so the number of bytes is fuel enough.
unfoldable pub replay_from : ℕ → List ℕ → List Entry × End
replay_from fuel [] = ([], complete)
replay_from zero (b ∷ s) = ([], unfinished)
replay_from (suc fuel) (b ∷ s) = elim (read_entry (b ∷ s)) [
  | none ↦ ([], truncated)
  | some (e, rest) ↦ let r = replay_from fuel rest in (e ∷ r.0, r.1)
]

unfoldable pub replay : List ℕ → List Entry × End
replay file = replay_from (length file) file
