-- ===== src/Server/Wal/Recovery.antt =====
-- What a replay of internal/storage/write_ahead_log.go recovers.
use mathlib.Core.List.{append_assoc}
use sndv_kv.Prelude.{
  ℕ, zero, suc, ◌≡◌, sym, refl, ◌≤◌, ◌<◌, List, [], ◌∷◌, ◌++◌, none, some, arith, All, length,
  length-append,
}
use sndv_kv.Server.Wal.{
  Entry, le_bytes, from_le, encode, encode_meta, meta_expiry, meta_deleted, encode_all, read_full,
  read_entry, complete, replay_from, replay, write_batch,
}

-- An entry whose lengths fit into 32 bits and whose expiry is a 64-bit pattern.
pub record Fits (e : Entry) : Type 0 where
  pub key : length e.key < 4294967296
  pub value : length e.value < 4294967296
  pub expiry : e.expiry_timestamp < 18446744073709551616

read_full-append : (xs ys : List ℕ) → read_full (length xs) (xs ++ ys) ≡ some (xs, ys)
unfolding read_full
read_full-append [] ys = refl
read_full-append (x ∷ xs) ys = rw (read_full-append xs ys)

from_le-le_bytes_4 : (n : ℕ) → n < 4294967296 → from_le (le_bytes 4 n) ≡ n
unfolding from_le le_bytes
from_le-le_bytes_4 n h = omega arith

read_full-le_bytes_4 :
    (n : ℕ) (s : List ℕ) → read_full 4 (le_bytes 4 n ++ s) ≡ some (le_bytes 4 n, s)
unfolding read_full le_bytes
read_full-le_bytes_4 n s = refl

read_full-encode_meta :
    (e : Entry) (s : List ℕ) → read_full 9 (encode_meta e ++ s) ≡ some (encode_meta e, s)
unfolding read_full encode_meta
read_full-encode_meta e s = refl

meta_expiry-encode_meta :
    (e : Entry)
    → e.expiry_timestamp < 18446744073709551616
    → meta_expiry (encode_meta e) ≡ e.expiry_timestamp
unfolding meta_expiry encode_meta
meta_expiry-encode_meta e h = omega arith

meta_deleted-encode_meta : (e : Entry) → meta_deleted (encode_meta e) ≡ e.is_deleted
unfolding meta_deleted encode_meta
meta_deleted-encode_meta e = ground arith

pub read_entry-encode : (e : Entry) (s : List ℕ) → Fits e → read_entry (encode e ++ s) ≡ some (e, s)
unfolding read_entry encode
read_entry-encode e s h = simp (
  append_assoc,
  read_full-le_bytes_4,
  from_le-le_bytes_4 (length e.key) h.key,
  from_le-le_bytes_4 (length e.value) h.value,
  read_full-append,
  read_full-encode_meta,
  meta_expiry-encode_meta e h.expiry,
  meta_deleted-encode_meta,
)

read_entry-empty : read_entry [] ≡ none
unfolding read_entry read_full
read_entry-empty = refl

replay_from-end : (fuel : ℕ) → replay_from fuel [] ≡ ([], complete)
unfolding replay_from
replay_from-end zero = refl
replay_from-end (suc fuel) = refl

pub replay_from-step :
    (fuel : ℕ) (s : List ℕ) (e : Entry) (rest : List ℕ)
    → read_entry s ≡ some (e, rest)
    → replay_from (suc fuel) s ≡ (e ∷ (replay_from fuel rest).0, (replay_from fuel rest).1)
unfolding replay_from
replay_from-step fuel [] e rest h = cc (sym read_entry-empty, h)
replay_from-step fuel (b ∷ s) e rest h = rw (h, replay_from)

replay_from-encode_all :
    (es : List Entry) (fuel : ℕ)
    → All Fits es
    → length es ≤ fuel
    → replay_from fuel (encode_all es) ≡ (es, complete)
unfolding encode_all
replay_from-encode_all [] fuel h le = replay_from-end fuel
replay_from-encode_all (e ∷ es) zero h le = ground arith
replay_from-encode_all (e ∷ es) (suc fuel) h le = rw (
  replay_from-step fuel _ e (encode_all es) (read_entry-encode e (encode_all es) h.0),
  replay_from-encode_all es fuel h.1 (ground arith),
)

pub length-encode_all : (es : List Entry) → length es ≤ length (encode_all es)
unfolding encode_all encode le_bytes
length-encode_all [] = ground arith
length-encode_all (e ∷ es) =
    ground (arith, length-append (encode e) (encode_all es), length-encode_all es)

encode_all-append : (xs ys : List Entry) → encode_all (xs ++ ys) ≡ encode_all xs ++ encode_all ys
unfolding encode_all
encode_all-append [] ys = refl
encode_all-append (a ∷ xs) ys = rw (encode_all-append xs ys, append_assoc)

-- After two batches of entries whose lengths and expiries fit the format, written one after the
-- other into an empty log, a replay reaches the end of the file and has given exactly the entries
-- of both, in order.
pub replay-write_batch :
    (xs ys : List Entry)
    → All Fits (xs ++ ys)
    → replay (write_batch (write_batch [] xs) ys) ≡ (xs ++ ys, complete)
unfolding replay write_batch
replay-write_batch xs ys h =
    rw (sym (encode_all-append xs ys))
      (replay_from-encode_all (xs ++ ys) _ h (length-encode_all (xs ++ ys)))
