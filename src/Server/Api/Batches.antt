-- ===== src/Server/Api/Batches.antt =====
-- What a batch does, whatever the order in which the shards take its groups.
use sndv_kv.Prelude.{
  ℕ, ◌≡◌, refl, sym, ap, ◌∙◌, ◌<◌, inl, inr, Text, text_eq, text_eq_iff, Bool, true, false,
  Bool-cases, List, [], ◌∷◌, Option, some, map, arith, ◌==◌, ◌||◌, if◌then◌else◌,
}
use sndv_kv.Server.Wal.{Entry}
use sndv_kv.Server.Router.{Payload}
use sndv_kv.Server.Store.{newest_entry}
use sndv_kv.Server.Ingestion.{
  IngestReq, Server, process_batch, create_entry, expiry_of, applied_entries,
}
use sndv_kv.Server.Ingestion.Restart.{latest, newest-apply_to_mem_table}
use sndv_kv.Server.Api.Plain.{Writes}
use sndv_kv.Server.Api.{
  Settings, new_req, process, shard_of, group_of, dispatch_groups, submit_batch_ingestion,
}

-- The last write of a key stays the last if the same writes come again.
latest-again :
    (k : Text) (es : List Entry) (o : Option Entry) → latest k es (latest k es o) ≡ latest k es o
unfolding latest
latest-again k [] o = refl
latest-again k (e ∷ es) o = elim (Bool-cases (text_eq e.key k)) [
  | inl same ↦ rw same refl
  | inr other ↦ rw other (latest-again k es o)
]

-- The items of a batch in their order.
abbrev pub reqs_of : List Payload → List IngestReq
reqs_of items = map (λ p. new_req p.key p.value p.ttl false) items

unfoldable pub is_among : ℕ → List ℕ → Bool
is_among i [] = false
is_among i (j ∷ js) = i == j || is_among i js

choice_twice :
    (a b : Bool) (f : Option Entry → Option Entry) (o : Option Entry)
    → f (f o) ≡ f o
    → (if b then f (if a then f o else o) else if a then f o else o) ≡ (if a || b then f o else o)
choice_twice true true f o h = h
choice_twice true false f o h = refl
choice_twice false true f o h = refl
choice_twice false false f o h = refl

module _ (hash checksum : Text → ℕ) (settings : Settings) (now : ℕ) (k : Text) where
  abbrev entries : List IngestReq → List Entry
  entries reqs = applied_entries now reqs

  group_of-latest :
      (shard : ℕ) (items : List Payload) (o : Option Entry)
      → latest k (entries (group_of hash checksum settings shard items)) o ≡ (
          if shard_of hash checksum settings k == shard
          then latest k (entries (reqs_of items)) o
          else o)
  unfolding latest group_of applied_entries create_entry
  group_of-latest shard [] o = ground arith
  group_of-latest shard (p ∷ items) o =
      let e : Entry = record {
        key = p.key;
        value = p.value;
        expiry_timestamp = expiry_of now p.ttl;
        is_deleted = false;
      } in
      let o' : Option Entry = if text_eq p.key k then some e else o in
      let inside : Text → Bool = λ j. shard_of hash checksum settings j == shard in
      let all : Option Entry → Option Entry = latest k (entries (reqs_of items)) in
      elim (Bool-cases (text_eq p.key k)) [
        | inl same ↦
            let alike : inside p.key ≡ inside k = ap inside ((text_eq_iff p.key k).0 same) in
            rw alike (elim (Bool-cases (inside k)) [
              | inl here ↦ rw here (rw here at (group_of-latest shard items o'))
              | inr there ↦ rw there (rw there at (group_of-latest shard items o))
            ])
        | inr other ↦
            let kept : o' ≡ o = ap (λ b. if b then some e else o) other in
            elim (Bool-cases (inside p.key)) [
              | inl here ↦
                  rw here
                    (group_of-latest shard items o' ∙ ap (λ x. if inside k then all o' else x) kept)
              | inr there ↦ rw there (
                  group_of-latest shard items o
                  ∙ ap (λ x. if inside k then all x else o) (sym kept))
            ]
      ]

  pub newest-process :
      (reqs : List IngestReq) (s : Server)
      → Writes settings
      → newest_entry hash checksum k (process hash checksum settings now reqs s).1.state
        ≡ latest k (entries reqs) (newest_entry hash checksum k s.state)
  unfolding process process_batch latest applied_entries
  newest-process [] s writes = refl
  newest-process (req ∷ reqs) s writes = rw (writes s) (
      newest-apply_to_mem_table hash checksum settings.maximum_memtable_size_in_bytes k
        (entries (req ∷ reqs)) s.state)

  newest-dispatch_groups :
      (shards : List ℕ) (items : List Payload) (s : Server)
      → Writes settings
      → newest_entry hash checksum k
          (dispatch_groups hash checksum settings now shards items s).state
        ≡ (if is_among (shard_of hash checksum settings k) shards
            then latest k (entries (reqs_of items)) (newest_entry hash checksum k s.state)
            else newest_entry hash checksum k s.state)
  unfolding dispatch_groups is_among
  newest-dispatch_groups [] items s writes = refl
  newest-dispatch_groups (shard ∷ shards) items s writes =
      let all : Option Entry → Option Entry = latest k (entries (reqs_of items)) in
      let o : Option Entry = newest_entry hash checksum k s.state in
      let own : ℕ = shard_of hash checksum settings k in
      let s' : Server =
        (process hash checksum settings now (group_of hash checksum settings shard items) s).1 in
      let step : newest_entry hash checksum k s'.state ≡ (if own == shard then all o else o) =
        newest-process (group_of hash checksum settings shard items) s writes
        ∙ group_of-latest shard items o in
      newest-dispatch_groups shards items s' writes
      ∙ ap (λ x. if is_among own shards then all x else x) step
      ∙ choice_twice (own == shard) (is_among own shards) all o (latest-again k _ o)

  shard_of-lt : 0 < settings.num_shards → shard_of hash checksum settings k < settings.num_shards
  unfolding shard_of
  shard_of-lt h = omega arith

  -- If the log takes every batch, or there is none, and each of the shards, at least one, gets its
  -- turn, in any order: after a batch of values a search finds the entry for a key that it finds when
  -- one shard takes all the items at once, in their order.
  pub submit_batch_ingestion-process :
      (items : List Payload) (s : Server)
      → Writes settings
      → 0 < settings.num_shards
      → ((i : ℕ) → i < settings.num_shards → is_among i settings.order ≡ true)
      → newest_entry hash checksum k
          (submit_batch_ingestion hash checksum settings now items s).1.state
        ≡ newest_entry hash checksum k
            (process hash checksum settings now (reqs_of items) s).1.state
  unfolding submit_batch_ingestion latest applied_entries
  submit_batch_ingestion-process [] s writes some_shard turns = sym (newest-process [] s writes)
  submit_batch_ingestion-process (p ∷ items) s writes some_shard turns =
      let all : List IngestReq = reqs_of (p ∷ items) in
      let o : Option Entry = newest_entry hash checksum k s.state in
      newest-dispatch_groups settings.order (p ∷ items) s writes
      ∙ ap (λ b. if b then latest k (entries all) o else o) (turns _ (shard_of-lt some_shard))
      ∙ sym (newest-process all s writes)
