-- ===== src/Server/Api/Queue.antt =====
-- The queue of a shard for single requests: `runShard` and `drainSingleQueue` of
-- internal/agents/ingestion.go.
use sndv_kv.Prelude.{
  ℕ, zero, suc, ◌≡◌, ◌≤◌, refl, sym, ap, ◌∙◌, pos, Text, List, [], ◌∷◌, ◌++◌, Option, All, length,
  arith,
}
use mathlib.Core.Path.{subst}
use sndv_kv.Server.Wal.{Entry}
use sndv_kv.Server.Store.{newest_entry}
use sndv_kv.Server.Ingestion.{IngestReq, Server, expiry_of, create_entry, applied_entries}
use sndv_kv.Server.Ingestion.Restart.{latest}
use sndv_kv.Server.Rotation.Logged.{latest-append}
use sndv_kv.Server.Api.{Settings, process}
use sndv_kv.Server.Api.Plain.{Writes}
use sndv_kv.Server.Api.Batches.{newest-process}

-- drainSingleQueue, with the limit: what is taken, and what stays.
unfoldable pub drain_single_queue : ℕ → List IngestReq → List IngestReq × List IngestReq
drain_single_queue zero queue = ([], queue)
drain_single_queue (suc limit) [] = ([], [])
drain_single_queue (suc limit) (req ∷ queue) =
    let rest = drain_single_queue limit queue in (req ∷ rest.0, rest.1)

module _ (hash checksum : Text → ℕ) (settings : Settings) where
  -- The rounds of the loop of runShard at their times, as far as they serve this queue; a round waits
  -- for a request.
  unfoldable pub shard_rounds : List ℕ → List IngestReq → Server → List IngestReq × Server
  unfolding drain_single_queue
  shard_rounds [] queue s = (queue, s)
  shard_rounds (now ∷ nows) [] s = ([], s)
  shard_rounds (now ∷ nows) (req ∷ queue) s =
      let (taken, rest) = drain_single_queue 100 queue in
      shard_rounds nows rest (process hash checksum settings now (req ∷ taken) s).1

drained :
    (limit : ℕ) (queue : List IngestReq)
    → let d = drain_single_queue limit queue in (queue ≡ d.0 ++ d.1) × (length d.1 ≤ length queue)
unfolding drain_single_queue
drained zero queue = (refl, omega arith)
drained (suc limit) [] = (refl, omega arith)
drained (suc limit) (req ∷ queue) =
    let (same, shorter) = drained limit queue in (ap (λ t. req ∷ t) same, omega (arith, shorter))

abbrev pub HasNoTtl : IngestReq → Type 0
HasNoTtl req = req.ttl ≡ pos 0

abbrev create_entry_of : ℕ → IngestReq → Entry
create_entry_of now req = record (create_entry now req) { value = req.val }

applied_entries-append :
    (now : ℕ) (reqs more : List IngestReq)
    → applied_entries now (reqs ++ more) ≡ applied_entries now reqs ++ applied_entries now more
unfolding applied_entries
applied_entries-append now [] more = refl
applied_entries-append now (req ∷ reqs) more =
    ap (λ t. create_entry_of now req ∷ t) (applied_entries-append now reqs more)

applied_entries-now :
    (now : ℕ) (reqs : List IngestReq)
    → All HasNoTtl reqs
    → applied_entries now reqs ≡ applied_entries 0 reqs
unfolding applied_entries create_entry expiry_of
applied_entries-now now [] h = refl
applied_entries-now now (req ∷ reqs) h = rw (h.0, applied_entries-now now reqs h.1) refl

All-split : (xs ys : List IngestReq) → All HasNoTtl (xs ++ ys) → All HasNoTtl xs × All HasNoTtl ys
All-split [] ys h = (tt, h)
All-split (x ∷ xs) ys h = let (here, there) = All-split xs ys h.1 in ((h.0, here), there)

module _ (hash checksum : Text → ℕ) (settings : Settings) where
  nothing :
      (k : Text) (s : Server)
      → Writes settings
      → newest_entry hash checksum k s.state
        ≡ newest_entry hash checksum k (process hash checksum settings 0 [] s).1.state
  unfolding latest applied_entries
  nothing k s writes = sym (newest-process hash checksum settings 0 k [] s writes)

  -- Two parts of a queue, one after the other.
  one_round :
      (now : ℕ) (k : Text) (req : IngestReq) (taken rest : List IngestReq) (s : Server)
      → Writes settings
      → All HasNoTtl (req ∷ taken)
      → newest_entry hash checksum k
          (process hash checksum settings 0 rest
            (process hash checksum settings now (req ∷ taken) s).1).1.state
        ≡ newest_entry hash checksum k
            (process hash checksum settings 0 (req ∷ (taken ++ rest)) s).1.state
  one_round now k req taken rest s writes h =
      let o : Option Entry = newest_entry hash checksum k s.state in
      newest-process hash checksum settings 0 k rest _ writes
      ∙ ap (latest k (applied_entries 0 rest))
          (newest-process hash checksum settings now k (req ∷ taken) s writes)
      ∙ ap (λ es. latest k (applied_entries 0 rest) (latest k es o))
          (applied_entries-now now (req ∷ taken) h)
      ∙ sym (latest-append k (applied_entries 0 (req ∷ taken)) (applied_entries 0 rest) o)
      ∙ ap (λ es. latest k es o) (sym (applied_entries-append 0 (req ∷ taken) rest))
      ∙ sym (newest-process hash checksum settings 0 k (req ∷ (taken ++ rest)) s writes)

  -- If the log takes every batch, or there is none, then as many rounds of a shard as there are requests
  -- in its queue, or more, serve all of them, those that they take together too. If the requests have
  -- no time to live, a search then finds for every key the entry that it finds when the requests are
  -- processed at once.
  pub shard_rounds-process :
      (nows : List ℕ) (queue : List IngestReq) (s : Server)
      → Writes settings
      → All HasNoTtl queue
      → length queue ≤ length nows
      → ((shard_rounds hash checksum settings nows queue s).0 ≡ [])
        × ((k : Text)
            → newest_entry hash checksum k
                (shard_rounds hash checksum settings nows queue s).1.state
              ≡ newest_entry hash checksum k (process hash checksum settings 0 queue s).1.state)
  unfolding shard_rounds
  shard_rounds-process [] [] s writes no_ttl enough = (refl, λ k. nothing k s writes)
  shard_rounds-process [] (req ∷ queue) s writes no_ttl enough = absurd (omega (arith, enough))
  shard_rounds-process (now ∷ nows) [] s writes no_ttl enough = (refl, λ k. nothing k s writes)
  shard_rounds-process (now ∷ nows) (req ∷ queue) s writes no_ttl enough =
      let d = drain_single_queue 100 queue in
      let (same, shorter) = drained 100 queue in
      let (now_taken, later) = All-split d.0 d.1 (subst (All HasNoTtl) same no_ttl.1) in
      let s' : Server = (process hash checksum settings now (req ∷ d.0) s).1 in
      let (empty, rest) =
        shard_rounds-process nows d.1 s' writes later (omega (arith, shorter, enough)) in
      (
        empty,
        λ k.
            rest k
            ∙ one_round now k req d.0 d.1 s writes (no_ttl.0, now_taken)
            ∙ ap
                (λ q.
                  newest_entry hash checksum k
                    (process hash checksum settings 0 (req ∷ q) s).1.state)
                (sym same),
      )
