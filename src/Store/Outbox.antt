-- ===== src/Store/Outbox.antt =====
-- The outbox of crates/choreo-adapters/src/memory/ceremony_store.rs: claiming, and the marks of what
-- became of a message. Ceremonies are walked in the order of their ids.
use underpass_choreographer.Shared.{
  ℕ, ◌+◌, ◌*◌, Bool, true, not, Option, none, some, String, List, [], ◌∷◌, ◌++◌, map, leb,
  if◌then◌else◌, is_some, elem, keep, ◌==◌,
}
use underpass_choreographer.Shared.Map.{values}
use underpass_choreographer.Ceremony.Step.Lease.{Time, DurationMs, nanos_per_milli}
use underpass_choreographer.Store.Data.{
  attempt_next, OutboxMessage, ClaimedOutboxMessage, StoredOutboxMessage, StoredCeremony, Store,
  is_claimable,
}
use underpass_choreographer.Store.Operations.{entry}

-- `now + Duration::from_millis(lease)`; past `last_time`, the last moment that `OffsetDateTime`
-- represents, the addition panics.
unfoldable pub lease_end : Time → Time → DurationMs → Option Time
lease_end last_time now lease =
    let end = now + lease * nanos_per_milli in if leb end last_time then some end else none

module _ {V : Type 0} where
  abbrev pub claimed_message : StoredOutboxMessage V → ClaimedOutboxMessage V
  claimed_message e = record { message = e.message; attempt = e.attempt }

  -- The search for the first entry that is not delivered, and the claim of that entry.
  unfoldable pub claim_head :
      Time
      → Time
      → List (StoredOutboxMessage V)
      → List (StoredOutboxMessage V) × Option (ClaimedOutboxMessage V)
  claim_head now until [] = ([], none)
  claim_head now until (e ∷ es) =
      let (rest, found) = claim_head now until es in
      if e.delivered
      then (e ∷ rest, found)
      else (if is_claimable now e
          then (record e { claimed_until = some until } ∷ es, some (claimed_message e))
          else (e ∷ es, none))

  abbrev pub count : Option (ClaimedOutboxMessage V) → ℕ
  count none = 0
  count (some _) = 1

  abbrev pub prepend :
      Option (ClaimedOutboxMessage V)
      → List (ClaimedOutboxMessage V)
      → List (ClaimedOutboxMessage V)
  prepend none cs = cs
  prepend (some c) cs = c ∷ cs

  -- The loop of `claim`; `n` counts what is claimed so far.
  unfoldable pub claim_loop :
      ℕ → Time → Time → ℕ → Store V → Store V × List (ClaimedOutboxMessage V)
  unfolding claim_head
  claim_loop limit now until n [] = ([], [])
  claim_loop limit now until n ((k, s) ∷ m) =
      let (outbox, found) = claim_head now until s.outbox in
      let (rest, claims) = claim_loop limit now until (n + count found) m in
      if leb limit n
      then ((k, s) ∷ m, [])
      else ((k, record s { outbox = outbox }) ∷ rest, prepend found claims)

  -- `claim`; `none` is the panic of the addition.
  unfoldable pub claim :
      Time → ℕ → Time → DurationMs → Store V → Option (Store V × List (ClaimedOutboxMessage V))
  unfolding lease_end claim_loop
  claim last_time limit now lease st = elim (lease_end last_time now lease) [
    | none ↦ none
    | some until ↦ some (claim_loop limit now until 0 st)
  ]

  -- `values_mut().flat_map(outbox.iter_mut())`: each entry that passes the test is changed.
  abbrev pub mark_entries :
      (StoredOutboxMessage V → Bool)
      → (StoredOutboxMessage V → StoredOutboxMessage V)
      → List (StoredOutboxMessage V)
      → List (StoredOutboxMessage V)
  mark_entries test change [] = []
  mark_entries test change (e ∷ es) = (if test e then change e else e) ∷ mark_entries test change es

  abbrev pub mark :
      (StoredOutboxMessage V → Bool)
      → (StoredOutboxMessage V → StoredOutboxMessage V)
      → Store V
      → Store V
  mark test change [] = []
  mark test change ((k, s) ∷ m) =
      (k, record s { outbox = mark_entries test change s.outbox }) ∷ mark test change m

  unfoldable pub mark_delivered : List String → Store V → Store V
  mark_delivered event_ids st =
      mark (λ e. elem e.message.event_id event_ids)
        (λ e. record e { delivered = true; claimed_until = none }) st

  unfoldable pub mark_failed : String → Store V → Store V
  mark_failed event_id st =
      mark (λ e. e.message.event_id == event_id)
        (λ e. record e { attempt = attempt_next e.attempt; claimed_until = none }) st

  unfoldable pub quarantine : String → String → Store V → Store V
  quarantine event_id reason st =
      mark (λ e. e.message.event_id == event_id)
        (λ e. record e { quarantine_reason = some reason; claimed_until = none }) st

  -- The messages of the entries that pass a test.
  abbrev pub undelivered : List (StoredOutboxMessage V) → List (StoredOutboxMessage V)
  undelivered es = keep (λ e. not e.delivered) es

  -- `InMemoryCeremonyStore::outbox`
  abbrev pub outbox_of : String → Store V → List (OutboxMessage V)
  outbox_of id st = map (λ e. e.message) (undelivered (entry id st).outbox)

  abbrev pub held_entries : List (StoredCeremony V) → List (ClaimedOutboxMessage V)
  held_entries [] = []
  held_entries (s ∷ ss) =
      map claimed_message (keep (λ e. is_some e.quarantine_reason) s.outbox) ++ held_entries ss

  abbrev pub quarantined : Store V → List (ClaimedOutboxMessage V)
  quarantined st = held_entries (values st)
