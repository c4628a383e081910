-- ===== src/Store/Entries.antt =====
-- What a store holds of a ceremony after the operations of ceremony_store.rs that write the outbox
-- only, and after a ceremony is written back.
use underpass_choreographer.Shared.{
  ℕ, ◌+◌, ◌≡◌, refl, Bool, none, some, String, [], ◌∷◌, arith, ◌==◌, if◌then◌else◌, Option-cases,
  inl, inr,
}
use underpass_choreographer.Shared.Map.{insert, lookup-insert}
use underpass_choreographer.Ceremony.Step.Lease.{Time, DurationMs}
use underpass_choreographer.Store.Data.{Store, StoredCeremony, StoredOutboxMessage}
use underpass_choreographer.Store.Operations.{entry}
use underpass_choreographer.Store.Outbox.{claim, claim_loop, claim_head, count, mark, lease_end}

module _ {V : Type 0} where
  -- The same ceremony, but for its outbox.
  abbrev pub Unmoved : StoredCeremony V → StoredCeremony V → Type 0
  Unmoved s t =
      (s.stored_revision ≡ t.stored_revision)
      × (s.stored_instance ≡ t.stored_instance)
      × (s.journal ≡ t.journal)

  pub entry-insert :
      (k j : String) (s : StoredCeremony V) (st : Store V)
      → entry j (insert k s st) ≡ (if k == j then s else entry j st)
  entry-insert k j s st = ground (arith, lookup-insert k j s st)

  pub mark-Unmoved :
      (test : StoredOutboxMessage V → Bool) (change : StoredOutboxMessage V → StoredOutboxMessage V)
      (id : String) (st : Store V)
      → Unmoved (entry id st) (entry id (mark test change st))
  mark-Unmoved test change id [] = (refl, refl, refl)
  mark-Unmoved test change id ((k, s) ∷ m) = ground (arith, mark-Unmoved test change id m)

  claim_loop-Unmoved :
      (limit : ℕ) (now until : Time) (n : ℕ) (id : String) (st : Store V)
      → Unmoved (entry id st) (entry id (claim_loop limit now until n st).0)
  unfolding claim_loop
  claim_loop-Unmoved limit now until n id [] = (refl, refl, refl)
  claim_loop-Unmoved limit now until n id ((k, s) ∷ m) =
      ground (
        arith,
        claim_loop-Unmoved limit now until (n + count (claim_head now until s.outbox).1) id m,
      )

  pub claim-Unmoved :
      (last_time : Time) (limit : ℕ) (now : Time) (lease : DurationMs) (id : String) (st : Store V)
      → Unmoved
          (entry id st)
          (entry id (elim (claim last_time limit now lease st) [ none ↦ st | some r ↦ r.0 ]))
  unfolding claim
  claim-Unmoved last_time limit now lease id st =
      elim (Option-cases (lease_end last_time now lease)) [
        | inl e ↦ ground (arith, e)
        | inr (until, e) ↦ ground (arith, e, claim_loop-Unmoved limit now until 0 id st)
      ]
