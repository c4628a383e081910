-- ===== src/Store/Holding.antt =====
-- A ceremony's stream waits at its first undelivered message: claiming in
-- crates/choreo-adapters/src/memory/ceremony_store.rs.
use underpass_choreographer.Shared.{
  ◌<◌, ◌≡◌, ap, ◌∙◌, not, any, none, some, String, List, [], ◌∷◌, ◌++◌, map, arith, All, eq_iff,
  ◌==◌, Bool-cases, Option-cases, inl, inr,
}
use underpass_choreographer.Shared.Map.{insert}
use underpass_choreographer.Shared.Result.{Result-cases}
use underpass_choreographer.Ceremony.Step.Lease.{Time}
use underpass_choreographer.Audit.Record.{Platform}
use underpass_choreographer.Store.Data.{
  Store, StoredCeremony, StoredOutboxMessage, CeremonyCommit, commit_new, entry_new,
}
use underpass_choreographer.Store.Operations.{
  entry, commit, commit_entry, append, record_behind, saved, seal_facts,
}
use underpass_choreographer.Store.Outbox.{claim, claim_head, lease_end}
use underpass_choreographer.Store.Entries.{entry-insert}
use underpass_choreographer.Store.Requests.{Request, run, run_all}
use underpass_choreographer.Store.Claiming.{
  Quiet, Stopped, loop_waits, next_out, next_out-append, head_waits,
}

module _ {V : Type 0} ⦃p : Platform⦄ where
  commit_waits :
      (c : CeremonyCommit V) (s : StoredCeremony V) (e : StoredOutboxMessage V)
      → next_out s.outbox ≡ some e
      → next_out (commit_entry c s).0.outbox ≡ some e
  unfolding commit_entry
  commit_waits c s e f =
      let grown = next_out-append e s.outbox (map entry_new c.messages) f in
      elim (Result-cases (seal_facts c.facts s.journal [])) [
        | inl (x, g) ↦ ground (arith, f, g)
        | inr (qs, g) ↦ ground (arith, f, g, grown)
      ]

  -- A ceremony written back with the same stream, or one that stops at the same message.
  insert_waits :
      (k id : String) (s : StoredCeremony V) (st : Store V) (e : StoredOutboxMessage V)
      → (next_out (entry k st).outbox ≡ some e → next_out s.outbox ≡ some e)
      → next_out (entry id st).outbox ≡ some e
      → next_out (entry id (insert k s st)).outbox ≡ some e
  insert_waits k id s st e h f =
      let same : k ≡ id → next_out (entry k st).outbox ≡ some e =
        λ i. ap (λ j. next_out (entry j st).outbox) i ∙ f in
      ground (arith, h, f, eq_iff k id, same, entry-insert k id s st)

  run_waits :
      (until : Time) (r : Request V) (id : String) (e : StoredOutboxMessage V) (st : Store V)
      → next_out (entry id st).outbox ≡ some e
      → Stopped until e
      → Quiet until r
      → next_out (entry id (run r st)).outbox ≡ some e
  unfolding run commit_new commit append claim Quiet
  run_waits until (Request.to_commit i expected facts messages) id e st f h q =
      let c : CeremonyCommit V = record {
        instance_state = i;
        expected_revision = expected;
        facts = facts;
        messages = messages;
      } in
      let s = entry i.id st in
      elim (Bool-cases (any (λ f. not (f.ceremony_id == i.id)) facts)) [
        | inl g ↦ ground (arith, g, f)
        | inr g ↦
            ground (arith, g, insert_waits i.id id (commit_entry c s).0 st e (commit_waits c s e) f)
      ]
  run_waits until (Request.to_append fact) id e st f h q =
      let k = fact.ceremony_id in
      let s = entry k st in
      elim (Result-cases (record_behind fact s.journal)) [
        | inl (x, g) ↦ ground (arith, g, insert_waits k id s st e (λ h. h) f)
        | inr (r, g) ↦ ground (
          arith,
          g,
          insert_waits k id (record s { journal = s.journal ++ r ∷ [] }) st e (λ h. h) f,
        )
      ]
  run_waits until (Request.to_save i) id e st f h q =
      insert_waits i.id id (saved i (entry i.id st)) st e (λ h. h) f
  run_waits until (Request.to_claim last_time limit now lease) id e st f h q =
      elim (Option-cases (lease_end last_time now lease)) [
        | inl g ↦ ground (arith, g, f)
        | inr (u, g) ↦ ground (arith, g, loop_waits until limit now u 0 id e st f h q)
      ]
  run_waits until (Request.to_mark_delivered ids) id e st f h q = absurd q
  run_waits until (Request.to_mark_failed event_id) id e st f h q = absurd q
  run_waits until (Request.to_quarantine event_id reason) id e st f h q = absurd q

  -- While the first undelivered message of a ceremony cannot be claimed, being claimed already or
  -- quarantined, it stays the first whatever is committed, recorded, saved or claimed, and a
  -- claim takes no message of that ceremony: none overtakes it.
  pub stream_waits :
      (until now u : Time) (rs : List (Request V)) (id : String) (e : StoredOutboxMessage V)
      (st : Store V)
      → next_out (entry id st).outbox ≡ some e
      → Stopped until e
      → All (Quiet until) rs
      → now < until
      → (next_out (entry id (run_all rs st)).outbox ≡ some e)
        × ((claim_head now u (entry id (run_all rs st)).outbox).1 ≡ none)
  unfolding run_all
  stream_waits until now u [] id e st f h q l =
      (f, (head_waits until now u e (entry id st).outbox f h l).0)
  stream_waits until now u (r ∷ rs) id e st f h q l =
      stream_waits until now u rs id e (run r st) (run_waits until r id e st f h q.0) h q.1 l
