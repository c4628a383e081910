-- ===== src/Store/Requests.antt =====
-- The operations of a store as requests, and runs of them: the lock of ceremony_store.rs puts the
-- operations of all its clients into one order.
use underpass_choreographer.Shared.{ℕ, none, some, String, List, [], ◌∷◌}
use underpass_choreographer.Shared.Result.{ok, err}
use underpass_choreographer.Ceremony.Step.Lease.{Time, DurationMs}
use underpass_choreographer.Ceremony.Instance.Data.{CeremonyInstance}
use underpass_choreographer.Audit.Record.{AuditFact, Platform}
use underpass_choreographer.Store.Data.{ExpectedRevision, OutboxMessage, Store, commit_new}
use underpass_choreographer.Store.Operations.{commit, append, save}
use underpass_choreographer.Store.Outbox.{claim, mark_delivered, mark_failed, quarantine}

pub data Request (V : Type 0) : Type 0 where
  to_commit :
      CeremonyInstance V → ExpectedRevision → List AuditFact → List (OutboxMessage V) → Request V
  to_append : AuditFact → Request V
  to_save : CeremonyInstance V → Request V
  to_claim : Time → ℕ → Time → DurationMs → Request V
  to_mark_delivered : List String → Request V
  to_mark_failed : String → Request V
  to_quarantine : String → String → Request V

module _ {V : Type 0} ⦃p : Platform⦄ where
  -- The store that a request leaves. A commit that `CeremonyCommit::new` refuses, and a claim
  -- whose lease panics, leave it as it was.
  unfoldable pub run : Request V → Store V → Store V
  unfolding commit_new commit append claim mark_delivered mark_failed quarantine
  run (Request.to_commit i expected facts messages) st =
      elim (commit_new i expected facts messages) [ err e ↦ st | ok c ↦ (commit c st).0 ]
  run (Request.to_append fact) st = (append fact st).0
  run (Request.to_save i) st = save i st
  run (Request.to_claim last_time limit now lease) st = elim (claim last_time limit now lease st) [
    | none ↦ st
    | some (st', claims) ↦ st'
  ]
  run (Request.to_mark_delivered ids) st = mark_delivered ids st
  run (Request.to_mark_failed id) st = mark_failed id st
  run (Request.to_quarantine id reason) st = quarantine id reason st

  unfoldable pub run_all : List (Request V) → Store V → Store V
  unfolding run
  run_all [] st = st
  run_all (r ∷ rs) st = run_all rs (run r st)
