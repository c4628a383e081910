-- ===== src/Tests/Stores.antt =====
-- The store of one session, its journal and its outbox.
use underpass_choreographer.Shared.{
  map, ◌≡◌, ◌⊎◌, ◌*◌, ◌+◌, ◌++◌, refl, Bool, true, none, some, List, [], ◌∷◌, arith, All,
}
use underpass_choreographer.Shared.Result.{ok, err, already_exists}
use underpass_choreographer.Ceremony.Step.Lease.{nanos_per_milli}
use underpass_choreographer.Ceremony.Instance.Data.{CeremonyInstance}
use underpass_choreographer.Audit.Bytes.{write_field, write_optional}
use underpass_choreographer.Audit.Record.{AuditRecord, first_record, seal, compute_hash, canonical}
use underpass_choreographer.Audit.Chain.{AuditChainVerdict, verify}
use underpass_choreographer.Store.Data.{
  Store, OutboxMessage, StoredOutboxMessage, CeremonyCommit, CommitOutcome, ExpectedRevision,
  matches, resulting_revision, commit_new, is_claimable, entry_new,
}
use underpass_choreographer.Store.Operations.{
  commit, commit_entry, seal_facts, record_behind, records, revision, entry, instance_of,
}
use underpass_choreographer.Store.Outbox.{claim, claim_loop, claim_head, lease_end, claimed_message}
use underpass_choreographer.Store.Requests.{Request, run, run_all}
use underpass_choreographer.Store.Journals.{journals_verify, journals_append}
use underpass_choreographer.Store.Revisions.{no_lost_update}
use underpass_choreographer.Store.Claiming.{next_out, Stopped, Quiet}
use underpass_choreographer.Store.Taking.{take, drop, ready, claim_takes_first}
use underpass_choreographer.Store.Holding.{stream_waits}
use underpass_choreographer.Services.Journal.{
  LoadedSession, load, commit_session, open_session, store_session, no_silent_overwrite,
  load-commit_session, open_once,
}
use underpass_choreographer.Tests.Sample.{session}
use underpass_choreographer.Tests.Journals.{plain, fact, one}

abbrev pub message : OutboxMessage Bool
message = record { event_id = "m-1"; subject = "done"; payload = true; enqueued_at = 20 }

abbrev opening_commit : CeremonyCommit Bool
opening_commit = record {
  instance_state = session;
  expected_revision = ExpectedRevision.new;
  facts = fact "e-1" 20 ∷ [];
  messages = message ∷ [];
}

abbrev opening : Request Bool
opening = Request.to_commit session ExpectedRevision.new (fact "e-1" 20 ∷ []) (message ∷ [])

abbrev requests : List (Request Bool)
requests =
    opening
    ∷ Request.to_append (fact "e-2" 30)
    ∷ Request.to_save session
    ∷ Request.to_claim 1000000000 5 100 1
    ∷ Request.to_mark_failed "m-1"
    ∷ []

journals_verify_example :
    (verify (records "c-1" (run_all requests [])) ≡ AuditChainVerdict.intact)
    × All (λ r. r.ceremony_id ≡ "c-1") (records "c-1" (run_all requests []))
journals_verify_example = journals_verify requests "c-1"

journals_append_example :
    (later : List AuditRecord) × (records "c-1" (run_all requests (run_all (opening ∷ []) []))
      ≡ records "c-1" (run_all (opening ∷ []) []) ++ later)
journals_append_example = journals_append (opening ∷ []) requests "c-1"

opening_commits :
    (commit opening_commit (run_all [] [])).1 ≡ ok (CommitOutcome.committed 1 (one ∷ []))
unfolding run_all commit commit_entry matches resulting_revision seal_facts record_behind
    first_record seal compute_hash canonical write_field write_optional
opening_commits = refl

abbrev after_opening : Store Bool
after_opening = run_all (Request.to_save session ∷ []) (commit opening_commit (run_all [] [])).0

no_lost_update_example :
    ((commit opening_commit after_opening).1
      ≡ ok (CommitOutcome.conflict ExpectedRevision.new (revision "c-1" after_opening)))
    × (entry "c-1" (commit opening_commit after_opening).0 ≡ entry "c-1" after_opening)
no_lost_update_example =
    no_lost_update [] (Request.to_save session ∷ []) opening_commit opening_commit 1 (one ∷ [])
      (omega arith) opening_commits refl refl

abbrev pub opened : List (Request Bool)
opened = Request.to_commit session ExpectedRevision.new [] (message ∷ []) ∷ []

abbrev pub held : Store Bool
held =
    (
      "c-1",
      record {
        stored_revision = some 1;
        stored_instance = some session;
        journal = [];
        outbox = record (entry_new message) { claimed_until = some 1000100 } ∷ [];
      },
    )
    ∷ []

abbrev loaded : LoadedSession Bool
loaded = record { session = session; expected = ExpectedRevision.exactly 1 }

abbrev edited : CeremonyInstance Bool
edited = record session { updated_at = 99 }

edit_is_stored :
    (commit_session (record loaded { session = edited }) [] (run_all opened [])).1
    ≡ ok (record { session = edited; expected = ExpectedRevision.exactly 2 })
unfolding commit_session store_session run_all run commit_new commit commit_entry matches
    resulting_revision seal_facts
edit_is_stored = refl

session_loads : load "c-1" (run_all opened []) (run_all opened []) ≡ ok loaded
unfolding load run_all run commit_new commit commit_entry matches resulting_revision seal_facts
session_loads = refl

no_silent_overwrite_example :
    instance_of "c-1" (run_all [] (run_all [] (run_all opened []))) ≡ some session
unfolding run_all run commit_new commit commit_entry matches resulting_revision seal_facts
no_silent_overwrite_example =
    no_silent_overwrite opened [] [] "c-1" loaded
      (record { session = edited; expected = ExpectedRevision.exactly 2 }) edited [] (omega arith)
      session_loads refl edit_is_stored

load-commit_session_example :
    load "c-1"
      (commit_session (record loaded { session = edited }) [] (run_all opened [])).0
      (commit_session (record loaded { session = edited }) [] (run_all opened [])).0
    ≡ ok (record { session = edited; expected = ExpectedRevision.exactly 2 })
load-commit_session_example =
    load-commit_session (record loaded { session = edited })
      (record { session = edited; expected = ExpectedRevision.exactly 2 }) [] (run_all opened [])
      edit_is_stored

session_opens : (open_session session [] (run_all [] [])).1 ≡ ok loaded
unfolding open_session store_session run_all commit_new commit commit_entry matches
    resulting_revision seal_facts
session_opens = refl

open_once_example :
    ((open_session edited []
        (run_all (Request.to_save edited ∷ []) (open_session session [] (run_all [] [])).0)).1
      ≡ err (already_exists "ceremony_instance"))
    × (instance_of "c-1"
          (open_session edited []
            (run_all (Request.to_save edited ∷ []) (open_session session [] (run_all [] [])).0)).0
        ≡ instance_of "c-1"
            (run_all (Request.to_save edited ∷ []) (open_session session [] (run_all [] [])).0))
open_once_example =
    open_once [] (Request.to_save edited ∷ []) session edited [] [] loaded session_opens refl refl

claim_holds_it :
    claim 2000000 5 100 1 (run_all opened [])
    ≡ some (held, record { message = message; attempt = 0 } ∷ [])
unfolding claim lease_end claim_loop claim_head is_claimable run_all run commit_new commit
    commit_entry matches resulting_revision seal_facts
claim_holds_it = refl

claim_takes_first_example :
    (record { message = message; attempt = 0 } ∷ []
      ≡ map claimed_message (take 5 (ready 100 (run_all opened []))))
    × (ready 100 held ≡ drop 5 (ready 100 (run_all opened [])))
    × (((entry "c-1" held).outbox ≡ (entry "c-1" (run_all opened [])).outbox)
        ⊎ ((e : StoredOutboxMessage Bool) × (next_out (entry "c-1" (run_all opened [])).outbox
              ≡ some e)
            × (is_claimable 100 e ≡ true)
            × (taken : StoredOutboxMessage Bool) × (next_out (entry "c-1" held).outbox ≡ some taken)
            × (claimed_message taken ≡ claimed_message e)
            × Stopped (100 + 1 * nanos_per_milli) taken))
claim_takes_first_example =
    claim_takes_first 2000000 5 100 1 "c-1" (run_all opened []) held
      (record { message = message; attempt = 0 } ∷ []) claim_holds_it (omega arith)

abbrev quiet : List (Request Bool)
quiet = Request.to_claim 2000000 5 200 1 ∷ Request.to_save edited ∷ []

stream_waits_example :
    (next_out (entry "c-1" (run_all quiet held)).outbox
      ≡ some (record (entry_new message) { claimed_until = some 1000100 }))
    × ((claim_head 300 400 (entry "c-1" (run_all quiet held)).outbox).1 ≡ none)
unfolding Quiet is_claimable
stream_waits_example =
    stream_waits 1000100 300 400 quiet "c-1"
      (record (entry_new message) { claimed_until = some 1000100 }) held refl
      (λ now l. ground (arith, l)) (omega arith, (tt, tt)) (omega arith)
