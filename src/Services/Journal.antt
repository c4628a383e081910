-- ===== src/Services/Journal.antt =====
-- crates/choreo-app/src/services/session_journal.rs: a session is loaded with the revision that it
-- was read against, and stored together with its facts.
use underpass_choreographer.Shared.{
  ℕ, ◌≡◌, ◌<◌, ap, subst, true, false, not, any, Option, none, some, String, List, [], arith,
  Bool-cases, Option-cases, inl, inr, eq_refl, ◌==◌, u64_max, nat_eq_iff,
}
use underpass_choreographer.Shared.Result.{
  DomainError, Result, ok, err, already_exists, ◌>>=◌, Result-cases,
}
use underpass_choreographer.Ceremony.Instance.Data.{CeremonyInstance}
use underpass_choreographer.Audit.Record.{AuditFact, Platform}
use underpass_choreographer.Store.Data.{
  Store, ExpectedRevision, CeremonyCommit, CommitOutcome, commit_new, matches, resulting_revision,
}
use underpass_choreographer.Store.Operations.{
  entry, revision, instance_of, get_instance, commit, commit_entry, seal_facts,
}
use underpass_choreographer.Store.Entries.{entry-insert}
use underpass_choreographer.Store.Later.{rank}
use underpass_choreographer.Store.Revisions.{read_is_current, refused_commit, revision_rises}
use underpass_choreographer.Store.Requests.{Request, run_all}

pub record LoadedSession (V : Type 0) : Type 0 where
  pub session : CeremonyInstance V
  pub expected : ExpectedRevision

abbrev pub expected_after : Option ℕ → ExpectedRevision
expected_after none = ExpectedRevision.new
expected_after (some n) = ExpectedRevision.exactly n

module _ {V : Type 0} where
  -- `load` reads twice: the revision from the store as it is then, and the instance from the store
  -- as it is later.
  unfoldable pub load : String → Store V → Store V → Result (LoadedSession V)
  load id first later = do
    i ← get_instance id later
    ok (record { session = i; expected = expected_after (revision id first) })

module _ {V : Type 0} ⦃p : Platform⦄ where
  -- What `commit` and `open` make of the outcome; `refusal` is their error on a conflict.
  abbrev settled :
      DomainError → CeremonyInstance V → Result CommitOutcome → Result (LoadedSession V)
  settled refusal i (err e) = err e
  settled refusal i (ok (CommitOutcome.committed n sealed)) =
      ok (record { session = i; expected = ExpectedRevision.exactly n })
  settled refusal i (ok (CommitOutcome.conflict expected stored)) = err refusal

  unfoldable pub store_session :
      DomainError → LoadedSession V → List AuditFact → Store V → Store V × Result (LoadedSession V)
  unfolding commit_new commit
  store_session refusal s facts st = elim (commit_new s.session s.expected facts []) [
    | err e ↦ (st, err e)
    | ok c ↦ let (st', outcome) = commit c st in (st', settled refusal s.session outcome)
  ]

  unfoldable pub commit_session :
      LoadedSession V → List AuditFact → Store V → Store V × Result (LoadedSession V)
  unfolding store_session
  commit_session s facts st = store_session (DomainError.conflict "ceremony_instance") s facts st

  unfoldable pub open_session :
      CeremonyInstance V → List AuditFact → Store V → Store V × Result (LoadedSession V)
  unfolding store_session
  open_session i facts st =
      store_session (already_exists "ceremony_instance")
        (record { session = i; expected = ExpectedRevision.new }) facts st

  pub store_session_lem :
      (refusal : DomainError) (s t : LoadedSession V) (facts : List AuditFact) (st : Store V)
      → (store_session refusal s facts st).1 ≡ ok t
      → (matches s.expected (revision s.session.id st) ≡ true)
        × (instance_of s.session.id (store_session refusal s facts st).0 ≡ some s.session)
        × (revision s.session.id (store_session refusal s facts st).0
            ≡ some (resulting_revision s.expected))
        × (t ≡ record {
          session = s.session;
          expected = ExpectedRevision.exactly (resulting_revision s.expected);
        })
  unfolding store_session commit_new commit commit_entry
  store_session_lem refusal s t facts st h =
      let k = s.session.id in
      let c : CeremonyCommit V = record {
        instance_state = s.session;
        expected_revision = s.expected;
        facts = facts;
        messages = [];
      } in
      elim (Bool-cases (any (λ f. not (f.ceremony_id == k)) facts)) [
        | inl e ↦ ground (arith, e, h)
        | inr e ↦ elim (Result-cases (seal_facts facts (entry k st).journal [])) [
          | inl (x, f) ↦ ground (arith, e, f, h)
          | inr (qs, f) ↦
              ground
                (arith, e, f, h, eq_refl k, entry-insert k k (commit_entry c (entry k st)).0 st)
        ]
      ]

  -- A session that was loaded, in two reads with any requests between them, worked on, and stored
  -- again, replaces the very instance that it was loaded as: no other write came between. The
  -- revision that was read is not the last u64.
  pub no_silent_overwrite :
      (before between since : List (Request V)) (id : String) (loaded t : LoadedSession V)
      (edited : CeremonyInstance V) (facts : List AuditFact)
      → rank (revision id (run_all before [])) < u64_max
      → load id (run_all before []) (run_all between (run_all before [])) ≡ ok loaded
      → edited.id ≡ id
      → (commit_session
          (record loaded { session = edited })
          facts
          (run_all since (run_all between (run_all before [])))).1
        ≡ ok t
      → instance_of id (run_all since (run_all between (run_all before []))) ≡ some loaded.session
  unfolding load commit_session matches
  no_silent_overwrite before between since id loaded t edited facts l h same k =
      let st = run_all before [] in
      let final = run_all since (run_all between st) in
      let stored =
        store_session_lem (DomainError.conflict "ceremony_instance")
          (record loaded { session = edited }) t facts final k in
      let known : revision edited.id final ≡ revision id final = ap (λ i. revision i final) same in
      elim (Option-cases (instance_of id (run_all between st))) [
        | inl e ↦ ground (arith, e, h)
        | inr (i, e) ↦ elim (Option-cases (revision id st)) [
          | inl r ↦
              ground (arith, e, h, r, known, stored, read_is_current before between since id, l)
          | inr (n, r) ↦ ground (
            arith,
            e,
            h,
            r,
            known,
            stored,
            nat_eq_iff n n,
            read_is_current before between since id,
            l,
          )
        ]
      ]

  -- A session that was stored, and is loaded again before anything else runs, comes back as the
  -- service answered it.
  pub load-commit_session :
      (s t : LoadedSession V) (facts : List AuditFact) (st : Store V)
      → (commit_session s facts st).1 ≡ ok t
      → load s.session.id (commit_session s facts st).0 (commit_session s facts st).0 ≡ ok t
  unfolding load commit_session
  load-commit_session s t facts st h =
      ground (arith, store_session_lem (DomainError.conflict "ceremony_instance") s t facts st h)

  -- Once a session was opened, opening one under the same id again is refused as a duplicate,
  -- whatever ran in between, when its facts are of that session; the stored instance stays.
  pub open_once :
      (before between : List (Request V)) (i j : CeremonyInstance V) (facts more : List AuditFact)
      (t : LoadedSession V)
      → (open_session i facts (run_all before [])).1 ≡ ok t
      → j.id ≡ i.id
      → any (λ f. not (f.ceremony_id == j.id)) more ≡ false
      → let st = run_all between (open_session i facts (run_all before [])).0 in
        ((open_session j more st).1 ≡ err (already_exists "ceremony_instance"))
        × (instance_of i.id (open_session j more st).0 ≡ instance_of i.id st)
  unfolding open_session matches resulting_revision store_session commit_new
  open_once before between i j facts more t h same m =
      let first : LoadedSession V = record { session = i; expected = ExpectedRevision.new } in
      let st = run_all before [] in
      let opened = (open_session i facts st).0 in
      let final = run_all between opened in
      let stored = store_session_lem (already_exists "ceremony_instance") first t facts st h in
      let stored_revision = stored.2 in
      let rises = revision_rises i.id between opened (omega (arith, ap rank stored_revision)) in
      let known : revision j.id final ≡ revision i.id final = ap (λ k. revision k final) same in
      let c : CeremonyCommit V = record {
        instance_state = j;
        expected_revision = ExpectedRevision.new;
        facts = more;
        messages = [];
      } in
      let refused = refused_commit c final (ground (arith, stored_revision, rises, known)) in
      let left : instance_of j.id (open_session j more final).0 ≡ instance_of j.id final =
        ground (arith, m, refused) in
      (
        ground (arith, m, refused),
        subst (λ k. instance_of k (open_session j more final).0 ≡ instance_of k final) same left,
      )
