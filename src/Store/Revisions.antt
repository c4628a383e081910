-- ===== src/Store/Revisions.antt =====
-- Optimistic concurrency: the revisions of crates/choreo-adapters/src/memory/ceremony_store.rs.
use underpass_choreographer.Shared.{
  ℕ, ◌≤◌, ◌<◌, ◌≡◌, ap, true, false, some, String, List, [], arith, inl, inr, eq_refl, u64_max,
}
use underpass_choreographer.Shared.Result.{ok, Result-cases}
use underpass_choreographer.Audit.Record.{AuditRecord, Platform}
use underpass_choreographer.Store.Data.{
  Store, CeremonyCommit, CommitOutcome, matches, resulting_revision,
}
use underpass_choreographer.Store.Operations.{
  seal_facts, entry, revision, instance_of, commit_entry, commit,
}
use underpass_choreographer.Store.Entries.{entry-insert}
use underpass_choreographer.Store.Requests.{Request, run_all}
use underpass_choreographer.Store.Later.{Within, rank, run_all-Later, start-Within}

module _ {V : Type 0} ⦃p : Platform⦄ where
  pub revision_rises :
      (id : String) (rs : List (Request V)) (st : Store V)
      → rank (revision id st) ≤ u64_max
      → rank (revision id st) ≤ rank (revision id (run_all rs st))
  revision_rises id rs st w = (run_all-Later id rs st w).1

  -- While the revision that was read first is still the stored one, so is the instance that was
  -- read after it.
  pub read_is_current :
      (before between since : List (Request V)) (id : String)
      → rank (revision id (run_all before [])) < u64_max
      → revision id (run_all before [])
        ≡ revision id (run_all since (run_all between (run_all before [])))
      → instance_of id (run_all between (run_all before []))
        ≡ instance_of id (run_all since (run_all between (run_all before [])))
  read_is_current before between since id l r =
      let st = run_all before [] in
      let first = run_all-Later id between st (start-Within id before) in
      let second = run_all-Later id since (run_all between st) first.0 in
      ground (arith, first, second, l, r)

  committed_rank :
      (c : CeremonyCommit V) (st : Store V) (n : ℕ) (sealed : List AuditRecord)
      → (commit c st).1 ≡ ok (CommitOutcome.committed n sealed)
      → n < u64_max
      → (matches c.expected_revision (revision c.instance_state.id st) ≡ true)
        × (revision c.instance_state.id (commit c st).0 ≡ some n)
        × (n ≡ resulting_revision c.expected_revision)
  unfolding commit commit_entry
  committed_rank c st n sealed h l =
      let k = c.instance_state.id in
      elim (Result-cases (seal_facts c.facts (entry k st).journal [])) [
        | inl (x, f) ↦ ground (arith, f, h)
        | inr (qs, f) ↦
            ground (arith, f, h, eq_refl k, entry-insert k k (commit_entry c (entry k st)).0 st)
      ]

  pub refused_commit :
      (d : CeremonyCommit V) (st : Store V)
      → matches d.expected_revision (revision d.instance_state.id st) ≡ false
      → ((commit d st).1
          ≡ ok (CommitOutcome.conflict d.expected_revision (revision d.instance_state.id st)))
        × (entry d.instance_state.id (commit d st).0 ≡ entry d.instance_state.id st)
  unfolding commit commit_entry
  refused_commit d st m =
      let k = d.instance_state.id in ground (arith, m, eq_refl k, entry-insert k k (entry k st) st)

  -- Of two commits of a session that were prepared against the same revision, the second is told
  -- of the conflict once the first landed, whatever ran between them, and it changes nothing of the
  -- ceremony. The first reached a revision below the last u64.
  pub no_lost_update :
      (before between : List (Request V)) (c d : CeremonyCommit V) (n : ℕ)
      (sealed : List AuditRecord)
      → n < u64_max
      → (commit c (run_all before [])).1 ≡ ok (CommitOutcome.committed n sealed)
      → d.instance_state.id ≡ c.instance_state.id
      → d.expected_revision ≡ c.expected_revision
      → let st = run_all between (commit c (run_all before [])).0 in
        ((commit d st).1
          ≡ ok (CommitOutcome.conflict d.expected_revision (revision d.instance_state.id st)))
        × (entry d.instance_state.id (commit d st).0 ≡ entry d.instance_state.id st)
  unfolding matches resulting_revision
  no_lost_update before between c d n sealed l h same x =
      let id = c.instance_state.id in
      let st = run_all before [] in
      let (m, stored, next) = committed_rank c st n sealed h l in
      let w : Within (entry id (commit c st).0) = ground (arith, stored, l) in
      let later = run_all-Later id between (commit c st).0 w in
      let final = run_all between (commit c st).0 in
      let known : revision d.instance_state.id final ≡ revision id final =
        ap (λ i. revision i final) same in
      refused_commit d final (ground (arith, m, stored, next, later, known, x, l))
