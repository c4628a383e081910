-- ===== src/Store/Operations.antt =====
-- The operations of crates/choreo-adapters/src/memory/ceremony_store.rs. Each holds the store's one
-- lock from its first to its last line, so that it is a function of the store.
use underpass_choreographer.Shared.{
  ℕ, Bool, not, Option, none, some, String, List, [], ◌∷◌, ◌++◌, map, if◌then◌else◌, is_some, last?,
}
use underpass_choreographer.Shared.Map.{lookup, insert, values}
use underpass_choreographer.Shared.Result.{Result, ok, err, not_found, ok_or, ◌>>=◌}
use underpass_choreographer.Ceremony.Instance.Data.{CeremonyInstance}
use underpass_choreographer.Audit.Record.{AuditRecord, AuditFact, Platform, first_record, following}
use underpass_choreographer.Store.Data.{
  matches, resulting_revision, initial_revision, revision_next, CeremonyCommit, CommitOutcome,
  StoredCeremony, Store, vacant, entry_new,
}

module _ ⦃p : Platform⦄ where
  -- The record of a fact behind a journal, as `commit` and `append` build it.
  unfoldable pub record_behind : AuditFact → List AuditRecord → Result AuditRecord
  record_behind fact journal = elim (last? journal) [
    | some head ↦ following fact head
    | none ↦ first_record fact
  ]

  -- The loop of `commit` over the facts: the journal, and what it sealed.
  unfoldable pub seal_facts :
      List AuditFact
      → List AuditRecord
      → List AuditRecord
      → Result (List AuditRecord × List AuditRecord)
  unfolding record_behind
  seal_facts [] journal sealed = ok (journal, sealed)
  seal_facts (fact ∷ facts) journal sealed = do
    r ← record_behind fact journal
    seal_facts facts (journal ++ r ∷ []) (sealed ++ r ∷ [])

module _ {V : Type 0} where
  -- `entry(id).or_default()`
  abbrev pub entry : String → Store V → StoredCeremony V
  entry id st = elim (lookup id st) [ none ↦ vacant | some s ↦ s ]

  abbrev pub revision : String → Store V → Option ℕ
  revision id st = (entry id st).stored_revision

  abbrev pub instance_of : String → Store V → Option (CeremonyInstance V)
  instance_of id st = (entry id st).stored_instance

  abbrev pub records : String → Store V → List AuditRecord
  records id st = (entry id st).journal

  abbrev pub head : String → Store V → Option AuditRecord
  head id st = last? (records id st)

  -- `CeremonyInstanceRepositoryPort::get`, `exists` and `list`.
  abbrev pub get_instance : String → Store V → Result (CeremonyInstance V)
  get_instance id st = ok_or (instance_of id st) (not_found "ceremony_instance")

  abbrev pub exists : String → Store V → Bool
  exists id st = is_some (instance_of id st)

  abbrev pub stored_instances : List (StoredCeremony V) → List (CeremonyInstance V)
  stored_instances [] = []
  stored_instances (s ∷ ss) = elim s.stored_instance [
    | none ↦ stored_instances ss
    | some i ↦ i ∷ stored_instances ss
  ]

  abbrev pub list_instances : Store V → List (CeremonyInstance V)
  list_instances st = stored_instances (values st)

  -- `save`, and what it makes of the stored ceremony.
  abbrev pub saved : CeremonyInstance V → StoredCeremony V → StoredCeremony V
  saved i s = record s {
    stored_revision =
        some (elim s.stored_revision [ none ↦ initial_revision | some n ↦ revision_next n ]);
    stored_instance = some i;
  }

  abbrev pub save : CeremonyInstance V → Store V → Store V
  save i st = insert i.id (saved i (entry i.id st)) st

module _ {V : Type 0} ⦃p : Platform⦄ where
  -- What `commit` does to the stored ceremony.
  unfoldable pub commit_entry :
      CeremonyCommit V → StoredCeremony V → StoredCeremony V × Result CommitOutcome
  unfolding matches resulting_revision seal_facts
  commit_entry c s =
      if not (matches c.expected_revision s.stored_revision)
      then (s, ok (CommitOutcome.conflict c.expected_revision s.stored_revision))
      else elim (seal_facts c.facts s.journal []) [
        | err e ↦ (s, err e)
        | ok (journal, sealed) ↦ (
          record {
            stored_revision = some (resulting_revision c.expected_revision);
            stored_instance = some c.instance_state;
            journal = journal;
            outbox = s.outbox ++ map entry_new c.messages;
          },
          ok (CommitOutcome.committed (resulting_revision c.expected_revision) sealed),
        )
      ]

  unfoldable pub commit : CeremonyCommit V → Store V → Store V × Result CommitOutcome
  unfolding commit_entry
  commit c st =
      let (s, outcome) = commit_entry c (entry c.instance_state.id st) in
      (insert c.instance_state.id s st, outcome)

  unfoldable pub append : AuditFact → Store V → Store V × Result AuditRecord
  unfolding record_behind
  append fact st =
      let s = entry fact.ceremony_id st in
      elim (record_behind fact s.journal) [
        | err e ↦ (insert fact.ceremony_id s st, err e)
        | ok r ↦ (insert fact.ceremony_id (record s { journal = s.journal ++ r ∷ [] }) st, ok r)
      ]
