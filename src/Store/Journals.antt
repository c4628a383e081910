-- ===== src/Store/Journals.antt =====
-- What a store keeps of its journals: crates/choreo-adapters/src/memory/ceremony_store.rs.
use underpass_choreographer.Shared.{
  ◌≡◌, refl, ap, ◌∙◌, subst, true, false, not, any, none, some, String, List, [], ◌∷◌, ◌++◌, arith,
  Bool-cases, inl, inr, All, elem, eq_iff, ◌==◌,
}
use mathlib.Core.List.{append_assoc}
use underpass_choreographer.Shared.Result.{ok, Result-cases}
use underpass_choreographer.Audit.Record.{AuditRecord, AuditFact, Platform}
use underpass_choreographer.Audit.Chain.{AuditChainVerdict, verify}
use underpass_choreographer.Store.Data.{
  Store, StoredCeremony, CeremonyCommit, commit_new, matches, attempt_next,
}
use underpass_choreographer.Store.Operations.{
  record_behind, seal_facts, entry, records, commit_entry, commit, append, save, saved,
}
use underpass_choreographer.Store.Outbox.{mark_delivered, mark_failed, quarantine}
use underpass_choreographer.Store.Entries.{entry-insert, mark-Unmoved, claim-Unmoved}
use underpass_choreographer.Store.Requests.{Request, run, run_all}
use underpass_choreographer.Store.Sealing.{
  Grown, IsJournal, record_behind_lem, same-Grown, seal_facts_lem,
}

module _ {V : Type 0} ⦃p : Platform⦄ where
  commit_entry-Grown :
      (id : String) (c : CeremonyCommit V) (s : StoredCeremony V)
      → any (λ f. not (f.ceremony_id == id)) c.facts ≡ false
      → IsJournal id s.journal
      → Grown id s.journal (commit_entry c s).0.journal
  unfolding commit_entry Grown
  commit_entry-Grown id c s e h = elim (Result-cases (seal_facts c.facts s.journal [])) [
    | inl (x, f) ↦ same-Grown id s.journal (commit_entry c s).0.journal h (ground (arith, f))
    | inr (qs, f) ↦ elim (Bool-cases (matches c.expected_revision s.stored_revision)) [
      | inl m ↦
          subst (Grown id s.journal) (ground (arith, f, m))
            (seal_facts_lem id c.facts s.journal [] qs.0 qs.1 e h f)
      | inr m ↦ same-Grown id s.journal (commit_entry c s).0.journal h (ground (arith, m))
    ]
  ]

  commit-Grown :
      (id : String) (c : CeremonyCommit V) (st : Store V)
      → any (λ f. not (f.ceremony_id == c.instance_state.id)) c.facts ≡ false
      → IsJournal id (records id st)
      → Grown id (records id st) (records id (commit c st).0)
  unfolding commit
  commit-Grown id c st e h =
      let k = c.instance_state.id in
      let s' = (commit_entry c (entry k st)).0 in
      elim (Bool-cases (k == id)) [
        | inl here ↦
            let same : k ≡ id = (eq_iff k id).0 here in
            subst (Grown id (records id st)) (ground (arith, here, entry-insert k id s' st)) (
              subst (λ i. Grown id (records i st) s'.journal) same
                (commit_entry-Grown id c (entry k st) (ground (arith, e, same))
                  (ground (arith, h, same))))
        | inr there ↦
            same-Grown id (records id st) (records id (commit c st).0) h
              (ground (arith, there, entry-insert k id s' st))
      ]

  append-Grown :
      (id : String) (fact : AuditFact) (st : Store V)
      → IsJournal id (records id st)
      → Grown id (records id st) (records id (append fact st).0)
  unfolding append Grown
  append-Grown id fact st h =
      let k = fact.ceremony_id in
      let s = entry k st in
      elim (Bool-cases (k == id)) [
        | inr there ↦ elim (Result-cases (record_behind fact s.journal)) [
          | inl (x, f) ↦
              same-Grown id (records id st) (records id (append fact st).0) h
                (ground (arith, there, f, entry-insert k id s st))
          | inr (r, f) ↦ same-Grown id (records id st) (records id (append fact st).0) h (
              ground (
                arith,
                there,
                f,
                entry-insert k id (record s { journal = s.journal ++ r ∷ [] }) st,
              ))
        ]
        | inl here ↦
            let same : k ≡ id = (eq_iff k id).0 here in
            let known : records k st ≡ records id st = ap (λ i. records i st) same in
            elim (Result-cases (record_behind fact s.journal)) [
              | inl (x, f) ↦
                  same-Grown id (records id st) (records id (append fact st).0) h
                    (ground (arith, here, f, known, entry-insert k id s st))
              | inr (r, f) ↦
                  let now =
                    record_behind_lem id fact (records id st) r same h
                      (subst (λ rs. record_behind fact rs ≡ ok r) known f) in
                  subst (Grown id (records id st))
                    (ground (
                      arith,
                      here,
                      f,
                      known,
                      entry-insert k id (record s { journal = s.journal ++ r ∷ [] }) st,
                    ))
                    (now, (r ∷ [], refl))
            ]
      ]

  run-Grown :
      (id : String) (r : Request V) (st : Store V)
      → IsJournal id (records id st)
      → Grown id (records id st) (records id (run r st))
  unfolding run commit_new mark_delivered mark_failed quarantine
  run-Grown id (Request.to_commit i expected facts messages) st h =
      elim (Bool-cases (any (λ f. not (f.ceremony_id == i.id)) facts)) [
        | inl e ↦
            same-Grown id (records id st)
              (records id (run (Request.to_commit i expected facts messages) st)) h
              (ground (arith, e))
        | inr e ↦ subst (Grown id (records id st)) (ground (arith, e)) (
            commit-Grown id
              (record {
                instance_state = i;
                expected_revision = expected;
                facts = facts;
                messages = messages;
              })
              st e h)
      ]
  run-Grown id (Request.to_append fact) st h = append-Grown id fact st h
  run-Grown id (Request.to_save i) st h =
      same-Grown id (records id st) (records id (save i st)) h
        (ground (arith, eq_iff i.id id, entry-insert i.id id (saved i (entry i.id st)) st))
  run-Grown id (Request.to_claim last_time limit now lease) st h =
      same-Grown id (records id st)
        (records id (run (Request.to_claim last_time limit now lease) st)) h
        ((claim-Unmoved last_time limit now lease id st).2)
  run-Grown id (Request.to_mark_delivered ids) st h =
      same-Grown id (records id st) (records id (mark_delivered ids st)) h (
        (mark-Unmoved (λ e. elem e.message.event_id ids)
          (λ e. record e { delivered = true; claimed_until = none }) id st).2)
  run-Grown id (Request.to_mark_failed event_id) st h =
      same-Grown id (records id st) (records id (mark_failed event_id st)) h (
        (mark-Unmoved (λ e. e.message.event_id == event_id)
          (λ e. record e { attempt = attempt_next e.attempt; claimed_until = none }) id st).2)
  run-Grown id (Request.to_quarantine event_id reason) st h =
      same-Grown id (records id st) (records id (quarantine event_id reason st)) h (
        (mark-Unmoved (λ e. e.message.event_id == event_id)
          (λ e. record e { quarantine_reason = some reason; claimed_until = none }) id st).2)

  run_all-Grown :
      (id : String) (rs : List (Request V)) (st : Store V)
      → IsJournal id (records id st)
      → Grown id (records id st) (records id (run_all rs st))
  unfolding run_all Grown
  run_all-Grown id [] st h = same-Grown id (records id st) (records id st) h refl
  run_all-Grown id (r ∷ rs) st h =
      let (k, (here, e)) = run-Grown id r st h in
      let (k', (later, e')) = run_all-Grown id rs (run r st) k in
      (k', (here ++ later, e' ∙ ap (λ js. js ++ later) e ∙ append_assoc (records id st) here later))

  -- Whatever requests ran from the empty store on, the journal of each ceremony verifies, and all
  -- of its records are of that ceremony.
  pub journals_verify :
      (rs : List (Request V)) (id : String)
      → (verify (records id (run_all rs [])) ≡ AuditChainVerdict.intact)
        × All (λ r. r.ceremony_id ≡ id) (records id (run_all rs []))
  unfolding Grown verify
  journals_verify rs id = (run_all-Grown id rs [] (refl, tt)).0

  -- Whatever requests ran before, those that follow only add records behind the end of a journal:
  -- nothing that it held is changed, removed or moved.
  pub journals_append :
      (before rs : List (Request V)) (id : String)
      → (later : List AuditRecord) × (records id (run_all rs (run_all before []))
          ≡ records id (run_all before []) ++ later)
  unfolding Grown
  journals_append before rs id =
      (run_all-Grown id rs (run_all before []) (journals_verify before id)).1
