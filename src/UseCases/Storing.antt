-- ===== src/UseCases/Storing.antt =====
-- What storing a session leaves in the store: all of its change, or none of it.
use mathlib.Core.List.{append_assoc, append-nil}
use underpass_choreographer.Shared.{
  ◌≡◌, refl, ap, ◌∙◌, not, any, String, List, [], ◌∷◌, ◌++◌, map, arith, Option-cases, Bool-cases,
  inl, inr, last?, eq_iff, eq_refl, ◌==◌,
}
use underpass_choreographer.Shared.Map.{insert}
use underpass_choreographer.Shared.Result.{DomainError, ok, err, Result-cases}
use underpass_choreographer.Audit.Record.{
  AuditRecord, AuditFact, AuditEventType, Platform, first_record, following, seal,
}
use underpass_choreographer.Store.Data.{Store, CeremonyCommit, commit_new}
use underpass_choreographer.Store.Operations.{
  record_behind, seal_facts, entry, records, commit, commit_entry,
}
use underpass_choreographer.Store.Entries.{entry-insert}
use underpass_choreographer.Services.Journal.{LoadedSession, store_session}

abbrev pub record_types : List AuditRecord → List AuditEventType
record_types rs = map (λ r. r.event_type) rs

abbrev pub fact_types : List AuditFact → List AuditEventType
fact_types fs = map (λ f. f.event_type) fs

module _ ⦃p : Platform⦄ where
  record_type :
      (f : AuditFact) (rs : List AuditRecord) (r : AuditRecord)
      → record_behind f rs ≡ ok r
      → r.event_type ≡ f.event_type
  unfolding record_behind first_record following seal
  record_type f rs r e = elim (Option-cases (last? rs)) [
    | inl n ↦ ground (arith, n, e)
    | inr (q, n) ↦ ground (arith, n, e)
  ]

  sealed_types :
      (fs : List AuditFact) (rs sealed qs done : List AuditRecord)
      → seal_facts fs rs sealed ≡ ok (qs, done)
      → (new : List AuditRecord) × (qs ≡ rs ++ new) × (record_types new ≡ fact_types fs)
  unfolding seal_facts
  sealed_types [] rs sealed qs done e = ([], ground (arith, e, append-nil rs), refl)
  sealed_types (f ∷ fs) rs sealed qs done e = elim (Result-cases (record_behind f rs)) [
    | inl (x, g) ↦ ground (arith, g, e)
    | inr (r, g) ↦
        let (new, same, types) =
          sealed_types fs (rs ++ r ∷ []) (sealed ++ r ∷ []) qs done (ground (arith, g, e)) in
        (r ∷ new, same ∙ append_assoc rs (r ∷ []) new, ground (arith, types, record_type f rs r g))
  ]

module _ {V : Type 0} ⦃p : Platform⦄ where
  pub stored_whole :
      (refusal : DomainError) (s t : LoadedSession V) (facts : List AuditFact) (st : Store V)
      → (store_session refusal s facts st).1 ≡ ok t
      → (new : List AuditRecord) × (records s.session.id (store_session refusal s facts st).0
          ≡ records s.session.id st ++ new)
        × (record_types new ≡ fact_types facts)
  unfolding store_session commit_new commit commit_entry
  stored_whole refusal s t facts st h =
      let k = s.session.id in
      let c : CeremonyCommit V = record {
        instance_state = s.session;
        expected_revision = s.expected;
        facts = facts;
        messages = [];
      } in
      elim (Bool-cases (any (λ f. not (f.ceremony_id == k)) facts)) [
        | inl e ↦ ground (arith, e, h)
        | inr e ↦ elim (Result-cases (seal_facts facts (entry k st).journal [])) [
          | inl (x, f) ↦ ground (arith, e, f, h)
          | inr (qs, f) ↦
              let (new, same, types) = sealed_types facts (entry k st).journal [] qs.0 qs.1 f in
              (
                new,
                ground (
                  arith,
                  e,
                  f,
                  h,
                  same,
                  eq_refl k,
                  entry-insert k k (commit_entry c (entry k st)).0 st,
                ),
                types,
              )
        ]
      ]

  put_back : (k id : String) (st : Store V) → entry id (insert k (entry k st) st) ≡ entry id st
  put_back k id st = elim (Bool-cases (k == id)) [
    | inr there ↦ ground (arith, there, entry-insert k id (entry k st) st)
    | inl here ↦
        let same : entry k st ≡ entry id st = ap (λ i. entry i st) ((eq_iff k id).0 here) in
        ground (arith, here, same, entry-insert k id (entry k st) st)
  ]

  pub stored_nothing :
      (refusal e : DomainError) (s : LoadedSession V) (facts : List AuditFact) (st : Store V)
      (id : String)
      → (store_session refusal s facts st).1 ≡ err e
      → entry id (store_session refusal s facts st).0 ≡ entry id st
  unfolding store_session commit_new commit commit_entry
  stored_nothing refusal e s facts st id h =
      let k = s.session.id in
      elim (Bool-cases (any (λ f. not (f.ceremony_id == k)) facts)) [
        | inl g ↦ ground (arith, g)
        | inr g ↦ elim (Result-cases (seal_facts facts (entry k st).journal [])) [
          | inl (x, f) ↦ ground (arith, g, f, put_back k id st)
          | inr (qs, f) ↦ ground (arith, g, f, h, put_back k id st)
        ]
      ]
