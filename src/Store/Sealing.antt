-- ===== src/Store/Sealing.antt =====
-- Sealing facts behind a journal: `commit` and `append` of ceremony_store.rs.
use underpass_choreographer.Shared.{
  ◌≡◌, ◌≢◌, sym, ◌∙◌, subst, false, not, any, none, some, String, List, [], ◌∷◌, ◌++◌, arith,
  Option-cases, inl, inr, All, last?, eq_iff, ◌==◌,
}
use mathlib.Core.List.{append-nil, append_assoc}
use underpass_choreographer.Shared.Result.{ok, Result-cases}
use underpass_choreographer.Audit.Record.{
  AuditRecord, AuditFact, Platform, sequence_next, first_record, following,
}
use underpass_choreographer.Audit.Chain.{
  AuditChainVerdict, verify, verify_iff, seal_lem, first_record_lem,
}
use underpass_choreographer.Audit.Tamper.{verify-following}
use underpass_choreographer.Store.Operations.{record_behind, seal_facts}

last?-cons : (r : AuditRecord) (rs : List AuditRecord) → last? (r ∷ rs) ≢ none
last?-cons r [] = ground arith
last?-cons r (q ∷ rs) = last?-cons q rs

module _ ⦃p : Platform⦄ where
  -- A journal that verifies, all of whose records are of one ceremony.
  abbrev pub IsJournal : String → List AuditRecord → Type 0
  IsJournal id rs = (verify rs ≡ AuditChainVerdict.intact) × All (λ r. r.ceremony_id ≡ id) rs

  -- The journal was continued: nothing that it held was changed.
  abbrev pub Extends : List AuditRecord → List AuditRecord → Type 0
  Extends old rs = (later : List AuditRecord) × (rs ≡ old ++ later)

  All-snoc :
      (id : String) (rs : List AuditRecord) (r : AuditRecord)
      → All (λ r. r.ceremony_id ≡ id) rs
      → r.ceremony_id ≡ id
      → All (λ r. r.ceremony_id ≡ id) (rs ++ r ∷ [])
  All-snoc id [] r h e = (e, tt)
  All-snoc id (q ∷ rs) r h e = (h.0, All-snoc id rs r h.1 e)

  record_ceremony :
      (fact : AuditFact) (rs : List AuditRecord) (r : AuditRecord)
      → record_behind fact rs ≡ ok r
      → r.ceremony_id ≡ fact.ceremony_id
  unfolding record_behind first_record following
  record_ceremony fact rs r f = elim (Option-cases (last? rs)) [
    | inl e ↦ ground (arith, e, seal_lem fact 1 none r)
    | inr (q, e) ↦
        ground (arith, e, seal_lem fact (sequence_next q.sequence) (some q.record_hash) r)
  ]

  record_verifies :
      (fact : AuditFact) (rs : List AuditRecord) (r : AuditRecord)
      → verify rs ≡ AuditChainVerdict.intact
      → record_behind fact rs ≡ ok r
      → verify (rs ++ r ∷ []) ≡ AuditChainVerdict.intact
  unfolding record_behind
  record_verifies fact [] r h f = (verify_iff (r ∷ [])).1 (first_record_lem fact r f)
  record_verifies fact (q ∷ rs) r h f = elim (Option-cases (last? (q ∷ rs))) [
    | inl e ↦ ground (arith, e, last?-cons q rs)
    | inr (t, e) ↦ verify-following (q ∷ rs) t r fact h e (ground (arith, e, f))
  ]

  pub record_behind_lem :
      (id : String) (fact : AuditFact) (rs : List AuditRecord) (r : AuditRecord)
      → fact.ceremony_id ≡ id
      → IsJournal id rs
      → record_behind fact rs ≡ ok r
      → IsJournal id (rs ++ r ∷ [])
  record_behind_lem id fact rs r e h f =
      (record_verifies fact rs r h.0 f, All-snoc id rs r h.1 (record_ceremony fact rs r f ∙ e))

  pub seal_facts_lem :
      (id : String) (facts : List AuditFact) (rs sealed qs done : List AuditRecord)
      → any (λ f. not (f.ceremony_id == id)) facts ≡ false
      → IsJournal id rs
      → seal_facts facts rs sealed ≡ ok (qs, done)
      → IsJournal id qs × Extends rs qs
  unfolding seal_facts
  seal_facts_lem id [] rs sealed qs done e h f =
      let same : rs ≡ qs = ground (arith, f) in
      (subst (IsJournal id) same h, ([], sym same ∙ sym (append-nil rs)))
  seal_facts_lem id (fact ∷ facts) rs sealed qs done e h f =
      elim (Result-cases (record_behind fact rs)) [
        | inl (x, g) ↦ ground (arith, g, f)
        | inr (r, g) ↦
            let here =
              record_behind_lem id fact rs r (ground (arith, e, eq_iff fact.ceremony_id id)) h g in
            let (j, (later, k)) =
              seal_facts_lem id facts (rs ++ r ∷ []) (sealed ++ r ∷ []) qs done (ground (arith, e))
                here (ground (arith, g, f)) in
            (j, (r ∷ later, k ∙ append_assoc rs (r ∷ []) later))
      ]

  unfoldable pub Grown : String → List AuditRecord → List AuditRecord → Type 0
  Grown id old rs = IsJournal id rs × Extends old rs

  pub same-Grown :
      (id : String) (old rs : List AuditRecord) → IsJournal id old → old ≡ rs → Grown id old rs
  unfolding Grown
  same-Grown id old rs h e = (subst (IsJournal id) e h, ([], sym e ∙ sym (append-nil old)))
