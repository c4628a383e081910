-- ===== src/Audit/Chain.antt =====
-- entities/audit_chain.rs, with audit_chain_defect.rs and audit_chain_verdict.rs of
-- value_objects/audit: when a journal verifies.
use underpass_choreographer.Shared.{
  ℕ, ◌≡◌, ◌≢◌, ◌↔◌, true, not, Option, none, some, List, [], ◌∷◌, arith, nat_eq_iff, if◌then◌else◌,
  u64_max, saturating_add, is_some, ◌==◌, eq_iff, last?, Option-cases, inl, inr,
}
use underpass_choreographer.Shared.Result.{ok, Result-cases}
use underpass_choreographer.Audit.Bytes.{Bytes, bytes_eq, bytes_eq_iff}
use underpass_choreographer.Audit.Record.{
  AuditRecord, AuditFact, Platform, digest_is_intact, compute_hash, seal, first_record, following,
  first_sequence, sequence_next, follows, is_first, canonical,
}

pub data AuditChainDefect : Type 0 where
  does_not_start_at_the_beginning digest_altered unexpected_root : ℕ → AuditChainDefect
  sequence_broken : ℕ → ℕ → AuditChainDefect
  link_broken foreign_ceremony : ℕ → AuditChainDefect

pub data AuditChainVerdict : Type 0 where
  intact : AuditChainVerdict
  broken : AuditChainDefect → AuditChainVerdict

module _ ⦃p : Platform⦄ where
  unfoldable pub digest_defect : AuditRecord → Option AuditChainVerdict
  digest_defect r = elim (digest_is_intact r) [
    | ok true ↦ none
    | _ ↦ some (AuditChainVerdict.broken (AuditChainDefect.digest_altered r.sequence))
  ]

  -- The checks of the loop's body on one record and the one before it, in their order.
  unfoldable pub record_defect : AuditRecord → AuditRecord → Option AuditChainVerdict
  record_defect previous r =
      if not (r.ceremony_id == previous.ceremony_id)
      then some (AuditChainVerdict.broken (AuditChainDefect.foreign_ceremony r.sequence))
      else if not (follows r.sequence previous.sequence)
      then some (
          AuditChainVerdict.broken
            (AuditChainDefect.sequence_broken (sequence_next previous.sequence) r.sequence))
      else elim r.previous_record_hash [
        | none ↦ some (AuditChainVerdict.broken (AuditChainDefect.unexpected_root r.sequence))
        | some hash ↦
            if not (bytes_eq hash previous.record_hash)
            then some (AuditChainVerdict.broken (AuditChainDefect.link_broken r.sequence))
            else digest_defect r
      ]

  -- The loop over the rest of the journal.
  unfoldable pub verify_rest : AuditRecord → List AuditRecord → AuditChainVerdict
  verify_rest previous [] = AuditChainVerdict.intact
  verify_rest previous (r ∷ rs) =
      let rest = verify_rest r rs in
      elim (record_defect previous r) [ none ↦ rest | some verdict ↦ verdict ]

  -- The checks on the first record, in their order.
  unfoldable pub root_defect : AuditRecord → Option AuditChainVerdict
  root_defect r =
      if not (is_first r.sequence)
      then some
          (AuditChainVerdict.broken (AuditChainDefect.does_not_start_at_the_beginning r.sequence))
      else if is_some r.previous_record_hash
      then some (AuditChainVerdict.broken (AuditChainDefect.unexpected_root r.sequence))
      else digest_defect r

  unfoldable pub verify : List AuditRecord → AuditChainVerdict
  unfolding verify_rest
  verify [] = AuditChainVerdict.intact
  verify (r ∷ rs) = elim (root_defect r) [ none ↦ verify_rest r rs | some verdict ↦ verdict ]

  -- `AuditChain::next_sequence`
  unfoldable pub next_sequence : List AuditRecord → ℕ
  next_sequence rs = elim (last? rs) [ none ↦ first_sequence | some r ↦ sequence_next r.sequence ]

  -- A record whose digest is that of its content.
  abbrev pub IsSealed : AuditRecord → Type 0
  IsSealed r = compute_hash r ≡ ok r.record_hash

  abbrev pub Continues : AuditRecord → AuditRecord → Type 0
  Continues previous r =
      (r.ceremony_id ≡ previous.ceremony_id)
      × (r.sequence ≡ saturating_add u64_max previous.sequence 1)
      × (r.previous_record_hash ≡ some previous.record_hash)

  abbrev pub IsLinked : AuditRecord → List AuditRecord → Type 0
  IsLinked previous [] = Unit
  IsLinked previous (r ∷ rs) = Continues previous r × IsSealed r × IsLinked r rs

  -- A journal as it is meant to be: it opens at the first position without a predecessor, each
  -- further record continues the one before it, and each digest is that of its record.
  abbrev pub IsChain : List AuditRecord → Type 0
  IsChain [] = Unit
  IsChain (r ∷ rs) = (r.sequence ≡ 1) × (r.previous_record_hash ≡ none) × IsSealed r × IsLinked r rs

  digest_defect_iff : (r : AuditRecord) → (digest_defect r ≡ none) ↔ IsSealed r
  unfolding digest_defect digest_is_intact
  digest_defect_iff r = elim (Result-cases (compute_hash r)) [
    | inl (e, f) ↦ ground (arith, f)
    | inr (h, f) ↦ ground (arith, f, bytes_eq_iff h r.record_hash)
  ]

  record_defect_iff :
      (q r : AuditRecord) → (record_defect q r ≡ none) ↔ (Continues q r × IsSealed r)
  unfolding record_defect
  record_defect_iff q r = elim (Option-cases r.previous_record_hash) [
    | inl e ↦ ground (arith, e)
    | inr (h, e) ↦ ground (
      arith,
      e,
      digest_defect_iff r,
      bytes_eq_iff h q.record_hash,
      eq_iff r.ceremony_id q.ceremony_id,
      nat_eq_iff r.sequence (saturating_add u64_max q.sequence 1),
    )
  ]

  digest_defect_broken : (r : AuditRecord) → digest_defect r ≢ some AuditChainVerdict.intact
  unfolding digest_defect
  digest_defect_broken r = ground arith

  record_defect_broken : (q r : AuditRecord) → record_defect q r ≢ some AuditChainVerdict.intact
  unfolding record_defect
  record_defect_broken q r = ground (arith, digest_defect_broken r)

  root_defect_iff :
      (r : AuditRecord)
      → (root_defect r ≡ none) ↔ ((r.sequence ≡ 1) × (r.previous_record_hash ≡ none) × IsSealed r)
  unfolding root_defect
  root_defect_iff r = elim (Option-cases r.previous_record_hash) [
    | inl e ↦ ground (arith, e, digest_defect_iff r, nat_eq_iff r.sequence 1)
    | inr (h, e) ↦ ground (arith, e, digest_defect_iff r, nat_eq_iff r.sequence 1)
  ]

  root_defect_broken : (r : AuditRecord) → root_defect r ≢ some AuditChainVerdict.intact
  unfolding root_defect
  root_defect_broken r = ground (arith, digest_defect_broken r)

  verify_rest_iff :
      (q : AuditRecord) (rs : List AuditRecord)
      → (verify_rest q rs ≡ AuditChainVerdict.intact) ↔ IsLinked q rs
  unfolding verify_rest
  verify_rest_iff q [] = ground arith
  verify_rest_iff q (r ∷ rs) = elim (Option-cases (record_defect q r)) [
    | inl e ↦ ground (arith, e, record_defect_iff q r, verify_rest_iff r rs)
    | inr (v, e) ↦ ground (arith, e, record_defect_iff q r, record_defect_broken q r)
  ]

  -- A journal verifies exactly when it is as it is meant to be.
  pub verify_iff : (rs : List AuditRecord) → (verify rs ≡ AuditChainVerdict.intact) ↔ IsChain rs
  unfolding verify
  verify_iff [] = ground arith
  verify_iff (r ∷ rs) = elim (Option-cases (root_defect r)) [
    | inl e ↦ ground (arith, e, root_defect_iff r, verify_rest_iff r rs)
    | inr (v, e) ↦ ground (arith, e, root_defect_iff r, root_defect_broken r)
  ]

  -- Sealing needs only that the moment can be rendered; what is sealed carries its own digest.
  pub seal_lem :
      (fact : AuditFact) (n : ℕ) (previous : Option Bytes) (r : AuditRecord)
      → seal fact n previous ≡ ok r
      → IsSealed r
        × (r.ceremony_id ≡ fact.ceremony_id)
        × (r.sequence ≡ n)
        × (r.previous_record_hash ≡ previous)
  unfolding seal compute_hash canonical
  seal_lem fact n previous r h = ground arith

  pub first_record_lem :
      (fact : AuditFact) (r : AuditRecord) → first_record fact ≡ ok r → IsChain (r ∷ [])
  unfolding first_record
  first_record_lem fact r h = ground (arith, seal_lem fact first_sequence none r)

  pub following_lem :
      (fact : AuditFact) (q r : AuditRecord) → following fact q ≡ ok r → Continues q r × IsSealed r
  unfolding following
  following_lem fact q r h = ground (
    arith,
    eq_iff fact.ceremony_id q.ceremony_id,
    seal_lem fact (sequence_next q.sequence) (some q.record_hash) r,
  )
