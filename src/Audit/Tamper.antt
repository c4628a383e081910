-- ===== src/Audit/Tamper.antt =====
-- What a journal that verifies is worth: entities/audit_chain.rs and entities/audit_record.rs.
use underpass_choreographer.Shared.{
  ℕ, suc, ◌+◌, ◌<◌, ◌≡◌, ◌≢◌, refl, sym, ◌∙◌, some, List, [], ◌∷◌, ◌++◌, arith, u64_max,
  saturating_add, last?, length, Option-cases, Bool-cases, inl, inr, ◌⊎◌, All,
}
use underpass_choreographer.Shared.Result.{ok}
use underpass_choreographer.Audit.Bytes.{Bytes, bytes_eq, bytes_eq_iff}
use underpass_choreographer.Audit.Record.{
  AuditRecord, AuditFact, Platform, compute_hash, following, canonical,
}
use underpass_choreographer.Audit.Encoding.{Fits, canonical_injective}
use underpass_choreographer.Audit.Chain.{
  AuditChainVerdict, verify, verify_iff, next_sequence, IsSealed, Continues, IsLinked,
  following_lem,
}

module _ ⦃p : Platform⦄ where
  IsLinked-snoc :
      (q : AuditRecord) (rs : List AuditRecord) (t r : AuditRecord)
      → last? (q ∷ rs) ≡ some t
      → IsLinked q rs
      → Continues t r × IsSealed r
      → IsLinked q (rs ++ r ∷ [])
  IsLinked-snoc q [] t r e h k = ground (arith, e, k)
  IsLinked-snoc q (s ∷ rs) t r e h k = (h.0, h.1, IsLinked-snoc s rs t r e h.2 k)

  -- A journal that verifies still does after a fact is recorded behind its last record.
  pub verify-following :
      (rs : List AuditRecord) (q r : AuditRecord) (fact : AuditFact)
      → verify rs ≡ AuditChainVerdict.intact
      → last? rs ≡ some q
      → following fact q ≡ ok r
      → verify (rs ++ r ∷ []) ≡ AuditChainVerdict.intact
  verify-following [] q r fact h e f = ground (arith, e)
  verify-following (s ∷ rs) q r fact h e f =
      let chain = (verify_iff (s ∷ rs)).0 h in
      (verify_iff (s ∷ rs ++ r ∷ [])).1
        (chain.0, chain.1, chain.2, IsLinked-snoc s rs q r e chain.3 (following_lem fact q r f))

  next_sequence_rest :
      (q : AuditRecord) (rs : List AuditRecord) (n : ℕ)
      → q.sequence ≡ saturating_add u64_max n 1
      → IsLinked q rs
      → next_sequence (q ∷ rs) ≡ saturating_add u64_max (n + length rs) 2
  unfolding next_sequence
  next_sequence_rest q [] n e h = ground (arith, e)
  next_sequence_rest q (r ∷ rs) n e h = ground (arith, e, h, next_sequence_rest r rs (suc n))

  -- The next position of a journal that verifies counts its records, up to the last u64.
  pub next_sequence_counts :
      (rs : List AuditRecord)
      → verify rs ≡ AuditChainVerdict.intact
      → next_sequence rs ≡ saturating_add u64_max (length rs) 1
  unfolding next_sequence
  next_sequence_counts [] h = refl
  next_sequence_counts (r ∷ rs) h =
      let chain = (verify_iff (r ∷ rs)).0 h in
      ground (arith, next_sequence_rest r rs 0, chain.0, chain.3)

  -- Two different contents with the same SHA-256.
  abbrev pub Collision : Type 0
  Collision = (a : Bytes) × (b : Bytes) × (a ≢ b) × (p.sha256 a ≡ p.sha256 b)

  sealed_moment :
      (r : AuditRecord)
      → IsSealed r
      → (m : Bytes) × (p.format r.occurred_at ≡ some m) × (p.sha256 (canonical r m) ≡ r.record_hash)
  unfolding compute_hash
  sealed_moment r h = elim (Option-cases (p.format r.occurred_at)) [
    | inl e ↦ ground (arith, e, h)
    | inr (m, e) ↦ (m, e, ground (arith, e, h))
  ]

  -- Two sealed records with the same digest are the same record, or SHA-256 collides.
  pub same_digest :
      (q r : AuditRecord)
      → Fits q
      → Fits r
      → IsSealed q
      → IsSealed r
      → q.record_hash ≡ r.record_hash
      → (q ≡ r) ⊎ Collision
  same_digest q r fq fr sq sr h =
      let (m, eq, hq) = sealed_moment q sq in
      let (n, er, hr) = sealed_moment r sr in
      elim (Bool-cases (bytes_eq (canonical q m) (canonical r n))) [
        | inl e ↦
            let same =
              canonical_injective q r m n fq fr eq er
                ((bytes_eq_iff (canonical q m) (canonical r n)).0 e) in
            inl (ground (arith, same, h))
        | inr e ↦ inr (
          canonical q m,
          canonical r n,
          ground (arith, e, bytes_eq_iff (canonical q m) (canonical r n)),
          hq ∙ h ∙ sym hr,
        )
      ]

  same_end :
      (q r : AuditRecord) (qs rs : List AuditRecord)
      → length qs ≡ length rs
      → All Fits (q ∷ qs)
      → All Fits (r ∷ rs)
      → IsSealed q
      → IsSealed r
      → IsLinked q qs
      → IsLinked r rs
      → last? (q ∷ qs) ≡ last? (r ∷ rs)
      → ((q ∷ qs) ≡ (r ∷ rs)) ⊎ Collision
  same_end q r [] [] l fq fr sq sr lq lr e = inl (ground (arith, e))
  same_end q r [] (r' ∷ rs) l fq fr sq sr lq lr e = ground (arith, l)
  same_end q r (q' ∷ qs) [] l fq fr sq sr lq lr e = ground (arith, l)
  same_end q r (q' ∷ qs) (r' ∷ rs) l fq fr sq sr lq lr e =
      elim (same_end q' r' qs rs (omega (arith, l)) fq.1 fr.1 lq.1 lr.1 lq.2 lr.2 e) [
        | inr c ↦ inr c
        | inl same ↦ elim (same_digest q r fq.0 fr.0 sq sr (hashes_agree same)) [
          | inr c ↦ inr c
          | inl head ↦ inl (ground (arith, head, same))
        ]
      ]
    where
      hashes_agree : (q' ∷ qs) ≡ (r' ∷ rs) → q.record_hash ≡ r.record_hash
      hashes_agree same = ground (arith, same, lq.0, lr.0)

  same_count :
      (qs rs : List AuditRecord)
      → length qs < u64_max
      → length rs < u64_max
      → verify qs ≡ AuditChainVerdict.intact
      → verify rs ≡ AuditChainVerdict.intact
      → last? qs ≡ last? rs
      → length qs ≡ length rs
  unfolding next_sequence
  same_count qs rs lq lr vq vr e =
      ground (arith, next_sequence_counts qs, next_sequence_counts rs, vq, vr, e, lq, lr)

  -- Two journals that verify and end in the same record are the same journal, or they show two
  -- contents with the same SHA-256: behind a last record that is known, no record can be altered,
  -- removed, inserted or reordered. The journals are shorter than the last u64, and their fields
  -- fit the widths of their types.
  pub tamper_evident :
      (qs rs : List AuditRecord)
      → length qs < u64_max
      → length rs < u64_max
      → All Fits qs
      → All Fits rs
      → verify qs ≡ AuditChainVerdict.intact
      → verify rs ≡ AuditChainVerdict.intact
      → last? qs ≡ last? rs
      → (qs ≡ rs) ⊎ Collision
  tamper_evident [] [] lq lr fq fr vq vr e = inl refl
  tamper_evident [] (r ∷ rs) lq lr fq fr vq vr e =
      ground (arith, same_count [] (r ∷ rs), lq, lr, vq, vr, e)
  tamper_evident (q ∷ qs) [] lq lr fq fr vq vr e =
      ground (arith, same_count (q ∷ qs) [], lq, lr, vq, vr, e)
  tamper_evident (q ∷ qs) (r ∷ rs) lq lr fq fr vq vr e =
      let cq = (verify_iff (q ∷ qs)).0 vq in
      let cr = (verify_iff (r ∷ rs)).0 vr in
      let l = same_count (q ∷ qs) (r ∷ rs) lq lr vq vr e in
      same_end q r qs rs (omega (arith, l)) fq fr cq.2 cr.2 cq.3 cr.3 e
