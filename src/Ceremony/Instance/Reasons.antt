-- ===== src/Ceremony/Instance/Reasons.antt =====
-- entities/ceremony_instance.rs: what a session produced, who produced it, and why one thing led to
-- another.
use underpass_choreographer.Shared.{
  ℕ, ◌-◌, Bool, false, ◌&&◌, ◌||◌, String, Option, none, some, [], ◌∷◌, ◌++◌, any, find, is_some,
  option_any, length, get_elem?, leb, ltb, ◌==◌, u32_max, if◌then◌else◌, ⊤,
}
use underpass_choreographer.Shared.Map.{contains_key}
use underpass_choreographer.Shared.Result.{Result, ok, err, invariant_violated, not_found, ensure}
use underpass_choreographer.Shared.Action.{Action, check, put, get, lift, ◌>>=◌, ◌>>◌}
use underpass_choreographer.Ceremony.Step.Lease.{Time}
use underpass_choreographer.Ceremony.Definition.Data.{CeremonyDefinition}
use underpass_choreographer.Ceremony.Intervention.Data.{CeremonyIntervention}
use underpass_choreographer.Ceremony.Reason.{
  CeremonyRecordRef, CeremonyReasonKind, CeremonyReason, MemoryConfidence, ReasonAsserter, asserter,
  reason_new, the_engine, its_author, any_seat, high, answers, contribution, agenda_item,
}
use underpass_choreographer.Ceremony.Instance.Data.{
  CeremonyInstance, CeremonyGuardApproval, CeremonyGuardDeferral, CeremonyTransitionRecord,
  intervention, require_declared_role,
}

module _ {V : Type 0} where
  -- The responses to the item that a contribution names.
  abbrev answered_by : ℕ → Option (CeremonyIntervention V) → Option String
  answered_by ordinal none = none
  answered_by ordinal (some i) = elim (get_elem? i.responses ordinal) [
    | none ↦ none
    | some r ↦ some r.role_id
  ]

  abbrev requester : Option (CeremonyIntervention V) → Option String
  requester none = none
  requester (some i) = some i.requested_by

-- `approval.or_else(|| deferral)`
abbrev decided_by : Option CeremonyGuardApproval → Option CeremonyGuardDeferral → Option String
decided_by (some a) d = some a.approved_by
decided_by none (some d) = some d.deferred_by
decided_by none none = none

abbrev is_author : String → Option String → Bool
is_author role_id none = false
is_author role_id (some author) = author == role_id

abbrev moved_by : Option CeremonyTransitionRecord → Option String
moved_by none = none
moved_by (some t) = t.applied_by

module _ {V : Type 0} where
  unfoldable pub author_of : CeremonyRecordRef → CeremonyInstance V → Option String
  author_of (CeremonyRecordRef.step step_id) s = none
  author_of (CeremonyRecordRef.agenda_item item) s = requester (intervention item s)
  author_of (CeremonyRecordRef.contribution item ordinal) s =
      answered_by ordinal (intervention item s)
  author_of (CeremonyRecordRef.guard_decision guard_name) s =
      decided_by (find (λ a. a.guard_name == guard_name) s.guard_approvals)
        (find (λ d. d.guard_name == guard_name) s.guard_deferrals)
  author_of (CeremonyRecordRef.transition ordinal) s =
      moved_by (get_elem? s.transitions (ordinal - 1))

  -- The match of `require_record`.
  unfoldable pub record_exists : CeremonyRecordRef → CeremonyInstance V → Bool
  record_exists (CeremonyRecordRef.step step_id) s = contains_key step_id s.step_records
  record_exists (CeremonyRecordRef.agenda_item item) s = is_some (intervention item s)
  record_exists (CeremonyRecordRef.contribution item ordinal) s =
      option_any (λ i. ltb ordinal (length i.responses)) (intervention item s)
  record_exists (CeremonyRecordRef.guard_decision guard_name) s =
      any (λ a. a.guard_name == guard_name) s.guard_approvals
      || any (λ d. d.guard_name == guard_name) s.guard_deferrals
  record_exists (CeremonyRecordRef.transition ordinal) s =
      leb 1 ordinal && leb ordinal (length s.transitions)

  unfoldable pub require_record : CeremonyRecordRef → CeremonyInstance V → Result ⊤
  unfolding record_exists
  require_record r s = ensure (record_exists r s) (not_found "ceremony_record")

  -- The match on who may assert a kind of reason.
  unfoldable pub may_assert :
      ReasonAsserter → CeremonyRecordRef → String → CeremonyInstance V → Result ⊤
  unfolding author_of
  may_assert the_engine from role_id s = err (
      invariant_violated
        "this kind of reason states the shape of the session, not a judgement, and only the engine may assert it")
  may_assert its_author from role_id s = ensure (is_author role_id (author_of from s)) (
      invariant_violated
        "only whoever produced something may say why they decided it or how they did it")
  may_assert any_seat from role_id s = ok tt

  unfoldable pub assert_reason_as :
      CeremonyDefinition V
      → String
      → CeremonyRecordRef
      → CeremonyRecordRef
      → CeremonyReasonKind
      → String
      → MemoryConfidence
      → Time
      → Action (CeremonyInstance V) ⊤
  unfolding require_declared_role require_record may_assert
  assert_reason_as d role_id from to kind why confidence now = do
    check (require_declared_role d role_id)
    check (require_record from)
    check (require_record to)
    check (may_assert (asserter kind) from role_id)
    reason ← lift (reason_new from to kind why confidence (some role_id) now)
    s ← get
    put (record s { reasons = s.reasons ++ reason ∷ []; updated_at = now })

  -- The ordinal of the last response: `count.checked_sub(1)`, if it fits a u32.
  abbrev last_ordinal : Option (CeremonyIntervention V) → Option ℕ
  last_ordinal none = none
  last_ordinal (some i) =
      if leb 1 (length i.responses) && leb (length i.responses - 1) u32_max
      then some (length i.responses - 1)
      else none

  abbrev push_reason : Result CeremonyReason → CeremonyInstance V → CeremonyInstance V
  push_reason (ok reason) s = record s { reasons = s.reasons ++ reason ∷ [] }
  push_reason (err _) s = s

  abbrev answer_reason : String → Time → Option ℕ → CeremonyInstance V → CeremonyInstance V
  answer_reason item now none s = s
  answer_reason item now (some ordinal) s =
      push_reason
        (reason_new (contribution item ordinal) (agenda_item item) answers
          "a contribution made against this agenda item" high none now)
        s

  unfoldable pub record_that_it_answers : String → Time → CeremonyInstance V → CeremonyInstance V
  record_that_it_answers item now s = answer_reason item now (last_ordinal (intervention item s)) s
