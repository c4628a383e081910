-- ===== src/Ceremony/Intervention/Data.antt =====
-- entities/ceremony_intervention.rs: an agenda item, who answered it, and when it closes; with the
-- value objects that it holds.
use underpass_choreographer.Shared.{
  Bool, true, false, not, String, Option, none, some, List, [], ◌∷◌, ◌++◌, any, elem, ◌==◌, ⊤,
  is_empty,
}
use underpass_choreographer.Shared.Result
use underpass_choreographer.Shared.Result.{
  Result, ok, err, invariant_violated, already_exists, empty_field, ensure,
}
use underpass_choreographer.Shared.Action.{Action, check, put, get, lift, guard, ◌>>=◌, ◌>>◌}
use underpass_choreographer.Ceremony.Step.Lease.{Time}
use underpass_choreographer.Ceremony.Content.{CeremonyInterventionContent}
use underpass_choreographer.Ceremony.Evidence.{CeremonyEvidencePack, pack_content}

pub data CeremonyInterventionTarget : Type 0 where
  table : CeremonyInterventionTarget
  roles : List String → CeremonyInterventionTarget

-- `CeremonyInterventionTarget::roles`, from the members of the set in order.
unfoldable pub target_roles : List String → Result CeremonyInterventionTarget
target_roles role_ids =
    Result.◌>>◌
      (ensure (not (is_empty role_ids)) (empty_field "ceremony_intervention.target_role_ids"))
      (ok (roles role_ids))

-- `CeremonyInterventionTarget::accepts`
abbrev pub accepts : CeremonyInterventionTarget → String → Bool
accepts table role_id = true
accepts (roles role_ids) role_id = elem role_id role_ids

abbrev pub target_role_ids : CeremonyInterventionTarget → Option (List String)
target_role_ids table = none
target_role_ids (roles role_ids) = some role_ids

pub data CeremonyInterventionKind : Type 0 where
  opinion investigation action : CeremonyInterventionKind

-- `Open` is spelled `opened`, since the word is taken.
pub data CeremonyInterventionStatus : Type 0 where
  opened closed : CeremonyInterventionStatus

abbrev pub is_open : CeremonyInterventionStatus → Bool
is_open opened = true
is_open closed = false

pub record CeremonyInterventionProvenance : Type 0 where
  pub source_intervention : String
  pub source_response_role : String
  pub selected_role : String

pub record CeremonyInterventionResponse (V : Type 0) : Type 0 where
  pub role_id : String
  pub content : CeremonyInterventionContent V
  pub evidence_pack : Option (CeremonyEvidencePack V)
  pub responded_at : Time

pub record CeremonyIntervention (V : Type 0) : Type 0 where
  pub id : String
  pub kind : CeremonyInterventionKind
  pub requested_by : String
  pub target : CeremonyInterventionTarget
  pub request : CeremonyInterventionContent V
  pub provenance : Option CeremonyInterventionProvenance
  pub responses : List (CeremonyInterventionResponse V)
  pub status : CeremonyInterventionStatus
  pub created_at : Time
  pub updated_at : Time
  pub closed_at : Option Time

module _ {V : Type 0} where
  unfoldable pub open_with_provenance :
      String
      → CeremonyInterventionKind
      → String
      → CeremonyInterventionTarget
      → CeremonyInterventionContent V
      → Option CeremonyInterventionProvenance
      → Time
      → CeremonyIntervention V
  open_with_provenance id kind requested_by target request provenance now = record {
    id = id;
    kind = kind;
    requested_by = requested_by;
    target = target;
    request = request;
    provenance = provenance;
    responses = [];
    status = opened;
    created_at = now;
    updated_at = now;
    closed_at = none;
  }

  -- Whether a role has answered already.
  abbrev pub has_response : List (CeremonyInterventionResponse V) → String → Bool
  has_response rs role_id = any (λ r. r.role_id == role_id) rs

  unfoldable pub ensure_can_respond : String → CeremonyIntervention V → Result ⊤
  ensure_can_respond role_id i =
      Result.◌>>◌
        (ensure (is_open i.status)
          (invariant_violated "closed ceremony interventions cannot receive responses"))
        (Result.◌>>◌
          (ensure (accepts i.target role_id)
            (invariant_violated "ceremony intervention does not target responding role"))
          (ensure (not (has_response i.responses role_id))
            (already_exists "ceremony_intervention.response_role")))

  -- `CeremonyInterventionResponse::from_evidence`
  unfoldable pub response_from_evidence :
      (CeremonyEvidencePack V → Option V)
      → String
      → CeremonyEvidencePack V
      → Time
      → Result (CeremonyInterventionResponse V)
  response_from_evidence to_value role_id pack responded_at =
      Result.◌>>=◌ (pack_content to_value pack) λ content. ok (record {
        role_id = role_id;
        content = content;
        evidence_pack = some pack;
        responded_at = responded_at;
      })

  unfoldable pub respond :
      String → CeremonyInterventionContent V → Time → Action (CeremonyIntervention V) ⊤
  unfolding ensure_can_respond
  respond role_id content now = do
    check (ensure_can_respond role_id)
    i ← get
    put (record i {
      responses =
          i.responses
          ++ record {
            role_id = role_id;
            content = content;
            evidence_pack = none;
            responded_at = now;
          }
            ∷ [];
      updated_at = now;
    })

  unfoldable pub respond_with_evidence :
      (CeremonyEvidencePack V → Option V)
      → String
      → CeremonyEvidencePack V
      → Time
      → Action (CeremonyIntervention V) ⊤
  unfolding ensure_can_respond response_from_evidence
  respond_with_evidence to_value role_id pack now = do
    check (ensure_can_respond role_id)
    response ← lift (response_from_evidence to_value role_id pack now)
    i ← get
    put (record i { responses = i.responses ++ response ∷ []; updated_at = now })

  unfoldable pub close : String → Time → Action (CeremonyIntervention V) ⊤
  close role_id now = do
    i ← get
    guard (is_open i.status) (invariant_violated "ceremony intervention is already closed")
    guard (role_id == i.requested_by)
        (invariant_violated "only the requesting role can close a ceremony intervention")
    put (record i { status = closed; updated_at = now; closed_at = some now })
