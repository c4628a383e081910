-- ===== src/Deliberation/Data.antt =====
-- entities/deliberation.rs, entities/proposal.rs and entities/validation.rs. A score is a value of a
-- type with an order, for which value_objects/score.rs takes f64.
use Prim.Native.Nat.{Ordering}
use Prim.Native.String.{compare}
use underpass_choreographer.Shared.{
  ℕ, suc, Bool, true, false, not, String, Option, none, some, List, [], ◌∷◌, length, is_empty,
  nat_eq, is_blank, if◌then◌else◌, u32_max, saturating_add, ⊤, min,
}
use underpass_choreographer.Shared.Map.{Map, lookup, contains_key, insert, keys}
use underpass_choreographer.Shared.Result.{
  Result, ok, invariant_violated, not_found, already_exists, invalid_transition, empty_field,
  ensure, ok_or, ◌>>=◌, ◌>>◌,
}
use underpass_choreographer.Ceremony.Attributes.{Attributes}
use underpass_choreographer.Ceremony.Step.Lease.{Time}

pub data DeliberationPhase : Type 0 where
  proposing revising validating scoring completed : DeliberationPhase

abbrev pub phase_name : DeliberationPhase → String
phase_name proposing = "Proposing"
phase_name revising = "Revising"
phase_name validating = "Validating"
phase_name scoring = "Scoring"
phase_name completed = "Completed"

abbrev pub phase_next : DeliberationPhase → Option DeliberationPhase
phase_next proposing = some revising
phase_next revising = some validating
phase_next validating = some scoring
phase_next scoring = some completed
phase_next completed = none

-- The derived equality.
abbrev pub phase_eq : DeliberationPhase → DeliberationPhase → Bool
phase_eq proposing proposing = true
phase_eq revising revising = true
phase_eq validating validating = true
phase_eq scoring scoring = true
phase_eq completed completed = true
phase_eq _ _ = false

-- `Ord` of `Score`.
pub record ScoreOrder (S : Type 0) : Type 0 where
  pub cmp : S → S → Ordering

pub record Proposal (V : Type 0) : Type 0 where
  pub id : String
  pub author : String
  pub specialty : String
  pub content : String
  pub attributes : Attributes V
  pub created_at : Time
  pub updated_at : Time
  pub revision_count : ℕ

pub record ValidatorReport (V : Type 0) : Type 0 where
  pub kind : String
  pub passed : Bool
  pub summary : String
  pub details : Attributes V

pub record ValidationOutcome (V S : Type 0) : Type 0 where
  pub score : S
  pub reports : List (ValidatorReport V)

pub record RankedOutcome (V S : Type 0) : Type 0 where
  pub proposal : Proposal V
  pub outcome : ValidationOutcome V S
  pub rank : ℕ

pub record Deliberation (V S : Type 0) : Type 0 where
  pub task_id : String
  pub specialty : String
  pub rounds_budget : ℕ
  pub phase : DeliberationPhase
  pub proposals : Map (Proposal V)
  pub outcomes : Map (ValidationOutcome V S)
  pub ranking : List String
  pub started_at : Time
  pub completed_at : Option Time

module _ {V : Type 0} where
  -- `Proposal::new`
  unfoldable pub proposal_new :
      String → String → String → String → Attributes V → Time → Result (Proposal V)
  proposal_new id author specialty content attributes now = do
    ensure (not (is_blank content)) (empty_field "proposal.content")
    ok (record {
      id = id;
      author = author;
      specialty = specialty;
      content = content;
      attributes = attributes;
      created_at = now;
      updated_at = now;
      revision_count = 0;
    })

  -- `Proposal::revise`
  unfoldable pub revise : String → Time → Proposal V → Result (Proposal V)
  revise content now p = do
    ensure (not (is_blank content)) (empty_field "proposal.content")
    ok (record p {
      content = content;
      updated_at = now;
      revision_count = saturating_add u32_max p.revision_count 1;
    })

module _ {V S : Type 0} where
  -- `Deliberation::start`
  unfoldable pub start : String → String → ℕ → Time → Deliberation V S
  start task_id specialty rounds_budget now = record {
    task_id = task_id;
    specialty = specialty;
    rounds_budget = rounds_budget;
    phase = proposing;
    proposals = [];
    outcomes = [];
    ranking = [];
    started_at = now;
    completed_at = none;
  }

  unfoldable pub require_phase : DeliberationPhase → Deliberation V S → Result ⊤
  require_phase expected d =
      ensure (phase_eq d.phase expected)
        (invalid_transition (phase_name d.phase) (phase_name expected))

  unfoldable pub add_proposal : Proposal V → Deliberation V S → Result (Deliberation V S)
  unfolding require_phase
  add_proposal p d = do
    require_phase proposing d
    ensure (not (contains_key p.id d.proposals)) (already_exists "deliberation.proposal")
    ok (record d { proposals = insert p.id p d.proposals })

  unfoldable pub revise_proposal :
      String → String → Time → Deliberation V S → Result (Deliberation V S)
  unfolding require_phase
  revise_proposal proposal_id content now d = do
    require_phase revising d
    p ← ok_or (lookup proposal_id d.proposals) (not_found "deliberation.proposal")
    p' ← revise content now p
    ok (record d { proposals = insert proposal_id p' d.proposals })

  unfoldable pub attach_outcome :
      String → ValidationOutcome V S → Deliberation V S → Result (Deliberation V S)
  unfolding require_phase
  attach_outcome proposal_id outcome d = do
    require_phase validating d
    ensure (contains_key proposal_id d.proposals) (not_found "deliberation.proposal")
    ensure (not (contains_key proposal_id d.outcomes)) (already_exists "deliberation.outcome")
    ok (record d { outcomes = insert proposal_id outcome d.outcomes })

  -- The match of `advance` on the phase that is left.
  abbrev pub may_leave : DeliberationPhase → Deliberation V S → Result ⊤
  may_leave proposing d =
      ensure (not (is_empty d.proposals))
        (invariant_violated "cannot leave Proposing without proposals")
  may_leave validating d =
      ensure (nat_eq (length d.outcomes) (length d.proposals))
        (invariant_violated "every proposal must have an outcome before Scoring")
  may_leave _ d = ok tt

  unfoldable pub advance : Deliberation V S → Result (Deliberation V S)
  advance d = do
    next ← ok_or (phase_next d.phase) (invalid_transition "Completed" "Completed")
    may_leave d.phase d
    ok (record d { phase = next })

  -- `materialize_ranked_tuples`: the first id that is missing ends it.
  unfoldable pub materialize_ranked_tuples :
      List String → Deliberation V S → Result (List (String × Proposal V × ValidationOutcome V S))
  materialize_ranked_tuples [] d = ok []
  materialize_ranked_tuples (id ∷ ids) d =
      let rest = materialize_ranked_tuples ids d in
      do
        p ← ok_or (lookup id d.proposals) (invariant_violated "missing proposal in ranking")
        o ← ok_or (lookup id d.outcomes) (invariant_violated "missing outcome at Scoring")
        ranked ← rest
        ok ((id, p, o) ∷ ranked)

  -- `enumerate` from a position on; `u32::try_from(i).unwrap_or(u32::MAX)`.
  abbrev pub with_ranks :
      ℕ → List (String × Proposal V × ValidationOutcome V S) → List (RankedOutcome V S)
  with_ranks i [] = []
  with_ranks i ((_, p, o) ∷ ranked) =
      record { proposal = p; outcome = o; rank = min i u32_max } ∷ with_ranks (suc i) ranked

  abbrev pub ids : List (String × Proposal V × ValidationOutcome V S) → List String
  ids [] = []
  ids ((id, _, _) ∷ ranked) = id ∷ ids ranked

  -- The comparison of `complete`: by falling score, then by id.
  abbrev pub comes_after :
      ⦃o : ScoreOrder S⦄
      → String × Proposal V × ValidationOutcome V S
      → String × Proposal V × ValidationOutcome V S
      → Bool
  comes_after ⦃o⦄ (i, _, a) (j, _, b) = elim (o.cmp b.score a.score) [
    | Ordering.lt ↦ false
    | Ordering.gt ↦ true
    | Ordering.eq ↦ elim (compare i j) [ Ordering.gt ↦ true | _ ↦ false ]
  ]

  -- `sort_by`, which is stable.
  unfoldable pub place :
      ⦃o : ScoreOrder S⦄
      → String × Proposal V × ValidationOutcome V S
      → List (String × Proposal V × ValidationOutcome V S)
      → List (String × Proposal V × ValidationOutcome V S)
  place x [] = x ∷ []
  place x (y ∷ ys) = let rest = place x ys in if comes_after x y then y ∷ rest else x ∷ y ∷ ys

  unfoldable pub sorted :
      ⦃o : ScoreOrder S⦄
      → List (String × Proposal V × ValidationOutcome V S)
      → List (String × Proposal V × ValidationOutcome V S)
  unfolding place
  sorted [] = []
  sorted (x ∷ xs) = place x (sorted xs)

  unfoldable pub complete :
      ⦃o : ScoreOrder S⦄
      → Time
      → Deliberation V S
      → Result (Deliberation V S × List (RankedOutcome V S))
  unfolding require_phase materialize_ranked_tuples sorted
  complete now d = do
    require_phase scoring d
    tuples ← materialize_ranked_tuples (keys d.proposals) d
    let ranked = sorted tuples
    ok (
      record d { ranking = ids ranked; phase = completed; completed_at = some now },
      with_ranks 0 ranked,
    )
