-- ===== src/Deliberation/Selection.antt =====
-- What follows the ranking of a deliberation: `reprioritize`, `ranked_outcomes` and `duration` of
-- entities/deliberation.rs, and crates/choreo-app/src/usecases/winner_selection.rs.
use underpass_choreographer.Shared.{
  ◌-◌, ◌/◌, Bool, not, ◌&&◌, String, Option, none, some, List, [], ◌∷◌, ◌++◌, map, all, elem, find,
  keep, length, nat_eq, leb, u64_max, if◌then◌else◌,
}
use underpass_choreographer.Shared.Result.{
  Result, ok, invariant_violated, no_valid_proposal, empty_collection, ensure, ok_or, ◌>>=◌, ◌>>◌,
}
use underpass_choreographer.Ceremony.Step.Lease.{DurationMs, nanos_per_milli}
use underpass_choreographer.Deliberation.Data.{
  Deliberation, DeliberationPhase, ValidationOutcome, RankedOutcome, require_phase,
  materialize_ranked_tuples, with_ranks,
}

-- Equality of two `BTreeSet`s that are collected from lists: the same members.
abbrev pub same_members : List String → List String → Bool
same_members xs ys = all (λ x. elem x ys) xs && all (λ y. elem y xs) ys

module _ {V S : Type 0} where
  unfoldable pub reprioritize :
      List String → Deliberation V S → Result (Deliberation V S × List (RankedOutcome V S))
  unfolding require_phase materialize_ranked_tuples
  reprioritize ranking d = do
    require_phase DeliberationPhase.completed d
    ensure (nat_eq (length ranking) (length d.ranking) && same_members d.ranking ranking) (
        invariant_violated
          "reprioritized ranking must contain every completed proposal exactly once")
    ranked ← materialize_ranked_tuples ranking d
    ok (record d { ranking = ranking }, with_ranks 0 ranked)

  unfoldable pub ranked_outcomes : Deliberation V S → Result (List (RankedOutcome V S))
  unfolding require_phase materialize_ranked_tuples
  ranked_outcomes d = do
    require_phase DeliberationPhase.completed d
    ranked ← materialize_ranked_tuples d.ranking d
    ok (with_ranks 0 ranked)

  -- `duration`: whole milliseconds, 0 when they are negative or do not fit in a u64.
  unfoldable pub duration : Deliberation V S → Option DurationMs
  duration d = elim d.completed_at [
    | none ↦ none
    | some end ↦
        let millis = (end - d.started_at) / nanos_per_milli in
        some (if leb millis u64_max then millis else 0)
  ]

  -- `ValidationOutcome::all_passed`
  abbrev pub all_passed : ValidationOutcome V S → Bool
  all_passed o = all (λ r. r.passed) o.reports

  abbrev pub is_valid : RankedOutcome V S → Bool
  is_valid r = all_passed r.outcome

  -- The order in which `prioritize_valid_outputs` puts the candidates.
  abbrev pub valid_first : List (RankedOutcome V S) → List String
  valid_first ranked =
      map (λ r. r.proposal.id) (keep is_valid ranked ++ keep (λ r. not (is_valid r)) ranked)

  unfoldable pub prioritize_valid_outputs :
      List (RankedOutcome V S)
      → Deliberation V S
      → Result (Deliberation V S × List (RankedOutcome V S))
  unfolding reprioritize
  prioritize_valid_outputs ranked d = reprioritize (valid_first ranked) d

  -- `head?` of a list: `first`.
  abbrev pub first_outcome : List (RankedOutcome V S) → Option (RankedOutcome V S)
  first_outcome [] = none
  first_outcome (r ∷ rs) = some r

  -- `pick_winner`; the contract is given by its id.
  unfoldable pub pick_winner : Option String → List (RankedOutcome V S) → Result (RankedOutcome V S)
  pick_winner none ranked = ok_or (first_outcome ranked) (empty_collection "deliberation.ranked")
  pick_winner (some contract_id) ranked =
      ok_or (find is_valid ranked) (no_valid_proposal contract_id)
