-- ===== src/Tests/Deliberations.antt =====
-- A deliberation of two proposals, up to its scoring.
use Prim.Native.Nat.{compare}
use underpass_choreographer.Shared.{
  elem, length, any, ◌⊎◌, false, none, some, String, ℕ, ◌≡◌, refl, Bool, true, List, [], ◌∷◌,
}
use underpass_choreographer.Shared.Result.{ok, err, is_ok, no_valid_proposal}
use underpass_choreographer.Deliberation.Data.{
  Deliberation, RankedOutcome, materialize_ranked_tuples, sorted, place, completed, Proposal,
  ValidationOutcome, ScoreOrder, start, add_proposal, attach_outcome, advance, complete,
  require_phase, scoring,
}
use underpass_choreographer.Shared.Map.{contains_key}
use underpass_choreographer.Deliberation.Selection.{prioritize_valid_outputs, pick_winner, is_valid}
use underpass_choreographer.Deliberation.Winner.{selection_succeeds}
use underpass_choreographer.Deliberation.Ranking.{ranking_covers}
use underpass_choreographer.Deliberation.Phases.{Operation, operate, operate_all, scoring_completes}

instance abbrev points : ScoreOrder ℕ
points = record { cmp = compare }

abbrev idea : String → Proposal Bool
idea id = record {
  id = id;
  author = "a-1";
  specialty = "triage";
  content = "content";
  attributes = [];
  created_at = 1;
  updated_at = 1;
  revision_count = 0;
}

abbrev worth : ℕ → ValidationOutcome Bool ℕ
worth n = record { score = n; reports = [] }

abbrev course : List (Operation Bool ℕ)
course =
    Operation.propose (idea "p-1")
    ∷ Operation.propose (idea "p-2")
    ∷ Operation.proceed
    ∷ Operation.proceed
    ∷ Operation.judge "p-1" (worth 3)
    ∷ Operation.proceed
    ∷ Operation.judge "p-2" (worth 5)
    ∷ Operation.proceed
    ∷ []

course_scores : (operate_all course (start "t-1" "triage" 1 0)).phase ≡ scoring
unfolding operate_all operate add_proposal attach_outcome advance require_phase start
course_scores = refl

scoring_completes_example :
    is_ok (complete 9 (operate_all course (start "t-1" "triage" 1 0))) ≡ true
scoring_completes_example = scoring_completes "t-1" "triage" 1 0 9 course course_scores

-- The scores of the course, and its completion, by rank.
abbrev scored_course : Deliberation Bool ℕ
scored_course = record {
  task_id = "t-1";
  specialty = "triage";
  rounds_budget = 1;
  phase = scoring;
  proposals = ("p-1", idea "p-1") ∷ ("p-2", idea "p-2") ∷ [];
  outcomes = ("p-1", worth 3) ∷ ("p-2", worth 5) ∷ [];
  ranking = [];
  started_at = 0;
  completed_at = none;
}

abbrev ranked_course : Deliberation Bool ℕ
ranked_course = record scored_course {
  phase = completed;
  ranking = "p-2" ∷ "p-1" ∷ [];
  completed_at = some 9;
}

abbrev best : List (RankedOutcome Bool ℕ)
best =
    record { proposal = idea "p-2"; outcome = worth 5; rank = 0 }
    ∷ record { proposal = idea "p-1"; outcome = worth 3; rank = 1 }
    ∷ []

course_completes : complete 9 scored_course ≡ ok (ranked_course, best)
unfolding complete require_phase materialize_ranked_tuples sorted place
course_completes = refl

ranking_covers_example :
    ((k : String) → elem k ranked_course.ranking ≡ contains_key k scored_course.proposals)
    × (length ranked_course.ranking ≡ length scored_course.proposals)
    × (length best ≡ length scored_course.proposals)
ranking_covers_example = ranking_covers 9 scored_course ranked_course best course_completes

course_ends : complete 9 (operate_all course (start "t-1" "triage" 1 0)) ≡ ok (ranked_course, best)
unfolding operate_all operate add_proposal attach_outcome advance require_phase start complete
    materialize_ranked_tuples sorted place
course_ends = refl

selection_succeeds_example :
    (e' : Deliberation Bool ℕ) × (candidates : List (RankedOutcome Bool ℕ))
    × (prioritize_valid_outputs best ranked_course ≡ ok (e', candidates))
    × ((k : String) → elem k e'.ranking ≡ contains_key k ranked_course.proposals)
    × (length candidates ≡ length ranked_course.proposals)
    × (((w : RankedOutcome Bool ℕ) × (pick_winner (some "report") candidates ≡ ok w)
          × (is_valid w ≡ true))
        ⊎ ((pick_winner (some "report") candidates ≡ err (no_valid_proposal "report"))
            × (any is_valid candidates ≡ false)))
selection_succeeds_example =
    selection_succeeds "t-1" "triage" 1 0 9 course ranked_course best "report" course_ends
