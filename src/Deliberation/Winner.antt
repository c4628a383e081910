-- ===== src/Deliberation/Winner.antt =====
-- The winner of a completed deliberation: winner_selection.rs of crates/choreo-app/src/usecases with
-- `reprioritize` of entities/deliberation.rs.
use underpass_choreographer.Shared.{
  ℕ, suc, ◌≡◌, ◌⊎◌, refl, sym, ap, ◌∙◌, subst, true, false, String, some, List, [], ◌∷◌, map, arith,
  length, nat_eq_iff, elem, any, inl, inr, Bool-cases,
}
use underpass_choreographer.Shared.Map.{contains_key, keys}
use underpass_choreographer.Shared.Result.{ok, err, no_valid_proposal, Result-cases}
use underpass_choreographer.Ceremony.Step.Lease.{Time}
use underpass_choreographer.Deliberation.Data.{
  Deliberation, DeliberationPhase, Proposal, ValidationOutcome, RankedOutcome, ScoreOrder, start,
  complete, require_phase, materialize_ranked_tuples, sorted, with_ranks,
}
use underpass_choreographer.Deliberation.Phases.{
  Operation, operate_all, completed_or_same, IsJudged, start-IsJudged, operate_all-IsJudged,
  finish-IsJudged, materializes,
}
use underpass_choreographer.Deliberation.Ranking.{completed_ranking, ranking_covers}
use underpass_choreographer.Deliberation.Selection.{
  reprioritize, prioritize_valid_outputs, pick_winner, is_valid, valid_first, same_members,
}
use underpass_choreographer.Deliberation.Named.{
  HasIds, all_members, elem-ids, empty-HasIds, length-parted, materialized-Titled,
  operate_all-HasIds, sorted-Titled, id-with_ranks,
}

module _ {V S : Type 0} where
  completed_members :
      ⦃o : ScoreOrder S⦄
      → (now : Time) (d e : Deliberation V S) (outcomes : List (RankedOutcome V S)) → HasIds d
      → complete now d ≡ ok (e, outcomes)
      → map (λ r. r.proposal.id) outcomes ≡ e.ranking
  completed_members now d e outcomes h c =
      let (xs, f, r, q) = completed_ranking now d e outcomes c in
      let titled = sorted-Titled xs (materialized-Titled (keys d.proposals) d xs h f) in
      ap (λ rs. map (λ r. r.proposal.id) rs) q ∙ id-with_ranks 0 (sorted xs) titled ∙ sym r

  completed_lem :
      ⦃o : ScoreOrder S⦄
      → (now : Time) (d e : Deliberation V S) (outcomes : List (RankedOutcome V S))
      → complete now d ≡ ok (e, outcomes)
      → (e.phase ≡ DeliberationPhase.completed)
        × (e.proposals ≡ d.proposals)
        × (completed_or_same d (complete now d) ≡ e)
  unfolding complete require_phase
  completed_lem now d e outcomes c = ground (arith, c)

  materialized_count :
      (ks : List String) (d : Deliberation V S)
      (xs : List (String × Proposal V × ValidationOutcome V S)) (i : ℕ)
      → materialize_ranked_tuples ks d ≡ ok xs
      → length (with_ranks i xs) ≡ length ks
  unfolding materialize_ranked_tuples
  materialized_count [] d xs i e = ground (arith, e)
  materialized_count (k ∷ ks) d xs i e = elim (Result-cases (materialize_ranked_tuples ks d)) [
    | inl (x, f) ↦ ground (arith, e, f)
    | inr (ys, f) ↦ ground (arith, e, f, materialized_count ks d ys (suc i))
  ]

  picked :
      (c : String) (rs : List (RankedOutcome V S))
      → ((r : RankedOutcome V S) × (pick_winner (some c) rs ≡ ok r) × (is_valid r ≡ true))
        ⊎ ((pick_winner (some c) rs ≡ err (no_valid_proposal c)) × (any is_valid rs ≡ false))
  unfolding pick_winner
  picked c [] = inr (refl, refl)
  picked c (x ∷ rs) = elim (Bool-cases (is_valid x)) [
    | inl v ↦ inl (x, ground (arith, v), v)
    | inr v ↦ elim (picked c rs) [
      | inl (r, e, w) ↦ inl (r, ground (arith, e, v), w)
      | inr (e, f) ↦ inr (ground (arith, e, v), ground (arith, f, v))
    ]
  ]

  -- However a deliberation was led to its completion, its candidates can be put in the order of the
  -- winner selection: no proposal is lost or added, and under a contract the winner that is picked
  -- among them passed every validator, or no candidate did and none is picked.
  pub selection_succeeds :
      ⦃o : ScoreOrder S⦄
      → (task_id specialty : String) (rounds : ℕ) (begun now : Time) (xs : List (Operation V S))
      → (e : Deliberation V S) (outcomes : List (RankedOutcome V S)) (contract_id : String)
      → complete now (operate_all xs (start task_id specialty rounds begun)) ≡ ok (e, outcomes)
      → (e' : Deliberation V S) × (candidates : List (RankedOutcome V S))
        × (prioritize_valid_outputs outcomes e ≡ ok (e', candidates))
        × ((k : String) → elem k e'.ranking ≡ contains_key k e.proposals)
        × (length candidates ≡ length e.proposals)
        × (((w : RankedOutcome V S) × (pick_winner (some contract_id) candidates ≡ ok w)
              × (is_valid w ≡ true))
            ⊎ ((pick_winner (some contract_id) candidates ≡ err (no_valid_proposal contract_id))
                × (any is_valid candidates ≡ false)))
  unfolding prioritize_valid_outputs reprioritize require_phase start
  selection_succeeds task_id specialty rounds begun now xs e outcomes contract_id c =
      let first = start task_id specialty rounds begun in
      let d = operate_all xs first in
      let judged = operate_all-IsJudged xs first (start-IsJudged task_id specialty rounds begun) in
      let named = operate_all-HasIds xs first (empty-HasIds first refl) in
      let (ph, kept, same) = completed_lem now d e outcomes c in
      let all_judged : IsJudged e = subst IsJudged same (finish-IsJudged now d judged) in
      let m = completed_members now d e outcomes named c in
      let (cov, len, many) = ranking_covers now d e outcomes c in
      let order = valid_first outcomes in
      let member : (k : String) → elem k order ≡ elem k e.ranking =
        λ k. elem-ids (λ r. r.proposal.id) k is_valid outcomes ∙ ap (elem k) m in
      let size : length order ≡ length e.ranking =
        length-parted (λ r. r.proposal.id) is_valid outcomes ∙ ap length m in
      let known : (k : String) → elem k order ≡ contains_key k e.proposals =
        λ k. ground (arith, member k, cov k, kept) in
      let same_set : same_members e.ranking order ≡ true = ground (
        arith,
        all_members e.ranking order (λ k q. sym (sym q ∙ sym (member k))),
        all_members order e.ranking (λ k q. sym (sym q ∙ member k)),
      ) in
      let built =
        materializes order e (λ k q. sym (sym q ∙ known k))
          (all_judged.scored (ground (arith, ph))) in
      elim (Result-cases (materialize_ranked_tuples order e)) [
        | inl (x, f) ↦ ground (arith, f, built)
        | inr (ts, f) ↦ (
          record e { ranking = order },
          with_ranks 0 ts,
          ground (arith, ph, size, same_set, f, nat_eq_iff (length order) (length e.ranking)),
          known,
          materialized_count order e ts 0 f ∙ size ∙ len ∙ ap length (sym kept),
          picked contract_id (with_ranks 0 ts),
        )
      ]
