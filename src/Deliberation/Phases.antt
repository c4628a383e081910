-- ===== src/Deliberation/Phases.antt =====
-- What a deliberation keeps to over all its operations: entities/deliberation.rs.
use underpass_choreographer.Shared.{
  ℕ, ◌≡◌, inl, inr, refl, sym, ap, subst, Bool, true, false, String, none, List, [], ◌∷◌, arith,
  length, eq_iff, eq_refl, Option-cases, nat_eq_iff, elem, saturating_add, u32_max,
}
use underpass_choreographer.Shared.Map.{lookup, contains_key, keys, lookup-insert}
use underpass_choreographer.Shared.Result.{Result, ok, err, is_ok}
use underpass_choreographer.Ceremony.Step.Lease.{Time}
use underpass_choreographer.Deliberation.Cover.{Distinct, insert-Distinct, covers, elem-keys}
use underpass_choreographer.Deliberation.Data.{
  Deliberation, DeliberationPhase, Proposal, ValidationOutcome, ScoreOrder, start, add_proposal,
  revise_proposal, attach_outcome, advance, complete, require_phase, materialize_ranked_tuples,
  revise, scoring, completed,
}

abbrev pub is_scored : DeliberationPhase → Bool
is_scored scoring = true
is_scored completed = true
is_scored _ = false

-- The operations of a deliberation, each of which keeps it as it is when it is refused.
pub data Operation (V S : Type 0) : Type 0 where
  propose : Proposal V → Operation V S
  rewrite_proposal : String → String → Time → Operation V S
  judge : String → ValidationOutcome V S → Operation V S
  proceed : Operation V S
  finish : Time → Operation V S

module _ {V S : Type 0} where
  abbrev pub or_same : Deliberation V S → Result (Deliberation V S) → Deliberation V S
  or_same d (ok d') = d'
  or_same d (err _) = d

  abbrev pub completed_or_same :
      {R : Type 0} → Deliberation V S → Result (Deliberation V S × R) → Deliberation V S
  completed_or_same d (ok (d', _)) = d'
  completed_or_same d (err _) = d

  unfoldable pub operate : ⦃o : ScoreOrder S⦄ → Operation V S → Deliberation V S → Deliberation V S
  operate (Operation.propose p) d = or_same d (add_proposal p d)
  operate (Operation.rewrite_proposal id content now) d =
      or_same d (revise_proposal id content now d)
  operate (Operation.judge id outcome) d = or_same d (attach_outcome id outcome d)
  operate Operation.proceed d = or_same d (advance d)
  operate (Operation.finish now) d = completed_or_same d (complete now d)

  unfoldable pub operate_all :
      ⦃o : ScoreOrder S⦄ → List (Operation V S) → Deliberation V S → Deliberation V S
  operate_all [] d = d
  operate_all (x ∷ xs) d = operate_all xs (operate x d)

  -- Outcomes are of proposals, one of each, and from scoring on every proposal has one.
  pub record IsJudged (d : Deliberation V S) : Type 0 where
    pub distinct : Distinct d.outcomes
    pub judged : (k : String) → contains_key k d.outcomes ≡ true → contains_key k d.proposals ≡ true
    pub scored :
        is_scored d.phase ≡ true
        → (k : String) → contains_key k d.proposals ≡ true
        → contains_key k d.outcomes ≡ true

  pub start-IsJudged :
      (task_id specialty : String) (rounds : ℕ) (now : Time)
      → IsJudged (start task_id specialty rounds now)
  unfolding start
  start-IsJudged task_id specialty rounds now = record {
    distinct = tt;
    judged = λ k h. ground (arith, h);
    scored = λ h k e. ground (arith, h);
  }

  propose-IsJudged :
      (p : Proposal V) (d : Deliberation V S) → IsJudged d → IsJudged (or_same d (add_proposal p d))
  unfolding add_proposal require_phase
  propose-IsJudged p d h = record {
    distinct = ground (arith, h.distinct);
    judged = λ k e. ground (arith, e, h.judged k, lookup-insert p.id k p d.proposals);
    scored = λ e k f. ground (arith, e, f, λ (q : is_scored d.phase ≡ true). h.scored q k);
  }

  unwritten :
      (id content : String) (now : Time) (d : Deliberation V S)
      → lookup id d.proposals ≡ none
      → or_same d (revise_proposal id content now d) ≡ d
  unfolding revise_proposal require_phase
  unwritten id content now d e = ground (arith, e)

  rewrite-IsJudged :
      (id content : String) (now : Time) (d : Deliberation V S)
      → IsJudged d
      → IsJudged (or_same d (revise_proposal id content now d))
  unfolding revise_proposal require_phase revise
  rewrite-IsJudged id content now d h = elim (Option-cases (lookup id d.proposals)) [
    | inl e ↦ subst IsJudged (sym (unwritten id content now d e)) h
    | inr (p, e) ↦ record {
      distinct = ground (arith, e, h.distinct);
      judged = λ k f. ground (
        arith,
        e,
        f,
        h.judged k,
        lookup-insert id k
            (record p {
              content = content;
              updated_at = now;
              revision_count = saturating_add u32_max p.revision_count 1;
            })
            d.proposals,
      );
      scored = λ q k f. ground (arith, e, q, f, λ (q : is_scored d.phase ≡ true). h.scored q k);
    }
  ]

  judge-IsJudged :
      (id : String) (x : ValidationOutcome V S) (d : Deliberation V S)
      → IsJudged d
      → IsJudged (or_same d (attach_outcome id x d))
  unfolding attach_outcome require_phase
  judge-IsJudged id x d h = record {
    distinct = ground (arith, h.distinct, insert-Distinct id x d.outcomes);
    judged = λ k e. ground (arith, e, h.judged k, lookup-insert id k x d.outcomes, eq_iff id k);
    scored = λ e k f. ground (arith, e, f, λ (q : is_scored d.phase ≡ true). h.scored q k);
  }

  proceed-IsJudged : (d : Deliberation V S) → IsJudged d → IsJudged (or_same d (advance d))
  unfolding advance
  proceed-IsJudged d h = record {
    distinct = ground (arith, h.distinct);
    judged = λ k e. ground (arith, e, h.judged k);
    scored = λ e k f. ground (
      arith,
      e,
      f,
      λ (q : is_scored d.phase ≡ true). h.scored q k,
      nat_eq_iff (length d.outcomes) (length d.proposals),
      λ (q : length d.outcomes ≡ length d.proposals).
          covers d.outcomes d.proposals h.distinct h.judged q k,
    );
  }

  pub finish-IsJudged :
      ⦃o : ScoreOrder S⦄
      → (now : Time) (d : Deliberation V S) → IsJudged d
      → IsJudged (completed_or_same d (complete now d))
  unfolding complete require_phase
  finish-IsJudged now d h = record {
    distinct = ground (arith, h.distinct);
    judged = λ k e. ground (arith, e, h.judged k);
    scored = λ e k f. ground (arith, e, f, λ (q : is_scored d.phase ≡ true). h.scored q k);
  }

  operate-IsJudged :
      ⦃o : ScoreOrder S⦄
      → (x : Operation V S) (d : Deliberation V S) → IsJudged d
      → IsJudged (operate x d)
  unfolding operate
  operate-IsJudged (Operation.propose p) d h = propose-IsJudged p d h
  operate-IsJudged (Operation.rewrite_proposal id content now) d h =
      rewrite-IsJudged id content now d h
  operate-IsJudged (Operation.judge id x) d h = judge-IsJudged id x d h
  operate-IsJudged Operation.proceed d h = proceed-IsJudged d h
  operate-IsJudged (Operation.finish now) d h = finish-IsJudged now d h

  pub operate_all-IsJudged :
      ⦃o : ScoreOrder S⦄
      → (xs : List (Operation V S)) (d : Deliberation V S) → IsJudged d
      → IsJudged (operate_all xs d)
  unfolding operate_all
  operate_all-IsJudged [] d h = h
  operate_all-IsJudged (x ∷ xs) d h = operate_all-IsJudged xs (operate x d) (operate-IsJudged x d h)

  pub materializes :
      (ks : List String) (d : Deliberation V S)
      → ((k : String) → elem k ks ≡ true → contains_key k d.proposals ≡ true)
      → ((k : String) → contains_key k d.proposals ≡ true → contains_key k d.outcomes ≡ true)
      → is_ok (materialize_ranked_tuples ks d) ≡ true
  unfolding materialize_ranked_tuples
  materializes [] d h s = refl
  materializes (k ∷ ks) d h s =
      ground (arith, h k, s k, eq_refl k, materializes ks d (λ j e. h j (ground (arith, e))) s)

  complete_lem :
      ⦃o : ScoreOrder S⦄
      → (now : Time) (d : Deliberation V S) → d.phase ≡ scoring
      → is_ok (materialize_ranked_tuples (keys d.proposals) d) ≡ true
      → is_ok (complete now d) ≡ true
  unfolding complete require_phase
  complete_lem now d e h = ground (arith, e, h)

  -- Whatever operations lead there, a deliberation that is in the scoring phase can be completed:
  -- none of its proposals misses an outcome.
  pub scoring_completes :
      ⦃o : ScoreOrder S⦄
      → (task_id specialty : String) (rounds : ℕ) (begun now : Time) (xs : List (Operation V S))
      → (operate_all xs (start task_id specialty rounds begun)).phase ≡ scoring
      → is_ok (complete now (operate_all xs (start task_id specialty rounds begun))) ≡ true
  scoring_completes task_id specialty rounds begun now xs e =
      let d = operate_all xs (start task_id specialty rounds begun) in
      let h = operate_all-IsJudged xs _ (start-IsJudged task_id specialty rounds begun) in
      complete_lem now d e (
        materializes (keys d.proposals) d (λ k f. elem-keys k d.proposals f)
          (h.scored (ap is_scored e)))
