-- ===== src/Deliberation/Ranking.antt =====
-- The ranking of a completed deliberation: entities/deliberation.rs, `complete`.
use underpass_choreographer.Shared.{
  ℕ, suc, ◌≡◌, refl, ◌||◌, String, List, [], ◌∷◌, arith, length, elem, ◌==◌, inl, inr,
}
use underpass_choreographer.Shared.Map.{Map, contains_key, keys}
use underpass_choreographer.Shared.Result.{Result, ok, err, Result-cases}
use underpass_choreographer.Ceremony.Step.Lease.{Time}
use underpass_choreographer.Deliberation.Data.{
  Deliberation, Proposal, ValidationOutcome, RankedOutcome, ScoreOrder, complete, require_phase,
  materialize_ranked_tuples, ids, place, sorted, with_ranks,
}

elem-keys_iff : {A : Type 0} (k : String) (m : Map A) → elem k (keys m) ≡ contains_key k m
elem-keys_iff k [] = refl
elem-keys_iff k ((j, v) ∷ m) = ground (arith, elem-keys_iff k m)

length-keys : {A : Type 0} (m : Map A) → length (keys m) ≡ length m
length-keys [] = refl
length-keys ((j, v) ∷ m) = ground (arith, length-keys m)

module _ {V S : Type 0} where
  abbrev IdsAre : List String → Result (List (String × Proposal V × ValidationOutcome V S)) → Type 0
  IdsAre ks (ok ranked) = ids ranked ≡ ks
  IdsAre ks (err _) = Unit

  materialized-IdsAre :
      (ks : List String) (d : Deliberation V S) → IdsAre ks (materialize_ranked_tuples ks d)
  unfolding materialize_ranked_tuples
  materialized-IdsAre [] d = refl
  materialized-IdsAre (k ∷ ks) d = ground (arith, materialized-IdsAre ks d)

  materialized_ids :
      (ks : List String) (d : Deliberation V S)
      (ranked : List (String × Proposal V × ValidationOutcome V S))
      → materialize_ranked_tuples ks d ≡ ok ranked
      → ids ranked ≡ ks
  materialized_ids ks d ranked h = ground (arith, h, materialized-IdsAre ks d)

  module _ ⦃o : ScoreOrder S⦄ where
    place_lem :
        (x : String × Proposal V × ValidationOutcome V S)
        (ys : List (String × Proposal V × ValidationOutcome V S)) (k : String)
        → (elem k (ids (place x ys)) ≡ ((x.0 == k) || elem k (ids ys)))
          × (length (ids (place x ys)) ≡ suc (length (ids ys)))
    unfolding place
    place_lem (i, p, a) [] k = (refl, refl)
    place_lem (i, p, a) ((j, q, b) ∷ ys) k = ground (arith, place_lem (i, p, a) ys k)

    sorted_lem :
        (xs : List (String × Proposal V × ValidationOutcome V S)) (k : String)
        → (elem k (ids (sorted xs)) ≡ elem k (ids xs))
          × (length (ids (sorted xs)) ≡ length (ids xs))
    unfolding sorted
    sorted_lem [] k = (refl, refl)
    sorted_lem ((i, p, a) ∷ xs) k =
        ground (arith, place_lem (i, p, a) (sorted xs) k, sorted_lem xs k)

    pub completed_ranking :
        (now : Time) (d e : Deliberation V S) (outcomes : List (RankedOutcome V S))
        → complete now d ≡ ok (e, outcomes)
        → (ranked : List (String × Proposal V × ValidationOutcome V S)) × (materialize_ranked_tuples
              (keys d.proposals)
              d
            ≡ ok ranked)
          × (e.ranking ≡ ids (sorted ranked))
          × (outcomes ≡ with_ranks 0 (sorted ranked))
    unfolding complete require_phase
    completed_ranking now d e outcomes h =
        elim (Result-cases (materialize_ranked_tuples (keys d.proposals) d)) [
          | inl (x, f) ↦ ground (arith, h, f)
          | inr (ranked, f) ↦ (ranked, f, ground (arith, h, f), ground (arith, h, f))
        ]

    length-with_ranks :
        (i : ℕ) (xs : List (String × Proposal V × ValidationOutcome V S))
        → length (with_ranks i xs) ≡ length (ids xs)
    length-with_ranks i [] = refl
    length-with_ranks i ((j, p, a) ∷ xs) = ground (arith, length-with_ranks (suc i) xs)

    -- Completing a deliberation ranks its proposals, all of them and no other id, and as many as there
    -- are; it returns as many outcomes.
    pub ranking_covers :
        (now : Time) (d e : Deliberation V S) (outcomes : List (RankedOutcome V S))
        → complete now d ≡ ok (e, outcomes)
        → ((k : String) → elem k e.ranking ≡ contains_key k d.proposals)
          × (length e.ranking ≡ length d.proposals)
          × (length outcomes ≡ length d.proposals)
    ranking_covers now d e outcomes h =
        let (ranked, f, r, o') = completed_ranking now d e outcomes h in
        let same = materialized_ids (keys d.proposals) d ranked f in
        (
          λ k. ground (arith, r, same, sorted_lem ranked k, elem-keys_iff k d.proposals),
          ground (arith, r, same, sorted_lem ranked "", length-keys d.proposals),
          ground (
            arith,
            o',
            same,
            length-with_ranks 0 (sorted ranked),
            sorted_lem ranked "",
            length-keys d.proposals,
          ),
        )
