-- ===== src/Deliberation/Named.antt =====
-- Proposals under their own ids: `add_proposal` and `complete` of entities/deliberation.rs.
use underpass_choreographer.Shared.{
  ℕ, suc, ◌≡◌, refl, Bool, true, not, ◌||◌, String, some, List, [], ◌∷◌, ◌++◌, map, arith, length,
  eq_iff, eq_refl, Option-cases, elem, all, any, find, keep, All, inl, inr, saturating_add, u32_max,
}
use underpass_choreographer.Shared.Map.{lookup, lookup-insert}
use underpass_choreographer.Shared.Result.{ok, is_ok, ok_or, no_valid_proposal, Result-cases}
use underpass_choreographer.Deliberation.Data.{
  Deliberation, Proposal, ValidationOutcome, ScoreOrder, add_proposal, revise_proposal,
  attach_outcome, advance, complete, require_phase, materialize_ranked_tuples, revise, ids, place,
  sorted, with_ranks,
}
use underpass_choreographer.Deliberation.Phases.{Operation, operate, operate_all}

elem-append : (k : String) (xs ys : List String) → elem k (xs ++ ys) ≡ (elem k xs || elem k ys)
elem-append k [] ys = refl
elem-append k (x ∷ xs) ys = ground (arith, elem-append k xs ys)

pub elem-ids :
    {A : Type 0} (key : A → String) (k : String) (t : A → Bool) (xs : List A)
    → elem k (map key (keep t xs ++ keep (λ x. not (t x)) xs)) ≡ elem k (map key xs)
elem-ids key k t [] = refl
elem-ids {A} key k t (x ∷ xs) = ground (
  arith,
  elem-ids key k t xs,
  elem-map-append (keep t xs) (x ∷ keep (λ x. not (t x)) xs),
  elem-map-append (keep t xs) (keep (λ x. not (t x)) xs),
)
  where
    elem-map-append :
        (ys zs : List A)
        → elem k (map key (ys ++ zs)) ≡ (elem k (map key ys) || elem k (map key zs))
    elem-map-append [] zs = refl
    elem-map-append (y ∷ ys) zs = ground (arith, elem-map-append ys zs)

pub length-parted :
    {A : Type 0} (key : A → String) (t : A → Bool) (xs : List A)
    → length (map key (keep t xs ++ keep (λ x. not (t x)) xs)) ≡ length (map key xs)
length-parted key t [] = refl
length-parted {A} key t (x ∷ xs) =
    ground (arith, length-parted key t xs, length-skip (keep t xs) (keep (λ x. not (t x)) xs))
  where
    length-skip :
        (ys zs : List A) → length (map key (ys ++ x ∷ zs)) ≡ suc (length (map key (ys ++ zs)))
    length-skip [] zs = refl
    length-skip (y ∷ ys) zs = ground (arith, length-skip ys zs)

pub all_members :
    (xs ys : List String)
    → ((k : String) → elem k xs ≡ true → elem k ys ≡ true)
    → all (λ x. elem x ys) xs ≡ true
all_members [] ys h = refl
all_members (x ∷ xs) ys h =
    ground (arith, h x, eq_refl x, all_members xs ys (λ k e. h k (ground (arith, e))))

find_parted :
    {A : Type 0} (t : A → Bool) (xs : List A)
    → is_ok (ok_or (find t xs) (no_valid_proposal "")) ≡ any t xs
find_parted t [] = refl
find_parted t (x ∷ xs) = ground (arith, find_parted t xs)

module _ {V S : Type 0} where
  -- Each proposal stands under its own id.
  unfoldable pub HasIds : Deliberation V S → Type 0
  HasIds d = (k : String) (p : Proposal V) → lookup k d.proposals ≡ some p → p.id ≡ k

  operate-HasIds :
      ⦃o : ScoreOrder S⦄
      → (x : Operation V S) (d : Deliberation V S) → HasIds d
      → HasIds (operate x d)
  unfolding operate HasIds add_proposal revise_proposal attach_outcome advance complete revise
      require_phase
  operate-HasIds (Operation.propose q) d h k p e =
      ground (arith, e, h k p, lookup-insert q.id k q d.proposals, eq_iff q.id k)
  operate-HasIds (Operation.rewrite_proposal id content now) d h k p e =
      elim (Option-cases (lookup id d.proposals)) [
        | inl f ↦ ground (arith, e, f, h k p)
        | inr (q, f) ↦
            let q' = record q {
              content = content;
              updated_at = now;
              revision_count = saturating_add u32_max q.revision_count 1;
            } in
            ground (arith, e, f, h k p, h id q f, lookup-insert id k q' d.proposals, eq_iff id k)
      ]
  operate-HasIds (Operation.judge id outcome) d h k p e = ground (arith, e, h k p)
  operate-HasIds Operation.proceed d h k p e = ground (arith, e, h k p)
  operate-HasIds (Operation.finish now) d h k p e = ground (arith, e, h k p)

  pub operate_all-HasIds :
      ⦃o : ScoreOrder S⦄
      → (xs : List (Operation V S)) (d : Deliberation V S) → HasIds d
      → HasIds (operate_all xs d)
  unfolding operate_all
  operate_all-HasIds [] d h = h
  operate_all-HasIds (x ∷ xs) d h = operate_all-HasIds xs (operate x d) (operate-HasIds x d h)

  pub empty-HasIds : (d : Deliberation V S) → d.proposals ≡ [] → HasIds d
  unfolding HasIds
  empty-HasIds d e k p f = ground (arith, e, f)

  unfoldable pub Titled : List (String × Proposal V × ValidationOutcome V S) → Type 0
  Titled xs = All (λ t. t.1.id ≡ t.0) xs

  pub materialized-Titled :
      (ks : List String) (d : Deliberation V S)
      (xs : List (String × Proposal V × ValidationOutcome V S))
      → HasIds d
      → materialize_ranked_tuples ks d ≡ ok xs
      → Titled xs
  unfolding materialize_ranked_tuples Titled HasIds
  materialized-Titled [] d xs h e = ground (arith, e)
  materialized-Titled (k ∷ ks) d xs h e = elim (Result-cases (materialize_ranked_tuples ks d)) [
    | inl (x, f) ↦ ground (arith, e, f)
    | inr (ys, f) ↦ elim (Option-cases (lookup k d.proposals)) [
      | inl g ↦ ground (arith, e, f, g)
      | inr (p, g) ↦ ground (arith, e, f, g, h k p g, materialized-Titled ks d ys h f)
    ]
  ]

  place-Titled :
      ⦃o : ScoreOrder S⦄
      → (x : String × Proposal V × ValidationOutcome V S)
        (ys : List (String × Proposal V × ValidationOutcome V S))
      → x.1.id ≡ x.0
      → Titled ys
      → Titled (place x ys)
  unfolding place Titled
  place-Titled x [] e h = (e, tt)
  place-Titled x (y ∷ ys) e h = ground (arith, e, h, place-Titled x ys)

  pub sorted-Titled :
      ⦃o : ScoreOrder S⦄
      → (xs : List (String × Proposal V × ValidationOutcome V S)) → Titled xs
      → Titled (sorted xs)
  unfolding sorted Titled
  sorted-Titled [] h = tt
  sorted-Titled (x ∷ xs) h = place-Titled x (sorted xs) h.0 (sorted-Titled xs h.1)

  pub id-with_ranks :
      (i : ℕ) (xs : List (String × Proposal V × ValidationOutcome V S))
      → Titled xs
      → map (λ r. r.proposal.id) (with_ranks i xs) ≡ ids xs
  unfolding Titled
  id-with_ranks i [] h = refl
  id-with_ranks i (x ∷ xs) h = ground (arith, h, id-with_ranks (suc i) xs)
