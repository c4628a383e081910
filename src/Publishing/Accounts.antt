-- ===== src/Publishing/Accounts.antt =====
-- What a round of crates/choreo-app/src/usecases/publish_outbox_use_case.rs answers.
use underpass_choreographer.Shared.{
  ℕ, ◌+◌, ◌≡◌, refl, Bool, not, ◌&&◌, some, String, List, [], ◌∷◌, ◌++◌, arith, length, keep,
  Bool-cases, inl, inr,
}
use underpass_choreographer.Shared.Result.{ok, Result-cases}
use underpass_choreographer.Ceremony.Step.Lease.{Time}
use underpass_choreographer.Store.Data.{
  Store, OutboxMessage, ClaimedOutboxMessage, is_exhausted, quarantine_reason_new,
}
use underpass_choreographer.Store.Outbox.{claim, mark_failed, quarantine}
use underpass_choreographer.Publishing.Round.{
  PublishOutboxInput, PublishOutboxRound, publish_claimed, publish, execute, record_delivered,
  record_failed, record_quarantined, idle_round, exhausted_reason, claimed_count,
}

module _ {V : Type 0} (decimal : ℕ → String) (deliver : OutboxMessage V → Bool) where
  abbrev pub given_up : ℕ → ClaimedOutboxMessage V → Bool
  given_up m c = is_exhausted m c.attempt

  abbrev pub sent : ℕ → ClaimedOutboxMessage V → Bool
  sent m c = not (is_exhausted m c.attempt) && deliver c.message

  abbrev pub refused : ℕ → ClaimedOutboxMessage V → Bool
  refused m c = not (is_exhausted m c.attempt) && not (deliver c.message)

  loop_accounts :
      (m : ℕ) (cs : List (ClaimedOutboxMessage V)) (round r : PublishOutboxRound)
      (done ids : List String) (st st' : Store V)
      → publish_claimed decimal deliver m cs round done st ≡ (st', ok (r, ids))
      → (r.delivered_count ≡ round.delivered_count + length (keep (sent m) cs))
        × (r.failed_count ≡ round.failed_count + length (keep (refused m) cs))
        × (r.quarantined_count ≡ round.quarantined_count + length (keep (given_up m) cs))
  unfolding publish_claimed
  loop_accounts m [] round r done ids st st' h = ground (arith, h)
  loop_accounts m (c ∷ cs) round r done ids st st' h =
      elim (Bool-cases (is_exhausted m c.attempt)) [
        | inl e ↦
            elim (Result-cases
              (quarantine_reason_new (exhausted_reason decimal deliver c.attempt m))) [
                | inl (x, f) ↦ ground (arith, e, f, h)
                | inr (reason, f) ↦ ground (
                  arith,
                  e,
                  f,
                  h,
                  loop_accounts m cs (record_quarantined round) r done ids
                      (quarantine c.message.event_id reason st) st',
                )
              ]
        | inr e ↦ elim (Bool-cases (deliver c.message)) [
          | inl f ↦ ground (
            arith,
            e,
            f,
            h,
            loop_accounts m cs (record_delivered round) r (done ++ c.message.event_id ∷ []) ids st
                st',
          )
          | inr f ↦ ground (
            arith,
            e,
            f,
            h,
            loop_accounts m cs (record_failed round) r done ids (mark_failed c.message.event_id st)
                st',
          )
        ]
      ]

  each_counted :
      (m : ℕ) (cs : List (ClaimedOutboxMessage V))
      → length (keep (sent m) cs) + length (keep (refused m) cs) + length (keep (given_up m) cs)
        ≡ length cs
  each_counted m [] = refl
  each_counted m (c ∷ cs) = ground (arith, each_counted m cs)

  -- A round that ends well counts every message that it claimed once: as delivered when it was
  -- below the limit of attempts and the transport took it, as failed when it was below the limit
  -- and the transport refused it, and as quarantined when it was at the limit.
  pub round_accounts :
      (input : PublishOutboxInput) (last_time now : Time) (st st' held : Store V)
      (cs : List (ClaimedOutboxMessage V)) (r : PublishOutboxRound)
      → claim last_time input.batch_size now input.lease st ≡ some (held, cs)
      → execute decimal deliver input last_time now st ≡ some (st', ok r)
      → (r.delivered_count ≡ length (keep (sent input.max_attempts) cs))
        × (r.failed_count ≡ length (keep (refused input.max_attempts) cs))
        × (r.quarantined_count ≡ length (keep (given_up input.max_attempts) cs))
        × (claimed_count r ≡ length cs)
  unfolding execute publish
  round_accounts input last_time now st st' held cs r c h =
      let m = input.max_attempts in
      elim (Result-cases (publish_claimed decimal deliver m cs idle_round [] held).1) [
        | inl (x, e) ↦ ground (arith, c, e, h)
        | inr (answer, e) ↦
            let left = (publish_claimed decimal deliver m cs idle_round [] held).0 in
            let same : answer.0 ≡ r = ground (arith, c, e, h) in
            let ran : publish_claimed decimal deliver m cs idle_round [] held
                ≡ (left, ok (r, answer.1)) =
              ground (arith, e, same) in
            let (d, f, q) = loop_accounts m cs idle_round r [] answer.1 held left ran in
            (
              omega (arith, d),
              omega (arith, f),
              omega (arith, q),
              omega (arith, d, f, q, each_counted m cs),
            )
      ]
