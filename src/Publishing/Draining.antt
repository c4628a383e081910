-- ===== src/Publishing/Draining.antt =====
-- Rounds of crates/choreo-app/src/usecases/publish_outbox_use_case.rs empty the outbox.
use underpass_choreographer.Shared.{
  ℕ, suc, ◌+◌, ◌-◌, ◌*◌, ◌≤◌, ◌≡◌, refl, subst, Bool, true, Option, none, some, String, List, [],
  ◌∷◌, ◌++◌, arith, All, length, leb,
}
use mathlib.Core.List.{append-nil, append_assoc}
use underpass_choreographer.Shared.Result.{ok, err}
use underpass_choreographer.Ceremony.Step.Lease.{Time, nanos_per_milli}
use underpass_choreographer.Store.Data.{Store, OutboxMessage, ClaimedOutboxMessage}
use underpass_choreographer.Store.Outbox.{claim, claim_loop, lease_end, mark_delivered, outbox_of}
use underpass_choreographer.Publishing.Round.{
  PublishOutboxInput, PublishOutboxRound, publish_claimed, publish, execute, record_delivered,
  idle_round,
}
use underpass_choreographer.Publishing.Backlog.{
  Bounded, Bounded-outbox, Fresh, Ready, StoreReady, backlog, claims-Fresh, event_ids,
  event_ids-Named, mark_nothing, taken_store,
}

module _ {V : Type 0} (decimal : ℕ → String) (deliver : OutboxMessage V → Bool) where
  publish_claimed_lem :
      (m : ℕ) (cs : List (ClaimedOutboxMessage V)) (round : PublishOutboxRound) (done : List String)
      (st : Store V)
      → ((c : OutboxMessage V) → deliver c ≡ true)
      → Fresh m cs
      → (r : PublishOutboxRound) × (publish_claimed decimal deliver m cs round done st
          ≡ (st, ok (r, done ++ event_ids cs)))
  unfolding publish_claimed event_ids Fresh
  publish_claimed_lem m [] round done st d h = (round, ground (arith, append-nil done))
  publish_claimed_lem m (c ∷ cs) round done st d h =
      let id = c.message.event_id in
      let (r, e) = publish_claimed_lem m cs (record_delivered round) (done ++ id ∷ []) st d h.1 in
      (r, ground (arith, h.0, d c.message, e, append_assoc done (id ∷ []) (event_ids cs)))

  round_delivers :
      (input : PublishOutboxInput) (last_time t now : Time) (b : ℕ) (st : Store V)
      → ((c : OutboxMessage V) → deliver c ≡ true)
      → t ≤ now
      → now + input.lease * nanos_per_milli ≤ last_time
      → length st ≤ input.batch_size
      → StoreReady input.max_attempts t st
      → Bounded b st
      → (st' : Store V) × (r : PublishOutboxRound) × (execute decimal deliver input last_time now st
          ≡ some (st', ok r))
        × StoreReady input.max_attempts t st'
        × Bounded (b - 1) st'
        × (length st' ≡ length st)
  unfolding execute publish claim lease_end
  round_delivers input last_time t now b st d l w f h k =
      let until = now + input.lease * nanos_per_milli in
      let (held, cs) = claim_loop input.batch_size now until 0 st in
      let m = input.max_attempts in
      let fits : 0 + length st ≤ input.batch_size = omega (arith, f) in
      let (r, e) =
        publish_claimed_lem m cs idle_round [] held d
          (claims-Fresh m t now until input.batch_size 0 st l fits h) in
      let kept =
        taken_store m t now until input.batch_size 0 b (event_ids cs) st l fits h k
          (event_ids-Named cs) in
      let room : leb until last_time ≡ true = ground (arith, w) in
      (
        mark_delivered (event_ids cs) held,
        r,
        ground (arith, room, e, mark_nothing held),
        kept.0,
        kept.1,
        kept.2,
      )

  -- Rounds at the given moments, each with its claim, its deliveries and its marks; `none` when one
  -- of them panics or ends in an error.
  unfoldable pub rounds : PublishOutboxInput → Time → List Time → Store V → Option (Store V)
  unfolding execute
  rounds input last_time [] st = some st
  rounds input last_time (now ∷ ts) st = elim (execute decimal deliver input last_time now st) [
    | none ↦ none
    | some (st', err e) ↦ none
    | some (st', ok r) ↦ rounds input last_time ts st'
  ]

  rounds_deliver :
      (input : PublishOutboxInput) (last_time t : Time) (ts : List Time) (st : Store V)
      → ((c : OutboxMessage V) → deliver c ≡ true)
      → All (λ now. (t ≤ now) × (now + input.lease * nanos_per_milli ≤ last_time)) ts
      → length st ≤ input.batch_size
      → StoreReady input.max_attempts t st
      → Bounded (length ts) st
      → (st' : Store V) × (rounds input last_time ts st ≡ some st') × Bounded 0 st'
  unfolding rounds
  rounds_deliver input last_time t [] st d l f h k = (st, refl, k)
  rounds_deliver input last_time t (now ∷ ts) st d l f h k =
      let (st', r, e, h', k', n) =
        round_delivers input last_time t now (suc (length ts)) st d l.0.0 l.0.1 f h k in
      let (end, e', k'') =
        rounds_deliver input last_time t ts st' d l.1 (omega (arith, n, f)) h'
          (subst (λ c. Bounded c st') (omega arith) k') in
      (end, ground (arith, e, e'), k'')

  -- Publishing drains the outbox. Suppose that the transport takes every message, that a round may
  -- claim as many messages as there are ceremonies, and that every message still to be delivered is
  -- free to be claimed and below the limit of attempts. Then as many rounds as the longest backlog
  -- has messages, at any later moments whose leases are representable, each end well, and leave
  -- no ceremony a message to deliver.
  pub publishing_drains :
      (input : PublishOutboxInput) (last_time t : Time) (ts : List Time) (st : Store V)
      → ((c : OutboxMessage V) → deliver c ≡ true)
      → All (λ now. (t ≤ now) × (now + input.lease * nanos_per_milli ≤ last_time)) ts
      → length st ≤ input.batch_size
      → All (λ e. All (Ready input.max_attempts t) e.1.outbox) st
      → All (λ e. backlog e.1.outbox ≤ length ts) st
      → (st' : Store V) × (rounds input last_time ts st ≡ some st')
        × ((id : String) → outbox_of id st' ≡ [])
  unfolding StoreReady Bounded
  publishing_drains input last_time t ts st d l f h k =
      let (st', e, done) = rounds_deliver input last_time t ts st d l f h k in
      (st', e, λ id. Bounded-outbox id st' done)
