-- ===== src/Publishing/Round.antt =====
-- One round of crates/choreo-app/src/usecases/publish_outbox_use_case.rs over the in-memory store.
use underpass_choreographer.Shared.{
  ℕ, suc, ◌+◌, Bool, true, false, not, Option, none, some, String, List, [], ◌∷◌, ◌++◌, nat_eq,
  is_empty, format_text, if◌then◌else◌,
}
use underpass_choreographer.Shared.Result.{Result, ok, err, must_be_non_zero, ensure, ◌>>◌}
use underpass_choreographer.Ceremony.Step.Lease.{Time, DurationMs}
use underpass_choreographer.Store.Data.{
  Store, OutboxMessage, ClaimedOutboxMessage, is_exhausted, quarantine_reason_new,
}
use underpass_choreographer.Store.Outbox.{claim, mark_delivered, mark_failed, quarantine}

pub record PublishOutboxInput : Type 0 where
  pub batch_size : ℕ
  pub max_attempts : ℕ
  pub lease : DurationMs

-- `PublishOutboxInput::new`
unfoldable pub publish_input_new : ℕ → ℕ → DurationMs → Result PublishOutboxInput
publish_input_new batch_size max_attempts lease = do
  ensure (not (nat_eq batch_size 0)) (must_be_non_zero "publish_outbox.batch_size")
  ensure (not (nat_eq max_attempts 0)) (must_be_non_zero "publish_outbox.max_attempts")
  ensure (not (nat_eq lease 0)) (must_be_non_zero "publish_outbox.lease")
  ok (record { batch_size = batch_size; max_attempts = max_attempts; lease = lease })

pub record PublishOutboxRound : Type 0 where
  pub delivered_count : ℕ
  pub failed_count : ℕ
  pub quarantined_count : ℕ

abbrev pub idle_round : PublishOutboxRound
idle_round = record { delivered_count = 0; failed_count = 0; quarantined_count = 0 }

-- `claimed` and `is_idle` of the round.
abbrev pub claimed_count : PublishOutboxRound → ℕ
claimed_count r = r.delivered_count + r.failed_count + r.quarantined_count

abbrev pub is_idle : PublishOutboxRound → Bool
is_idle r = nat_eq (claimed_count r) 0

abbrev pub record_delivered : PublishOutboxRound → PublishOutboxRound
record_delivered r = record r { delivered_count = suc r.delivered_count }

abbrev pub record_failed : PublishOutboxRound → PublishOutboxRound
record_failed r = record r { failed_count = suc r.failed_count }

abbrev pub record_quarantined : PublishOutboxRound → PublishOutboxRound
record_quarantined r = record r { quarantined_count = suc r.quarantined_count }

-- `decimal` renders a number for `format!`, and `deliver` is whether the transport takes a message.
module _ {V : Type 0} (decimal : ℕ → String) (deliver : OutboxMessage V → Bool) where
  abbrev pub exhausted_reason : ℕ → ℕ → String
  exhausted_reason attempt max_attempts = format_text (
      "delivery failed "
      ∷ decimal attempt
      ∷ " times, at or above the limit of "
      ∷ decimal max_attempts
      ∷ [])

  -- The loop over what was claimed.
  unfoldable pub publish_claimed :
      ℕ
      → List (ClaimedOutboxMessage V)
      → PublishOutboxRound
      → List String
      → Store V
      → Store V × Result (PublishOutboxRound × List String)
  unfolding quarantine_reason_new mark_failed quarantine
  publish_claimed max_attempts [] round delivered st = (st, ok (round, delivered))
  publish_claimed max_attempts (c ∷ cs) round delivered st =
      elim (is_exhausted max_attempts c.attempt) [
        | true ↦ elim (quarantine_reason_new (exhausted_reason c.attempt max_attempts)) [
          | err e ↦ (st, err e)
          | ok reason ↦
              publish_claimed max_attempts cs (record_quarantined round) delivered
                (quarantine c.message.event_id reason st)
        ]
        | false ↦ elim (deliver c.message) [
          | true ↦
              publish_claimed max_attempts cs (record_delivered round)
                (delivered ++ c.message.event_id ∷ []) st
          | false ↦
              publish_claimed max_attempts cs (record_failed round) delivered
                (mark_failed c.message.event_id st)
        ]
      ]

  -- What follows the claim in `execute`.
  unfoldable pub publish :
      ℕ → Store V × List (ClaimedOutboxMessage V) → Store V × Result PublishOutboxRound
  unfolding publish_claimed mark_delivered
  publish max_attempts (st, claims) =
      let (st', outcome) = publish_claimed max_attempts claims idle_round [] st in
      elim outcome [
        | err e ↦ (st', err e)
        | ok (round, delivered) ↦
            (if is_empty delivered then st' else mark_delivered delivered st', ok round)
      ]

  -- `execute`; `none` is the panic of the claim.
  unfoldable pub execute :
      PublishOutboxInput → Time → Time → Store V → Option (Store V × Result PublishOutboxRound)
  unfolding claim publish
  execute input last_time now st = elim (claim last_time input.batch_size now input.lease st) [
    | none ↦ none
    | some claimed ↦ some (publish input.max_attempts claimed)
  ]
