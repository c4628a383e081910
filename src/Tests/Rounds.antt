-- ===== src/Tests/Rounds.antt =====
-- Publishing rounds over the store of one session.
use underpass_choreographer.Shared.{
  ℕ, ◌≡◌, refl, String, Bool, true, false, none, some, List, [], ◌∷◌, arith, length, keep,
}
use underpass_choreographer.Shared.Result.{ok}
use underpass_choreographer.Store.Data.{Store, OutboxMessage, ClaimedOutboxMessage, is_claimable}
use underpass_choreographer.Store.Outbox.{
  claim, claim_loop, claim_head, lease_end, outbox_of, mark_delivered,
}
use underpass_choreographer.Publishing.Round.{
  PublishOutboxInput, PublishOutboxRound, execute, publish, publish_claimed, claimed_count,
}
use underpass_choreographer.Publishing.Draining.{rounds, publishing_drains}
use underpass_choreographer.Publishing.Accounts.{sent, refused, given_up, round_accounts}
use underpass_choreographer.Tests.Sample.{flag_json, session}
use underpass_choreographer.Tests.Journals.{plain}
use underpass_choreographer.Tests.Stores.{message, held}

abbrev decimal : ℕ → String
decimal n = "n"

abbrev policy : PublishOutboxInput
policy = record { batch_size = 5; max_attempts = 3; lease = 1 }

abbrev waiting : Store Bool
waiting =
    (
      "c-1",
      record {
        stored_revision = some 1;
        stored_instance = some session;
        journal = [];
        outbox =
            record {
              message = message;
              attempt = 0;
              claimed_until = none;
              delivered = false;
              quarantine_reason = none;
            }
            ∷ [];
      },
    )
    ∷ []

publishing_drains_example :
    (st' : Store Bool) × (rounds decimal (λ m. true) policy 2000000 (100 ∷ []) waiting ≡ some st')
    × ((id : String) → outbox_of id st' ≡ [])
unfolding is_claimable
publishing_drains_example =
    publishing_drains decimal (λ m. true) policy 2000000 50 (100 ∷ []) waiting (λ m. refl)
      ((omega arith, omega arith), tt) (omega arith) (((λ d. (refl, refl)), tt), tt)
      (omega arith, tt)

abbrev delivered : Store Bool
delivered =
    (
      "c-1",
      record {
        stored_revision = some 1;
        stored_instance = some session;
        journal = [];
        outbox =
            record {
              message = message;
              attempt = 0;
              claimed_until = none;
              delivered = true;
              quarantine_reason = none;
            }
            ∷ [];
      },
    )
    ∷ []

abbrev one_delivered : PublishOutboxRound
one_delivered = record { delivered_count = 1; failed_count = 0; quarantined_count = 0 }

abbrev claimed : List (ClaimedOutboxMessage Bool)
claimed = record { message = message; attempt = 0 } ∷ []

waiting_is_claimed : claim 2000000 5 100 1 waiting ≡ some (held, claimed)
unfolding claim lease_end claim_loop claim_head is_claimable
waiting_is_claimed = refl

round_delivers_it :
    execute decimal (λ (m : OutboxMessage Bool). true) policy 2000000 100 waiting
    ≡ some (delivered, ok one_delivered)
unfolding execute publish publish_claimed claim lease_end claim_loop claim_head is_claimable
    mark_delivered
round_delivers_it = refl

round_accounts_example :
    (1 ≡ length (keep (sent decimal (λ (m : OutboxMessage Bool). true) 3) claimed))
    × (0 ≡ length (keep (refused decimal (λ (m : OutboxMessage Bool). true) 3) claimed))
    × (0 ≡ length (keep (given_up decimal (λ (m : OutboxMessage Bool). true) 3) claimed))
    × (claimed_count one_delivered ≡ length claimed)
round_accounts_example =
    round_accounts decimal (λ (m : OutboxMessage Bool). true) policy 2000000 100 waiting delivered
      held claimed one_delivered waiting_is_claimed round_delivers_it
