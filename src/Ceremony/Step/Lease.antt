-- ===== src/Ceremony/Step/Lease.antt =====
-- value_objects/ceremony/step_lease.rs and value_objects/duration.rs.
use underpass_choreographer.Shared.{ℕ, ◌+◌, ◌*◌, Bool, String, leb, u64_max, saturating_add, not}
use underpass_choreographer.Shared.Result.{
  Result, ok, invariant_violated, out_of_range, ensure, ◌>>◌,
}

abbrev pub Time : Type 0
Time = ℕ

-- `DurationMs`: whole milliseconds in a u64.
abbrev pub DurationMs : Type 0
DurationMs = ℕ

unfoldable pub duration_add : DurationMs → DurationMs → DurationMs
duration_add a b = saturating_add u64_max a b

abbrev pub i64_max : ℕ
i64_max = 9223372036854775807

abbrev pub nanos_per_milli : ℕ
nanos_per_milli = 1000000

pub record StepLease : Type 0 where
  pub owner_id : String
  pub idempotency_key : String
  pub acquired_at : Time
  pub expires_at : Time

-- `StepLease::new`
unfoldable pub lease_new : String → String → Time → Time → Result StepLease
lease_new owner_id idempotency_key acquired_at expires_at = do
  ensure (not (leb expires_at acquired_at))
      (invariant_violated "step lease must expire after it is acquired")
  ok (record {
    owner_id = owner_id;
    idempotency_key = idempotency_key;
    acquired_at = acquired_at;
    expires_at = expires_at;
  })

-- `StepLease::acquire`; `last_time` is the last time that `OffsetDateTime` represents, past which
-- its `checked_add` fails.
unfoldable pub acquire : Time → String → String → Time → DurationMs → Result StepLease
unfolding lease_new
acquire last_time owner_id idempotency_key acquired_at ttl = do
  ensure (leb ttl i64_max) (out_of_range "step_lease.ttl_ms" ttl 0 i64_max)
  let expires_at = acquired_at + ttl * nanos_per_milli
  ensure (leb expires_at last_time) (out_of_range "step_lease.expires_at" ttl 0 i64_max)
  lease_new owner_id idempotency_key acquired_at expires_at

unfoldable pub is_expired_at : StepLease → Time → Bool
is_expired_at l now = leb l.expires_at now
