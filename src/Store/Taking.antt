-- ===== src/Store/Taking.antt =====
-- What a claim takes, and what it leaves: crates/choreo-adapters/src/memory/ceremony_store.rs.
use underpass_choreographer.Shared.{
  ℕ, zero, suc, ap, ◌∙◌, map, if◌then◌else◌, ◌+◌, ◌*◌, ◌<◌, ◌≡◌, ◌⊎◌, refl, subst, true, Option,
  none, some, String, List, [], ◌∷◌, arith, ◌==◌, Bool-cases, Option-cases, inl, inr, leb,
}
use underpass_choreographer.Ceremony.Step.Lease.{Time, DurationMs, nanos_per_milli}
use underpass_choreographer.Store.Data.{
  Store, StoredOutboxMessage, ClaimedOutboxMessage, is_claimable,
}
use underpass_choreographer.Store.Operations.{entry}
use underpass_choreographer.Store.Outbox.{
  claim, claim_loop, claim_head, count, lease_end, claimed_message,
}
use underpass_choreographer.Store.Claiming.{next_out, Stopped}

abbrev pub take {ℓ} : {A : Type ℓ} → ℕ → List A → List A
take zero xs = []
take (suc n) [] = []
take (suc n) (x ∷ xs) = x ∷ take n xs

abbrev pub drop {ℓ} : {A : Type ℓ} → ℕ → List A → List A
drop zero xs = xs
drop (suc n) [] = []
drop (suc n) (x ∷ xs) = drop n xs

module _ {V : Type 0} where
  unfoldable Takes :
      Time → Time → List (StoredOutboxMessage V) → List (StoredOutboxMessage V) → Type 0
  Takes now until es fs =
      (e : StoredOutboxMessage V) × (next_out es ≡ some e)
      × (is_claimable now e ≡ true)
      × (next_out fs ≡ some (record e { claimed_until = some until }))

  unfoldable TakesFirst :
      Time → Time → List (StoredOutboxMessage V) → List (StoredOutboxMessage V) → Type 0
  TakesFirst now until es fs = (fs ≡ es) ⊎ Takes now until es fs

  head_takes :
      (now until : Time) (es : List (StoredOutboxMessage V))
      → TakesFirst now until es (claim_head now until es).0
  unfolding claim_head Takes TakesFirst
  head_takes now until [] = inl refl
  head_takes now until (e ∷ es) = elim (Bool-cases e.delivered) [
    | inl d ↦ elim (head_takes now until es) [
      | inl same ↦ inl (ground (arith, d, same))
      | inr (x, f, c, g) ↦ inr (x, ground (arith, d, f), c, ground (arith, d, g))
    ]
    | inr d ↦ elim (Bool-cases (is_claimable now e)) [
      | inl c ↦ inr (e, ground (arith, d), c, ground (arith, d, c))
      | inr c ↦ inl (ground (arith, d, c))
    ]
  ]

  loop_takes :
      (limit now until n : ℕ) (id : String) (st : Store V)
      → TakesFirst now until
          (entry id st).outbox
          (entry id (claim_loop limit now until n st).0).outbox
  unfolding claim_loop TakesFirst
  loop_takes limit now until n id [] = inl refl
  loop_takes limit now until n id ((k, s) ∷ st) =
      let fs = (entry id (claim_loop limit now until n ((k, s) ∷ st)).0).outbox in
      let m = n + count (claim_head now until s.outbox).1 in
      elim (Bool-cases (leb limit n)) [
        | inl full ↦ inl (ground (arith, full))
        | inr room ↦ elim (Bool-cases (k == id)) [
          | inl here ↦
              let es' : s.outbox ≡ (entry id ((k, s) ∷ st)).outbox = ground (arith, here) in
              let fs' : (claim_head now until s.outbox).0 ≡ fs = ground (arith, room, here) in
              subst (λ es. TakesFirst now until es fs) es'
                (subst (TakesFirst now until s.outbox) fs' (head_takes now until s.outbox))
          | inr there ↦
              let old = (entry id st).outbox in
              let new = (entry id (claim_loop limit now until m st).0).outbox in
              let es' : old ≡ (entry id ((k, s) ∷ st)).outbox = ground (arith, there) in
              let fs' : new ≡ fs = ground (arith, room, there) in
              subst (λ es. TakesFirst now until es fs) es'
                (subst (TakesFirst now until old) fs' (loop_takes limit now until m id st))
        ]
      ]

  -- The message that a stream has ready: its first undelivered one, when it is free.
  abbrev pub ready_of : Time → Option (StoredOutboxMessage V) → Option (StoredOutboxMessage V)
  ready_of now none = none
  ready_of now (some e) = if is_claimable now e then some e else none

  abbrev pub with_ready :
      Option (StoredOutboxMessage V) → List (StoredOutboxMessage V) → List (StoredOutboxMessage V)
  with_ready none es = es
  with_ready (some e) es = e ∷ es

  -- The ready messages of a store, in the order of its ceremonies.
  abbrev pub ready : Time → Store V → List (StoredOutboxMessage V)
  ready now [] = []
  ready now ((k, s) ∷ st) = with_ready (ready_of now (next_out s.outbox)) (ready now st)

  abbrev handed : Option (StoredOutboxMessage V) → Option (ClaimedOutboxMessage V)
  handed none = none
  handed (some e) = some (claimed_message e)

  head_lem :
      (now until : Time) (es : List (StoredOutboxMessage V))
      → now < until
      → ((claim_head now until es).1 ≡ handed (ready_of now (next_out es)))
        × (ready_of now (next_out (claim_head now until es).0) ≡ none)
  unfolding claim_head is_claimable
  head_lem now until [] l = (refl, refl)
  head_lem now until (e ∷ es) l = ground (arith, l, head_lem now until es l)

  unfoldable Hands : ℕ → ℕ → Time → Time → ℕ → Store V → Type 0
  Hands limit room now until n st =
      ((claim_loop limit now until n st).1 ≡ map claimed_message (take room (ready now st)))
      × (ready now (claim_loop limit now until n st).0 ≡ drop room (ready now st))

  loop-Hands :
      (limit room : ℕ) (now until : Time) (n : ℕ) (st : Store V)
      → now < until
      → n + room ≡ limit
      → Hands limit room now until n st
  unfolding claim_loop Hands
  loop-Hands limit zero now until n [] l h = (refl, refl)
  loop-Hands limit (suc room) now until n [] l h = (refl, refl)
  loop-Hands limit zero now until n ((k, s) ∷ st) l h = ground (arith, h)
  loop-Hands limit (suc room) now until n ((k, s) ∷ st) l h =
      let heads = head_lem now until s.outbox l in
      elim (Option-cases (ready_of now (next_out s.outbox))) [
        | inl e ↦ ground (arith, e, h, heads, loop-Hands limit (suc room) now until n st l h)
        | inr (x, e) ↦
            ground (arith, e, h, heads, loop-Hands limit room now until (n + 1) st l (omega arith))
      ]

  -- A claim with a lease of some length hands out the first `limit` of the messages that are ready,
  -- in the order of their ceremonies, and leaves ready exactly the others. The stream of a ceremony
  -- is left as it was, or its first undelivered message, which was free, is held: it stays the first,
  -- and cannot be claimed before the end of the lease.
  pub claim_takes_first :
      (last_time : Time) (limit : ℕ) (now : Time) (lease : DurationMs) (id : String)
      (st st' : Store V) (cs : List (ClaimedOutboxMessage V))
      → claim last_time limit now lease st ≡ some (st', cs)
      → 0 < lease
      → (cs ≡ map claimed_message (take limit (ready now st)))
        × (ready now st' ≡ drop limit (ready now st))
        × (((entry id st').outbox ≡ (entry id st).outbox)
            ⊎ ((e : StoredOutboxMessage V) × (next_out (entry id st).outbox ≡ some e)
                × (is_claimable now e ≡ true)
                × (held : StoredOutboxMessage V) × (next_out (entry id st').outbox ≡ some held)
                × (claimed_message held ≡ claimed_message e)
                × Stopped (now + lease * nanos_per_milli) held))
  unfolding claim lease_end TakesFirst Takes is_claimable Hands
  claim_takes_first last_time limit now lease id st st' cs h l =
      let until = now + lease * nanos_per_milli in
      let run : st' ≡ (claim_loop limit now until 0 st).0 = ground (arith, h) in
      let out : cs ≡ (claim_loop limit now until 0 st).1 = ground (arith, h) in
      let hands = loop-Hands limit limit now until 0 st (omega arith) (omega arith) in
      (
        out ∙ hands.0,
        ap (λ u. ready now u) run ∙ hands.1,
        elim (loop_takes limit now until 0 id st) [
          | inl same ↦ inl (ground (arith, run, same))
          | inr (e, f, c, g) ↦ inr (
            e,
            f,
            c,
            record e { claimed_until = some until },
            ground (arith, run, g),
            refl,
            λ (t : Time) l. ground (arith, l),
          )
        ],
      )
