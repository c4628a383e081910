-- ===== src/Publishing/Backlog.antt =====
-- The messages still to be delivered, and what one round takes of them: publish_outbox_use_case.rs.
use underpass_choreographer.Shared.{
  ℕ, ◌+◌, ◌-◌, ◌≤◌, ◌≡◌, refl, true, false, Option, none, some, String, List, [], ◌∷◌, map, arith,
  All, elem, length, leb, eq_refl, Bool-cases, Option-cases, inl, inr,
}
use underpass_choreographer.Ceremony.Step.Lease.{Time}
use underpass_choreographer.Store.Data.{
  Store, StoredOutboxMessage, ClaimedOutboxMessage, is_claimable, is_exhausted,
}
use underpass_choreographer.Store.Outbox.{
  claim_loop, claim_head, mark_entries, mark_delivered, undelivered, outbox_of,
}

module _ {V : Type 0} where
  abbrev pub backlog : List (StoredOutboxMessage V) → ℕ
  backlog es = length (undelivered es)

  -- An entry that a publisher takes up and does not give up on, from a moment on.
  abbrev pub Ready : ℕ → Time → StoredOutboxMessage V → Type 0
  Ready max_attempts t e =
      e.delivered ≡ false
      → (is_claimable t e ≡ true) × (is_exhausted max_attempts e.attempt ≡ false)

  taken : List String → List (StoredOutboxMessage V) → List (StoredOutboxMessage V)
  taken ids es =
      mark_entries (λ e. elem e.message.event_id ids)
        (λ e. record e { delivered = true; claimed_until = none }) es

  taken_rest :
      (m : ℕ) (t : Time) (ids : List String) (es : List (StoredOutboxMessage V))
      → All (Ready m t) es
      → All (Ready m t) (taken ids es) × (backlog (taken ids es) ≤ backlog es)
  unfolding taken
  taken_rest m t ids [] h = ground arith
  taken_rest m t ids (e ∷ es) h = ground (arith, h, taken_rest m t ids es)

  unfoldable pub Claims : List String → Option (ClaimedOutboxMessage V) → Type 0
  Claims ids none = Unit
  Claims ids (some c) = elem c.message.event_id ids ≡ true

  claimable_later :
      (t now : Time) (e : StoredOutboxMessage V)
      → t ≤ now
      → is_claimable t e ≡ true
      → is_claimable now e ≡ true
  unfolding is_claimable
  claimable_later t now e l h = elim (Option-cases e.claimed_until) [
    | inl x ↦ ground (arith, x, h)
    | inr (u, x) ↦ ground (arith, x, h, l)
  ]

  taken_head :
      (m : ℕ) (t now until : Time) (ids : List String) (es : List (StoredOutboxMessage V))
      → t ≤ now
      → All (Ready m t) es
      → Claims ids (claim_head now until es).1
      → All (Ready m t) (taken ids (claim_head now until es).0)
        × (backlog (taken ids (claim_head now until es).0) ≤ backlog es - 1)
  unfolding taken claim_head Claims
  taken_head m t now until ids [] l h k = ground arith
  taken_head m t now until ids (e ∷ es) l h k = elim (Bool-cases e.delivered) [
    | inl d ↦ ground (arith, d, taken_head m t now until ids es l h.1, k)
    | inr d ↦
        let c = claimable_later t now e l (h.0 d).0 in
        ground (arith, c, d, k, taken_rest m t ids es, h.1)
  ]

  unfoldable pub StoreReady : ℕ → Time → Store V → Type 0
  StoreReady m t st = All (λ e. All (Ready m t) e.1.outbox) st

  unfoldable pub Bounded : ℕ → Store V → Type 0
  Bounded b st = All (λ e. backlog e.1.outbox ≤ b) st

  unfoldable pub Named : List String → List (ClaimedOutboxMessage V) → Type 0
  Named ids cs = All (λ c. elem c.message.event_id ids ≡ true) cs

  unfoldable pub Fresh : ℕ → List (ClaimedOutboxMessage V) → Type 0
  Fresh m cs = All (λ c. is_exhausted m c.attempt ≡ false) cs

  pub taken_store :
      (m : ℕ) (t now until : Time) (limit n b : ℕ) (ids : List String) (st : Store V)
      → t ≤ now
      → n + length st ≤ limit
      → StoreReady m t st
      → Bounded b st
      → Named ids (claim_loop limit now until n st).1
      → StoreReady m t (mark_delivered ids (claim_loop limit now until n st).0)
        × Bounded (b - 1) (mark_delivered ids (claim_loop limit now until n st).0)
        × (length (mark_delivered ids (claim_loop limit now until n st).0) ≡ length st)
  unfolding claim_loop StoreReady Bounded Named mark_delivered Claims taken
  taken_store m t now until limit n b ids [] l f h k c = ground arith
  taken_store m t now until limit n b ids ((id, s) ∷ st) l f h k c =
      let room : leb limit n ≡ false = ground (arith, f) in
      let more = taken_head m t now until ids s.outbox l h.0 in
      elim (Option-cases (claim_head now until s.outbox).1) [
        | inl e ↦
            ground (
              arith,
              room,
              e,
              more,
              taken_store m t now until limit (n + 0) b ids st,
              l,
              f,
              h,
              k,
              c,
            )
        | inr (c', e) ↦
            ground (
              arith,
              room,
              e,
              more,
              taken_store m t now until limit (n + 1) b ids st,
              l,
              f,
              h,
              k,
              c,
            )
      ]

  head_below_limit :
      (m : ℕ) (t now until : Time) (es : List (StoredOutboxMessage V))
      → t ≤ now
      → All (Ready m t) es
      → (c : ClaimedOutboxMessage V) → (claim_head now until es).1 ≡ some c
      → is_exhausted m c.attempt ≡ false
  unfolding claim_head
  head_below_limit m t now until [] l h c k = ground (arith, k)
  head_below_limit m t now until (e ∷ es) l h c k = elim (Bool-cases e.delivered) [
    | inl d ↦ ground (arith, d, head_below_limit m t now until es l h.1 c, k)
    | inr d ↦ ground (arith, d, h.0 d, claimable_later t now e l (h.0 d).0, k)
  ]

  pub claims-Fresh :
      (m : ℕ) (t now until : Time) (limit n : ℕ) (st : Store V)
      → t ≤ now
      → n + length st ≤ limit
      → StoreReady m t st
      → Fresh m (claim_loop limit now until n st).1
  unfolding claim_loop StoreReady Fresh
  claims-Fresh m t now until limit n [] l f h = ground arith
  claims-Fresh m t now until limit n ((id, s) ∷ st) l f h =
      let room : leb limit n ≡ false = ground (arith, f) in
      let more = head_below_limit m t now until s.outbox l h.0 in
      elim (Option-cases (claim_head now until s.outbox).1) [
        | inl e ↦ ground (arith, room, e, claims-Fresh m t now until limit (n + 0) st, l, f, h)
        | inr (c, e) ↦
            ground (arith, room, e, more c e, claims-Fresh m t now until limit (n + 1) st, l, f, h)
      ]

  unfoldable pub event_ids : List (ClaimedOutboxMessage V) → List String
  event_ids cs = map (λ c. c.message.event_id) cs

  Named-cons :
      (k : String) (ids : List String) (cs : List (ClaimedOutboxMessage V))
      → Named ids cs
      → Named (k ∷ ids) cs
  unfolding Named
  Named-cons k ids [] h = tt
  Named-cons k ids (c ∷ cs) h = ground (arith, h, Named-cons k ids cs)

  pub event_ids-Named : (cs : List (ClaimedOutboxMessage V)) → Named (event_ids cs) cs
  unfolding Named event_ids
  event_ids-Named [] = tt
  event_ids-Named (c ∷ cs) = (
    ground (arith, eq_refl c.message.event_id),
    Named-cons c.message.event_id (event_ids cs) cs (event_ids-Named cs),
  )

  pub mark_nothing : (st : Store V) → mark_delivered [] st ≡ st
  unfolding mark_delivered
  mark_nothing [] = refl
  mark_nothing ((k, s) ∷ st) = ground (arith, mark_nothing st, unmarked s.outbox)
    where
      unmarked :
          (es : List (StoredOutboxMessage V))
          → mark_entries
              (λ e. elem e.message.event_id [])
              (λ e. record e { delivered = true; claimed_until = none })
              es
            ≡ es
      unmarked [] = refl
      unmarked (e ∷ es) = ground (arith, unmarked es)

  pub Bounded-outbox : (id : String) (st : Store V) → Bounded 0 st → outbox_of id st ≡ []
  unfolding Bounded
  Bounded-outbox id [] h = refl
  Bounded-outbox id ((k, s) ∷ st) h =
      ground (arith, h, Bounded-outbox id st, empty_backlog s.outbox)
    where
      empty_backlog : (es : List (StoredOutboxMessage V)) → backlog es ≤ 0 → undelivered es ≡ []
      empty_backlog [] l = refl
      empty_backlog (e ∷ es) l = ground (arith, l, empty_backlog es)
