-- ===== src/Store/Claiming.antt =====
-- What a claim of ceremony_store.rs takes.
use underpass_choreographer.Shared.{
  ℕ, ◌+◌, ◌<◌, ◌≡◌, false, not, find, Option, none, some, String, List, [], ◌∷◌, ◌++◌, arith,
}
use underpass_choreographer.Ceremony.Step.Lease.{Time}
use underpass_choreographer.Store.Data.{Store, StoredOutboxMessage, is_claimable}
use underpass_choreographer.Store.Operations.{entry}
use underpass_choreographer.Store.Outbox.{claim_loop, claim_head, count}
use underpass_choreographer.Store.Requests.{Request}

module _ {V : Type 0} where
  -- The first message that is still to be delivered.
  abbrev pub next_out : List (StoredOutboxMessage V) → Option (StoredOutboxMessage V)
  next_out es = find (λ e. not e.delivered) es

  -- Not to be claimed before a moment.
  abbrev pub Stopped : Time → StoredOutboxMessage V → Type 0
  Stopped until e = (now : Time) → now < until → is_claimable now e ≡ false

  -- A request that marks no message, and claims only before a moment.
  unfoldable pub Quiet : Time → Request V → Type 0
  Quiet until (Request.to_claim last_time limit now lease) = now < until
  Quiet until (Request.to_mark_delivered ids) = ⊥
  Quiet until (Request.to_mark_failed id) = ⊥
  Quiet until (Request.to_quarantine id reason) = ⊥
  Quiet until _ = Unit

  pub head_waits :
      (until now u : Time) (e : StoredOutboxMessage V) (es : List (StoredOutboxMessage V))
      → next_out es ≡ some e
      → Stopped until e
      → now < until
      → (claim_head now u es).1 ≡ none × (next_out (claim_head now u es).0 ≡ some e)
  unfolding claim_head
  head_waits until now u e [] f h l = ground (arith, f)
  head_waits until now u e (x ∷ es) f h l = ground (arith, f, h now l, head_waits until now u e es)

  pub next_out-append :
      (e : StoredOutboxMessage V) (es fs : List (StoredOutboxMessage V))
      → next_out es ≡ some e
      → next_out (es ++ fs) ≡ some e
  next_out-append e [] fs f = ground (arith, f)
  next_out-append e (x ∷ es) fs f = ground (arith, f, next_out-append e es fs)

  pub loop_waits :
      (until limit now u n : ℕ) (id : String) (e : StoredOutboxMessage V) (st : Store V)
      → next_out (entry id st).outbox ≡ some e
      → Stopped until e
      → now < until
      → next_out (entry id (claim_loop limit now u n st).0).outbox ≡ some e
  unfolding claim_loop
  loop_waits until limit now u n id e [] f h l = ground (arith, f)
  loop_waits until limit now u n id e ((k, s) ∷ st) f h l = ground (
    arith,
    f,
    l,
    head_waits until now u e s.outbox,
    loop_waits until limit now u (n + count (claim_head now u s.outbox).1) id e st,
    h,
  )
