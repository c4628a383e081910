-- ===== src/Ceremony/Instance/Held.antt =====
-- What the step records of a session keep to, whatever its commands: entities/ceremony_instance.rs,
-- `start_step` and `apply_step_result`.
use underpass_choreographer.Shared.{
  Bool, ℕ, ◌≤◌, ◌≡◌, refl, true, false, String, Option, some, List, [], ◌∷◌, arith, is_some, eq_iff,
  eq_refl, elem,
}
use underpass_choreographer.Shared.Map.{
  Map, lookup, contains_key, insert, set_insert, lookup-insert, elem-set_insert,
}
use underpass_choreographer.Ceremony.Attributes.{Json}
use underpass_choreographer.Ceremony.Step.Lease.{Time, StepLease}
use underpass_choreographer.Ceremony.Step.Record.{
  StepResult, StepExecutionRecord, with_started, with_result, is_in_progress, allows_attempt,
  record_pending,
}
use underpass_choreographer.Ceremony.Evidence.{CeremonyEvidencePack}
use underpass_choreographer.Ceremony.Definition.Data.{CeremonyDefinition, CeremonyStep}
use underpass_choreographer.Ceremony.Instance.Data.{CeremonyInstance, pending_records, open_at}
use underpass_choreographer.Ceremony.Instance.Commands.{Command, execute, run}
use underpass_choreographer.Ceremony.Instance.Turns.{
  Ledger, ledger, Turn, IsObservable, AllAreObservable, brings-IsObservable,
}
use underpass_choreographer.Ceremony.Instance.Leases.{execute-Turn}

module _ {V : Type 0} where
  -- A record is in progress exactly while it holds a lease, whose key is spent.
  abbrev pub RecordIsHeld : List String → StepExecutionRecord V → Type 0
  RecordIsHeld spent r =
      (is_in_progress r.status ≡ is_some r.lease)
      × ((l : StepLease) → r.lease ≡ some l → elem l.idempotency_key spent ≡ true)

  -- Each step allows its first attempt: `StepAttempt` is not zero.
  abbrev pub HasPolicies : CeremonyDefinition V → Type 0
  HasPolicies d =
      (k : String) (st : CeremonyStep V)
      → lookup k d.steps ≡ some st
      → 1 ≤ st.retry_policy.max_attempts

  pub record IsHeld (d : CeremonyDefinition V) (g : Ledger V) : Type 0 where
    pub complete : (k : String) → contains_key k g.records ≡ contains_key k d.steps
    pub held :
        (k : String) (r : StepExecutionRecord V)
        → lookup k g.records ≡ some r
        → RecordIsHeld g.spent r
    pub within :
        (k : String) (r : StepExecutionRecord V) (st : CeremonyStep V)
        → lookup k g.records ≡ some r
        → lookup k d.steps ≡ some st
        → r.attempt ≤ st.retry_policy.max_attempts

  lookup-pending_records :
      (k : String) (steps : Map (CeremonyStep V))
      → (contains_key k (pending_records steps) ≡ contains_key k steps)
        × ((r : StepExecutionRecord V)
            → lookup k (pending_records steps) ≡ some r
            → r ≡ record_pending)
  unfolding record_pending
  lookup-pending_records k [] = (refl, λ r h. cc)
  lookup-pending_records k ((j, st) ∷ steps) = ground (arith, lookup-pending_records k steps)

  pending_held : (r : StepExecutionRecord V) → r ≡ record_pending → RecordIsHeld [] r
  unfolding record_pending
  pending_held r e = ground (arith, e)

  pending_within : (r : StepExecutionRecord V) (m : ℕ) → r ≡ record_pending → 1 ≤ m → r.attempt ≤ m
  unfolding record_pending
  pending_within r m e h = ground (arith, e, h)

  -- A new session has a pending record for each of its steps.
  pub open_at-IsHeld :
      (id : String) (d : CeremonyDefinition V) (context : Map V) (now : Time)
      (bound : Option String) (i : String)
      → HasPolicies d
      → IsHeld d (ledger (open_at id d context now bound i))
  open_at-IsHeld id d context now bound i p = record {
    complete = λ k. (lookup-pending_records k d.steps).0;
    held = λ k r h. pending_held r ((lookup-pending_records k d.steps).1 r h);
    within = λ k r st h e.
        pending_within r st.retry_policy.max_attempts ((lookup-pending_records k d.steps).1 r h)
          (p k st e);
  }

  module _ (d : CeremonyDefinition V) where
    started-IsHeld :
        (g : Ledger V) (k : String) (st : CeremonyStep V) (r : StepExecutionRecord V)
        (l : StepLease) (a : ℕ)
        → lookup k d.steps ≡ some st
        → lookup k g.records ≡ some r
        → allows_attempt st.retry_policy a ≡ true
        → IsHeld d g
        → IsHeld d (record {
          records = insert k (with_started r l a) g.records;
          spent = set_insert l.idempotency_key g.spent;
        })
    unfolding with_started allows_attempt
    started-IsHeld g k st r l a e e' allowed h = record {
      complete = λ j.
          ground
            (arith, lookup-insert k j (with_started r l a) g.records, eq_iff k j, h.complete j);
      held = λ j q f. ground (
        arith,
        f,
        lookup-insert k j (with_started r l a) g.records,
        h.held j q,
        λ (m : StepLease). elem-set_insert m.idempotency_key l.idempotency_key g.spent,
        eq_refl l.idempotency_key,
      );
      within = λ j q s f f'. ground (
        arith,
        f,
        f',
        e,
        eq_iff k j,
        lookup-insert k j (with_started r l a) g.records,
        h.within j q s,
      );
    }

    applied-IsHeld :
        (g : Ledger V) (k : String) (r : StepExecutionRecord V) (x : StepResult V)
        → lookup k g.records ≡ some r
        → is_in_progress x.status ≡ false
        → IsHeld d g
        → IsHeld d (record { records = insert k (with_result r x) g.records; spent = g.spent })
    unfolding with_result
    applied-IsHeld g k r x e o h = record {
      complete = λ j.
          ground (arith, lookup-insert k j (with_result r x) g.records, eq_iff k j, h.complete j);
      held = λ j q f. ground (arith, f, lookup-insert k j (with_result r x) g.records, h.held j q);
      within = λ j q s f f'. ground (
        arith,
        f,
        f',
        e,
        eq_iff k j,
        lookup-insert k j (with_result r x) g.records,
        h.within j q s,
        h.within k r s,
      );
    }

    Turn-IsHeld :
        (now : Time) (c : Command V) (g : Ledger V) (b : Bool) (t : Ledger V)
        → Turn d now c g b t
        → IsObservable c
        → IsHeld d g
        → IsHeld d t
    Turn-IsHeld now c g b t Turn.refused o h = h
    Turn-IsHeld now c g b t (Turn.aside e e') o h = h
    Turn-IsHeld now c g b t (Turn.started k l st r a s e e' can f allowed new) o h =
        started-IsHeld g k st r l a e e' allowed h
    Turn-IsHeld now c g b t (Turn.applied k x r s e held) o h =
        applied-IsHeld g k r x e (brings-IsObservable c k x o s) h

    Turn-spent :
        (now : Time) (c : Command V) (g : Ledger V) (b : Bool) (t : Ledger V) (key : String)
        → Turn d now c g b t
        → elem key g.spent ≡ true
        → elem key t.spent ≡ true
    Turn-spent now c g b t key Turn.refused h = h
    Turn-spent now c g b t key (Turn.aside e e') h = h
    Turn-spent now c g b t key (Turn.started k l st r a s e e' can f allowed new) h =
        ground (arith, elem-set_insert key l.idempotency_key g.spent, h)
    Turn-spent now c g b t key (Turn.applied k x r s e held) h = h

module _ {V : Type 0} ⦃j : Json V⦄ (to_value : CeremonyEvidencePack V → Option V)
    (d : CeremonyDefinition V) where
  -- Under any commands that carry only results that can be built, whether they are accepted or
  -- refused, a session of which it held keeps to this: there is a record for each step, a step is in
  -- progress exactly while it holds a lease, the key of the lease is spent, and no attempt passes the
  -- step's retry policy.
  pub run-IsHeld :
      (cs : List (Time × Command V)) (s : CeremonyInstance V)
      → AllAreObservable cs
      → IsHeld d (ledger s)
      → IsHeld d (ledger (run to_value d cs s))
  unfolding run
  run-IsHeld [] s o h = h
  run-IsHeld ((now, c) ∷ cs) s (o, os) h =
      run-IsHeld cs (execute to_value d now c s).0 os
        (Turn-IsHeld d now c (ledger s) _ _ (execute-Turn to_value d now c s) o h)

  -- A spent key stays spent.
  pub run-spent :
      (cs : List (Time × Command V)) (s : CeremonyInstance V) (key : String)
      → AllAreObservable cs
      → elem key s.idempotency_keys ≡ true
      → elem key (run to_value d cs s).idempotency_keys ≡ true
  unfolding run
  run-spent [] s key o h = h
  run-spent ((now, c) ∷ cs) s key (o, os) h =
      run-spent cs (execute to_value d now c s).0 key os
        (Turn-spent d now c (ledger s) _ _ key (execute-Turn to_value d now c s) h)
