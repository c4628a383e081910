-- ===== src/Ceremony/Instance/Exclusion.antt =====
-- What a lease and an idempotency key exclude: entities/ceremony_instance.rs, `start_step`, with
-- value_objects/ceremony/step_execution_record.rs.
use underpass_choreographer.Shared.{
  Bool, [], ◌∷◌, Bool-cases, eq_iff, ◌==◌, ◌<◌, ◌≤◌, ◌≡◌, sym, subst, inl, inr, Option-cases, true,
  false, String, Option, none, some, List, arith, eq_refl, elem,
}
use underpass_choreographer.Shared.Map.{lookup, lookup-insert, elem-set_insert}
use underpass_choreographer.Shared.Result.{is_ok, Result-cases}
use underpass_choreographer.Ceremony.Attributes.{Json}
use underpass_choreographer.Ceremony.Step.Lease.{Time, StepLease, is_expired_at}
use underpass_choreographer.Ceremony.Step.Record.{
  StepResult, with_result, StepExecutionRecord, with_started, can_be_started_at, StepStatus,
  next_attempt_for_start,
}
use underpass_choreographer.Ceremony.Evidence.{CeremonyEvidencePack}
use underpass_choreographer.Ceremony.Definition.Data.{CeremonyDefinition}
use underpass_choreographer.Ceremony.Instance.Data.{CeremonyInstance}
use underpass_choreographer.Ceremony.Instance.Steps.{start_step}
use underpass_choreographer.Ceremony.Instance.Commands.{Command, execute, run}
use underpass_choreographer.Ceremony.Instance.Turns.{Ledger, ledger, Turn, brings, AllAreObservable}
use underpass_choreographer.Ceremony.Instance.Leases.{execute-Turn}
use underpass_choreographer.Ceremony.Instance.Held.{run-spent}

module _ {V : Type 0} where
  -- The step is in progress under the lease.
  abbrev pub Leased : String → StepLease → Ledger V → Type 0
  Leased k l g =
      (r : StepExecutionRecord V) × (lookup k g.records ≡ some r)
      × (r.status ≡ StepStatus.in_progress)
      × (r.lease ≡ some l)

  abbrev pub is_for : String → Option (String × StepResult V) → Bool
  is_for k none = false
  is_for k (some (j, _)) = j == k

  abbrev pub brings_for : String → Command V → Bool
  brings_for k c = is_for k (brings c)

  -- The commands come before a moment, and none brings a result for the step.
  abbrev pub Meanwhile : String → Time → List (Time × Command V) → Type 0
  Meanwhile k until [] = Unit
  Meanwhile k until ((now, c) ∷ cs) =
      (now < until) × (brings_for k c ≡ false) × Meanwhile k until cs

module _ {V : Type 0} (d : CeremonyDefinition V) where
  spent_refused :
      (k : String) (l : StepLease) (now : Time) (s : CeremonyInstance V)
      → elem l.idempotency_key s.idempotency_keys ≡ true
      → is_ok (start_step d k l now s).1 ≡ false
  unfolding start_step
  spent_refused k l now s h = ground (arith, h)

  started_spends :
      (k : String) (l : StepLease) (now : Time) (s : CeremonyInstance V)
      → is_ok (start_step d k l now s).1 ≡ true
      → elem l.idempotency_key (start_step d k l now s).0.idempotency_keys ≡ true
  unfolding start_step
  started_spends k l now s h = ground (
    arith,
    h,
    elem-set_insert l.idempotency_key l.idempotency_key s.idempotency_keys,
    eq_refl l.idempotency_key,
  )

  started_holds :
      (k : String) (l : StepLease) (now : Time) (s : CeremonyInstance V) (q : StepExecutionRecord V)
      → is_ok (start_step d k l now s).1 ≡ true
      → lookup k (start_step d k l now s).0.step_records ≡ some q
      → (q.status ≡ StepStatus.in_progress) × (q.lease ≡ some l)
  unfolding start_step with_started
  started_holds k l now s q h e = elim (Option-cases (lookup k s.step_records)) [
    | inl none_there ↦ ground (arith, none_there)
    | inr (r, e') ↦ elim (Result-cases (next_attempt_for_start r)) [
      | inl (x, f) ↦ ground (arith, e', f)
      | inr (a, f) ↦
          ground
            (arith, h, e, e', f, lookup-insert k k (with_started r l a) s.step_records, eq_refl k)
    ]
  ]

  restart_waits :
      (k : String) (l l' : StepLease) (later : Time) (s : CeremonyInstance V)
      (q : StepExecutionRecord V)
      → lookup k s.step_records ≡ some q
      → q.status ≡ StepStatus.in_progress
      → q.lease ≡ some l
      → is_ok (start_step d k l' later s).1 ≡ true
      → l.expires_at ≤ later
  unfolding start_step can_be_started_at is_expired_at
  restart_waits k l l' later s q e held lease h = ground (arith, e, held, lease, h)

  started_stays :
      (k : String) (l : StepLease) (now : Time) (s : CeremonyInstance V)
      → is_ok (start_step d k l now s).1 ≡ true
      → ¬ (lookup k (start_step d k l now s).0.step_records ≡ none)
  unfolding start_step
  started_stays k l now s h e = elim (Option-cases (lookup k s.step_records)) [
    | inl none_there ↦ ground (arith, none_there, h)
    | inr (r, e') ↦ elim (Result-cases (next_attempt_for_start r)) [
      | inl (x, f) ↦ ground (arith, e', f, h)
      | inr (a, f) ↦
          ground
            (arith, h, e, e', f, lookup-insert k k (with_started r l a) s.step_records, eq_refl k)
    ]
  ]

  started_leases :
      (k : String) (l : StepLease) (now : Time) (s : CeremonyInstance V)
      → is_ok (start_step d k l now s).1 ≡ true
      → Leased k l (ledger (start_step d k l now s).0)
  started_leases k l now s h =
      let t = (start_step d k l now s).0 in
      elim (Option-cases (lookup k t.step_records)) [
        | inl e ↦ absurd (started_stays k l now s h e)
        | inr (q, e) ↦ let (held, lease) = started_holds k l now s q h e in (q, e, held, lease)
      ]

  held_refuses :
      (k : String) (l l' : StepLease) (later : Time) (s : CeremonyInstance V)
      → Leased k l (ledger s)
      → later < l.expires_at
      → is_ok (start_step d k l' later s).1 ≡ false
  held_refuses k l l' later s (q, e, held, lease) early =
      elim (Bool-cases (is_ok (start_step d k l' later s).1)) [
        | inl o ↦ absurd (omega (arith, early, restart_waits k l l' later s q e held lease o))
        | inr o ↦ o
      ]

  Turn-Leased :
      (k : String) (l : StepLease) (now : Time) (c : Command V) (g : Ledger V) (b : Bool)
      (t : Ledger V)
      → Turn d now c g b t
      → now < l.expires_at
      → brings_for k c ≡ false
      → Leased k l g
      → Leased k l t
  unfolding can_be_started_at is_expired_at
  Turn-Leased k l now c g b t Turn.refused early other h = h
  Turn-Leased k l now c g b t (Turn.aside e e') early other h = h
  Turn-Leased k l now c g b t (Turn.started j m st r a s e e' can f allowed new) early other
        (q, there, held, lease) =
      elim (Bool-cases (j == k)) [
        | inl same ↦ absurd (ground (arith, eq_iff j k, same))
        | inr apart ↦ (
          q,
          ground (arith, lookup-insert j k (with_started r m a) g.records, apart, there),
          held,
          lease,
        )
      ]
  Turn-Leased k l now c g b t (Turn.applied j x r s e running) early other (q, there, held, lease) =
      (
        q,
        ground (arith, lookup-insert j k (with_result r x) g.records, s, other, there),
        held,
        lease,
      )

module _ {V : Type 0} ⦃j : Json V⦄ (to_value : CeremonyEvidencePack V → Option V)
    (d : CeremonyDefinition V) where
  run-Leased :
      (k : String) (l : StepLease) (cs : List (Time × Command V)) (s : CeremonyInstance V)
      → Meanwhile k l.expires_at cs
      → Leased k l (ledger s)
      → Leased k l (ledger (run to_value d cs s))
  unfolding run
  run-Leased k l [] s m h = h
  run-Leased k l ((now, c) ∷ cs) s (early, other, m) h =
      run-Leased k l cs (execute to_value d now c s).0 m
        (Turn-Leased d k l now c (ledger s) _ _ (execute-Turn to_value d now c s) early other h)

  -- A lease keeps its step to its holder: after an accepted start, whatever commands come before the
  -- lease expires and bring no result for the step, the step is still in progress under the lease,
  -- and every other start of it before the expiry is refused.
  pub lease_excludes :
      (k : String) (l l' : StepLease) (now later : Time) (s : CeremonyInstance V)
      (cs : List (Time × Command V))
      → is_ok (start_step d k l now s).1 ≡ true
      → Meanwhile k l.expires_at cs
      → later < l.expires_at
      → Leased k l (ledger (run to_value d cs (start_step d k l now s).0))
        × (is_ok (start_step d k l' later (run to_value d cs (start_step d k l now s).0)).1 ≡ false)
  lease_excludes k l l' now later s cs h m early =
      let t = run to_value d cs (start_step d k l now s).0 in
      let kept = run-Leased k l cs (start_step d k l now s).0 m (started_leases d k l now s h) in
      (kept, held_refuses d k l l' later t kept early)

-- An idempotency key starts a step once: after an accepted start, whatever commands come between
-- that carry only results that can be built, a start under the same key is refused, of whichever
-- step and at whichever time.
pub key_starts_once :
    {V : Type 0}
    → ⦃j : Json V⦄
    → (to_value : CeremonyEvidencePack V → Option V) (d : CeremonyDefinition V) (k k' : String)
      (l l' : StepLease) (now later : Time) (s : CeremonyInstance V) (cs : List (Time × Command V))
    → is_ok (start_step d k l now s).1 ≡ true
    → AllAreObservable cs
    → l'.idempotency_key ≡ l.idempotency_key
    → is_ok (start_step d k' l' later (run to_value d cs (start_step d k l now s).0)).1 ≡ false
key_starts_once to_value d k k' l l' now later s cs h o e =
    let t = run to_value d cs (start_step d k l now s).0 in
    spent_refused d k' l' later t (
      subst (λ x. elem x t.idempotency_keys ≡ true) (sym e)
        (run-spent to_value d cs _ l.idempotency_key o (started_spends d k l now s h)))
