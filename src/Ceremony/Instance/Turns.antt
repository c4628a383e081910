-- ===== src/Ceremony/Instance/Turns.antt =====
-- What one command does to the step records of a session: entities/ceremony_instance.rs, `start_step`
-- and `apply_step_result`, with value_objects/ceremony/step_execution_record.rs.
use underpass_choreographer.Shared.{
  ℕ, ◌≡◌, sym, subst, ◌⊎◌, inl, inr, Option-cases, Bool, true, false, String, Option, none, some,
  List, [], ◌∷◌, arith, elem,
}
use underpass_choreographer.Shared.Map.{Map, lookup, insert, set_insert}
use underpass_choreographer.Shared.Result.{ok, err, is_ok, DomainError, Result-cases}
use underpass_choreographer.Ceremony.Step.Lease.{Time, StepLease}
use underpass_choreographer.Ceremony.Step.Record.{
  StepResult, StepExecutionRecord, with_started, with_result, can_be_started_at, is_in_progress,
  allows_attempt, next_attempt_for_start,
}
use underpass_choreographer.Ceremony.Definition.Data.{CeremonyDefinition, CeremonyStep}
use underpass_choreographer.Ceremony.Instance.Data.{CeremonyInstance}
use underpass_choreographer.Ceremony.Instance.Steps.{start_step, apply_step_result}
use underpass_choreographer.Ceremony.Instance.Commands.{Command}

-- What a session knows of its steps: their records and the spent idempotency keys.
pub record Ledger (V : Type 0) : Type 0 where
  pub records : Map (StepExecutionRecord V)
  pub spent : List String

module _ {V : Type 0} where
  abbrev pub ledger : CeremonyInstance V → Ledger V
  ledger s = record { records = s.step_records; spent = s.idempotency_keys }

  -- The step that a command starts, and the lease that it starts it under.
  abbrev pub starts : Command V → Option (String × StepLease)
  starts (Command.start_step k l) = some (k, l)
  starts (Command.start_step_as role k l) = some (k, l)
  starts _ = none

  -- The step that a command brings a result for, and that result.
  abbrev pub brings : Command V → Option (String × StepResult V)
  brings (Command.apply_step_result k x) = some (k, x)
  brings _ = none

  -- What a command at a time does to the ledger, accepted or not: a refusal changes nothing, nor does
  -- what is no command of a step; a start finds the step free at that time, under an unspent key and
  -- within its policy; a result finds its step in progress.
  pub data Turn (d : CeremonyDefinition V) (now : Time) (c : Command V) (g : Ledger V)
      : Bool → Ledger V → Type 0 where
    refused : Turn d now c g false g
    aside : starts c ≡ none → brings c ≡ none → Turn d now c g true g
    started :
        (k : String) (l : StepLease) (st : CeremonyStep V) (r : StepExecutionRecord V) (a : ℕ)
        → starts c ≡ some (k, l)
        → lookup k d.steps ≡ some st
        → lookup k g.records ≡ some r
        → can_be_started_at r now ≡ true
        → next_attempt_for_start r ≡ ok a
        → allows_attempt st.retry_policy a ≡ true
        → elem l.idempotency_key g.spent ≡ false
        → Turn d now c g true (record {
          records = insert k (with_started r l a) g.records;
          spent = set_insert l.idempotency_key g.spent;
        })
    applied :
        (k : String) (x : StepResult V) (r : StepExecutionRecord V)
        → brings c ≡ some (k, x)
        → lookup k g.records ≡ some r
        → is_in_progress r.status ≡ true
        → Turn d now c g true
            (record { records = insert k (with_result r x) g.records; spent = g.spent })

  start_none :
      (d : CeremonyDefinition V) (k : String) (l : StepLease) (now : Time) (s : CeremonyInstance V)
      → (lookup k d.steps ≡ none)
        ⊎ (lookup k s.step_records ≡ none)
        ⊎ ((r : StepExecutionRecord V) × (x : DomainError) × (lookup k s.step_records ≡ some r)
            × (next_attempt_for_start r ≡ err x))
      → is_ok (start_step d k l now s).1 ≡ false
  unfolding start_step
  start_none d k l now s h = ground (arith, h)

  start_step_cases :
      (d : CeremonyDefinition V) (k : String) (l : StepLease) (now : Time) (s : CeremonyInstance V)
      (st : CeremonyStep V) (r : StepExecutionRecord V) (a : ℕ)
      → lookup k d.steps ≡ some st
      → lookup k s.step_records ≡ some r
      → next_attempt_for_start r ≡ ok a
      → is_ok (start_step d k l now s).1 ≡ true
      → (ledger (start_step d k l now s).0 ≡ record {
        records = insert k (with_started r l a) s.step_records;
        spent = set_insert l.idempotency_key s.idempotency_keys;
      })
        × (can_be_started_at r now ≡ true)
        × (allows_attempt st.retry_policy a ≡ true)
        × (elem l.idempotency_key s.idempotency_keys ≡ false)
  unfolding start_step
  start_step_cases d k l now s st r a e e' f h = ground (arith, e, e', f, h)

  -- A start that is accepted.
  pub start_step-Turn :
      (d : CeremonyDefinition V) (k : String) (l : StepLease) (now : Time) (c : Command V)
      (s : CeremonyInstance V)
      → starts c ≡ some (k, l)
      → is_ok (start_step d k l now s).1 ≡ true
      → Turn d now c (ledger s) true (ledger (start_step d k l now s).0)
  start_step-Turn d k l now c s h o = elim (Option-cases (lookup k d.steps)) [
    | inl e ↦ cc (start_none d k l now s (inl e))
    | inr (st, e) ↦ elim (Option-cases (lookup k s.step_records)) [
      | inl e' ↦ cc (start_none d k l now s (inr (inl e')))
      | inr (r, e') ↦ elim (Result-cases (next_attempt_for_start r)) [
        | inl (x, f) ↦ cc (start_none d k l now s (inr (inr (r, x, e', f))))
        | inr (a, f) ↦
            let (eq, can, allowed, new) = start_step_cases d k l now s st r a e e' f o in
            subst (Turn d now c (ledger s) true) (sym eq)
              (Turn.started k l st r a h e e' can f allowed new)
      ]
    ]
  ]

  apply_none :
      (d : CeremonyDefinition V) (k : String) (x : StepResult V) (now : Time)
      (s : CeremonyInstance V)
      → lookup k s.step_records ≡ none
      → is_ok (apply_step_result d k x now s).1 ≡ false
  unfolding apply_step_result
  apply_none d k x now s h = ground (arith, h)

  apply_cases :
      (d : CeremonyDefinition V) (k : String) (x : StepResult V) (now : Time)
      (s : CeremonyInstance V) (r : StepExecutionRecord V)
      → lookup k s.step_records ≡ some r
      → is_ok (apply_step_result d k x now s).1 ≡ true
      → (ledger (apply_step_result d k x now s).0 ≡ record {
        records = insert k (with_result r x) s.step_records;
        spent = s.idempotency_keys;
      })
        × (is_in_progress r.status ≡ true)
  unfolding apply_step_result
  apply_cases d k x now s r e h = ground (arith, e, h)

  -- A result that is accepted.
  pub apply_Turn :
      (d : CeremonyDefinition V) (k : String) (x : StepResult V) (now : Time) (c : Command V)
      (s : CeremonyInstance V)
      → brings c ≡ some (k, x)
      → is_ok (apply_step_result d k x now s).1 ≡ true
      → Turn d now c (ledger s) true (ledger (apply_step_result d k x now s).0)
  apply_Turn d k x now c s h o = elim (Option-cases (lookup k s.step_records)) [
    | inl e ↦ cc (apply_none d k x now s e)
    | inr (r, e) ↦
        let (eq, held) = apply_cases d k x now s r e o in
        subst (Turn d now c (ledger s) true) (sym eq) (Turn.applied k x r h e held)
  ]

-- The result that a command carries is one that `result_new` has built.
abbrev pub IsObservable : {V : Type 0} → Command V → Type 0
IsObservable (Command.apply_step_result _ x) = is_in_progress x.status ≡ false
IsObservable _ = Unit

pub brings-IsObservable :
    {V : Type 0} (c : Command V) (k : String) (x : StepResult V)
    → IsObservable c
    → brings c ≡ some (k, x)
    → is_in_progress x.status ≡ false
brings-IsObservable (Command.apply_step_result j y) k x o e = ground (arith, o, e)
brings-IsObservable c k x o e = cc

abbrev pub AllAreObservable : {V : Type 0} → List (Time × Command V) → Type 0
AllAreObservable [] = Unit
AllAreObservable ((_, c) ∷ cs) = IsObservable c × AllAreObservable cs
