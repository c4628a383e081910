-- ===== src/Running/Kept.antt =====
-- The session that a run holds is the stored one: run_ceremony_use_case.rs.
use underpass_choreographer.Shared.{
  ⊤, ℕ, ◌≡◌, some, String, List, [], ◌∷◌, arith, Bool-cases, inl, inr, length,
}
use underpass_choreographer.Shared.Result.{DomainError, ok, Result-cases}
use underpass_choreographer.Shared.Action.{Action, lift, ◌>>=◌, ◌>>◌}
use underpass_choreographer.Ceremony.Attributes.{Json}
use underpass_choreographer.Ceremony.Step.Record.{StepAttempt, StepResult}
use underpass_choreographer.Ceremony.Definition.Data.{CeremonyStep, role_id_for_step}
use underpass_choreographer.Audit.Record.{AuditFact, Platform}
use underpass_choreographer.Store.Data.{Store}
use underpass_choreographer.Store.Operations.{instance_of}
use underpass_choreographer.Services.Journal.{
  LoadedSession, store_session, commit_session, store_session_lem,
}
use underpass_choreographer.Running.Data.{RunCeremonyInput, Progress, CeremonyStepContribution}
use underpass_choreographer.Running.Preparing.{Surroundings, reread_step, traced, moved_session}
use underpass_choreographer.Running.Driver.{
  run_step, finish_step, handle_step, claim_step, execute_handler, step_request, take_step,
  run_steps, move_session, already_done,
}

module _ {S : Type 0} where
  -- When an action started where `Pre` holds ends well, `Post` holds of its result.
  abbrev pub Triple : {A : Type 0} → (S → Type 0) → Action S A → (S → A → Type 0) → Type 0
  Triple {A} Pre m Post = (s s' : S) (a : A) → Pre s → m s ≡ (s', ok a) → Post s' a

  pub Triple-bind :
      {A B : Type 0} (Pre : S → Type 0) (Mid : S → A → Type 0) (Post : S → B → Type 0)
      (m : Action S A) (f : A → Action S B)
      → Triple Pre m Mid
      → ((a : A) → Triple (λ s. Mid s a) (f a) Post)
      → Triple Pre (m >>= f) Post
  Triple-bind Pre Mid Post m f h k s s' b pre e = elim (Result-cases (m s).1) [
    | inl (x, g) ↦ ground (arith, g, e)
    | inr (a, g) ↦ k a (m s).0 s' b (h s (m s).0 a pre (ground (arith, g))) (ground (arith, g, e))
  ]

  -- Only the rest of an action matters for what holds at its end.
  pub Triple-rest :
      {A B : Type 0} (Pre : S → Type 0) (Post : S → B → Type 0) (m : Action S A)
      (f : A → Action S B)
      → ((a : A) → Triple (λ s. Unit {0}) (f a) Post)
      → Triple Pre (m >>= f) Post
  Triple-rest Pre Post m f k = Triple-bind Pre (λ s a. Unit {0}) Post m f (λ s s' a h e. tt) k

module _ {V : Type 0} ⦃p : Platform⦄ where
  abbrev pub Anything : Store V → Type 0
  Anything st = Unit

  abbrev pub Kept : Store V → LoadedSession V → Type 0
  Kept st s = instance_of s.session.id st ≡ some s.session

  unfoldable pub KeptAt : Store V → Progress V → Type 0
  KeptAt st q = Kept st q.current

  pub store_session-Kept :
      (refusal : DomainError) (s : LoadedSession V) (facts : List AuditFact)
      → Triple Anything (store_session refusal s facts) Kept
  store_session-Kept refusal s facts st st' t pre e =
      ground (arith, e, store_session_lem refusal s t facts st)

module _ {V : Type 0} ⦃j : Json V⦄ ⦃p : Platform⦄ (w : Surroundings V)
    (input : RunCeremonyInput V) where
  finish_step-Kept :
      (id role_id step_id : String) (n : ℕ) (attempt : StepAttempt) (result : StepResult V)
      → Triple Anything
          (finish_step w input id role_id step_id n attempt result)
          (λ st r. Kept st r.0)
  unfolding finish_step commit_session
  finish_step-Kept id role_id step_id n attempt result st st' r pre e =
      elim (Result-cases (reread_step w input id role_id step_id n attempt result st)) [
        | inl (x, f) ↦ ground (arith, f, e)
        | inr (found, f) ↦
            let facts = found.1 ∷ [] in
            elim (Result-cases (commit_session found.0 facts st).1) [
              | inl (x, g) ↦ ground (arith, f, g, e)
              | inr (t, g) ↦ ground (
                arith,
                f,
                g,
                e,
                store_session_lem (DomainError.conflict "ceremony_instance") found.0 t facts st,
              )
            ]
      ]

  run_step-Kept :
      (s : LoadedSession V) (role_id step_id : String) (n : ℕ)
      (transcript : List (CeremonyStepContribution V))
      → Triple Anything (run_step w input s role_id step_id n transcript) (λ st r. Kept st r.0)
  unfolding run_step handle_step
  run_step-Kept s role_id step_id n transcript =
      Triple-rest Anything (λ st r. Kept st r.0) (claim_step w input s role_id step_id n)
        (handle_step w input role_id step_id n transcript)
        λ (c : CeremonyStep V × StepAttempt × LoadedSession V).
          Triple-rest Anything (λ st r. Kept st r.0)
            (execute_handler w input (step_request w input c.2 c.0 c.1 role_id transcript))
            (finish_step w input c.2.session.id role_id step_id n c.1)
            (finish_step-Kept c.2.session.id role_id step_id n c.1)

  traced_current :
      (state_id step_id role_id : String) (q r : Progress V)
      (ran : LoadedSession V × StepAttempt × StepResult V)
      → traced w input state_id step_id role_id q ran ≡ ok r
      → r.current ≡ ran.0
  unfolding traced
  traced_current state_id step_id role_id q r ran e = ground (arith, e)

  take_step-Kept :
      (state_id step_id : String) (q : Progress V)
      → Triple Anything (take_step w input state_id step_id q) KeptAt
  unfolding take_step KeptAt
  take_step-Kept state_id step_id q =
      let read : Action (Store V) ⊤ = lift (w.reads_transcript (length q.traces)) in
      let ran : String → Action (Store V) (Progress V) = λ role_id.
        run_step w input q.current role_id step_id (length q.traces) q.transcript >>= λ ran.
        lift (traced w input state_id step_id role_id q ran) in
      Triple-rest Anything KeptAt (lift (role_id_for_step input.definition step_id))
        (λ role_id. read >> ran role_id)
        λ (role_id : String).
          Triple-rest Anything KeptAt read (λ t. ran role_id)
            λ (t : ⊤).
              Triple-bind Anything (λ st r. Kept st r.0) KeptAt
                (run_step w input q.current role_id step_id (length q.traces) q.transcript)
                (λ ran. lift (traced w input state_id step_id role_id q ran))
                (run_step-Kept q.current role_id step_id (length q.traces) q.transcript)
                λ ran st st' r kept e.
                  ground (arith, kept, e, traced_current state_id step_id role_id q r ran)

  pub run_steps-Kept :
      (state_id : String) (ks : List String) (q : Progress V)
      → Triple (λ st. KeptAt st q) (run_steps w input state_id ks q) KeptAt
  unfolding run_steps
  run_steps-Kept state_id [] q = λ st st' r kept e. ground (arith, kept, e)
  run_steps-Kept state_id (k ∷ ks) q = elim (Bool-cases (already_done w input k q)) [
    | inl d ↦ λ st st' r kept e. run_steps-Kept state_id ks q st st' r kept (ground (arith, d, e))
    | inr d ↦ λ st st' r kept e.
        Triple-bind Anything KeptAt KeptAt (take_step w input state_id k q)
          (run_steps w input state_id ks) (take_step-Kept state_id k q) (run_steps-Kept state_id ks)
          st st' r tt (ground (arith, d, e))
  ]

  pub move_session-Kept :
      (left : ℕ) (state_id : String) (q : Progress V)
      → Triple Anything (move_session w input left state_id q) KeptAt
  unfolding move_session commit_session KeptAt
  move_session-Kept left state_id q st st' r pre e =
      elim (Result-cases (moved_session w input left state_id q.current)) [
        | inl (x, f) ↦ ground (arith, f, e)
        | inr (moved, f) ↦ elim (Result-cases (commit_session moved.0 moved.1 st).1) [
          | inl (x, g) ↦ ground (arith, f, g, e)
          | inr (t, g) ↦ ground (
            arith,
            f,
            g,
            e,
            store_session_lem (DomainError.conflict "ceremony_instance") moved.0 t moved.1 st,
          )
        ]
      ]
