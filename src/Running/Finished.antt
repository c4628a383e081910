-- ===== src/Running/Finished.antt =====
-- How a run of crates/choreo-app/src/usecases/run_ceremony_use_case.rs ends, and what it does to the
-- store.
use underpass_choreographer.Shared.{
  ℕ, zero, suc, ◌≡◌, ◌⊎◌, true, false, none, some, String, List, [], ◌∷◌, arith, Option-cases,
  Bool-cases, inl, inr,
}
use underpass_choreographer.Shared.Result.{
  Result, DomainError, ok, err, Result-cases, already_exists,
}
use underpass_choreographer.Shared.Action.{Action, lift, pure, ◌>>=◌}
use underpass_choreographer.Ceremony.Attributes.{Json}
use underpass_choreographer.Ceremony.Definition.Data.{CeremonyStep}
use underpass_choreographer.Ceremony.Instance.Data.{CeremonyInstance, is_completed, start}
use underpass_choreographer.Audit.Record.{AuditFact, Platform}
use underpass_choreographer.Store.Data.{Store, ExpectedRevision}
use underpass_choreographer.Store.Operations.{instance_of}
use underpass_choreographer.Services.Facts.{ceremony_started}
use underpass_choreographer.Services.Journal.{LoadedSession, load, open_session}
use underpass_choreographer.Running.Data.{
  RunCeremonyInput, Progress, CeremonyStepContribution, steps_in_declaration_order,
}
use underpass_choreographer.Running.Preparing.{Reading, Surroundings}
use underpass_choreographer.Running.Driver.{
  run_steps, move_session, run_loop, open_and_run, run_ceremony, max_iterations, state_steps,
}
use underpass_choreographer.Running.Kept.{
  Anything, Kept, KeptAt, Triple, Triple-bind, Triple-rest, move_session-Kept, run_steps-Kept,
  store_session-Kept,
}

module _ {V : Type 0} ⦃j : Json V⦄ ⦃p : Platform⦄ (w : Surroundings V)
    (input : RunCeremonyInput V) where
  Done : Store V → Progress V → Type 0
  Done st q = KeptAt st q × (is_completed input.definition q.current.session ≡ true)

  run_loop-Done :
      (steps : List (CeremonyStep V)) (n : ℕ) (q : Progress V)
      → Triple (λ st. KeptAt st q) (run_loop w input steps n q) Done
  unfolding run_loop Done
  run_loop-Done steps zero q = λ st st' r kept e. ground (arith, e)
  run_loop-Done steps (suc n) q =
      elim (Bool-cases (is_completed input.definition q.current.session)) [
        | inl d ↦ λ st st' r kept e. ground (arith, kept, d, e)
        | inr d ↦
            let state_id = q.current.session.current_state in
            let m = run_steps w input state_id (state_steps w input steps state_id) q in
            let more : Progress V → Action (Store V) (Progress V) =
              λ r. move_session w input n state_id r >>= run_loop w input steps n in
            λ st st' r kept e.
              Triple-bind (λ st. KeptAt st q) KeptAt Done m
                (λ r. elim (is_completed input.definition r.current.session) [
                  | true ↦ pure r
                  | false ↦ more r
                ])
                (run_steps-Kept w input state_id (state_steps w input steps state_id) q)
                (λ (r : Progress V).
                  elim (Bool-cases (is_completed input.definition r.current.session)) [
                    | inl done ↦ λ s s' t k f. ground (arith, k, done, f)
                    | inr going ↦ λ s s' t k f.
                        Triple-bind (λ st. Unit {0}) KeptAt Done (move_session w input n state_id r)
                          (run_loop w input steps n) (move_session-Kept w input n state_id r)
                          (run_loop-Done steps n) s s' t tt (ground (arith, going, f))
                  ])
                st st' r kept (ground (arith, d, e))
      ]

  open_and_run-Done :
      (steps : List (CeremonyStep V)) (transcript : List (CeremonyStepContribution V))
      (opening : CeremonyInstance V)
      → Triple Anything (open_and_run w input steps transcript opening) Done
  unfolding open_and_run open_session KeptAt
  open_and_run-Done steps transcript opening =
      let begin : LoadedSession V → Progress V =
        λ s. record { current = s; traces = []; transcript = transcript } in
      let rest : LoadedSession V → Action (Store V) (Progress V) =
        λ s. run_loop w input steps (max_iterations w input) (begin s) in
      let opened : AuditFact → Action (Store V) (LoadedSession V) =
        λ started. open_session opening (started ∷ []) in
      Triple-rest Anything Done
        (lift (ceremony_started opening input.actor_id input.actor_kind (w.clock Reading.at_start)))
        (λ started. opened started >>= rest)
        λ (started : AuditFact).
          Triple-bind Anything Kept Done (opened started) rest
            (store_session-Kept (already_exists "ceremony_instance")
              (record { session = opening; expected = ExpectedRevision.new }) (started ∷ []))
            (λ (s : LoadedSession V). run_loop-Done steps (max_iterations w input) (begin s))

  load_error :
      (id : String) (st : Store V) (x : DomainError)
      → load id st st ≡ err x
      → x ≡ DomainError.not_found "ceremony_instance"
  unfolding load
  load_error id st x f = ground (arith, f)

  -- A run that gets past its first checks is the run from an opening on.
  pub run_ceremony-cases :
      (transcript : List (CeremonyStepContribution V)) (st st' : Store V) (r : Result (Progress V))
      → run_ceremony w input transcript st ≡ some (st', r)
      → ((st' ≡ st) × (x : DomainError) × (r ≡ err x))
        ⊎ ((steps : List (CeremonyStep V)) × (opening : CeremonyInstance V) × (open_and_run w input
                steps transcript opening st
              ≡ (st', r)))
  unfolding run_ceremony
  run_ceremony-cases transcript st st' r e =
      let opened = start input.id input.definition input.context (w.clock Reading.at_start) none in
      elim (Result-cases (load input.id st st)) [
        | inr (found, f) ↦
            inl (ground (arith, f, e), already_exists "ceremony_instance", ground (arith, f, e))
        | inl (x, f) ↦
            let f' : load input.id st st ≡ err (DomainError.not_found "ceremony_instance") =
              ground (arith, f, load_error input.id st x f) in
            elim (Option-cases (steps_in_declaration_order input.definition)) [
              | inl g ↦ ground (arith, f', g, e)
              | inr (steps, g) ↦ elim (Option-cases opened) [
                | inl h ↦ ground (arith, f', g, h, e)
                | inr (opening, h) ↦ elim (Result-cases (w.save_definition input.definition)) [
                  | inl (y, k) ↦
                      inl (ground (arith, f', g, h, k, e), y, ground (arith, f', g, h, k, e))
                  | inr (u, k) ↦ inr (steps, opening, ground (arith, f', g, h, k, e))
                ]
              ]
            ]
      ]

  -- A run that answers with a session has brought it to a completed end, whatever the handlers did
  -- and whatever else happened to the store while they worked; and that session is the stored one.
  pub run_ends_completed :
      (transcript : List (CeremonyStepContribution V)) (st st' : Store V) (q : Progress V)
      → run_ceremony w input transcript st ≡ some (st', ok q)
      → (is_completed input.definition q.current.session ≡ true)
        × (instance_of q.current.session.id st' ≡ some q.current.session)
  unfolding run_ceremony Done KeptAt
  run_ends_completed transcript st st' q e = elim (run_ceremony-cases transcript st st' (ok q) e) [
    | inl (same, x, f) ↦ ground (arith, f)
    | inr (steps, opening, f) ↦
        let done = open_and_run-Done steps transcript opening st st' q tt f in (done.1, done.0)
  ]
