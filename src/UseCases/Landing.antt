-- ===== src/UseCases/Landing.antt =====
-- What the use case of a transition leaves in the store: all of its change, or none of it.
-- crates/choreo-app/src/usecases/apply_ceremony_transition_use_case.rs.
use underpass_choreographer.Shared.{
  ℕ, ◌≡◌, ◌⊎◌, sym, ap, subst, ◌∙◌, some, String, List, [], ◌∷◌, ◌++◌, arith, Bool-cases, inl, inr,
  if◌then◌else◌, format_text, length,
}
use underpass_choreographer.Shared.Result.{Result, DomainError, ok, err, ◌>>=◌, Result-cases}
use underpass_choreographer.Ceremony.Attributes.{Json}
use underpass_choreographer.Ceremony.Step.Lease.{Time}
use underpass_choreographer.Ceremony.Definition.Data.{CeremonyDefinition}
use underpass_choreographer.Ceremony.Instance.Data.{CeremonyInstance, AuditActorKind, is_terminal}
use underpass_choreographer.Ceremony.Instance.Moves.{apply_transition_as}
use underpass_choreographer.Audit.Record.{
  AuditRecord, AuditFact, AuditActor, AuditEventType, Platform,
}
use underpass_choreographer.Store.Data.{Store}
use underpass_choreographer.Store.Operations.{entry, records, instance_of}
use underpass_choreographer.Services.Journal.{
  LoadedSession, load, store_session, commit_session, store_session_lem,
}
use underpass_choreographer.Services.Facts.{transition_applied, fact, actor_new}
use underpass_choreographer.UseCases.Transition.{
  ApplyCeremonyTransitionInput, moved, apply_ceremony_transition,
}
use underpass_choreographer.UseCases.Storing.{
  record_types, fact_types, stored_whole, stored_nothing,
}

fact_type :
    {V : Type 0} (i : CeremonyInstance V) (t : AuditEventType) (about : String) (a : AuditActor)
    (now : Time) (f : AuditFact)
    → fact i t about a now ≡ ok f
    → f.event_type ≡ t
unfolding fact
fact_type i t about a now f e = ground (arith, e)

-- The kinds of fact of a move: a second one at the end of the ceremony.
abbrev pub move_types :
    {V : Type 0} → CeremonyDefinition V → CeremonyInstance V → List AuditEventType
move_types d i =
    AuditEventType.transition_applied
    ∷ (if is_terminal d i then AuditEventType.ceremony_completed ∷ [] else [])

applied_types :
    {V : Type 0} (decimal : ℕ → String) (i : CeremonyInstance V) (d : CeremonyDefinition V)
    (role : String) (kind : AuditActorKind) (now : Time) (facts : List AuditFact)
    → transition_applied decimal i d role kind now ≡ ok facts
    → fact_types facts ≡ move_types d i
unfolding transition_applied
applied_types decimal i d role kind now facts e =
    let about = format_text ("transition:" ∷ decimal (length i.transitions) ∷ []) in
    elim (Result-cases (actor_new role kind (some role))) [
      | inl (x, f) ↦ ground (arith, e, f)
      | inr (a, f) ↦ elim (Result-cases (fact i AuditEventType.transition_applied about a now)) [
        | inl (x, g) ↦ ground (arith, e, f, g)
        | inr (m, g) ↦ elim (Bool-cases (is_terminal d i)) [
          | inr t ↦
              ground
                (arith, e, f, g, t, fact_type i AuditEventType.transition_applied about a now m g)
          | inl t ↦ elim (Result-cases (fact i AuditEventType.ceremony_completed about a now)) [
            | inl (x, k) ↦ ground (arith, e, f, g, t, k)
            | inr (c, k) ↦ ground (
              arith,
              e,
              f,
              g,
              t,
              k,
              fact_type i AuditEventType.transition_applied about a now m g,
              fact_type i AuditEventType.ceremony_completed about a now c k,
            )
          ]
        ]
      ]
    ]

module _ {V : Type 0} ⦃j : Json V⦄ ⦃p : Platform⦄ (decimal : ℕ → String)
    (resolve : CeremonyInstance V → Result (CeremonyDefinition V))
    (input : ApplyCeremonyTransitionInput) (now : Time) where
  -- What comes before the commit: the definition that a loaded session resolves to accepts the move,
  -- and the facts are those of the session after it.
  pub record Moves (s : LoadedSession V) (i : CeremonyInstance V) (types : List AuditEventType)
      : Type 0 where
    pub definition : CeremonyDefinition V
    pub target : String
    pub resolved : resolve s.session ≡ ok definition
    pub accepted :
        apply_transition_as definition input.role_id input.trigger now s.session ≡ (i, ok target)
    pub recorded : types ≡ move_types definition i

  moved_Moves :
      (s t : LoadedSession V) (d : CeremonyDefinition V) (facts : List AuditFact)
      → moved decimal resolve input now s ≡ ok (d, t, facts)
      → Moves s t.session (fact_types facts)
  unfolding moved
  moved_Moves s t d facts e = elim (Result-cases (resolve s.session)) [
    | inl (x, f) ↦ absurd (ground (arith, e, f))
    | inr (d', f) ↦
        let after = apply_transition_as d' input.role_id input.trigger now s.session in
        elim (Result-cases after.1) [
          | inl (x, g) ↦ absurd (ground (arith, e, f, g))
          | inr (to, g) ↦
              elim (Result-cases
                (transition_applied decimal after.0 d' input.role_id input.role_kind now)) [
                  | inl (x, k) ↦ absurd (ground (arith, e, f, g, k))
                  | inr (fs, k) ↦
                      let types =
                        applied_types decimal after.0 d' input.role_id input.role_kind now fs k in
                      let same : t.session ≡ after.0 = ground (arith, e, f, g, k) in
                      record {
                        definition = d';
                        target = to;
                        resolved = f;
                        accepted = ground (arith, same, g);
                        recorded = ground (arith, e, f, g, k, types);
                      }
                ]
        ]
  ]

  loaded_Moves :
      (first later : Store V) (t : LoadedSession V) (d : CeremonyDefinition V)
      (facts : List AuditFact)
      → (load input.instance_id first later >>= moved decimal resolve input now) ≡ ok (d, t, facts)
      → (s : LoadedSession V) × (load input.instance_id first later ≡ ok s)
        × Moves s t.session (fact_types facts)
  loaded_Moves first later t d facts e = elim (Result-cases (load input.instance_id first later)) [
    | inl (x, f) ↦ absurd (ground (arith, e, f))
    | inr (s, f) ↦ (s, f, moved_Moves s t d facts (ground (arith, e, f)))
  ]

  -- Why it answers an error: a step before the commit does, or the commit does.
  abbrev pub Refused : Store V → Store V → Store V → DomainError → Type 0
  Refused first later st e =
      ((load input.instance_id first later >>= moved decimal resolve input now) ≡ err e)
      ⊎ ((d : CeremonyDefinition V) × (t : LoadedSession V) × (facts : List AuditFact) × ((load
                input.instance_id first later
              >>= moved decimal resolve input now)
            ≡ ok (d, t, facts))
          × ((commit_session t facts st).1 ≡ err e))

  -- The use case of a transition changes the store wholly or not at all. Either it answers an error,
  -- that of its load, its move or its commit, and every ceremony is as it was; or it loaded a session whose resolved definition accepts the
  -- role's move, it answers the session after that move and has stored it, and the session's journal
  -- grew by the record of the move, followed by that of the ceremony's completion exactly when that
  -- definition has the new state as a terminal one.
  pub transition_lands_whole :
      (first later st : Store V)
      → ((e : DomainError) × ((apply_ceremony_transition decimal resolve input now first later st).1
            ≡ err e)
          × Refused first later st e
          × ((id : String)
              → entry id (apply_ceremony_transition decimal resolve input now first later st).0
                ≡ entry id st))
        ⊎ ((s : LoadedSession V) × (i : CeremonyInstance V) × (new : List AuditRecord) × (load
                input.instance_id first later
              ≡ ok s)
            × Moves s i (record_types new)
            × ((apply_ceremony_transition decimal resolve input now first later st).1 ≡ ok i)
            × (instance_of i.id
                  (apply_ceremony_transition decimal resolve input now first later st).0
                ≡ some i)
            × (records i.id (apply_ceremony_transition decimal resolve input now first later st).0
                ≡ records i.id st ++ new))
  unfolding apply_ceremony_transition commit_session
  transition_lands_whole first later st =
      elim (Result-cases (load input.instance_id first later >>= moved decimal resolve input now)) [
        | inl (x, f) ↦ inl (x, ground (arith, f), inl f, λ id. ground (arith, f))
        | inr ((d, t, facts), f) ↦
            let refusal = DomainError.conflict "ceremony_instance" in
            let left = (apply_ceremony_transition decimal resolve input now first later st).0 in
            let stored : left ≡ (store_session refusal t facts st).0 = ground (arith, f) in
            let (s, loaded, moves) = loaded_Moves first later t d facts f in
            elim (Result-cases (store_session refusal t facts st).1) [
              | inl (x, g) ↦ inl (
                x,
                ground (arith, f, g),
                inr (d, t, facts, f, g),
                λ id. ap (λ u. entry id u) stored ∙ stored_nothing refusal x t facts st id g,
              )
              | inr (u, g) ↦
                  let (m, held, rev, same) = store_session_lem refusal t u facts st g in
                  let (new, grown, kinds) = stored_whole refusal t u facts st g in
                  inr (
                    s,
                    t.session,
                    new,
                    loaded,
                    subst (Moves s t.session) (sym kinds) moves,
                    ground (arith, f, g, same),
                    ap (λ v. instance_of t.session.id v) stored ∙ held,
                    ap (λ v. records t.session.id v) stored ∙ grown,
                  )
            ]
      ]
