-- ===== src/Tests/UseCases.antt =====
-- The transition that ends a ceremony, as a use case.
use underpass_choreographer.Shared.{◌≡◌, ◌⊎◌, ◌++◌, ℕ, Bool, String, some, List, [], ◌∷◌}
use underpass_choreographer.Shared.Result.{Result, DomainError, ok, err}
use underpass_choreographer.Ceremony.Definition.Data.{CeremonyDefinition}
use underpass_choreographer.Ceremony.Instance.Data.{CeremonyInstance, AuditActorKind, open_at}
use underpass_choreographer.Audit.Record.{AuditRecord}
use underpass_choreographer.Store.Data.{Store}
use underpass_choreographer.Store.Operations.{entry, records, instance_of}
use underpass_choreographer.UseCases.Transition.{
  ApplyCeremonyTransitionInput, apply_ceremony_transition,
}
use underpass_choreographer.Services.Journal.{LoadedSession, load}
use underpass_choreographer.UseCases.Storing.{record_types}
use underpass_choreographer.UseCases.Landing.{Moves, Refused, transition_lands_whole}
use underpass_choreographer.Tests.Sample.{flag_json}
use underpass_choreographer.Tests.Journals.{plain}
use underpass_choreographer.Tests.Runs.{letter}

abbrev reviewed : CeremonyInstance Bool
reviewed = open_at "c-1" letter [] 10 (some "digest") "review"

abbrev desk : Store Bool
desk =
    (
      "c-1",
      record {
        stored_revision = some 4;
        stored_instance = some reviewed;
        journal = [];
        outbox = [];
      },
    )
    ∷ []

abbrev acceptance : ApplyCeremonyTransitionInput
acceptance = record {
  instance_id = "c-1";
  role_id = "editor";
  role_kind = AuditActorKind.human;
  trigger = "accept";
}

abbrev decimal : ℕ → String
decimal n = "n"

abbrev to_letter : CeremonyInstance Bool → Result (CeremonyDefinition Bool)
to_letter i = ok letter

abbrev accepted : Store Bool × Result (CeremonyInstance Bool)
accepted = apply_ceremony_transition decimal to_letter acceptance 50 desk desk desk

transition_lands_whole_example :
    ((e : DomainError) × (accepted.1 ≡ err e)
      × Refused decimal to_letter acceptance 50 desk desk desk e
      × ((id : String) → entry id accepted.0 ≡ entry id desk))
    ⊎ ((s : LoadedSession Bool) × (i : CeremonyInstance Bool) × (new : List AuditRecord) × (load
            "c-1" desk desk
          ≡ ok s)
        × Moves decimal to_letter acceptance 50 s i (record_types new)
        × (accepted.1 ≡ ok i)
        × (instance_of i.id accepted.0 ≡ some i)
        × (records i.id accepted.0 ≡ records i.id desk ++ new))
transition_lands_whole_example =
    transition_lands_whole decimal to_letter acceptance 50 desk desk desk
