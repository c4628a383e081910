-- ===== src/Store/Later.antt =====
-- How the requests of ceremony_store.rs move revisions.
use underpass_choreographer.Shared.{
  ℕ, ◌≤◌, ◌<◌, ◌≡◌, refl, sym, subst, true, not, any, Option, none, some, String, List, [], ◌∷◌,
  ◌++◌, arith, Bool-cases, inl, inr, elem, eq_iff, ◌==◌, u64_max,
}
use underpass_choreographer.Shared.Map.{insert}
use underpass_choreographer.Shared.Result.{Result-cases}
use underpass_choreographer.Ceremony.Instance.Data.{CeremonyInstance}
use underpass_choreographer.Audit.Record.{AuditFact, Platform}
use underpass_choreographer.Store.Data.{
  Store, StoredCeremony, CeremonyCommit, commit_new, matches, resulting_revision, attempt_next,
}
use underpass_choreographer.Store.Operations.{
  record_behind, seal_facts, entry, commit_entry, commit, append, saved,
}
use underpass_choreographer.Store.Outbox.{mark_delivered, mark_failed, quarantine}
use underpass_choreographer.Store.Entries.{entry-insert, mark-Unmoved, claim-Unmoved, Unmoved}
use underpass_choreographer.Store.Requests.{Request, run, run_all}

-- The number of a stored revision; 0 before the first.
abbrev pub rank : Option ℕ → ℕ
rank none = 0
rank (some n) = n

module _ {V : Type 0} where
  abbrev pub Within : StoredCeremony V → Type 0
  Within s = rank s.stored_revision ≤ u64_max

  -- The revision does not fall, and while it stays where it can still rise, so does the instance.
  abbrev pub Later : StoredCeremony V → StoredCeremony V → Type 0
  Later s t =
      Within t
      × (rank s.stored_revision ≤ rank t.stored_revision)
      × (rank s.stored_revision ≡ rank t.stored_revision
          → rank s.stored_revision < u64_max
          → s.stored_instance ≡ t.stored_instance)

  Unmoved-Later : (s t : StoredCeremony V) → Within s → Unmoved s t → Later s t
  Unmoved-Later s t w h = ground (arith, h, w)

  Later-trans : (s t u : StoredCeremony V) → Later s t → Later t u → Later s u
  Later-trans s t u h k = ground (arith, h, k)

  saved-Later : (i : CeremonyInstance V) (s : StoredCeremony V) → Within s → Later s (saved i s)
  saved-Later i s w = ground (arith, w)

module _ {V : Type 0} ⦃p : Platform⦄ where
  commit_entry-Later :
      (c : CeremonyCommit V) (s : StoredCeremony V) → Within s → Later s (commit_entry c s).0
  unfolding commit_entry matches resulting_revision
  commit_entry-Later c s w = elim (Result-cases (seal_facts c.facts s.journal [])) [
    | inl (x, f) ↦ ground (arith, f, w)
    | inr (qs, f) ↦ ground (arith, f, w)
  ]

  insert-Later :
      (k id : String) (s : StoredCeremony V) (st : Store V)
      → Within (entry id st)
      → (Within (entry k st) → Later (entry k st) s)
      → Later (entry id st) (entry id (insert k s st))
  insert-Later k id s st w h = elim (Bool-cases (k == id)) [
    | inr there ↦
        Unmoved-Later (entry id st) (entry id (insert k s st)) w
          (ground (arith, there, entry-insert k id s st))
    | inl here ↦
        let same : k ≡ id = (eq_iff k id).0 here in
        let found : s ≡ entry id (insert k s st) = ground (arith, here, entry-insert k id s st) in
        subst (Later (entry id st)) found (
          subst (λ i. Later (entry i st) s) same
            (h (subst (λ i. Within (entry i st)) (sym same) w)))
  ]

  append-Later :
      (id : String) (fact : AuditFact) (st : Store V)
      → Within (entry id st)
      → Later (entry id st) (entry id (append fact st).0)
  unfolding append
  append-Later id fact st w =
      let k = fact.ceremony_id in
      let s = entry k st in
      elim (Result-cases (record_behind fact s.journal)) [
        | inl (x, f) ↦
            subst (λ st'. Later (entry id st) (entry id st')) (ground (arith, f))
              (insert-Later k id s st w (λ v. Unmoved-Later s s v (refl, refl, refl)))
        | inr (r, f) ↦
            let t = record s { journal = s.journal ++ r ∷ [] } in
            subst (λ st'. Later (entry id st) (entry id st')) (ground (arith, f))
              (insert-Later k id t st w (λ v. ground (arith, v)))
      ]

  commit-Later :
      (id : String) (c : CeremonyCommit V) (st : Store V)
      → Within (entry id st)
      → Later (entry id st) (entry id (commit c st).0)
  unfolding commit
  commit-Later id c st w =
      let k = c.instance_state.id in
      insert-Later k id (commit_entry c (entry k st)).0 st w (commit_entry-Later c (entry k st))

  run-Later :
      (id : String) (r : Request V) (st : Store V)
      → Within (entry id st)
      → Later (entry id st) (entry id (run r st))
  unfolding run commit_new mark_delivered mark_failed quarantine
  run-Later id (Request.to_commit i expected facts messages) st w =
      elim (Bool-cases (any (λ f. not (f.ceremony_id == i.id)) facts)) [
        | inl e ↦
            Unmoved-Later (entry id st)
              (entry id (run (Request.to_commit i expected facts messages) st)) w
              (ground (arith, e))
        | inr e ↦
            let c : CeremonyCommit V = record {
              instance_state = i;
              expected_revision = expected;
              facts = facts;
              messages = messages;
            } in
            let ran : (commit c st).0 ≡ run (Request.to_commit i expected facts messages) st =
              ground (arith, e) in
            subst (λ st'. Later (entry id st) (entry id st')) ran (commit-Later id c st w)
      ]
  run-Later id (Request.to_append fact) st w = append-Later id fact st w
  run-Later id (Request.to_save i) st w =
      insert-Later i.id id (saved i (entry i.id st)) st w (saved-Later i (entry i.id st))
  run-Later id (Request.to_claim last_time limit now lease) st w =
      Unmoved-Later (entry id st) (entry id (run (Request.to_claim last_time limit now lease) st)) w
        (claim-Unmoved last_time limit now lease id st)
  run-Later id (Request.to_mark_delivered ids) st w =
      Unmoved-Later (entry id st) (entry id (mark_delivered ids st)) w (
        mark-Unmoved (λ e. elem e.message.event_id ids)
          (λ e. record e { delivered = true; claimed_until = none }) id st)
  run-Later id (Request.to_mark_failed event_id) st w =
      Unmoved-Later (entry id st) (entry id (mark_failed event_id st)) w (
        mark-Unmoved (λ e. e.message.event_id == event_id)
          (λ e. record e { attempt = attempt_next e.attempt; claimed_until = none }) id st)
  run-Later id (Request.to_quarantine event_id reason) st w =
      Unmoved-Later (entry id st) (entry id (quarantine event_id reason st)) w (
        mark-Unmoved (λ e. e.message.event_id == event_id)
          (λ e. record e { quarantine_reason = some reason; claimed_until = none }) id st)

  pub run_all-Later :
      (id : String) (rs : List (Request V)) (st : Store V)
      → Within (entry id st)
      → Later (entry id st) (entry id (run_all rs st))
  unfolding run_all
  run_all-Later id [] st w = Unmoved-Later (entry id st) (entry id st) w (refl, refl, refl)
  run_all-Later id (r ∷ rs) st w =
      let here = run-Later id r st w in
      Later-trans (entry id st) (entry id (run r st)) (entry id (run_all rs (run r st))) here
        (run_all-Later id rs (run r st) here.0)

  -- Whatever requests run, revisions stay inside a u64.
  pub start-Within : (id : String) (rs : List (Request V)) → Within (entry id (run_all rs []))
  start-Within id rs = (run_all-Later id rs [] (omega arith)).0
