-- ===== src/Ceremony/Definition/Reachability.antt =====
-- entities/ceremony_definition_analysis.rs: which states the initial one reaches, and which states
-- reach a terminal one.
use underpass_choreographer.Shared.{
  ℕ, zero, suc, Bool, true, false, ◌&&◌, not, String, List, [], ◌∷◌, length, elem, if◌then◌else◌,
  ◌==◌,
}
use underpass_choreographer.Shared.Map.{Map, set_insert}
use underpass_choreographer.Ceremony.Definition.Data.{
  CeremonyTransition, CeremonyState, is_terminal,
}

-- The targets of the transitions out of a state, on top of the stack: the last one pushed is
-- popped first.
abbrev pub push_targets : String → List CeremonyTransition → List String → List String
push_targets current [] pending = pending
push_targets current (t ∷ ts) pending =
    push_targets current ts (if t.from == current then t.to ∷ pending else pending)

-- `while let Some(current) = pending.pop()`, on fuel; what is still pending is returned too.
unfoldable pub explore :
    ℕ → List CeremonyTransition → List String → List String → List String × List String
explore zero ts reached pending = (reached, pending)
explore (suc fuel) ts reached [] = (reached, [])
explore (suc fuel) ts reached (current ∷ pending) =
    let again = explore fuel ts reached pending in
    let further = explore fuel ts (set_insert current reached) (push_targets current ts pending) in
    if elem current reached then again else further

-- Each round takes one state off the stack, and each transition is pushed at most once.
unfoldable pub states_reachable_from : List CeremonyTransition → String → List String
unfolding explore
states_reachable_from ts initial = (explore (suc (suc (length ts))) ts [] (initial ∷ [])).0

-- `states.iter().filter(is_terminal)`, the keys.
abbrev pub terminal_ids : Map CeremonyState → List String
terminal_ids [] = []
terminal_ids ((k, s) ∷ m) = if is_terminal s then k ∷ terminal_ids m else terminal_ids m

-- One pass of the `for` loop: the grown set, and whether it grew.
unfoldable pub grow_pass : List CeremonyTransition → List String → Bool → List String × Bool
grow_pass [] can_finish grew = (can_finish, grew)
grow_pass (t ∷ ts) can_finish grew =
    let adds = elem t.to can_finish && not (elem t.from can_finish) in
    grow_pass ts (if adds then set_insert t.from can_finish else can_finish)
      (if adds then true else grew)

-- `while grew`, on fuel.
unfoldable pub grow : ℕ → List CeremonyTransition → List String → List String
unfolding grow_pass
grow zero ts can_finish = can_finish
grow (suc fuel) ts can_finish =
    let (larger, grew) = grow_pass ts can_finish false in
    let rest = grow fuel ts larger in if grew then rest else larger

-- Every pass but the last adds the source of a transition.
unfoldable pub states_that_reach_a_terminal :
    Map CeremonyState → List CeremonyTransition → List String
unfolding grow
states_that_reach_a_terminal states ts = grow (suc (length ts)) ts (terminal_ids states)
