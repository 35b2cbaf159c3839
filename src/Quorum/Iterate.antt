-- ===== src/Quorum/Iterate.antt =====
-- `__iter__`: transitions of the same type in a row are merged.
use system_design_hse_miem.Prelude.{Bool, true, false, List, [], ◌∷◌, if◌then◌else◌}
use system_design_hse_miem.Collections.{Casing}
use system_design_hse_miem.Quorum.State.{
  QuorumStateResolver, Transition, TransitionType, sync, quorum, restart,
}
use system_design_hse_miem.Quorum.Gen.{Outcome, done, quorum_error, assertion_error}
use system_design_hse_miem.Quorum.Phases.{generate_transitions}

abbrev pub same_type : TransitionType → TransitionType → Bool
same_type sync sync = true
same_type quorum quorum = true
same_type restart restart = true
same_type _ _ = false

-- The loop of `__iter__` over the list of transitions.
unfoldable pub merge : List Transition → List Transition
merge [] = []
merge (t ∷ []) = t ∷ []
merge (t ∷ u ∷ ts) =
    let rest = merge (u ∷ ts) in
    if same_type t.transition_type u.transition_type
    then rest
    else if same_type t.transition_type restart
    then t ∷ []
    else t ∷ rest

abbrev pub merged : Outcome Unit × QuorumStateResolver × List Transition → Outcome (List Transition)
merged (done _, _, ts) = done (merge ts)
merged (quorum_error, _, _) = quorum_error
merged (assertion_error, _, _) = assertion_error

-- `list(QuorumStateResolver(...))`: what raises in `_generate_transitions` raises before the first
-- transition is yielded.
unfoldable pub iterate : ⦃c : Casing⦄ → QuorumStateResolver → Outcome (List Transition)
unfolding generate_transitions merge
iterate s = merged (generate_transitions s)
