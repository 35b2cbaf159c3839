-- ===== src/Quorum/Tests.antt =====
-- Runs of the resolver, from tests/test_quorum.py, and the properties at concrete states.
use system_design_hse_miem.Prelude.{String, List, [], ◌∷◌, ◌≡◌, refl, true, arith}
use system_design_hse_miem.Prelude.Int.{ℤ, pos, ◌+ℤ◌, ◌-ℤ◌}
use system_design_hse_miem.Collections.{
  Casing, CaseInsensitiveSet, nonempty, issubset, ◌∪◌, ◌∩◌, ◌∖◌, is_proper_subset, equals, len,
  difference_update, contains,
}
use system_design_hse_miem.Collections.Sets.{issubset→Subset}
use system_design_hse_miem.Quorum.State.{
  QuorumStateResolver, Transition, TransitionType, sync, quorum, restart, check_invariants,
}
use system_design_hse_miem.Quorum.Gen.{Outcome, done}
use system_design_hse_miem.Quorum.Iterate.{iterate, merge}
use system_design_hse_miem.Quorum.Published.{AllSafe, view}
use system_design_hse_miem.Quorum.Updates.{quorum_update, sync_update}
use system_design_hse_miem.Quorum.Safety.{iterate-AllSafe, check_invariants-overlap}
use system_design_hse_miem.Quorum.Merge.{Alternates, merge-Alternates}
use system_design_hse_miem.Quorum.Steady.{iterate-optimal}

-- The names of the tests have no upper-case letter.
instance abbrev plain : Casing
plain = record { lower = λ s. s }

abbrev set_of : List String → CaseInsensitiveSet
set_of vs = record { values = vs }

abbrev move : TransitionType → ℤ → List String → Transition
move kind n vs = record { transition_type = kind; leader = "a"; num = n; names = set_of vs }

-- Leader `a`; `/sync` key, `synchronous_standby_names`, confirmed and active nodes, nodes wanted.
abbrev resolver : ℤ → List String → ℤ → List String → ℤ → List String → ℤ → QuorumStateResolver
resolver q vs n ns k nodes wanted = record {
  leader = "a";
  quorum = q;
  voters = set_of vs;
  numsync = n;
  sync = set_of ns;
  numsync_confirmed = k;
  active = set_of nodes;
  sync_wanted = wanted;
  leader_wanted = "a";
}

-- What a test computes with.
run : QuorumStateResolver → Outcome (List Transition)
unfolding iterate ◌+ℤ◌ ◌-ℤ◌ check_invariants nonempty issubset ◌∪◌ ◌∩◌ ◌∖◌ is_proper_subset equals
    len sync_update quorum_update difference_update contains
run s = iterate s

-- `test_1111`
abbrev first_node : QuorumStateResolver
first_node = resolver (pos 0) [] (pos 0) [] (pos 0) ("b" ∷ []) (pos 2)

iterate-first_node :
    iterate first_node ≡ done (move sync (pos 1) ("b" ∷ []) ∷ move restart (pos 0) [] ∷ [])
unfolding run
iterate-first_node = refl

-- `test_1222`, "Add node by increasing quorum"
abbrev second_node : QuorumStateResolver
second_node = resolver (pos 0) ("b" ∷ []) (pos 1) ("b" ∷ []) (pos 1) ("b" ∷ "c" ∷ []) (pos 1)

abbrev second_moves : List Transition
second_moves = move quorum (pos 1) ("b" ∷ "c" ∷ []) ∷ move sync (pos 1) ("b" ∷ "c" ∷ []) ∷ []

iterate-second_node : iterate second_node ≡ done second_moves
unfolding run
iterate-second_node = refl

iterate-AllSafe_example : AllSafe "a" (view second_node) second_moves
iterate-AllSafe_example = iterate-AllSafe second_node second_moves iterate-second_node

abbrev two_voters : QuorumStateResolver
two_voters =
    resolver (pos 1) ("b" ∷ "c" ∷ []) (pos 1) ("b" ∷ "c" ∷ []) (pos 1) ("b" ∷ "c" ∷ []) (pos 1)

abbrev acked : CaseInsensitiveSet
acked = set_of ("a" ∷ "b" ∷ [])

abbrev seen : CaseInsensitiveSet
seen = set_of ("c" ∷ "b" ∷ [])

check_invariants-overlap_example :
    (x : String) × (contains acked x ≡ true) × (contains seen x ≡ true)
unfolding run
check_invariants-overlap_example =
    check_invariants-overlap two_voters acked seen refl refl (refl, (refl, tt)) (refl, (refl, tt))
      (issubset→Subset acked (set_of ("b" ∷ "c" ∷ "a" ∷ [])) refl)
      (issubset→Subset seen (set_of ("b" ∷ "c" ∷ "a" ∷ [])) refl) (omega arith) (omega arith)

iterate-optimal_example : iterate two_voters ≡ done []
unfolding run
iterate-optimal_example =
    iterate-optimal "a" (pos 1) (pos 1) (set_of ("b" ∷ "c" ∷ [])) (refl, (refl, tt)) refl

merge-Alternates_example : Alternates (merge second_moves)
merge-Alternates_example = merge-Alternates second_moves
