-- ===== src/Quorum/Safety.antt =====
-- The promise of the resolver: no transition opens a way to lose a commit.
use mathlib.Core.Path.{subst}
use system_design_hse_miem.Prelude.{String, true, List, ◌≡◌, arith}
use system_design_hse_miem.Prelude.Int.{pos, ◌+ℤ◌, ◌≤ℤ◌, int_laws}
use system_design_hse_miem.Collections.{Casing, CaseInsensitiveSet, contains, len, ◌∪◌, nonempty}
use system_design_hse_miem.Collections.Sets.{Subset, HasNodup, contains-∪}
use system_design_hse_miem.Collections.Overlap.{overlap}
use system_design_hse_miem.Quorum.State.{QuorumStateResolver, Transition, only, check_invariants}
use system_design_hse_miem.Quorum.Gen.{Outcome, done, quorum_error, assertion_error}
use system_design_hse_miem.Quorum.Phases.{generate_transitions}
use system_design_hse_miem.Quorum.Iterate.{merged, iterate}
use system_design_hse_miem.Quorum.Published.{View, view, AllSafe, Follows}
use system_design_hse_miem.Quorum.UpdatesSafe.{check→IsSafe}
use system_design_hse_miem.Quorum.FailoverSafe.{generate_transitions-Tracks}
use system_design_hse_miem.Quorum.Merge.{merge-AllSafe}

done-injective : {A : Type 0} {a b : A} → done a ≡ done b → a ≡ b
done-injective e = cc

module _ ⦃c : Casing⦄ where
  merged-AllSafe :
      (name : String) (v : View) (out : Outcome Unit × QuorumStateResolver × List Transition)
      (ts : List Transition)
      → Follows name v out
      → merged out ≡ done ts
      → AllSafe name v ts
  merged-AllSafe name v (done _, s, us) ts h e =
      subst (AllSafe name v) (done-injective e) (merge-AllSafe name v us h.0)
  merged-AllSafe name v (quorum_error, s, us) ts h e = absurd (cc e)
  merged-AllSafe name v (assertion_error, s, us) ts h e = absurd (cc e)

  -- If the iteration ends without an exception, whatever the state at its start, then each transition
  -- it yields has a number in range, and each that writes leaves a `/sync` key and a
  -- `synchronous_standby_names` of which one, with its leader, holds the nodes of the other; and if
  -- the key has voters, then as many nodes as a commit needs and as many as a leader race needs are
  -- too many to be disjoint. For a key without voters only the first is stated.
  pub iterate-AllSafe :
      (s : QuorumStateResolver) (ts : List Transition)
      → iterate s ≡ done ts
      → AllSafe s.leader_wanted (view s) ts
  iterate-AllSafe s ts e =
      merged-AllSafe s.leader_wanted (view s) (generate_transitions s) ts
        (generate_transitions-Tracks.at s) (unfold iterate in e)

  -- In a state that passes `check_invariants` and has voters: if more than `numsync` of the
  -- synchronous nodes and the wanted leader confirmed a commit, and more than `quorum` of the voters
  -- and the leader are seen in a leader race, then a node of the race has confirmed the commit.
  pub check_invariants-overlap :
      (s : QuorumStateResolver) (acked seen : CaseInsensitiveSet)
      → check_invariants s ≡ true
      → nonempty s.voters ≡ true
      → HasNodup acked
      → HasNodup seen
      → Subset acked (s.sync ∪ only s.leader_wanted)
      → Subset seen (s.voters ∪ only s.leader)
      → s.numsync +ℤ pos 1 ≤ℤ len acked
      → s.quorum +ℤ pos 1 ≤ℤ len seen
      → (x : String) × (contains acked x ≡ true) × (contains seen x ≡ true)
  check_invariants-overlap s acked seen checked some_voter da ds sa ss na ns =
      let voters = s.voters ∪ only s.leader in
      let nodes = s.sync ∪ only s.leader_wanted in
      overlap acked seen (voters ∪ nodes) da ds (λ x m. grind (arith, contains-∪, sa x m))
        (λ x m. grind (arith, contains-∪, ss x m))
        (unfold len in omega (int_laws, (check→IsSafe s checked).overlap some_voter, na, ns))
