-- ===== src/Ha/Tests.antt =====
-- Runs of the leader race, and its properties at a concrete node.
use mathlib.Core.List.{Permᴰ}
use system_design_hse_miem.Prelude.{[], ◌∷◌, ◌≡◌, refl, true, none, arith, All, length, ◌≤◌}
use system_design_hse_miem.Prelude.Int.{pos, ◌≤ℤ◌}
use system_design_hse_miem.Collections.Sets.{issubset→Subset}
use system_design_hse_miem.Ha.Race.{rules_of}
use system_design_hse_miem.Ha.Leadership.{is_healthiest_node, is_sync_node}
use system_design_hse_miem.Ha.Votes.{IsDeferred}
use system_design_hse_miem.Ha.Wins.{answers}
use system_design_hse_miem.Ha.Candidates.{is_healthiest_of-NoneAhead, is_healthiest_node-sync}
use system_design_hse_miem.Ha.Growth.{is_healthiest_node-grows}
use system_design_hse_miem.Ha.Commits.{winner-HasCommit}
use system_design_hse_miem.Ha.Fixture.{
  plain, node, node_b, outside, run, resolver_a, acked, node_b_single,
}

run-b : run node_b ≡ true
unfolding run
run-b = refl

winner-HasCommit_example : pos 100 ≤ℤ pos 100
unfolding run
winner-HasCommit_example =
    winner-HasCommit outside node_b (node "b" ∷ node "c" ∷ []) true none resolver_a acked (pos 100)
      refl refl refl (Permᴰ.cons refl Permᴰ.nil) (refl, (refl, tt))
      (record { leader = refl; quorum = refl; voters = refl }) refl refl (refl, (refl, tt))
      (issubset→Subset acked (record { values = "b" ∷ "c" ∷ "a" ∷ [] }) refl) (omega arith)
      (λ _. omega arith) (λ mine _ _. omega arith, tt)

is_healthiest_of-NoneAhead_example :
    All (IsDeferred outside (rules_of outside node_b none)) (answers outside node_b (node "c" ∷ []))
unfolding run
is_healthiest_of-NoneAhead_example =
    is_healthiest_of-NoneAhead outside node_b (node "c" ∷ []) true none refl

is_healthiest_node-sync_example : is_sync_node outside node_b_single ≡ true
unfolding run
is_healthiest_node-sync_example =
    is_healthiest_node-sync outside node_b_single refl refl refl refl refl refl

is_healthiest_node-grows_example :
    4 ≤ length (is_healthiest_node outside node_b).ha.old_cluster.members
unfolding run
is_healthiest_node-grows_example =
    is_healthiest_node-grows outside node_b
      (record {
        no_back_off = refl;
        running = refl;
        replica = refl;
        promotable = refl;
        no_failover = refl;
        watched = refl;
        included = refl;
      })
      refl
