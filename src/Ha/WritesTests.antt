-- ===== src/Ha/WritesTests.antt =====
-- Runs of the primary, and its properties at concrete settings.
use system_design_hse_miem.Prelude.{List, ℕ, [], ◌∷◌, ◌≡◌, refl, true, false, none, arith, All}
use system_design_hse_miem.Prelude.Int.{ℤ, pos}
use system_design_hse_miem.Collections.{
  CaseInsensitiveSet, empty, of_list, ◌∩◌, ◌∖◌, add, is_proper_subset, equals, difference_update,
}
use system_design_hse_miem.Collections.Sets.{issubset→Subset}
use system_design_hse_miem.Collections.Dict.{has_key}
use system_design_hse_miem.Dcs.SyncKey.{sync_from_node, empty_sync}
use system_design_hse_miem.Ha.Writes.{Write, names, Rounds, process_quorum_replication}
use system_design_hse_miem.Ha.WritesSafe.{write, IsSafeRound, process_quorum_replication-safe}
use system_design_hse_miem.Ha.WritesEnd.{process_quorum_replication-finished}
use system_design_hse_miem.Ha.Promotion.{writes, process_sync_replication_prepromote}
use system_design_hse_miem.Ha.PromotionSafe.{key_view, prepromote-IsSafe}
use system_design_hse_miem.Ha.Multisync.{process_multisync_replication}
use system_design_hse_miem.Ha.Nested.{Nested}
use system_design_hse_miem.Ha.MultisyncNested.{process_multisync_replication-Nested}
use system_design_hse_miem.Quorum.Published.{IsSafe}
use system_design_hse_miem.Quorum.Iterate.{iterate}
use system_design_hse_miem.Quorum.Updates.{quorum_update, sync_update}
use system_design_hse_miem.Sync.Handler.{new_handler}
use system_design_hse_miem.Ha.Fixture.{
  plain, key_of_a, node_b, outside, run, primary_a, primary_single, key_b, view_b,
}

rounds_of_a : ℕ → Rounds
unfolding sync_from_node process_quorum_replication run iterate ◌∩◌ ◌∖◌ is_proper_subset equals
    sync_update quorum_update difference_update has_key add
rounds_of_a fuel = process_quorum_replication primary_a fuel (empty_sync none) new_handler

-- Each round sets `synchronous_standby_names` and waits; the names are never seen to change.
rounds_of_a-6 : (rounds_of_a 6).is_finished ≡ true
unfolding rounds_of_a
rounds_of_a-6 = refl

process_quorum_replication-safe_example :
    All
      (IsSafeRound primary_a)
      (process_quorum_replication primary_a 11 (empty_sync none) new_handler).log
process_quorum_replication-safe_example =
    process_quorum_replication-safe primary_a 11 (empty_sync none) new_handler

process_quorum_replication-finished_example :
    (process_quorum_replication primary_a 11 (empty_sync none) new_handler).is_finished ≡ true
process_quorum_replication-finished_example =
    process_quorum_replication-finished primary_a (λ r. omega arith) (empty_sync none) new_handler

prepromote-IsSafe_example :
    (chosen_nodes : CaseInsensitiveSet) × (num : ℤ) × (process_sync_replication_prepromote outside
        false
        (λ value version. none)
        node_b
      ≡ record { value = true; steps = writes (names chosen_nodes num) ∷ [] })
    × IsSafe "b" (write (names chosen_nodes num) (key_view key_of_a (pos 0) empty))
unfolding run
prepromote-IsSafe_example =
    prepromote-IsSafe outside false (λ value version. none) node_b (pos 0) empty refl refl

writes_of_single : List Write
unfolding process_multisync_replication run rounds_of_a
writes_of_single = process_multisync_replication primary_single false key_b new_handler

process_multisync_replication-Nested_example :
    Nested view_b (process_multisync_replication primary_single false key_b new_handler)
unfolding writes_of_single
process_multisync_replication-Nested_example =
    process_multisync_replication-Nested primary_single false key_b new_handler key_b view_b refl
      refl (issubset→Subset view_b.voters (of_list ("b" ∷ [])) refl)
      (record {
        active = issubset→Subset empty view_b.sync refl;
        named = issubset→Subset empty view_b.sync refl;
      })
      (issubset→Subset empty view_b.sync refl)
