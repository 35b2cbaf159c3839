-- ===== src/Config/Modes.antt =====
-- The configuration that is in force, and the modes and counts that follow from it.
use system_design_hse_miem.Prelude.{Option, none, some, if◌then◌else◌, ◌≡◌, refl, arith}
use system_design_hse_miem.Prelude.Int.{pos, ◌≤ℤ◌}
use system_design_hse_miem.Values.{Parse}
use system_design_hse_miem.Config.{
  ClusterConfig, GlobalConfig, cluster_has_valid_config, update, from_cluster,
  is_synchronous_mode_strict, synchronous_node_count, min_synchronous_nodes,
}

-- The configuration seen for a cluster is the one that an update without a default puts in force.
pub from_cluster-update :
    (cluster : Option ClusterConfig) (g : GlobalConfig)
    → from_cluster cluster g ≡ update cluster none g
unfolding from_cluster update cluster_has_valid_config
from_cluster-update none g = refl
from_cluster-update (some c) g = ground arith

module _ (parse : Parse) where
  -- The number of synchronous nodes is never negative, and in strict mode it is at least one, whatever
  -- is configured.
  pub synchronous_node_count_bounds :
      (g : GlobalConfig)
      → (if is_synchronous_mode_strict parse g then pos 1 else pos 0)
        ≤ℤ synchronous_node_count parse g
  unfolding synchronous_node_count min_synchronous_nodes
  synchronous_node_count_bounds g = ground arith
