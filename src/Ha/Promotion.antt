-- ===== src/Ha/Promotion.antt =====
-- `process_sync_replication_prepromote`: the winner of the race sets `synchronous_standby_names`
-- before it is promoted.
use system_design_hse_miem.Prelude.{
  Bool, true, false, not, ◌&&◌, ◌||◌, List, [], ◌∷◌, ◌++◌, Option, none, some, if◌then◌else◌,
}
use system_design_hse_miem.Prelude.Int.{ℤ, pos, ◌+ℤ◌, ◌-ℤ◌, ltb_ℤ}
use system_design_hse_miem.Collections.{
  Casing, CaseInsensitiveSet, empty, contains, of_list, discard, len,
}
use system_design_hse_miem.Dcs.SyncKey.{SyncState, sync_members, write_sync_state, is_empty_sync}
use system_design_hse_miem.Ha.Node.{
  Ha, Outside, synchronous_mode, quorum_commit_mode, quorum_commit_mode_is_active,
}
use system_design_hse_miem.Values.{Value}
use system_design_hse_miem.Config.{min_synchronous_nodes}
use system_design_hse_miem.Ha.Writes.{Write, key, names}

-- What else may be done to the two settings: the key is deleted, no synchronous names are set, or
-- those that the user has configured.
pub data Step : Type 0 where
  writes : Write → Step
  deletes_key : Step
  clears_names : Step
  restores_names : Step

-- The answer, and what was done before it.
pub record Prepared : Type 0 where
  pub value : Bool
  pub steps : List Step

-- The synchronous nodes and their number.
pub record Chosen : Type 0 where
  pub sync : CaseInsensitiveSet
  pub numsync : ℤ

abbrev pub names_set : Chosen → List Step → Prepared
names_set ch before = record {
  value = true;
  steps = before ++ (writes (names ch.sync ch.numsync) ∷ []);
}

module _ ⦃c : Casing⦄ {Version Time : Type 0} (outside : Outside Time) where
  -- What the voters and the quorum of the `/sync` key leave for the new primary.
  abbrev pub from_quorum : Ha Version Time → Chosen
  from_quorum ha =
      let members = of_list (sync_members ha.cluster.sync) in
      let numsync = len members -ℤ ha.cluster.sync.quorum -ℤ pos 1 in
      if not (contains members ha.name)
      then record { sync = members; numsync = numsync +ℤ pos 1 }
      else record { sync = discard members ha.name; numsync = numsync }

  abbrev pub from_config : Ha Version Time → Chosen
  from_config ha = record { sync = empty; numsync = min_synchronous_nodes outside.parse ha.config }

  abbrev pub chosen : Ha Version Time → Chosen
  chosen ha = if quorum_commit_mode_is_active outside ha then from_quorum ha else from_config ha

  -- `deleted` is the store's answer to `delete_sync_state`.
  unfoldable pub disable_synchronous_replication : Bool → Ha Version Time → List Step
  disable_synchronous_replication deleted ha =
      if not (is_empty_sync ha.cluster.sync) && deleted
      then deletes_key ∷ clears_names ∷ restores_names ∷ []
      else restores_names ∷ []

  abbrev pub key_reset : Ha Version Time → Option (SyncState Version) → Prepared
  key_reset ha none = record { value = false; steps = [] }
  key_reset ha (some s) = names_set (from_config ha) (writes (key ha.name empty (pos 0)) ∷ [])

  unfoldable pub process_sync_replication_prepromote :
      Bool → (Value → Option Version → Option Version) → Ha Version Time → Prepared
  unfolding disable_synchronous_replication write_sync_state quorum_commit_mode_is_active discard
      len contains ◌-ℤ◌ ◌+ℤ◌
  process_sync_replication_prepromote deleted set_sync_state_value ha =
      let ch = chosen ha in
      if not (synchronous_mode outside ha)
      then record { value = true; steps = disable_synchronous_replication deleted ha }
      else if not (quorum_commit_mode outside ha)
          || (not ha.supports_multiple_sync && ltb_ℤ (pos 1) ch.numsync)
      then key_reset ha (
          write_sync_state outside.readers set_sync_state_value (some ha.name) [] (some (pos 0))
            ha.cluster.sync.version)
      else names_set ch []
