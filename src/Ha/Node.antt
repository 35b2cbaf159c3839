-- ===== src/Ha/Node.antt =====
-- What a node knows of the cluster and of itself, and the modes that are in force.
use text.Mathlib.Text.{◌==◌}
use system_design_hse_miem.Prelude.{String, Bool, true, false, not, ◌&&◌, List, Option, none, some}
use system_design_hse_miem.Prelude.Int.{ℤ, ◌-ℤ◌, ltb_ℤ}
use system_design_hse_miem.Collections.{Casing}
use system_design_hse_miem.Values.{Fields, Parse}
use system_design_hse_miem.Config.{
  GlobalConfig, check_mode, is_paused, is_synchronous_mode, is_quorum_commit_mode,
  maximum_lag_on_failover, get_int,
}
use system_design_hse_miem.Dcs.{Readers}
use system_design_hse_miem.Dcs.SyncKey.{is_empty_sync}
use system_design_hse_miem.Dcs.Members.{Member, Cluster}

-- The attributes of `Ha` that the leader race reads, the tags of the node among them; and whether
-- `old_cluster` and `cluster` are one object.
pub record Ha (Version Time : Type 0) : Type 0 where
  pub cluster : Cluster Version Time
  pub old_cluster : Cluster Version Time
  pub old_is_cluster : Bool
  pub config : GlobalConfig
  pub name : String
  pub supports_multiple_sync : Bool
  pub nofailover : Bool
  pub failover_priority : ℤ
  pub last_timeline : Option ℤ
  pub released_leader_key_timestamp : ℤ

-- What comes from outside during one call: the database, the other nodes, the clock, the watchdog,
-- the `/failsafe` key, and the readers of values.
pub record Outside (Time : Type 0) : Type 0 where
  pub parse : Parse
  pub readers : Readers Time
  pub request : Member → Option Fields
  pub as_completed : List Member → List Member
  pub replica_cached_timeline : ℤ → Option ℤ
  pub last_operation : ℤ
  pub is_primary : Bool
  pub primary_timeline : ℤ
  pub sysid : String
  pub watchdog_is_healthy : Bool
  pub ttl : ℤ
  pub now : ℤ
  pub failsafe : Option Fields

-- `a == b` of two texts that may be `None`
abbrev pub same_name : Option String → Option String → Bool
same_name none b = elim b [ none ↦ true | some t ↦ false ]
same_name (some s) b = elim b [ none ↦ false | some t ↦ s == t ]

module _ ⦃c : Casing⦄ {Version Time : Type 0} (outside : Outside Time) where
  abbrev pub synchronous_mode : Ha Version Time → Bool
  synchronous_mode ha = is_synchronous_mode outside.parse ha.config

  abbrev pub quorum_commit_mode : Ha Version Time → Bool
  quorum_commit_mode ha = is_quorum_commit_mode ha.config && ha.supports_multiple_sync

  unfoldable pub sync_mode_is_active : Ha Version Time → Bool
  unfolding is_synchronous_mode
  sync_mode_is_active ha = synchronous_mode ha && not (is_empty_sync ha.cluster.sync)

  unfoldable pub quorum_commit_mode_is_active : Ha Version Time → Bool
  unfolding is_quorum_commit_mode
  quorum_commit_mode_is_active ha = quorum_commit_mode ha && not (is_empty_sync ha.cluster.sync)

  abbrev pub paused : Ha Version Time → Bool
  paused ha = is_paused outside.parse ha.config

  abbrev pub failsafe_mode : Ha Version Time → Bool
  failsafe_mode ha = check_mode outside.parse "failsafe_mode" ha.config

  abbrev pub checks_timeline : Ha Version Time → Bool
  checks_timeline ha = check_mode outside.parse "check_timeline" ha.config

  unfoldable pub is_lagging : Ha Version Time → ℤ → Bool
  unfolding get_int ◌-ℤ◌
  is_lagging ha wal_position =
      ltb_ℤ (maximum_lag_on_failover outside.parse ha.config)
        (ha.cluster.status.last_lsn -ℤ wal_position)
