-- ===== src/Ha/Leadership.antt =====
-- `is_healthiest_node`, which the node asks when the cluster has no leader.
use system_design_hse_miem.Prelude.{
  Bool, true, false, not, ◌&&◌, ◌||◌, List, ◌++◌, [], Option, none, some, if◌then◌else◌,
}
use system_design_hse_miem.Prelude.Int.{◌-ℤ◌, ltb_ℤ}
use system_design_hse_miem.Collections.{Casing}
use system_design_hse_miem.Values.{dict, truth, has_field}
use system_design_hse_miem.Dcs.{is_set}
use system_design_hse_miem.Dcs.SyncKey.{matches}
use system_design_hse_miem.Dcs.StatusKey.{Failover}
use system_design_hse_miem.Dcs.Members.{Member, timeline}
use system_design_hse_miem.Ha.Node.{
  Ha, Outside, same_name, sync_mode_is_active, quorum_commit_mode, paused, failsafe_mode,
}
use system_design_hse_miem.Ha.Race.{is_healthiest_of}
use system_design_hse_miem.Ha.Decision.{
  Result, set_failover, select_members, by_name, remote_members, answered,
  manual_failover_process_no_leader,
}

abbrev pub is_unscheduled : {Version Time : Type 0} → Failover Version Time → Bool
is_unscheduled f = elim f.scheduled_at [ none ↦ true | some time ↦ false ]

-- `ret or False`
abbrev pub or_false : Option Bool → Bool
or_false none = false
or_false (some b) = b

module _ ⦃c : Casing⦄ {Version Time : Type 0} (outside : Outside Time) where
  -- `released_leader_key_timestamp` is not long ago.
  abbrev pub backs_off : Ha Version Time → Bool
  backs_off ha = ltb_ℤ (outside.now -ℤ ha.released_leader_key_timestamp) outside.ttl

  -- A node that runs as a primary.
  abbrev pub primary_may_lead : Ha Version Time → Bool
  primary_may_lead ha =
      if paused outside ha
      then not (is_set ha.cluster.initialize)
        || same_name (some outside.sysid) ha.cluster.initialize
      else not (ltb_ℤ outside.primary_timeline (timeline outside.readers ha.cluster))

  abbrev pub is_sync_node : Ha Version Time → Bool
  is_sync_node ha = matches ha.cluster.sync (some ha.name) true

  abbrev pub failsafe_members : Ha Version Time → List Member
  failsafe_members ha =
      if failsafe_mode outside ha
      then elim outside.failsafe [ none ↦ [] | some fs ↦ remote_members fs ]
      else []

  -- The key `/failsafe` names other nodes only.
  abbrev pub is_excluded : Ha Version Time → Bool
  is_excluded ha = failsafe_mode outside ha && elim outside.failsafe [
    | none ↦ false
    | some fs ↦ truth (dict fs) && not (has_field ha.name fs)
  ]

  -- `all_known_members` is the list of `old_cluster` itself, which `+=` extends.
  abbrev pub known_members : Ha Version Time → List Member
  known_members ha =
      let known = ha.old_cluster.members ++ failsafe_members ha in
      known ++ (if ha.old_is_cluster then known else ha.cluster.members)

  abbrev pub remember_members : Ha Version Time → List Member → Ha Version Time
  remember_members ha known = record ha {
    old_cluster = record ha.old_cluster { members = known };
    cluster = if ha.old_is_cluster then record ha.cluster { members = known } else ha.cluster;
  }

  abbrev pub racing_members : Ha Version Time → List Member → List Member
  racing_members ha known =
      if sync_mode_is_active outside ha
      then by_name [] (select_members (λ m. matches ha.cluster.sync (some m.name) true) known)
      else by_name [] known

  abbrev pub automatic_race : Ha Version Time → List Member → Bool × Ha Version Time
  automatic_race ha known =
      let remembered = remember_members ha known in
      if sync_mode_is_active outside ha
        && not (quorum_commit_mode outside ha)
        && not (is_sync_node ha)
      then (false, remembered)
      else is_healthiest_of outside remembered (racing_members ha known) true
          remembered.old_cluster.leader

  abbrev pub by_key :
      Ha Version Time → Option (Failover Version Time) → Bool → Result Version Time Bool
  by_key ha (some f) cleared =
      if is_set f.leader && sync_mode_is_active outside ha && not (is_sync_node ha)
      then record { value = false; ha = ha; clears_failover = cleared }
      else let r = manual_failover_process_no_leader outside ha f in
        record {
          value = or_false r.value;
          ha = r.ha;
          clears_failover = cleared || r.clears_failover;
        }
  by_key ha none cleared =
      if not outside.watchdog_is_healthy || is_excluded ha
      then record { value = false; ha = ha; clears_failover = cleared }
      else let r = automatic_race ha (known_members ha) in
        record { value = r.0; ha = r.1; clears_failover = cleared }

  -- What follows the manual failover of a paused cluster.
  unfoldable pub race_for_leader : Ha Version Time → Bool → Result Version Time Bool
  unfolding is_healthiest_of manual_failover_process_no_leader matches timeline sync_mode_is_active
      has_field ◌-ℤ◌
  race_for_leader ha cleared =
      if outside.is_primary
      then record { value = primary_may_lead ha; ha = ha; clears_failover = cleared }
      else if paused outside ha || ha.nofailover
      then record { value = false; ha = ha; clears_failover = cleared }
      else by_key ha (set_failover ha.cluster.failover) cleared

  abbrev pub resumed : Result Version Time (Option Bool) → Result Version Time Bool
  resumed r = elim r.value [
    | none ↦ race_for_leader r.ha r.clears_failover
    | some b ↦ record { value = b; ha = r.ha; clears_failover = r.clears_failover }
  ]

  abbrev pub paused_failover : Ha Version Time → Option (Failover Version Time)
  paused_failover ha =
      if paused outside ha && not ha.nofailover then set_failover ha.cluster.failover else none

  unfoldable pub is_healthiest_node : Ha Version Time → Result Version Time Bool
  unfolding race_for_leader
  is_healthiest_node ha =
      if backs_off ha then answered outside ha false else elim (paused_failover ha) [
        | none ↦ race_for_leader ha false
        | some f ↦
            if is_unscheduled f
            then resumed (manual_failover_process_no_leader outside ha f)
            else race_for_leader ha false
      ]
