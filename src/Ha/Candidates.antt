-- ===== src/Ha/Candidates.antt =====
-- What holds of a node that is found to be the healthiest, in every mode.
use system_design_hse_miem.Prelude.{
  Bool, true, false, not, ◌&&◌, ◌||◌, List, Option, none, some, ◌≡◌, refl, arith, All, Bool-cases,
  inl, inr,
}
use system_design_hse_miem.Collections.{Casing}
use system_design_hse_miem.Dcs.{is_set}
use system_design_hse_miem.Dcs.StatusKey.{Failover}
use system_design_hse_miem.Dcs.Members.{Member, Leader}
use system_design_hse_miem.Ha.Node.{Ha, Outside, sync_mode_is_active, quorum_commit_mode, paused}
use system_design_hse_miem.Ha.Race.{is_healthiest_of, rules_of, first_tally}
use system_design_hse_miem.Ha.Decision.{set_failover, has_leader, is_requested}
use system_design_hse_miem.Ha.Leadership.{
  is_sync_node, by_key, race_for_leader, is_healthiest_node, backs_off, is_excluded,
  paused_failover,
}
use system_design_hse_miem.Ha.Votes.{IsDeferred, race-IsDeferred}
use system_design_hse_miem.Ha.Wins.{answers, is_healthiest→wins}

-- A `/failover` key without a leader asks for a failover that need not heed `/sync`.
abbrev pub is_forced : {Version Time : Type 0} → Option (Failover Version Time) → Bool
is_forced f = is_requested f && not (has_leader f)

module _ ⦃c : Casing⦄ {Version Time : Type 0} (outside : Outside Time) where
  -- If a node finds itself the healthiest of some members, then each answer of a node that may
  -- promote is from a replica; and one that is ahead of the node is, in an active synchronous mode, the
  -- leader of the `/sync` key.
  pub is_healthiest_of-NoneAhead :
      (ha : Ha Version Time) (ms : List Member) (check : Bool) (leader : Option (Leader Version))
      → (is_healthiest_of outside ha ms check leader).0 ≡ true
      → All (IsDeferred outside (rules_of outside ha leader)) (answers outside ha ms)
  is_healthiest_of-NoneAhead ha ms check leader h =
      let (t, e, _) = is_healthiest→wins outside ha ms check leader h in
      race-IsDeferred outside (rules_of outside ha leader) (answers outside ha ms)
        (first_tally outside ha) t e

  refused :
      (ha : Ha Version Time) (f : Option (Failover Version Time)) (cleared : Bool)
      → is_forced f ≡ false
      → sync_mode_is_active outside ha ≡ true
      → quorum_commit_mode outside ha ≡ false
      → is_sync_node outside ha ≡ false
      → (by_key outside ha f cleared).value ≡ false
  refused ha none cleared calm active single e =
      elim (Bool-cases (not outside.watchdog_is_healthy || is_excluded outside ha)) [
        | inl bad ↦ rw bad refl
        | inr good ↦ rw (good, active, single, e) refl
      ]
  refused ha (some f) cleared calm active single e =
      let asked : is_set f.leader ≡ true = ground arith in rw (asked, active, e) refl

  by_key-sync :
      (ha : Ha Version Time) (f : Option (Failover Version Time)) (cleared : Bool)
      → is_forced f ≡ false
      → sync_mode_is_active outside ha ≡ true
      → quorum_commit_mode outside ha ≡ false
      → (by_key outside ha f cleared).value ≡ true
      → is_sync_node outside ha ≡ true
  by_key-sync ha f cleared calm active single h = elim (Bool-cases (is_sync_node outside ha)) [
    | inl e ↦ e
    | inr e ↦ absurd (cc (refused ha f cleared calm active single e, h))
  ]

  race-by_key :
      (ha : Ha Version Time)
      → paused outside ha ≡ false
      → outside.is_primary ≡ false
      → (race_for_leader outside ha false).value ≡ true
      → (by_key outside ha (set_failover ha.cluster.failover) false).value ≡ true
  unfolding race_for_leader
  race-by_key ha running replica h = elim (Bool-cases ha.nofailover) [
    | inl e ↦
        let no : (race_for_leader outside ha false).value ≡ false = rw (replica, running, e) refl in
        absurd (cc (no, h))
    | inr e ↦
        let same : (race_for_leader outside ha false).value
            ≡ (by_key outside ha (set_failover ha.cluster.failover) false).value =
          rw (replica, running, e) refl in
        cc (same, h)
  ]

  reaches_race :
      (ha : Ha Version Time)
      → paused outside ha ≡ false
      → outside.is_primary ≡ false
      → (is_healthiest_node outside ha).value ≡ true
      → (by_key outside ha (set_failover ha.cluster.failover) false).value ≡ true
  unfolding is_healthiest_node
  reaches_race ha running replica h = elim (Bool-cases (backs_off outside ha)) [
    | inl e ↦
        let no : (is_healthiest_node outside ha).value ≡ false = rw e refl in absurd (cc (no, h))
    | inr e ↦
        let unpaused : paused_failover outside ha ≡ none = rw running refl in
        let same : (is_healthiest_node outside ha).value
            ≡ (race_for_leader outside ha false).value =
          rw (e, unpaused) refl in
        race-by_key ha running replica (cc (same, h))
  ]

  -- On a running node that is not a primary of a cluster that is not paused, in an active synchronous mode
  -- other than quorum commit, and unless a failover without a leader is asked for: the node finds
  -- itself the healthiest only if the `/sync` key names it.
  pub is_healthiest_node-sync :
      (ha : Ha Version Time)
      → paused outside ha ≡ false
      → outside.is_primary ≡ false
      → sync_mode_is_active outside ha ≡ true
      → quorum_commit_mode outside ha ≡ false
      → is_forced (set_failover ha.cluster.failover) ≡ false
      → (is_healthiest_node outside ha).value ≡ true
      → is_sync_node outside ha ≡ true
  is_healthiest_node-sync ha running replica active single calm h =
      by_key-sync ha (set_failover ha.cluster.failover) false calm active single
        (reaches_race ha running replica h)
