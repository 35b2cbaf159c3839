-- ===== src/Ha/Growth.antt =====
-- What the leader race leaves in the list of the members of the old cluster.
use system_design_hse_miem.Prelude.{
  true, false, ◌&&◌, ◌||◌, ◌∙◌, not, List, ◌++◌, none, ◌≡◌, refl, arith, length, ◌+◌, ◌≤◌,
  length-append, Bool-cases, inl, inr, ap, else_branch,
}
use system_design_hse_miem.Collections.{Casing}
use system_design_hse_miem.Dcs.Members.{Member}
use system_design_hse_miem.Ha.Node.{Ha, Outside, sync_mode_is_active, quorum_commit_mode, paused}
use system_design_hse_miem.Ha.Race.{is_healthiest_of}
use system_design_hse_miem.Ha.Decision.{set_failover}
use system_design_hse_miem.Ha.Leadership.{
  is_sync_node, by_key, race_for_leader, is_healthiest_node, automatic_race, known_members,
  backs_off, is_excluded, paused_failover, failsafe_members,
}

module _ ⦃c : Casing⦄ {Version Time : Type 0} (outside : Outside Time) where
  -- The guards before an automatic race.
  pub record IsRacing (ha : Ha Version Time) : Type 0 where
    pub no_back_off : backs_off outside ha ≡ false
    pub running : paused outside ha ≡ false
    pub replica : outside.is_primary ≡ false
    pub promotable : ha.nofailover ≡ false
    pub no_failover : set_failover ha.cluster.failover ≡ none
    pub watched : outside.watchdog_is_healthy ≡ true
    pub included : is_excluded outside ha ≡ false

  automatic-members :
      (ha : Ha Version Time) (known : List Member)
      → (automatic_race outside ha known).1.old_cluster.members ≡ known
  unfolding is_healthiest_of
  automatic-members ha known =
      elim (Bool-cases (
        sync_mode_is_active outside ha
        && not (quorum_commit_mode outside ha)
        && not (is_sync_node outside ha))) [ inl e ↦ rw e refl | inr e ↦ rw e refl ]

  raced :
      (ha : Ha Version Time)
      → IsRacing ha
      → race_for_leader outside ha false ≡ by_key outside ha none false
  unfolding race_for_leader
  raced ha h =
      else_branch outside.is_primary _ _ h.replica
      ∙ else_branch (paused outside ha || ha.nofailover) _ _
          (ground (arith, h.running, h.promotable))
      ∙ ap (λ o. by_key outside ha o false) h.no_failover

  raced-members :
      (ha : Ha Version Time)
      → IsRacing ha
      → (is_healthiest_node outside ha).ha.old_cluster.members ≡ known_members outside ha
  unfolding is_healthiest_node
  raced-members ha h =
      let unpaused : paused_failover outside ha ≡ none = rw h.running refl in
      let started : is_healthiest_node outside ha ≡ race_for_leader outside ha false =
        rw (h.no_back_off, unpaused) refl in
      let free : (not outside.watchdog_is_healthy || is_excluded outside ha) ≡ false =
        ground (arith, h.watched, h.included) in
      ap (λ r. r.ha.old_cluster.members) (started ∙ raced ha h ∙ else_branch _ _ _ free)
      ∙ automatic-members ha (known_members outside ha)

  -- A node that decides the race by itself, where the old cluster and the cluster are two objects, then
  -- holds a list of the members of the old cluster that is longer by all members of the cluster, also
  -- those that were on it.
  pub is_healthiest_node-grows :
      (ha : Ha Version Time)
      → IsRacing ha
      → ha.old_is_cluster ≡ false
      → length ha.old_cluster.members + length ha.cluster.members
        ≤ length (is_healthiest_node outside ha).ha.old_cluster.members
  is_healthiest_node-grows ha h two =
      let known = ha.old_cluster.members ++ failsafe_members outside ha in
      let list : known_members outside ha ≡ known ++ ha.cluster.members =
        ap (λ ms. known ++ ms) (else_branch ha.old_is_cluster known ha.cluster.members two) in
      omega (
        arith,
        ap (λ ms. length ms) (raced-members ha h),
        ap (λ ms. length ms) list,
        length-append known ha.cluster.members,
        length-append ha.old_cluster.members (failsafe_members outside ha),
      )
