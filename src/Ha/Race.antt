-- ===== src/Ha/Race.antt =====
-- `_is_healthiest_node`: a node compares itself with the others before it takes the leader lock.
use text.Mathlib.Text.{◌==◌}
use system_design_hse_miem.Prelude.{
  ℕ, ◌+◌, String, Bool, true, false, not, ◌&&◌, ◌||◌, List, [], ◌∷◌, map, Option, none, some,
  if◌then◌else◌,
}
use system_design_hse_miem.Prelude.Int.{ℤ, pos, negsuc, ◌+ℤ◌, ltb_ℤ, leb_ℤ, eqb_ℤ}
use system_design_hse_miem.Collections.{Casing, CaseInsensitiveSet, empty, contains, of_list}
use system_design_hse_miem.Values.{truth}
use system_design_hse_miem.Tags.{nofailover, failover_priority}
use system_design_hse_miem.Config.{is_standby_cluster}
use system_design_hse_miem.Dcs.{is_set}
use system_design_hse_miem.Dcs.SyncKey.{SyncState, sync_members, leader_matches}
use system_design_hse_miem.Dcs.Members.{Member, Leader, leader_member, api_url, tags, timeline}
use system_design_hse_miem.Ha.Answers.{
  MemberStatus, status_tags, failover_limitation, fetch_nodes_statuses,
}
use system_design_hse_miem.Ha.Node.{
  Ha, Outside, same_name, sync_mode_is_active, quorum_commit_mode_is_active, checks_timeline,
  is_lagging,
}

-- The two counters of the loop.
pub record Tally : Type 0 where
  pub quorum_votes : ℤ
  pub nodes_ahead : ℕ

-- What the loop compares the answers with.
pub record Rules (Version : Type 0) : Type 0 where
  pub my_wal_position : ℤ
  pub my_priority : ℤ
  pub quorum_is_active : Bool
  pub sync_is_active : Bool
  pub sync : SyncState Version
  pub voting_set : CaseInsensitiveSet
  pub leader_name : Option String

abbrev pub is_limited : Option String → Bool
is_limited none = false
is_limited (some reason) = true

-- `in_recovery is False`
abbrev pub is_running_primary : MemberStatus → Bool
is_running_primary st = elim st.in_recovery [ none ↦ false | some recovery ↦ not recovery ]

abbrev pub is_known : Option ℤ → Bool
is_known none = false
is_known (some n) = true

abbrev pub older_than : ℤ → Option ℤ → Bool
older_than cluster_timeline none = true
older_than cluster_timeline (some n) = ltb_ℤ n cluster_timeline

-- `if my_timeline: self._last_timeline = my_timeline`
abbrev pub noted : Option ℤ → Option ℤ → Option ℤ
noted none last = last
noted (some n) last = if eqb_ℤ n (pos 0) then last else some n

-- The conditions of the loop's body for one answer.
pub record Heard : Type 0 where
  pub is_barred : Bool
  pub runs_as_primary : Bool
  pub is_ahead : Bool
  pub is_former_leader : Bool
  pub is_up : Bool
  pub low_priority : Bool
  pub quorum_vote : Bool

-- The body of the loop; `none` is `return False`.
abbrev pub turn : Heard → Tally → Option Tally
turn heard t =
    if heard.is_barred
    then some t
    else if heard.runs_as_primary
    then none
    else if heard.is_ahead
    then if not heard.is_former_leader
      then none
      else some (record t { nodes_ahead = t.nodes_ahead + 1 })
    else if heard.is_up
    then if heard.low_priority
      then none
      else if heard.quorum_vote
      then some (record t { quorum_votes = t.quorum_votes +ℤ pos 1 })
      else some t
    else some t

module _ ⦃c : Casing⦄ {Version Time : Type 0} (outside : Outside Time) where
  abbrev pub prefers : Rules Version → MemberStatus → Bool
  prefers rules st =
      eqb_ℤ rules.my_wal_position st.wal_position
      && ltb_ℤ rules.my_priority (failover_priority outside.parse (status_tags st))
      && not (is_set rules.leader_name && same_name rules.leader_name (some st.member.name))

  abbrev pub heard : Rules Version → MemberStatus → Heard
  heard rules st = record {
    is_barred = is_limited (failover_limitation outside.parse st);
    runs_as_primary = is_running_primary st;
    is_ahead = ltb_ℤ rules.my_wal_position st.wal_position;
    is_former_leader = rules.sync_is_active && leader_matches rules.sync (some st.member.name);
    is_up = ltb_ℤ (pos 0) st.wal_position;
    low_priority =
        prefers rules st
        && (not rules.quorum_is_active || contains rules.voting_set st.member.name);
    quorum_vote = contains rules.voting_set st.member.name;
  }

  unfoldable pub judge : Rules Version → MemberStatus → Tally → Option Tally
  unfolding failover_limitation failover_priority leader_matches contains ◌+ℤ◌
  judge rules st t = turn (heard rules st) t

  unfoldable pub race : Rules Version → List MemberStatus → Tally → Option Tally
  unfolding judge
  race rules [] t = some t
  race rules (st ∷ sts) t = elim (judge rules st t) [ none ↦ none | some u ↦ race rules sts u ]

  abbrev pub my_timeline : Ha Version Time → Option ℤ
  my_timeline ha = outside.replica_cached_timeline (timeline outside.readers ha.cluster)

  abbrev pub voting_set_of : Ha Version Time → CaseInsensitiveSet
  voting_set_of ha =
      if quorum_commit_mode_is_active outside ha
      then of_list (sync_members ha.cluster.sync)
      else empty

  abbrev pub is_asked : Ha Version Time → Member → Bool
  is_asked ha m =
      not (m.name == ha.name)
      && truth (api_url m)
      && (not (nofailover outside.parse (tags m)) || contains (voting_set_of ha) m.name)

  -- `[m for m in members if ...]`
  unfoldable pub others : Ha Version Time → List Member → List Member
  others ha [] = []
  others ha (m ∷ ms) = let rest = others ha ms in if is_asked ha m then m ∷ rest else rest

  abbrev pub rules_of : Ha Version Time → Option (Leader Version) → Rules Version
  rules_of ha leader = record {
    my_wal_position = outside.last_operation;
    my_priority = ha.failover_priority;
    quorum_is_active = quorum_commit_mode_is_active outside ha;
    sync_is_active = sync_mode_is_active outside ha;
    sync = ha.cluster.sync;
    voting_set = voting_set_of ha;
    leader_name =
        if sync_mode_is_active outside ha then ha.cluster.sync.leader else leader_member leader;
  }

  abbrev pub first_tally : Ha Version Time → Tally
  first_tally ha = record {
    quorum_votes = if contains (voting_set_of ha) ha.name then pos 0 else negsuc 0;
    nodes_ahead = 0;
  }

  abbrev pub quorum_needed : Ha Version Time → ℤ
  quorum_needed ha =
      if quorum_commit_mode_is_active outside ha then ha.cluster.sync.quorum else pos 0

  abbrev pub is_elected : Ha Version Time → Tally → Bool
  is_elected ha t =
      not (quorum_commit_mode_is_active outside ha)
      || leb_ℤ (quorum_needed ha) t.quorum_votes
      || (system_design_hse_miem.Prelude.◌==◌ t.nodes_ahead 0
          && same_name ha.cluster.sync.leader (some ha.name))

  abbrev pub elected : Ha Version Time → Option Tally → Bool
  elected ha none = false
  elected ha (some t) = is_elected ha t

  unfoldable pub wins_race : Ha Version Time → List Member → Option (Leader Version) → Bool
  unfolding race fetch_nodes_statuses others
  wins_race ha ms leader = elected ha (
      race (rules_of ha leader)
        (fetch_nodes_statuses outside.request outside.as_completed (others ha ms)) (first_tally ha))

  -- The guards before the race: the lag and the timeline.
  unfoldable pub may_race : Ha Version Time → Bool → Bool
  unfolding is_lagging is_standby_cluster timeline
  may_race ha check_replication_lag =
      not (check_replication_lag && is_lagging outside ha outside.last_operation)
      && not (
          not (is_standby_cluster ha.config)
          && checks_timeline outside ha
          && older_than (timeline outside.readers ha.cluster) (my_timeline ha))

  -- The answer, and `self` with the timeline that was found.
  unfoldable pub is_healthiest_of :
      Ha Version Time → List Member → Bool → Option (Leader Version) → Bool × Ha Version Time
  unfolding may_race wins_race
  is_healthiest_of ha ms check_replication_lag leader = (
    may_race ha check_replication_lag && wins_race ha ms leader,
    record ha { last_timeline = noted (my_timeline ha) ha.last_timeline },
  )
