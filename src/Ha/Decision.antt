-- ===== src/Ha/Decision.antt =====
-- `is_healthiest_node`: whether the node may try to take the leader lock; with the manual failover.
use text.Mathlib.Text.{◌==◌}
use system_design_hse_miem.Prelude.{
  String, Bool, true, false, not, ◌&&◌, ◌||◌, List, [], ◌∷◌, Option, none, some, if◌then◌else◌,
}
use system_design_hse_miem.Prelude.Int.{ℤ, pos, negsuc, ◌+ℤ◌, ltb_ℤ, leb_ℤ, eqb_ℤ}
use system_design_hse_miem.Collections.{Casing}
use system_design_hse_miem.Values.{Value, integer, boolean, Fields, no_fields, field, truth}
use system_design_hse_miem.Tags.{nofailover}
use system_design_hse_miem.Dcs.{is_set}
use system_design_hse_miem.Dcs.SyncKey.{matches}
use system_design_hse_miem.Dcs.StatusKey.{Failover}
use system_design_hse_miem.Dcs.Members.{Member, remote_member, find_member, api_url, tags, timeline}
use system_design_hse_miem.Ha.Answers.{
  MemberStatus, status_timeline, failover_limitation, fetch_node_status, fetch_nodes_statuses,
}
use system_design_hse_miem.Ha.Node.{
  Ha, Outside, same_name, sync_mode_is_active, quorum_commit_mode_is_active, synchronous_mode,
  quorum_commit_mode, paused, checks_timeline, is_lagging,
}
use system_design_hse_miem.Ha.Race.{is_limited, is_healthiest_of}

-- A result, `self` after the call, and whether the `/failover` key was cleared on the way.
pub record Result (Version Time R : Type 0) : Type 0 where
  pub value : R
  pub ha : Ha Version Time
  pub clears_failover : Bool

-- `if cluster.failover`: the tuple has a `len` of its own, which counts the leader and the candidate.
abbrev pub set_failover :
    {Version Time : Type 0} → Option (Failover Version Time) → Option (Failover Version Time)
set_failover none = none
set_failover (some f) = if is_set f.leader || is_set f.candidate then some f else none

abbrev pub select_members : (Member → Bool) → List Member → List Member
select_members p [] = []
select_members p (m ∷ ms) = let rest = select_members p ms in if p m then m ∷ rest else rest

-- `{m.name: m for m in ms}.values()`
abbrev pub put_member : List Member → Member → List Member
put_member [] m = m ∷ []
put_member (n ∷ ns) m = if n.name == m.name then m ∷ ns else n ∷ put_member ns m

abbrev pub by_name : List Member → List Member → List Member
by_name known [] = known
by_name known (m ∷ ms) = by_name (put_member known m) ms

abbrev pub remote_members : Fields → List Member
remote_members no_fields = []
remote_members (field name url rest) =
    remote_member name (field "api_url" url no_fields) ∷ remote_members rest

-- `not st.timeline or st.timeline < cluster_timeline`
abbrev pub timeline_behind : ℤ → Value → Bool
timeline_behind cluster_timeline (integer n) = eqb_ℤ n (pos 0) || ltb_ℤ n cluster_timeline
timeline_behind cluster_timeline (boolean b) = not b || ltb_ℤ (pos 1) cluster_timeline
timeline_behind cluster_timeline v = true

module _ {Version Time : Type 0} where
  abbrev pub candidate_of : Option (Failover Version Time) → Option String
  candidate_of none = none
  candidate_of (some f) = f.candidate

  abbrev pub has_leader : Option (Failover Version Time) → Bool
  has_leader none = false
  has_leader (some f) = is_set f.leader

  abbrev pub is_requested : Option (Failover Version Time) → Bool
  is_requested none = false
  is_requested (some f) = true

module _ ⦃c : Casing⦄ {Version Time : Type 0} (outside : Outside Time) where
  -- `is_eligible` of `get_failover_candidates`
  abbrev pub is_eligible : Ha Version Time → Bool → Member → Bool
  is_eligible ha exclude m =
      let failover = set_failover ha.cluster.failover in
      let candidate = candidate_of failover in
      not (
        sync_mode_is_active outside ha
        && not (matches ha.cluster.sync (some m.name) false)
        && not (is_requested failover && not (has_leader failover)))
      && not (m.name == ha.name)
      && not (is_requested failover && exclude && same_name candidate (some m.name))
      && not (nofailover outside.parse (tags m))
      && truth (api_url m)
      && (exclude
          || not (is_requested failover)
          || not (is_set candidate)
          || same_name (some m.name) candidate)

  unfoldable pub get_failover_candidates : Ha Version Time → Bool → List Member
  unfolding sync_mode_is_active matches nofailover
  get_failover_candidates ha exclude = select_members (is_eligible ha exclude) ha.cluster.members

  -- A candidate that may be promoted, has caught up and is not on an older timeline.
  abbrev pub is_fit : Ha Version Time → ℤ → MemberStatus → Bool
  is_fit ha cluster_lsn st =
      not (is_limited (failover_limitation outside.parse st))
      && not (
          if eqb_ℤ cluster_lsn (pos 0)
          then is_lagging outside ha st.wal_position
          else ltb_ℤ st.wal_position cluster_lsn)
      && not (
          checks_timeline outside ha
          && timeline_behind (timeline outside.readers ha.cluster) (status_timeline st))

  unfoldable pub count_fit : Ha Version Time → ℤ → List MemberStatus → ℤ → ℤ
  unfolding failover_limitation is_lagging timeline ◌+ℤ◌
  count_fit ha cluster_lsn [] n = n
  count_fit ha cluster_lsn (st ∷ sts) n =
      count_fit ha cluster_lsn sts (if is_fit ha cluster_lsn st then n +ℤ pos 1 else n)

  unfoldable pub is_failover_possible : Ha Version Time → ℤ → Bool → Bool
  unfolding get_failover_candidates fetch_nodes_statuses count_fit quorum_commit_mode_is_active
  is_failover_possible ha cluster_lsn exclude =
      let quorum_votes =
        count_fit ha cluster_lsn
          (fetch_nodes_statuses outside.request outside.as_completed
            (get_failover_candidates ha exclude))
          (negsuc 0) in
      let check_quorum =
        quorum_commit_mode_is_active outside ha
        && not (is_set (candidate_of (set_failover ha.cluster.failover)) && not exclude) in
      if check_quorum && ltb_ℤ quorum_votes ha.cluster.sync.quorum
      then false
      else leb_ℤ (pos 0) quorum_votes

  abbrev pub answered : {R : Type 0} → Ha Version Time → R → Result Version Time R
  answered ha r = record { value = r; ha = ha; clears_failover = false }

  abbrev pub raced : Bool × Ha Version Time → Result Version Time (Option Bool)
  raced r = answered r.1 (some r.0)

  -- The members of the race: not the former leader; in synchronous mode, only synchronous nodes.
  abbrev pub racers : Ha Version Time → Failover Version Time → List Member
  racers ha f =
      select_members
        (λ m.
          not (same_name (some m.name) f.leader)
          && (not (sync_mode_is_active outside ha) || matches ha.cluster.sync (some m.name) false))
        ha.cluster.members

  abbrev pub pick_other :
      Ha Version Time → Failover Version Time → Result Version Time (Option Bool)
  pick_other ha f =
      if is_set f.leader && same_name (some ha.name) f.leader
      then answered ha (some (not (is_failover_possible ha (pos 0) (is_set f.candidate))))
      else raced (is_healthiest_of outside ha (racers ha f) false none)

  abbrev pub names_nobody : Ha Version Time → Option String → Bool
  names_nobody ha none = true
  names_nobody ha (some name) = elim (find_member name ha.cluster.members) [
    | none ↦ true
    | some m ↦ false
  ]

  abbrev pub candidate_healthy : Ha Version Time → Option String → Bool
  candidate_healthy ha none = false
  candidate_healthy ha (some name) = elim (find_member name ha.cluster.members) [
    | none ↦ false
    | some m ↦
        not (is_limited (failover_limitation outside.parse (fetch_node_status outside.request m)))
  ]

  unfoldable pub manual_failover_process_no_leader :
      Ha Version Time → Failover Version Time → Result Version Time (Option Bool)
  unfolding is_healthiest_of is_failover_possible find_member matches fetch_node_status
      failover_limitation sync_mode_is_active
  manual_failover_process_no_leader ha f =
      if is_set f.candidate
      then if same_name f.candidate (some ha.name)
        then answered ha (some true)
        else if paused outside ha
        then if names_nobody ha f.candidate && outside.is_primary
          then record { value = none; ha = ha; clears_failover = true }
          else answered ha (some false)
        else if synchronous_mode outside ha
            && not (quorum_commit_mode outside ha)
            && not (matches ha.cluster.sync (some ha.name) true)
        then answered ha (some false)
        else if candidate_healthy ha f.candidate
        then answered ha (some false)
        else pick_other ha f
      else if paused outside ha
      then answered ha (some false)
      else pick_other ha f
