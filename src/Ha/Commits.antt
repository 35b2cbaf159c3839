-- ===== src/Ha/Commits.antt =====
-- A node that wins the race in quorum commit mode has every commit that was acknowledged.
use mathlib.Core.Path.{subst}
use mathlib.Core.List.{Permᴰ}
use system_design_hse_miem.Prelude.{
  String, Bool, true, false, ◌||◌, if◌then◌else◌, List, ◌∷◌, some, ◌≡◌, Option, sym, ap, ◌∙◌, arith,
  All, inl, inr,
}
use system_design_hse_miem.Prelude.Int.{ℤ, pos, ◌+ℤ◌, ◌≤ℤ◌}
use system_design_hse_miem.Collections.{
  Casing, CaseInsensitiveSet, empty, contains, of_list, nonempty, len, ◌∪◌, same, has,
}
use system_design_hse_miem.Collections.Members.{IsNodup}
use system_design_hse_miem.Collections.Sets.{
  Subset, HasNodup, contains-of_list, contains-∪, contains_congr, contains-singleton,
}
use system_design_hse_miem.Quorum.State.{QuorumStateResolver, only, check_invariants}
use system_design_hse_miem.Quorum.Safety.{check_invariants-overlap}
use system_design_hse_miem.Dcs.{or_blank}
use system_design_hse_miem.Dcs.SyncKey.{SyncState, voters, sync_members}
use system_design_hse_miem.Dcs.Members.{Member, Leader}
use system_design_hse_miem.Ha.Answers.{
  MemberStatus, failover_limitation, fetch_node_status, fetch_nodes_statuses,
}
use system_design_hse_miem.Ha.Node.{Ha, Outside, same_name, quorum_commit_mode_is_active}
use system_design_hse_miem.Ha.Race.{
  Heard, Rules, heard, is_limited, is_running_primary, rules_of, others, is_healthiest_of,
  voting_set_of,
}
use system_design_hse_miem.Ha.Votes.{is_vote}
use system_design_hse_miem.Ha.Asked.{member_names, All-perm, All-fetched}
use system_design_hse_miem.Ha.Wins.{
  answers, electors, electors_enough, electors-IsNodup, elector-found, elector-votes,
  is_healthiest→wins,
}

-- The resolver works on the `/sync` key that the node reads.
pub record HasKey ⦃c : Casing⦄ {Version : Type 0} (s : QuorumStateResolver)
    (key : SyncState Version) : Type 0 where
  pub leader : s.leader ≡ or_blank key.leader
  pub quorum : s.quorum ≡ key.quorum
  pub voters : s.voters ≡ of_list (system_design_hse_miem.Dcs.SyncKey.voters key)

-- A node that confirmed the commit, and answers as a replica, reports a position not before it.
abbrev pub HasFlushed : ⦃c : Casing⦄ → CaseInsensitiveSet → ℤ → Member → MemberStatus → Type 0
HasFlushed acked lsn m st =
    contains acked m.name ≡ true
    → st.reachable ≡ true
    → is_running_primary st ≡ false
    → lsn ≤ℤ st.wal_position

is_vote→parts :
    (h : Heard)
    → is_vote h ≡ true
    → (h.is_barred ≡ false) × ((h.runs_as_primary ≡ false) × (h.is_ahead ≡ false))
is_vote→parts h vote = ground arith

free→reachable :
    {Time : Type 0} (outside : Outside Time) (st : MemberStatus)
    → is_limited (failover_limitation outside.parse st) ≡ false
    → st.reachable ≡ true
unfolding failover_limitation
free→reachable outside st h = ground arith

module _ ⦃c : Casing⦄ {Version Time : Type 0} (outside : Outside Time) where
  has-sync_members :
      (key : SyncState Version) (x : String)
      → has (sync_members key) x ≡ true
      → (has (voters key) x || same (or_blank key.leader) x) ≡ true
  unfolding sync_members has
  has-sync_members key x h = ground arith

  voting-subset :
      (ha : Ha Version Time) (s : QuorumStateResolver) (x : String)
      → HasKey s ha.cluster.sync
      → quorum_commit_mode_is_active outside ha ≡ true
      → contains (voting_set_of outside ha) x ≡ true
      → contains (s.voters ∪ only s.leader) x ≡ true
  voting-subset ha s x key active h =
      let members = sync_members ha.cluster.sync in
      let in_set : contains (of_list members) x ≡ true =
        sym (ap (λ b. contains (if b then of_list members else empty) x) active) ∙ h in
      let voting = has-sync_members ha.cluster.sync x (sym (contains-of_list members x) ∙ in_set) in
      ground (
        arith,
        voting,
        contains-∪ s.voters (only s.leader) x,
        contains-singleton s.leader x,
        contains-of_list (voters ha.cluster.sync) x,
        ap (λ v. contains v x) key.voters,
        ap (λ n. same n x) key.leader,
      )

  vote→facts :
      (rules : Rules Version) (st : MemberStatus)
      → is_vote (heard outside rules st) ≡ true
      → (st.reachable ≡ true)
        × ((is_running_primary st ≡ false) × (st.wal_position ≤ℤ rules.my_wal_position))
  vote→facts rules st vote =
      let parts = is_vote→parts (heard outside rules st) vote in
      (free→reachable outside st parts.0, (parts.1.0, ground (arith, parts.1.1)))

  vote→flushed :
      (rules : Rules Version) (acked : CaseInsensitiveSet) (lsn : ℤ) (st : MemberStatus)
      → HasFlushed acked lsn st.member st
      → contains acked st.member.name ≡ true
      → is_vote (heard outside rules st) ≡ true
      → lsn ≤ℤ rules.my_wal_position
  vote→flushed rules acked lsn st flushed mine vote =
      let facts = vote→facts rules st vote in
      omega (arith, flushed mine facts.0 facts.1.0, facts.1.1)

  answers-HasFlushed :
      (ha : Ha Version Time) (ms : List Member) (acked : CaseInsensitiveSet) (lsn : ℤ)
      → Permᴰ (others outside ha ms) (outside.as_completed (others outside ha ms))
      → All
          (λ m. HasFlushed acked lsn m (fetch_node_status outside.request m))
          (others outside ha ms)
      → All (λ st. HasFlushed acked lsn st.member st) (answers outside ha ms)
  unfolding fetch_nodes_statuses
  answers-HasFlushed ha ms acked lsn perm flushed =
      All-fetched (HasFlushed acked lsn) outside.request
        (outside.as_completed (others outside ha ms))
        (All-perm (λ m. HasFlushed acked lsn m (fetch_node_status outside.request m))
          (others outside ha ms) (outside.as_completed (others outside ha ms)) perm flushed)

  -- In quorum commit mode, let a node other than the leader of the `/sync` key find itself the healthiest
  -- of some members, and let the key be the one of a resolver state that passes `check_invariants` and
  -- has voters. If more than `numsync` of its synchronous nodes and its wanted leader confirmed a commit,
  -- which those of them report that answer as replicas, then the node has the commit as well. The
  -- names of the node and of those it asks are distinct, and each that is asked answers once.
  pub winner-HasCommit :
      (ha : Ha Version Time) (ms : List Member) (check : Bool) (leader : Option (Leader Version))
      (s : QuorumStateResolver) (acked : CaseInsensitiveSet) (lsn : ℤ)
      → (is_healthiest_of outside ha ms check leader).0 ≡ true
      → quorum_commit_mode_is_active outside ha ≡ true
      → same_name ha.cluster.sync.leader (some ha.name) ≡ false
      → Permᴰ (others outside ha ms) (outside.as_completed (others outside ha ms))
      → IsNodup (ha.name ∷ member_names (others outside ha ms))
      → HasKey s ha.cluster.sync
      → check_invariants s ≡ true
      → nonempty s.voters ≡ true
      → HasNodup acked
      → Subset acked (s.sync ∪ only s.leader_wanted)
      → s.numsync +ℤ pos 1 ≤ℤ len acked
      → (contains acked ha.name ≡ true → lsn ≤ℤ outside.last_operation)
      → All
          (λ m. HasFlushed acked lsn m (fetch_node_status outside.request m))
          (others outside ha ms)
      → lsn ≤ℤ outside.last_operation
  winner-HasCommit ha ms check leader s acked lsn won active other perm d key checked some_voter da
        sa na own flushed =
      let counted = is_healthiest→wins outside ha ms check leader won in
      let seen : CaseInsensitiveSet = record { values = electors outside ha ms leader } in
      let all = answers-HasFlushed ha ms acked lsn perm flushed in
      let votes : Subset seen (s.voters ∪ only s.leader) = λ x m. voting-subset ha s x key active (
        elector-votes outside (λ st. HasFlushed acked lsn st.member st) ha ms leader x
          (unfold contains in m) all) in
      let enough : s.quorum +ℤ pos 1 ≤ℤ len seen =
        subst (λ q. q +ℤ pos 1 ≤ℤ len seen) (sym key.quorum)
          (unfold len in
            electors_enough outside ha ms leader counted.0 counted.1 counted.2 active other) in
      let meet =
        check_invariants-overlap s acked seen checked some_voter da
          (electors-IsNodup outside ha ms leader perm d) sa votes na enough in
      elim (elector-found outside (λ st. HasFlushed acked lsn st.member st) ha ms leader meet.0
        (unfold contains in meet.2) all) [
          | inl (_, e) ↦ own (contains_congr acked ha.name meet.0 e ∙ meet.1)
          | inr (st, e, vote, here) ↦
              vote→flushed (rules_of outside ha leader) acked lsn st here
                (contains_congr acked st.member.name meet.0 e ∙ meet.1) vote
        ]
