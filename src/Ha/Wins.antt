-- ===== src/Ha/Wins.antt =====
-- A node that wins the race in quorum commit mode has every commit that was acknowledged.
use mathlib.Core.Path.{subst}
use mathlib.Core.List.{Permᴰ}
use system_design_hse_miem.Prelude.{
  String, Bool, true, false, not, ◌&&◌, ◌||◌, List, [], ◌∷◌, map, length, Option, none, some,
  if◌then◌else◌, ◌≡◌, refl, sym, ap, ◌∙◌, arith, All, Bool-cases, Option-cases, ◌⊎◌, inl, inr,
}
use system_design_hse_miem.Prelude.Int.{
  ℤ, pos, negsuc, ◌+ℤ◌, ◌≤ℤ◌, leb_ℤ, pos_part, neg_part, int_laws,
}
use system_design_hse_miem.Collections.{Casing, contains, has, same}
use system_design_hse_miem.Collections.Members.{IsNodup}
use system_design_hse_miem.Collections.Sets.{contains_congr}
use system_design_hse_miem.Dcs.Members.{Member, Leader}
use system_design_hse_miem.Ha.Answers.{MemberStatus, fetch_nodes_statuses}
use system_design_hse_miem.Ha.Node.{Ha, Outside, same_name, quorum_commit_mode_is_active}
use system_design_hse_miem.Ha.Race.{
  Tally, Heard, heard, race, rules_of, first_tally, others, is_elected, elected, wins_race,
  may_race, is_healthiest_of, voting_set_of,
}
use system_design_hse_miem.Ha.Votes.{
  is_vote, voters_among, race-votes, voter-found, has-voters_among, voters_among-IsNodup,
  if-IsNodup, has-if,
}
use system_design_hse_miem.Ha.Asked.{member_names, has-perm, perm-IsNodup, names_of_answers}

and-right : (a b : Bool) → (a && b) ≡ true → b ≡ true
and-right true b h = h
and-right false b h = absurd (cc h)

by_votes :
    (active : Bool) (q v : ℤ) (calm own : Bool)
    → (not active || leb_ℤ (if active then q else pos 0) v || (calm && own)) ≡ true
    → active ≡ true
    → own ≡ false
    → leb_ℤ q v ≡ true
by_votes active q v calm own h on other = ground arith

enough :
    (vote : Bool) (name : String) (votes : List String) (q v : ℤ)
    → v ≡ (if vote then pos 0 else negsuc 0) +ℤ pos (length votes)
    → leb_ℤ q v ≡ true
    → q +ℤ pos 1 ≤ℤ pos (length (if vote then name ∷ votes else votes))
enough true name votes q v e h =
    let le : q ≤ℤ v = ground arith in omega (int_laws, ap pos_part e, ap neg_part e, le)
enough false name votes q v e h =
    let le : q ≤ℤ v = ground arith in omega (int_laws, ap pos_part e, ap neg_part e, le)

is_vote→voter : (h : Heard) → is_vote h ≡ true → h.quorum_vote ≡ true
is_vote→voter h vote = ground arith

module _ ⦃c : Casing⦄ {Version Time : Type 0} (outside : Outside Time) where
  abbrev pub answers : Ha Version Time → List Member → List MemberStatus
  answers ha ms = fetch_nodes_statuses outside.request outside.as_completed (others outside ha ms)

  -- The node itself, if it is a voter, and the voters that gave their votes.
  pub electors : Ha Version Time → List Member → Option (Leader Version) → List String
  electors ha ms leader =
      let votes = voters_among outside (rules_of outside ha leader) (answers ha ms) in
      if contains (voting_set_of outside ha) ha.name then ha.name ∷ votes else votes

  elected→tally :
      (ha : Ha Version Time) (o : Option Tally)
      → elected outside ha o ≡ true
      → (t : Tally) × (o ≡ some t) × (is_elected outside ha t ≡ true)
  elected→tally ha none h = absurd (cc h)
  elected→tally ha (some t) h = (t, refl, h)

  pub is_healthiest→wins :
      (ha : Ha Version Time) (ms : List Member) (check : Bool) (leader : Option (Leader Version))
      → (is_healthiest_of outside ha ms check leader).0 ≡ true
      → (t : Tally) × (race outside
            (rules_of outside ha leader)
            (answers ha ms)
            (first_tally outside ha)
          ≡ some t)
        × (is_elected outside ha t ≡ true)
  is_healthiest→wins ha ms check leader h =
      elected→tally ha
        (race outside (rules_of outside ha leader) (answers ha ms) (first_tally outside ha))
        (unfold wins_race in
          and-right (may_race outside ha check) (wins_race outside ha ms leader)
            (unfold is_healthiest_of in h))

  -- The sum of the votes is one less than the number of electors.
  pub electors_enough :
      (ha : Ha Version Time) (ms : List Member) (leader : Option (Leader Version)) (t : Tally)
      → race outside (rules_of outside ha leader) (answers ha ms) (first_tally outside ha) ≡ some t
      → is_elected outside ha t ≡ true
      → quorum_commit_mode_is_active outside ha ≡ true
      → same_name ha.cluster.sync.leader (some ha.name) ≡ false
      → ha.cluster.sync.quorum +ℤ pos 1 ≤ℤ pos (length (electors ha ms leader))
  unfolding electors
  electors_enough ha ms leader t e won active other =
      enough (contains (voting_set_of outside ha) ha.name) ha.name
        (voters_among outside (rules_of outside ha leader) (answers ha ms)) ha.cluster.sync.quorum
        t.quorum_votes
        (race-votes outside (rules_of outside ha leader) (answers ha ms) (first_tally outside ha) t
          e)
        (by_votes (quorum_commit_mode_is_active outside ha) ha.cluster.sync.quorum t.quorum_votes
          (system_design_hse_miem.Prelude.◌==◌ t.nodes_ahead 0)
          (same_name ha.cluster.sync.leader (some ha.name)) won active other)

  -- The names of the nodes that are asked, in the order of their answers.
  answers-IsNodup :
      (ha : Ha Version Time) (ms : List Member)
      → Permᴰ (others outside ha ms) (outside.as_completed (others outside ha ms))
      → IsNodup (member_names (others outside ha ms))
      → IsNodup (map (λ st. st.member.name) (answers ha ms))
  unfolding fetch_nodes_statuses
  answers-IsNodup ha ms perm d =
      subst IsNodup
        (sym (names_of_answers outside.request (outside.as_completed (others outside ha ms))))
        (perm-IsNodup (others outside ha ms) (outside.as_completed (others outside ha ms)) perm d)

  answers-has :
      (ha : Ha Version Time) (ms : List Member) (x : String)
      → Permᴰ (others outside ha ms) (outside.as_completed (others outside ha ms))
      → has (map (λ st. st.member.name) (answers ha ms)) x
        ≡ has (member_names (others outside ha ms)) x
  unfolding fetch_nodes_statuses
  answers-has ha ms x perm =
      ap (λ ns. has ns x)
        (names_of_answers outside.request (outside.as_completed (others outside ha ms)))
      ∙ sym (has-perm (others outside ha ms) (outside.as_completed (others outside ha ms)) x perm)

  pub electors-IsNodup :
      (ha : Ha Version Time) (ms : List Member) (leader : Option (Leader Version))
      → Permᴰ (others outside ha ms) (outside.as_completed (others outside ha ms))
      → IsNodup (ha.name ∷ member_names (others outside ha ms))
      → IsNodup (electors ha ms leader)
  unfolding electors
  electors-IsNodup ha ms leader perm d =
      if-IsNodup (contains (voting_set_of outside ha) ha.name) ha.name
        (voters_among outside (rules_of outside ha leader) (answers ha ms))
        (ground (
          arith,
          has-voters_among outside (rules_of outside ha leader) (answers ha ms) ha.name,
          answers-has ha ms ha.name perm,
          d.0,
        ))
        (voters_among-IsNodup outside (rules_of outside ha leader) (answers ha ms)
          (answers-IsNodup ha ms perm d.1))

  -- Where an elector is: the node itself, or a node that answered with its vote.
  pub elector-found {κ} :
      (Q : MemberStatus → Type κ) (ha : Ha Version Time) (ms : List Member)
      (leader : Option (Leader Version)) (x : String)
      → has (electors ha ms leader) x ≡ true
      → All Q (answers ha ms)
      → ((contains (voting_set_of outside ha) ha.name ≡ true) × (same ha.name x ≡ true))
        ⊎ ((st : MemberStatus) × (same st.member.name x ≡ true)
            × (is_vote (heard outside (rules_of outside ha leader) st) ≡ true)
            × Q st)
  unfolding electors
  elector-found Q ha ms leader x h all =
      elim (has-if (contains (voting_set_of outside ha) ha.name) ha.name
        (voters_among outside (rules_of outside ha leader) (answers ha ms)) x h) [
          | inl own ↦ inl own
          | inr voter ↦
              inr (voter-found outside Q (rules_of outside ha leader) (answers ha ms) x voter all)
        ]

  pub elector-votes {κ} :
      (Q : MemberStatus → Type κ) (ha : Ha Version Time) (ms : List Member)
      (leader : Option (Leader Version)) (x : String)
      → has (electors ha ms leader) x ≡ true
      → All Q (answers ha ms)
      → contains (voting_set_of outside ha) x ≡ true
  elector-votes Q ha ms leader x h all = elim (elector-found Q ha ms leader x h all) [
    | inl (own, e) ↦ sym (contains_congr (voting_set_of outside ha) ha.name x e) ∙ own
    | inr (st, e, vote, _) ↦
        sym (contains_congr (voting_set_of outside ha) st.member.name x e)
        ∙ is_vote→voter (heard outside (rules_of outside ha leader) st) vote
  ]
