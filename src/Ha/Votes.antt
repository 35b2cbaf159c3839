-- ===== src/Ha/Votes.antt =====
-- The votes of a race come from voters that are not ahead.
use system_design_hse_miem.Prelude.{
  String, Bool, true, false, not, ◌&&◌, List, [], ◌∷◌, map, length, some, if◌then◌else◌, ◌≡◌, refl,
  ap, ◌∙◌, arith, All, Bool-cases, Option-cases, ◌⊎◌, inl, inr,
}
use system_design_hse_miem.Prelude.Int.{ℤ, pos, ◌+ℤ◌, ◌≤ℤ◌, ltb_ℤ, +ℤ_zero, +ℤ_suc}
use system_design_hse_miem.Collections.{Casing, same, has}
use system_design_hse_miem.Collections.Members.{IsNodup}
use system_design_hse_miem.Dcs.SyncKey.{leader_matches}
use system_design_hse_miem.Ha.Answers.{MemberStatus, failover_limitation}
use system_design_hse_miem.Ha.Node.{Outside}
use system_design_hse_miem.Ha.Race.{
  Heard, heard, Tally, Rules, is_limited, is_running_primary, turn, judge, race,
}

abbrev pub is_vote : Heard → Bool
is_vote h = not h.is_barred && not h.runs_as_primary && not h.is_ahead && h.is_up && h.quorum_vote

turn-votes :
    (h : Heard) (t u : Tally)
    → turn h t ≡ some u
    → u.quorum_votes ≡ (if is_vote h then t.quorum_votes +ℤ pos 1 else t.quorum_votes)
turn-votes h t u e = ground arith

turn-ahead :
    (h : Heard) (t u : Tally)
    → turn h t ≡ some u
    → h.is_barred ≡ false
    → (h.runs_as_primary ≡ false) × (h.is_ahead ≡ true → h.is_former_leader ≡ true)
turn-ahead h t u e free = ground arith

count_vote :
    (b : Bool) (name : String) (rest : List String) (a v u : ℤ)
    → v ≡ (if b then a +ℤ pos 1 else a)
    → u ≡ v +ℤ pos (length rest)
    → u ≡ a +ℤ pos (length (if b then name ∷ rest else rest))
count_vote true name rest a v u one more =
    more ∙ ap (λ n. n +ℤ pos (length rest)) one ∙ +ℤ_suc a (length rest)
count_vote false name rest a v u one more = more ∙ ap (λ n. n +ℤ pos (length rest)) one

module _ ⦃c : Casing⦄ where
  pub has-if :
      (b : Bool) (name : String) (rest : List String) (x : String)
      → has (if b then name ∷ rest else rest) x ≡ true
      → ((b ≡ true) × (same name x ≡ true)) ⊎ (has rest x ≡ true)
  unfolding has
  has-if true name rest x h = elim (Bool-cases (same name x)) [
    | inl e ↦ inl (refl, e)
    | inr e ↦ inr (ground (arith, e, h))
  ]
  has-if false name rest x h = inr h

  pub if-IsNodup :
      (b : Bool) (name : String) (rest : List String)
      → has rest name ≡ false
      → IsNodup rest
      → IsNodup (if b then name ∷ rest else rest)
  if-IsNodup true name rest absent d = (absent, d)
  if-IsNodup false name rest absent d = d

module _ ⦃c : Casing⦄ {Version Time : Type 0} (outside : Outside Time) where
  -- The node may promote, runs as a replica and is not ahead.
  abbrev pub IsBehind : Rules Version → MemberStatus → Type 0
  IsBehind rules st =
      (is_limited (failover_limitation outside.parse st) ≡ false)
      × (is_running_primary st ≡ false)
      × (st.wal_position ≤ℤ rules.my_wal_position)

  pub voters_among : Rules Version → List MemberStatus → List String
  voters_among rules [] = []
  voters_among rules (st ∷ sts) =
      let rest = voters_among rules sts in
      if is_vote (heard outside rules st) then st.member.name ∷ rest else rest

  pub race-votes :
      (rules : Rules Version) (sts : List MemberStatus) (t u : Tally)
      → race outside rules sts t ≡ some u
      → u.quorum_votes ≡ t.quorum_votes +ℤ pos (length (voters_among rules sts))
  unfolding race judge voters_among
  race-votes rules [] t u h = ground (arith, h, +ℤ_zero t.quorum_votes)
  race-votes rules (st ∷ sts) t u h = elim (Option-cases (turn (heard outside rules st) t)) [
    | inl e ↦ absurd (cc (e, h))
    | inr (v, e) ↦
        count_vote (is_vote (heard outside rules st)) st.member.name (voters_among rules sts)
          t.quorum_votes v.quorum_votes u.quorum_votes (turn-votes (heard outside rules st) t v e)
          (race-votes rules sts v u (cc (e, h)))
  ]

  -- Each answer but those of barred nodes is of a replica, which is ahead only as the former leader.
  abbrev pub IsDeferred : Rules Version → MemberStatus → Type 0
  unfolding failover_limitation
  IsDeferred rules st =
      is_limited (failover_limitation outside.parse st) ≡ false
      → (is_running_primary st ≡ false)
        × (ltb_ℤ rules.my_wal_position st.wal_position ≡ true
            → (rules.sync_is_active && leader_matches rules.sync (some st.member.name)) ≡ true)

  pub race-IsDeferred :
      (rules : Rules Version) (sts : List MemberStatus) (t u : Tally)
      → race outside rules sts t ≡ some u
      → All (IsDeferred rules) sts
  unfolding race judge
  race-IsDeferred rules [] t u h = tt
  race-IsDeferred rules (st ∷ sts) t u h = elim (Option-cases (turn (heard outside rules st) t)) [
    | inl e ↦ absurd (cc (e, h))
    | inr (v, e) ↦
        (turn-ahead (heard outside rules st) t v e, race-IsDeferred rules sts v u (cc (e, h)))
  ]

  -- A voter's answer, with what holds of each answer.
  pub voter-found {κ} :
      (Q : MemberStatus → Type κ) (rules : Rules Version) (sts : List MemberStatus) (x : String)
      → has (voters_among rules sts) x ≡ true
      → All Q sts
      → (st : MemberStatus) × (same st.member.name x ≡ true)
        × (is_vote (heard outside rules st) ≡ true)
        × Q st
  unfolding voters_among
  voter-found Q rules [] x h all = absurd (unfold has in cc h)
  voter-found Q rules (st ∷ sts) x h all =
      elim (has-if (is_vote (heard outside rules st)) st.member.name (voters_among rules sts) x h) [
        | inl (v, e) ↦ (st, e, v, all.0)
        | inr more ↦ voter-found Q rules sts x more all.1
      ]

  pub has-voters_among :
      (rules : Rules Version) (sts : List MemberStatus) (x : String)
      → has (voters_among rules sts) x ≡ true
      → has (map (λ st. st.member.name) sts) x ≡ true
  unfolding voters_among has
  has-voters_among rules [] x h = h
  has-voters_among rules (st ∷ sts) x h =
      elim (has-if (is_vote (heard outside rules st)) st.member.name (voters_among rules sts) x h) [
        | inl (v, e) ↦ ground (arith, e)
        | inr more ↦ ground (arith, has-voters_among rules sts x more)
      ]

  pub voters_among-IsNodup :
      (rules : Rules Version) (sts : List MemberStatus)
      → IsNodup (map (λ st. st.member.name) sts)
      → IsNodup (voters_among rules sts)
  unfolding voters_among
  voters_among-IsNodup rules [] d = tt
  voters_among-IsNodup rules (st ∷ sts) d =
      if-IsNodup (is_vote (heard outside rules st)) st.member.name (voters_among rules sts)
        (ground (arith, has-voters_among rules sts st.member.name, d.0))
        (voters_among-IsNodup rules sts d.1)
