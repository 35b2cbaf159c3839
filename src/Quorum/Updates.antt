-- ===== src/Quorum/Updates.antt =====
-- `quorum_update` and `sync_update`.
use text.Mathlib.Text.{◌==◌}
use system_design_hse_miem.Prelude.{String, Bool, not, ◌&&◌, Option, none, some, if◌then◌else◌}
use system_design_hse_miem.Prelude.Int.{ℤ, pos, ◌+ℤ◌, ◌-ℤ◌, ltb_ℤ, leb_ℤ, eqb_ℤ, max_ℤ}
use system_design_hse_miem.Collections.{Casing, CaseInsensitiveSet, empty, len, equals, nonempty}
use system_design_hse_miem.Quorum.State.{
  QuorumStateResolver, Transition, TransitionType, sync, quorum, restart, check_invariants,
}
use system_design_hse_miem.Quorum.Gen.{Gen, pure, get, modify, emit, require, when, ◌>>=◌, ◌>>◌}

-- `Transition('quorum' or 'restart', self.leader, self.quorum, self.voters)`
abbrev pub key_transition : TransitionType → QuorumStateResolver → Transition
key_transition kind s = record {
  transition_type = kind;
  leader = s.leader;
  num = s.quorum;
  names = s.voters;
}

abbrev pub sync_transition : QuorumStateResolver → Transition
sync_transition s = record {
  transition_type = sync;
  leader = s.leader;
  num = s.numsync;
  names = s.sync;
}

-- `leader`, `quorum` and `voters` as `quorum_update` is about to write them
pub record Target : Type 0 where
  pub leader : String
  pub quorum : ℤ
  pub voters : CaseInsensitiveSet

module _ ⦃c : Casing⦄ where
  -- The three branches that choose what is written.
  unfoldable pub adjust :
      QuorumStateResolver → ℤ → CaseInsensitiveSet → Option String → Bool → Target
  unfolding nonempty
  adjust s q vs (some name) adjust_quorum = record { leader = name; quorum = q; voters = vs }
  adjust s q vs none adjust_quorum =
      if eqb_ℤ s.numsync_confirmed (pos 0) && not (nonempty s.voters)
      then record { leader = s.leader; quorum = pos 0; voters = empty }
      else if adjust_quorum
      then record {
        leader = s.leader;
        quorum = q +ℤ max_ℤ (s.numsync -ℤ s.numsync_confirmed) (pos 0);
        voters = vs;
      }
      else record { leader = s.leader; quorum = q; voters = vs }

  -- `(self.leader, quorum, voters) == (old_leader, self.quorum, self.voters)`
  unfoldable pub unchanged : QuorumStateResolver → Target → Bool
  unfolding equals
  unchanged s t = t.leader == s.leader && eqb_ℤ t.quorum s.quorum && equals t.voters s.voters

  -- The assignments to `self`, `check_invariants` and the `yield`.
  unfoldable pub write_key : Target → Gen Unit
  unfolding check_invariants
  write_key t = do
    modify (λ s. record s { quorum = t.quorum; voters = t.voters })
    s ← get
    require (check_invariants s)
    emit (key_transition quorum s)

  -- What follows the choice of the values; `old` is `self` as it was before.
  unfoldable pub publish : QuorumStateResolver → Target → Gen Unit
  unfolding unchanged write_key
  publish old t =
      if unchanged old t && nonempty old.voters
      then pure tt
      else do s ← get; when (unchanged old t) (emit (key_transition restart s)); write_key t

  unfoldable pub quorum_update : ℤ → CaseInsensitiveSet → Option String → Bool → Gen Unit
  unfolding adjust publish len
  quorum_update q vs name adjust_quorum = do
    require (not (ltb_ℤ q (pos 0)))
    require (not (ltb_ℤ (pos 0) q && leb_ℤ (len vs) q))
    s ← get
    let t = adjust s q vs name adjust_quorum
    modify (λ s'. record s' { leader = t.leader })
    publish s t

  unfoldable pub sync_update : ℤ → CaseInsensitiveSet → Gen Unit
  unfolding check_invariants len
  sync_update n ns = do
    require (not (ltb_ℤ n (pos 0)))
    require (not (ltb_ℤ (len ns) n))
    modify (λ s. record s { numsync = n; sync = ns })
    s ← get
    require (check_invariants s)
    emit (sync_transition s)
