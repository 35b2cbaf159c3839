-- ===== src/Quorum/Recover.antt =====
-- The handler of `QuorumError` in `_generate_transitions`, from what a raise leaves behind.
use mathlib.Core.Path.{subst}
use text.Mathlib.Text.{◌==◌}
use system_design_hse_miem.Prelude.{
  String, Bool, true, false, ◌&&◌, List, [], none, ◌≡◌, refl, ap, arith,
}
use system_design_hse_miem.Prelude.Int.{
  ℤ, pos, ◌+ℤ◌, ◌-ℤ◌, ◌≤ℤ◌, eqb_ℤ, max_ℤ, pos_part, neg_part, int_laws, eq_of_parts,
}
use system_design_hse_miem.Collections.{Casing, len, equals, nonempty}
use system_design_hse_miem.Collections.Sets.{size, equals→size, equals→Subset}
use system_design_hse_miem.Quorum.State.{QuorumStateResolver, Transition, check_invariants}
use system_design_hse_miem.Quorum.Gen.{
  Gen, Outcome, done, quorum_error, assertion_error, pure, after, continue, require, recover, ◌>>◌,
}
use system_design_hse_miem.Quorum.Updates.{Target, adjust, unchanged, quorum_update}
use system_design_hse_miem.Quorum.Phases.{repair}
use system_design_hse_miem.Quorum.Published.{
  View, view, replay, replay-append, AllSafe, AllSafe-append, Follows, Follows-after, Tracks,
  Tracks-bind, Tracks-pure, Tracks-get, Follows-continue,
}
use system_design_hse_miem.Quorum.UpdatesSafe.{quorum_update-Tracks, quorum_update-Follows}
use system_design_hse_miem.Quorum.Checks.{check_of_equal}

module _ ⦃c : Casing⦄ where
  pub repair-Tracks : Tracks repair
  unfolding repair
  repair-Tracks = search (Tracks-bind, Tracks-get, Tracks-pure, quorum_update-Tracks)

  -- Like `Follows`, and from a `QuorumError` the handler goes on as published.
  abbrev pub Recoverable :
      {A : Type 0} → String → View → Outcome A × QuorumStateResolver × List Transition → Type 0
  Recoverable name v (done a, s, ts) = Follows name v (done a, s, ts)
  Recoverable name v (assertion_error, s, ts) = AllSafe name v ts
  Recoverable name v (quorum_error, s, ts) =
      AllSafe name v ts × Follows name (replay v ts) (repair s)

  pub recover-Follows :
      (name : String) (v : View) (out : Outcome Bool × QuorumStateResolver × List Transition)
      → Recoverable name v out
      → Follows name v (recover repair out)
  recover-Follows name v (done a, s, ts) h = h
  recover-Follows name v (assertion_error, s, ts) h = h
  recover-Follows name v (quorum_error, s, ts) h = Follows-after name v ts (repair s) h.0 h.1

  and_parts : (a b : Bool) → (a && b) ≡ true → (a ≡ true) × (b ≡ true)
  and_parts a b h = ground arith

  -- With voters, the handler asks for a quorum no lower than `len(sync) - numsync`.
  abbrev raised_quorum : QuorumStateResolver → ℤ
  raised_quorum s = len s.sync -ℤ s.numsync +ℤ max_ℤ (s.numsync -ℤ s.numsync_confirmed) (pos 0)

  adjust-repair :
      (s : QuorumStateResolver)
      → nonempty s.voters ≡ true
      → adjust s (len s.sync -ℤ s.numsync) s.sync none true
        ≡ record { leader = s.leader; quorum = raised_quorum s; voters = s.sync }
  unfolding adjust
  adjust-repair s h = ground arith

  raised_quorum_le :
      (s : QuorumStateResolver)
      → s.quorum ≡ raised_quorum s
      → pos (size s.sync) ≤ℤ s.quorum +ℤ s.numsync
  unfolding len
  raised_quorum_le s h = grind (int_laws, ap pos_part h, ap neg_part h)

  unchanged→parts :
      (s : QuorumStateResolver) (t : Target)
      → unchanged s t ≡ true
      → (s.quorum ≡ t.quorum) × (equals t.voters s.voters ≡ true)
  unchanged→parts s t h =
      let parts =
        and_parts (t.leader == s.leader && eqb_ℤ t.quorum s.quorum) (equals t.voters s.voters)
          (unfold unchanged in h) in
      let first = and_parts (t.leader == s.leader) (eqb_ℤ t.quorum s.quorum) parts.0 in
      (eq_of_parts s.quorum t.quorum (ground (arith, first.1)), parts.1)

  -- A key that the handler would not write again is one that passes the check.
  repeated_key :
      (s : QuorumStateResolver)
      → s.leader ≡ s.leader_wanted
      → (unchanged s (adjust s (len s.sync -ℤ s.numsync) s.sync none true) && nonempty s.voters)
        ≡ true
      → check_invariants s ≡ true
  repeated_key s e h =
      let old =
        and_parts (unchanged s (adjust s (len s.sync -ℤ s.numsync) s.sync none true))
          (nonempty s.voters) h in
      let same =
        unchanged→parts s (record { leader = s.leader; quorum = raised_quorum s; voters = s.sync })
          (rw (adjust-repair s old.1) at old.0) in
      check_of_equal s e (equals→Subset s.sync s.voters same.1) (equals→size s.sync s.voters same.1)
        (raised_quorum_le s same.0)

  -- The handler after a key that was set and not published: it publishes a key, or raises.
  pub unpublished-Follows :
      (s : QuorumStateResolver) (v : View)
      → check_invariants s ≡ false
      → s.leader ≡ s.leader_wanted
      → s.numsync ≡ v.numsync
      → s.sync ≡ v.sync
      → Follows s.leader_wanted v (repair s)
  unpublished-Follows s v bad e en es =
      unfold repair in
      (Follows-after s.leader_wanted v []
        ((quorum_update (len s.sync -ℤ s.numsync) s.sync none true >> pure false) s) tt
        (Follows-continue (λ _. pure false) (λ _. Tracks-pure false) s.leader_wanted v
          (quorum_update (len s.sync -ℤ s.numsync) s.sync none true s)
          (quorum_update-Follows (len s.sync -ℤ s.numsync) s.sync none true v s en es
            (λ h. absurd (cc (bad, repeated_key s e h))))))

  module _ {A : Type 0} where
    pub Recoverable-after :
        (name : String) (v : View) (ts : List Transition)
        (out : Outcome A × QuorumStateResolver × List Transition)
        → AllSafe name v ts
        → Recoverable name (replay v ts) out
        → Recoverable name v (after ts out)
    Recoverable-after name v ts (done a, s, us) h k = Follows-after name v ts (done a, s, us) h k
    Recoverable-after name v ts (assertion_error, s, us) h k = AllSafe-append name v ts us h k
    Recoverable-after name v ts (quorum_error, s, us) h k =
        (AllSafe-append name v ts us h k.0, rw (replay-append v ts us) k.1)

  pub Recoverable-require :
      (b : Bool) (m : Gen Unit) (s : QuorumStateResolver)
      → (b ≡ true → Recoverable s.leader_wanted (view s) (m s))
      → Recoverable s.leader_wanted (view s) ((require b >> m) s)
  Recoverable-require true m s h = Recoverable-after s.leader_wanted (view s) [] (m s) tt (h refl)
  Recoverable-require false m s h = (tt, repair-Tracks.at s)

  module _ {A B : Type 0} (f : A → Gen B)
      (h : (a : A) (s : QuorumStateResolver) → Recoverable s.leader_wanted (view s) (f a s)) where
    pub Recoverable-continue :
        (name : String) (v : View) (out : Outcome A × QuorumStateResolver × List Transition)
        → Recoverable name v out
        → Recoverable name v (continue f out)
    Recoverable-continue name v (done a, s, ts) k = Recoverable-after name v ts (f a s) k.0 (
        subst (λ w. Recoverable name w (f a s)) k.1
          (subst (λ n. Recoverable n (view s) (f a s)) k.2 (h a s)))
    Recoverable-continue name v (quorum_error, s, ts) k = k
    Recoverable-continue name v (assertion_error, s, ts) k = k
