-- ===== src/Quorum/Checks.antt =====
-- States in which `check_invariants` passes.
use system_design_hse_miem.Prelude.{Bool, true, ◌||◌, ◌≡◌, ap, arith}
use system_design_hse_miem.Prelude.Int.{pos, ◌+ℤ◌, ◌-ℤ◌, ◌≤ℤ◌, int_laws}
use system_design_hse_miem.Collections.{
  Casing, CaseInsensitiveSet, contains, len, ◌∪◌, ◌∖◌, issubset,
}
use system_design_hse_miem.Collections.Sets.{
  Subset, size, members, size-le_of_add, ∪-HasNodup, Subset→issubset,
}
use system_design_hse_miem.Quorum.State.{QuorumStateResolver, copy, only, check_invariants}

module _ ⦃c : Casing⦄ where
  or_left : (a b : Bool) → a ≡ true → (a || b) ≡ true
  or_left a b h = ground arith

  or_right : (a b : Bool) → b ≡ true → (a || b) ≡ true
  or_right a b h = ground arith

  check_intro :
      (s : QuorumStateResolver)
      → len ((s.voters ∪ only s.leader) ∪ (s.sync ∪ only s.leader_wanted))
        ≤ℤ s.quorum +ℤ s.numsync +ℤ pos 1
      → (issubset (s.voters ∪ only s.leader) (s.sync ∪ only s.leader_wanted)
          || issubset (s.sync ∪ only s.leader_wanted) (s.voters ∪ only s.leader))
        ≡ true
      → check_invariants s ≡ true
  unfolding check_invariants
  check_intro s small nested = ground arith

  -- The voters contain the synchronous nodes and are no more.
  pub check_of_equal :
      (s : QuorumStateResolver)
      → s.leader ≡ s.leader_wanted
      → Subset s.sync s.voters
      → size s.sync ≡ size s.voters
      → pos (size s.sync) ≤ℤ s.quorum +ℤ s.numsync
      → check_invariants s ≡ true
  check_of_equal s same_leader sub same_size enough =
      let voters = s.voters ∪ only s.leader in
      let nodes = s.sync ∪ only s.leader_wanted in
      check_intro s
        (unfold len in
          omega (
            int_laws,
            size-le_of_add (voters ∪ nodes) s.voters s.leader (∪-HasNodup voters nodes)
                (λ x m. grind (arith, members, m, sub x, same_leader)),
          ))
        (or_right _ _ (
          Subset→issubset nodes voters (∪-HasNodup s.sync (only s.leader_wanted))
            (λ x m. grind (arith, members, m, sub x, same_leader))))

  -- What a failover from empty `synchronous_standby_names` sets there.
  pub check_of_failover :
      (s : QuorumStateResolver) (voters : CaseInsensitiveSet)
      → voters ≡ (s.voters ∖ only s.leader_wanted) ∪ only s.leader
      → check_invariants (record s { numsync = len voters -ℤ s.quorum; sync = copy voters }) ≡ true
  check_of_failover s voters e =
      let old = s.voters ∪ only s.leader in
      let nodes = copy voters ∪ only s.leader_wanted in
      check_intro (record s { numsync = len voters -ℤ s.quorum; sync = copy voters })
        (unfold len in
          omega (
            int_laws,
            size-le_of_add (old ∪ nodes) voters s.leader_wanted (∪-HasNodup old nodes) (λ x m.
                let at_x : contains voters x
                    ≡ contains ((s.voters ∖ only s.leader_wanted) ∪ only s.leader) x =
                  ap (λ t. contains t x) e in
                grind (arith, members, m, at_x)),
          ))
        (or_left _ _ (
          Subset→issubset old nodes (∪-HasNodup s.voters (only s.leader)) (λ x m.
            let at_x : contains voters x
                ≡ contains ((s.voters ∖ only s.leader_wanted) ∪ only s.leader) x =
              ap (λ t. contains t x) e in
            grind (arith, members, m, at_x))))
