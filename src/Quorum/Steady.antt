-- ===== src/Quorum/Steady.antt =====
-- The optimal state that the class describes is left alone.
use text.Mathlib.Text.{◌==◌}
use system_design_hse_miem.Prelude.{
  Bool, true, false, ◌&&◌, [], ◌≡◌, refl, ap, ◌∙◌, String, arith, if◌then◌else◌, eq_iff,
}
use system_design_hse_miem.Prelude.Int.{ℤ, pos, ◌+ℤ◌, ◌-ℤ◌, ltb_ℤ, eqb_ℤ, min_ℤ, int_laws}
use system_design_hse_miem.Collections.{Casing, CaseInsensitiveSet, len, ◌∪◌, ◌∩◌, nonempty}
use system_design_hse_miem.Collections.Sets.{
  HasNodup, not_proper_of_size, nonempty-∖_self, size-∪_self, equals_refl,
}
use system_design_hse_miem.Quorum.State.{QuorumStateResolver}
use system_design_hse_miem.Quorum.Gen.{
  Gen, done, pure, modify, assert_that, continue, recover, after, ◌>>◌,
}
use system_design_hse_miem.Quorum.Phases.{
  handle_non_steady_cases, remove_gone_nodes, add_new_nodes, handle_replication_factor_change,
  guess_confirmed, settle, begin, generate_transitions, repair,
}
use system_design_hse_miem.Quorum.Iterate.{iterate, merged}
use system_design_hse_miem.Quorum.Checks.{check_of_equal}

module _ ⦃c : Casing⦄ where
  -- `sync = voters = active`, `n` synchronous nodes, all of them confirmed, and the quorum
  -- `len(active) - n`.
  abbrev pub optimal : String → ℤ → ℤ → CaseInsensitiveSet → QuorumStateResolver
  optimal name n wanted nodes = record {
    leader = name;
    quorum = len nodes -ℤ n;
    voters = nodes;
    numsync = n;
    sync = nodes;
    numsync_confirmed = n;
    active = nodes;
    sync_wanted = wanted;
    leader_wanted = name;
  }

  module _ (name : String) (n wanted : ℤ) (nodes : CaseInsensitiveSet) (d : HasNodup nodes)
      (e : n ≡ min_ℤ wanted (len nodes)) where
    abbrev state : QuorumStateResolver
    state = optimal name n wanted nodes

    abbrev Rests : Gen Unit → Type 0
    Rests m = m state ≡ (done tt, state, [])

    Rests-bind : (m k : Gen Unit) → Rests m → Rests k → Rests (m >> k)
    Rests-bind m k hm hk = ap (continue (λ _. k)) hm ∙ ap (after []) hk

    len-∪_self : len (nodes ∪ nodes) ≡ len nodes
    unfolding len
    len-∪_self = ap pos (size-∪_self nodes d)

    no_margin : ltb_ℤ (pos 0) (len nodes -ℤ n +ℤ min_ℤ n n -ℤ len nodes) ≡ false
    no_margin = grind int_laws

    all_confirmed : (b : Bool) → (b && ltb_ℤ n n) ≡ false
    all_confirmed b = ground arith

    handle_non_steady_cases-Rests : Rests handle_non_steady_cases
    unfolding handle_non_steady_cases
    handle_non_steady_cases-Rests =
        rw
          (not_proper_of_size nodes nodes (omega arith), equals_refl nodes d, len-∪_self, no_margin)
          (rw (all_confirmed (eqb_ℤ n wanted && ltb_ℤ (pos 0) (len nodes -ℤ n +ℤ n -ℤ len nodes)))
            refl)

    remove_gone_nodes-Rests : Rests remove_gone_nodes
    unfolding remove_gone_nodes
    remove_gone_nodes-Rests = rw (nonempty-∖_self nodes)

    add_new_nodes-Rests : Rests add_new_nodes
    unfolding add_new_nodes
    add_new_nodes-Rests = rw (nonempty-∖_self nodes)

    handle_replication_factor_change-Rests : Rests handle_replication_factor_change
    unfolding handle_replication_factor_change
    handle_replication_factor_change-Rests = rw (no_increase, no_decrease)
      where
        no_increase : ltb_ℤ (pos 0) (min_ℤ wanted (len nodes) -ℤ n) ≡ false
        no_increase = rw (← e) (grind int_laws)

        no_decrease : ltb_ℤ (min_ℤ wanted (len nodes) -ℤ n) (pos 0) ≡ false
        no_decrease = rw (← e) (grind int_laws)

    guess : ℤ
    guess = min_ℤ (len (nodes ∩ nodes)) (len nodes -ℤ (len nodes -ℤ n))

    guess-eq : (b : Bool) → (eqb_ℤ n (pos 0) && b) ≡ true → guess ≡ n
    unfolding guess len
    guess-eq b h = grind (int_laws, h)

    guess_if :
        (b : Bool)
        → (b ≡ true → guess ≡ n)
        → (if b then record state { numsync_confirmed = guess } else state) ≡ state
    guess_if true h = ap (λ k. record state { numsync_confirmed = k }) (h refl)
    guess_if false h = refl

    guess_confirmed-Rests : Rests (modify guess_confirmed)
    unfolding guess
    guess_confirmed-Rests =
        ap (λ t. (done tt, t, []))
          (guess_if (eqb_ℤ n (pos 0) && nonempty (nodes ∩ nodes))
            (guess-eq (nonempty (nodes ∩ nodes))))

    assert-Rests : Rests (assert_that (name == name))
    assert-Rests = rw ((eq_iff name name).1 refl)

    settle-Rests : Rests settle
    settle-Rests =
        unfold settle in
        (let adding = add_new_nodes >> handle_replication_factor_change in
          let removing = remove_gone_nodes >> adding in
          let steadying = handle_non_steady_cases >> removing in
          let guessing = modify guess_confirmed >> steadying in
          ap (after []) (
            Rests-bind (assert_that (name == name)) guessing assert-Rests (
              Rests-bind (modify guess_confirmed) steadying guess_confirmed-Rests (
                Rests-bind handle_non_steady_cases removing handle_non_steady_cases-Rests (
                  Rests-bind remove_gone_nodes adding remove_gone_nodes-Rests (
                    Rests-bind add_new_nodes handle_replication_factor_change add_new_nodes-Rests
                      handle_replication_factor_change-Rests))))))

    begin-Rests : begin state ≡ (done false, state, [])
    begin-Rests =
        unfold begin in
        rw (
          (eq_iff name name).1 refl,
          check_of_equal state refl (λ x m. m) refl (unfold len in omega int_laws),
        )

  -- Where the wanted leader holds the `/sync` key, the key and `synchronous_standby_names` both
  -- name the active nodes, which are distinct, `numsync` and the number of confirmed nodes are the
  -- smaller of the number wanted and that of the nodes, and the quorum is the number of nodes less
  -- `numsync`, the iteration yields nothing.
  pub iterate-optimal :
      (name : String) (n wanted : ℤ) (nodes : CaseInsensitiveSet)
      → HasNodup nodes
      → n ≡ min_ℤ wanted (len nodes)
      → iterate (optimal name n wanted nodes) ≡ done []
  iterate-optimal name n wanted nodes d e =
      unfold iterate generate_transitions in
      ap (λ out. merged (continue (λ stop. if stop then pure tt else settle) (recover repair out)))
        (begin-Rests name n wanted nodes d e)
      ∙ ap (λ out. merged (after [] out)) (settle-Rests name n wanted nodes d e)
