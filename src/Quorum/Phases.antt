-- ===== src/Quorum/Phases.antt =====
-- The phases of `_generate_transitions`.
use text.Mathlib.Text.{◌==◌}
use system_design_hse_miem.Prelude.{Bool, true, false, not, ◌&&◌, ◌||◌, none, some, if◌then◌else◌}
use system_design_hse_miem.Prelude.Int.{ℤ, pos, ◌+ℤ◌, ◌-ℤ◌, ltb_ℤ, eqb_ℤ, min_ℤ, max_ℤ}
use system_design_hse_miem.Collections.{
  Casing, CaseInsensitiveSet, empty, len, of_list, ◌∪◌, ◌∩◌, ◌∖◌, is_proper_subset, equals,
  nonempty, difference_update, intersection_update,
}
use system_design_hse_miem.Collections.Sorted.{sorted, sorted_reverse, slice_to}
use system_design_hse_miem.Quorum.State.{QuorumStateResolver, check_invariants, copy, only}
use system_design_hse_miem.Quorum.Gen.{
  Gen, pure, get, modify, require, assert_that, when, recover, ◌>>=◌, ◌>>◌,
}
use system_design_hse_miem.Quorum.Updates.{quorum_update, sync_update}

module _ ⦃c : Casing⦄ where
  -- Case 1: evict what is neither synced nor active, then sync to the voters that are alive.
  unfoldable pub voters_superset : Gen Unit
  voters_superset = do
    s ← get
    let remove = s.voters ∖ (s.sync ∪ s.active)
    when (nonempty remove) (
        quorum_update (len s.voters -ℤ len remove -ℤ s.numsync) (copy (s.voters ∖ remove)) none
          (not (nonempty (s.sync ∖ s.active))))
    s' ← get
    let add_to_sync = (s'.voters ∩ s'.active) ∖ s'.sync
    when (nonempty add_to_sync) (sync_update s'.numsync (copy (s'.sync ∪ add_to_sync)))

  -- Case 2: drop dead nodes, add what is synced and active to the voters, drop the rest.
  unfoldable pub sync_superset : Gen Unit
  sync_superset = do
    s ← get
    let dead = s.sync ∖ s.active
    let alive = copy (s.sync ∖ dead)
    when
        (nonempty dead
          && nonempty alive
          && (not (nonempty s.voters) || nonempty (alive ∩ s.voters)))
        (sync_update (min_ℤ s.numsync (len s.sync -ℤ len dead)) alive)
    s' ← get
    let add_to_voters = (s'.sync ∖ s'.voters) ∩ s'.active
    let voters = copy (s'.voters ∪ add_to_voters)
    when (nonempty add_to_voters) (quorum_update (len voters -ℤ s'.numsync) voters none true)
    s'' ← get
    let extra = s''.sync ∖ s''.voters
    when (nonempty extra)
        (sync_update (min_ℤ s''.numsync (len s''.sync -ℤ len extra)) (copy (s''.sync ∖ extra)))

  -- Cases 3 and 4: finish a change of the replication factor that was interrupted.
  unfoldable pub finish_factor_change : Gen Unit
  finish_factor_change = do
    s ← get
    let nodes = len (s.voters ∪ s.sync)
    if ltb_ℤ (pos 0) (s.quorum +ℤ min_ℤ s.numsync s.numsync_confirmed -ℤ nodes)
        then (if ltb_ℤ s.sync_wanted s.numsync
            then sync_update (max_ℤ s.sync_wanted (len s.voters -ℤ s.quorum)) s.sync
            else quorum_update (len s.sync -ℤ s.numsync) s.voters none true)
        else when
            (eqb_ℤ s.numsync s.sync_wanted
              && ltb_ℤ (pos 0) (s.quorum +ℤ s.numsync -ℤ nodes)
              && ltb_ℤ s.numsync_confirmed s.numsync)
            (quorum_update (len s.sync -ℤ s.numsync) s.voters none true)

  unfoldable pub handle_non_steady_cases : Gen Unit
  unfolding voters_superset sync_superset finish_factor_change
  handle_non_steady_cases = do
    s ← get
    if is_proper_subset s.sync s.voters
        then voters_superset
        else when (is_proper_subset s.voters s.sync) sync_superset
    s' ← get
    assert_that (equals s'.voters s'.sync)
    finish_factor_change

  -- While the quorum can be reduced: take as many dead nodes as it allows. Returns `to_remove`.
  unfoldable pub remove_within_quorum : CaseInsensitiveSet → Gen CaseInsensitiveSet
  remove_within_quorum to_remove = do
    s ← get
    let remove = of_list (slice_to s.quorum (sorted_reverse to_remove.values))
    let kept = copy (s.sync ∖ remove)
    sync_update
        (min_ℤ (if ltb_ℤ s.numsync s.sync_wanted then s.sync_wanted else s.numsync) (len kept)) kept
    s' ← get
    let voters = copy (s'.voters ∖ remove)
    let rest = intersection_update to_remove s'.sync
    quorum_update (len voters -ℤ s'.numsync) voters none (not (nonempty rest))
    pure rest

  unfoldable pub remove_rest : CaseInsensitiveSet → Gen Unit
  remove_rest to_remove = do
    s ← get
    assert_that (eqb_ℤ s.quorum (pos 0))
    let numsync = s.numsync -ℤ len to_remove
    let kept = copy (s.sync ∖ to_remove)
    let voters = copy (s.voters ∖ to_remove)
    let sync_decrease = numsync -ℤ min_ℤ s.sync_wanted (len kept)
    quorum_update
        (if eqb_ℤ sync_decrease (pos 0) then pos 0 else min_ℤ sync_decrease (len voters -ℤ pos 1))
        voters none false
    sync_update numsync kept

  unfoldable pub remove_gone_nodes : Gen Unit
  unfolding remove_within_quorum remove_rest
  remove_gone_nodes = do
    s ← get
    let to_remove = s.sync ∖ s.active
    if nonempty to_remove && equals s.sync to_remove
        then quorum_update (pos 0) empty none false >> sync_update (pos 0) empty
        else when (nonempty to_remove) (do
          rest ← if eqb_ℤ s.quorum (pos 0) then pure to_remove else remove_within_quorum to_remove
          when (nonempty rest) (remove_rest rest))

  -- First get to the requested replication factor. Returns `to_add`.
  unfoldable pub raise_factor : CaseInsensitiveSet → ℤ → ℤ → Gen CaseInsensitiveSet
  raise_factor to_add wanted increase = do
    s ← get
    let add = if nonempty s.sync then of_list (slice_to increase (sorted to_add.values)) else to_add
    sync_update (s.numsync +ℤ (if nonempty s.sync then len add else increase)) (copy (s.sync ∪ add))
    s' ← get
    let voters = copy (s'.voters ∪ add)
    quorum_update (len voters -ℤ wanted) voters none true
    s'' ← get
    pure (difference_update to_add s''.sync)

  unfoldable pub add_new_nodes : Gen Unit
  unfolding raise_factor
  add_new_nodes = do
    s ← get
    let to_add = s.active ∖ s.sync
    let wanted = min_ℤ s.sync_wanted (len (s.sync ∪ to_add))
    let increase = wanted -ℤ s.numsync
    when (nonempty to_add) (do
      rest ← if ltb_ℤ (pos 0) increase then raise_factor to_add wanted increase else pure to_add
      s' ← get
      let voters = copy (s'.voters ∪ rest)
      when (nonempty rest) (do
        quorum_update (len voters -ℤ wanted) voters none (ltb_ℤ s'.numsync_confirmed wanted)
        s'' ← get
        sync_update wanted (copy (s''.sync ∪ rest))))

  unfoldable pub handle_replication_factor_change : Gen Unit
  handle_replication_factor_change = do
    s ← get
    let increase = min_ℤ s.sync_wanted (len s.sync) -ℤ s.numsync
    if ltb_ℤ (pos 0) increase
        then (do
          sync_update (s.numsync +ℤ increase) s.sync
          s' ← get
          quorum_update (len s'.voters -ℤ s'.numsync) s'.voters none true)
        else when (ltb_ℤ increase (pos 0)) (do
          when (ltb_ℤ (s.quorum -ℤ increase) (len s.voters)) (
              quorum_update (len s.voters -ℤ s.numsync -ℤ increase) s.voters none
                (ltb_ℤ s.numsync_confirmed s.sync_wanted))
          s' ← get
          sync_update (s'.numsync +ℤ increase) s'.sync)

  unfoldable pub wait_for_replicas : Gen Bool
  wait_for_replicas = do s ← get; pure (not (nonempty (s.sync ∩ s.active)))

  -- The old leader becomes a voter.
  unfoldable pub take_over : CaseInsensitiveSet → Gen Bool
  unfolding wait_for_replicas
  take_over voters = do
    s ← get
    quorum_update s.quorum (copy voters) (some s.leader_wanted) true
    wait_for_replicas

  -- A new leader: returns whether to wait for the replicas to reconnect.
  unfoldable pub failover : Gen Bool
  unfolding take_over
  failover = do
    s ← get
    let voters = (s.voters ∖ only s.leader_wanted) ∪ only s.leader
    when (not (nonempty s.sync)) (sync_update (len voters -ℤ s.quorum) (copy voters))
    take_over voters

  -- The body of the `try`.
  unfoldable pub begin : Gen Bool
  unfolding failover
  begin = do
    s ← get
    if not (s.leader_wanted == s.leader)
        then failover
        else (do require (check_invariants s); pure false)

  -- `except QuorumError`
  unfoldable pub repair : Gen Bool
  repair = do s ← get; quorum_update (len s.sync -ℤ s.numsync) s.sync none true; pure false

  -- After a restart or failover `numsync_confirmed` is calculated from the quorum.
  abbrev pub guess_confirmed : QuorumStateResolver → QuorumStateResolver
  guess_confirmed s =
      if eqb_ℤ s.numsync_confirmed (pos 0) && nonempty (s.sync ∩ s.active)
      then record s {
        numsync_confirmed = min_ℤ (len (s.sync ∩ s.active)) (len s.voters -ℤ s.quorum);
      }
      else s

  unfoldable pub settle : Gen Unit
  unfolding handle_non_steady_cases remove_gone_nodes add_new_nodes handle_replication_factor_change
  settle = do
    s ← get
    assert_that (s.leader == s.leader_wanted)
    modify guess_confirmed
    handle_non_steady_cases
    remove_gone_nodes
    add_new_nodes
    handle_replication_factor_change

  -- `_generate_transitions`
  unfoldable pub generate_transitions : Gen Unit
  unfolding begin repair settle
  generate_transitions = do stop ← λ s. recover repair (begin s); if stop then pure tt else settle
