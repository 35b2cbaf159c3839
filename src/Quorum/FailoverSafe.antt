-- ===== src/Quorum/FailoverSafe.antt =====
-- The `try` of `_generate_transitions`: whatever raises there, the handler goes on as published.
use text.Mathlib.Text.{◌==◌}
use system_design_hse_miem.Prelude.{
  Bool, true, false, not, ◌&&◌, [], ◌∷◌, some, ◌≡◌, refl, if◌then◌else◌, arith,
}
use system_design_hse_miem.Prelude.Int.{ℤ, pos, ◌-ℤ◌, ◌≤ℤ◌, ltb_ℤ, leb_ℤ}
use system_design_hse_miem.Collections.{Casing, CaseInsensitiveSet, len, ◌∪◌, ◌∖◌, nonempty}
use system_design_hse_miem.Quorum.State.{
  QuorumStateResolver, copy, only, check_invariants, quorum, restart,
}
use system_design_hse_miem.Quorum.Gen.{pure, get, emit, require, when, recover, ◌>>=◌, ◌>>◌}
use system_design_hse_miem.Quorum.Updates.{
  Target, unchanged, write_key, quorum_update, sync_update, key_transition, sync_transition,
}
use system_design_hse_miem.Quorum.Phases.{
  wait_for_replicas, take_over, failover, begin, repair, settle, generate_transitions,
}
use system_design_hse_miem.Quorum.Published.{
  View, view, Tracks, Tracks-bind, Tracks-pure, Tracks-if,
}
use system_design_hse_miem.Quorum.UpdatesSafe.{key_written, sync_written, unchanged→leader}
use system_design_hse_miem.Quorum.PhasesSafe.{settle-Tracks}
use system_design_hse_miem.Quorum.Checks.{check_of_failover}
use system_design_hse_miem.Quorum.Recover.{
  Recoverable, recover-Follows, repair-Tracks, unpublished-Follows, Recoverable-after,
  Recoverable-require, Recoverable-continue,
}

module _ ⦃c : Casing⦄ where
  -- The check of the `/sync` key of a failover.
  module _ (v : View) (s : QuorumStateResolver) (lo : pos 0 ≤ℤ s.quorum)
      (e : s.leader ≡ s.leader_wanted) (en : s.numsync ≡ v.numsync) (es : s.sync ≡ v.sync) where
    key_checked :
        (b : Bool)
        → check_invariants s ≡ b
        → Recoverable s.leader_wanted v ((require b >> emit (key_transition quorum s)) s)
    key_checked true check = key_written s.leader_wanted v s true lo refl en es check
    key_checked false check = (tt, unpublished-Follows s v check e en es)

  module _ (v : View) (s : QuorumStateResolver) (e : s.leader ≡ s.leader_wanted)
      (en : s.numsync ≡ v.numsync) (es : s.sync ≡ v.sync) where
    write_key-Recoverable :
        (t : Target) → pos 0 ≤ℤ t.quorum → Recoverable s.leader_wanted v (write_key t s)
    unfolding write_key
    write_key-Recoverable t lo =
        let s' = record s { quorum = t.quorum; voters = t.voters } in
        Recoverable-after s.leader_wanted v []
          ((require (check_invariants s') >> emit (key_transition quorum s')) s') tt
          (key_checked v s' lo e en es (check_invariants s') refl)

    publish_if :
        (t : Target) (hint early : Bool)
        → pos 0 ≤ℤ t.quorum
        → (early ≡ true → view s ≡ v)
        → Recoverable s.leader_wanted v (
            (if early
                then pure tt
                else (get >>= λ s'. when hint (emit (key_transition restart s')) >> write_key t))
              s)
    publish_if t hint true lo h = (tt, h refl, refl)
    publish_if t true false lo h =
        Recoverable-after s.leader_wanted v (key_transition restart s ∷ []) (write_key t s)
          (tt, tt, tt) (write_key-Recoverable t lo)
    publish_if t false false lo h =
        Recoverable-after s.leader_wanted v [] (write_key t s) tt (write_key-Recoverable t lo)

  failover_key-Recoverable :
      (q : ℤ) (vs : CaseInsensitiveSet) (s : QuorumStateResolver)
      → Recoverable s.leader_wanted (view s) (quorum_update q vs (some s.leader_wanted) true s)
  failover_key-Recoverable q vs s =
      unfold quorum_update in
      (let t : Target = record { leader = s.leader_wanted; quorum = q; voters = vs } in
        Recoverable-require (not (ltb_ℤ q (pos 0))) _ s λ lo.
          Recoverable-require (not (ltb_ℤ (pos 0) q && leb_ℤ (len vs) q)) _ s λ hi.
            publish_if (view s) (record s { leader = s.leader_wanted }) refl refl refl t
              (unchanged s t) (unchanged s t && nonempty s.voters) (ground arith)
              (λ h. cc (unchanged→leader s t (ground arith))))

  sync_checked :
      (n : ℤ) (ns : CaseInsensitiveSet) (s : QuorumStateResolver)
      → pos 0 ≤ℤ n
      → n ≤ℤ len ns
      → (b : Bool) → check_invariants (record s { numsync = n; sync = ns }) ≡ b
      → check_invariants (record s { numsync = n; sync = ns }) ≡ true
      → Recoverable s.leader_wanted (view s) (
          (require b >> emit (sync_transition (record s { numsync = n; sync = ns })))
            (record s { numsync = n; sync = ns }))
  sync_checked n ns s lo hi true check passes = sync_written n ns lo hi s true check
  sync_checked n ns s lo hi false check passes = absurd (cc (check, passes))

  -- The first step of a failover, when `synchronous_standby_names` is empty.
  failover_sync-Recoverable :
      (s : QuorumStateResolver) (voters : CaseInsensitiveSet)
      → voters ≡ (s.voters ∖ only s.leader_wanted) ∪ only s.leader
      → Recoverable s.leader_wanted (view s) (sync_update (len voters -ℤ s.quorum) (copy voters) s)
  failover_sync-Recoverable s voters e =
      unfold sync_update in
      (let n = len voters -ℤ s.quorum in
        let s' = record s { numsync = n; sync = copy voters } in
        Recoverable-require (not (ltb_ℤ n (pos 0))) _ s λ lo.
          Recoverable-require (not (ltb_ℤ (len (copy voters)) n)) _ s λ hi.
            Recoverable-after s.leader_wanted (view s) []
              ((require (check_invariants s') >> emit (sync_transition s')) s') tt
              (sync_checked n (copy voters) s (ground arith) (ground arith) (check_invariants s')
                refl (check_of_failover s voters e)))

  take_over-Recoverable :
      (voters : CaseInsensitiveSet) (s : QuorumStateResolver)
      → Recoverable s.leader_wanted (view s) (take_over voters s)
  unfolding take_over
  take_over-Recoverable voters s =
      Recoverable-after s.leader_wanted (view s) []
        ((quorum_update s.quorum (copy voters) (some s.leader_wanted) true >> wait_for_replicas) s)
        tt
        (Recoverable-continue (λ _. wait_for_replicas) (λ _ s'. (tt, refl, refl)) s.leader_wanted
          (view s) (quorum_update s.quorum (copy voters) (some s.leader_wanted) true s)
          (failover_key-Recoverable s.quorum (copy voters) s))

  empty_sync-Recoverable :
      (s : QuorumStateResolver) (b : Bool)
      → let voters = (s.voters ∖ only s.leader_wanted) ∪ only s.leader in
        Recoverable s.leader_wanted
          (view s)
          (when b (sync_update (len voters -ℤ s.quorum) (copy voters)) s)
  empty_sync-Recoverable s true =
      failover_sync-Recoverable s ((s.voters ∖ only s.leader_wanted) ∪ only s.leader) refl
  empty_sync-Recoverable s false = (tt, refl, refl)

  failover-Recoverable :
      (s : QuorumStateResolver) → Recoverable s.leader_wanted (view s) (failover s)
  failover-Recoverable s =
      unfold failover in
      (let voters = (s.voters ∖ only s.leader_wanted) ∪ only s.leader in
        let first =
          when (not (nonempty s.sync)) (sync_update (len voters -ℤ s.quorum) (copy voters)) in
        Recoverable-after s.leader_wanted (view s) [] ((first >> take_over voters) s) tt (
          Recoverable-continue (λ _. take_over voters) (λ _. take_over-Recoverable voters)
            s.leader_wanted (view s) (first s) (empty_sync-Recoverable s (not (nonempty s.sync)))))

  checked-Recoverable :
      (s : QuorumStateResolver) (b : Bool)
      → Recoverable s.leader_wanted (view s) ((require b >> pure false) s)
  checked-Recoverable s true = (tt, refl, refl)
  checked-Recoverable s false = (tt, repair-Tracks.at s)

  begin_if :
      (s : QuorumStateResolver) (b : Bool)
      → Recoverable s.leader_wanted
          (view s)
          ((if b then failover else (require (check_invariants s) >> pure false)) s)
  begin_if s true = failover-Recoverable s
  begin_if s false = checked-Recoverable s (check_invariants s)

  begin-Tracks : Tracks (λ s. recover repair (begin s))
  begin-Tracks = record {
    at = λ s. recover-Follows s.leader_wanted (view s) (begin s) (
        unfold begin in
        (Recoverable-after s.leader_wanted (view s) []
          ((if not (s.leader_wanted == s.leader)
              then failover
              else (require (check_invariants s) >> pure false))
            s)
          tt (begin_if s (not (s.leader_wanted == s.leader)))));
  }

  pub generate_transitions-Tracks : Tracks generate_transitions
  generate_transitions-Tracks =
      unfold generate_transitions in
      Tracks-bind (λ s. recover repair (begin s)) (λ stop. if stop then pure tt else settle)
        begin-Tracks (λ stop. Tracks-if stop (pure tt) settle (Tracks-pure tt) settle-Tracks)
