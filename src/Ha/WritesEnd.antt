-- ===== src/Ha/WritesEnd.antt =====
-- The rounds of `_process_quorum_replication` come to an end.
use system_design_hse_miem.Prelude.{
  ℕ, zero, suc, ◌+◌, ◌≤◌, String, Bool, true, false, ◌&&◌, not, Option, none, some, ◌≡◌, refl,
  arith, Bool-cases, inl, inr, List,
}
use system_design_hse_miem.Collections.{Casing}
use system_design_hse_miem.Dcs.{is_set, or_blank}
use system_design_hse_miem.Dcs.SyncKey.{SyncState}
use system_design_hse_miem.Quorum.Published.{View}
use system_design_hse_miem.Sync.Handler.{Handler}
use system_design_hse_miem.Ha.Writes.{
  Write, Primary, Rounds, repeated, wants_restart, is_late_soon, round, rounds, from_key,
  maybe_enable, process_quorum_replication,
}

repeated-finished :
    (wants soon : Bool) (entry : View × List Write) (go : Unit {0} → Rounds)
    → (soon ≡ false → (go tt).is_finished ≡ true)
    → (repeated (wants && not soon) entry go).is_finished ≡ true
repeated-finished true false entry go h = h refl
repeated-finished true true entry go h = refl
repeated-finished false soon entry go h = refl

module _ ⦃c : Casing⦄ {Version Time : Type 0} (primary : Primary Version Time) where
  -- `time.sleep(1)` between two rounds takes a second.
  abbrev pub SleepsASecond : Type 0
  SleepsASecond = (r : ℕ) → primary.elapsed_at_end r + 1 ≤ primary.elapsed_at_end (suc r)

  elapsed-ge : SleepsASecond → (r : ℕ) → r ≤ primary.elapsed_at_end r
  elapsed-ge sleeps zero = omega arith
  elapsed-ge sleeps (suc r) = omega (arith, sleeps r, elapsed-ge sleeps r)

  rounds-finished :
      SleepsASecond
      → (fuel : ℕ) (cluster_key : SyncState Version) (r : ℕ) (sync_key : SyncState Version)
        (leader : String) (h : Handler)
      → primary.loop_wait ≤ r + fuel
      → (rounds primary (suc fuel) cluster_key r sync_key leader h).is_finished ≡ true
  unfolding rounds
  rounds-finished sleeps zero cluster_key r sync_key leader h le =
      repeated-finished (wants_restart (round primary cluster_key r sync_key leader h).ending)
        (is_late_soon primary r) _ _ λ soon. absurd (ground (arith, elapsed-ge sleeps r, soon))
  rounds-finished sleeps (suc fuel) cluster_key r sync_key leader h le =
      let turn = round primary cluster_key r sync_key leader h in
      repeated-finished (wants_restart turn.ending) (is_late_soon primary r) _ _ λ soon.
        rounds-finished sleeps fuel cluster_key (suc r) turn.key turn.leader turn.handler
          (omega arith)

  from_key-finished :
      SleepsASecond
      → (cluster_key : SyncState Version) (o : Option (SyncState Version)) (h : Handler)
      → (from_key primary (suc primary.loop_wait) cluster_key o h).is_finished ≡ true
  from_key-finished sleeps cluster_key none h = refl
  from_key-finished sleeps cluster_key (some s) h = elim (Bool-cases (is_set s.leader)) [
    | inl e ↦ rw e (
        rounds-finished sleeps primary.loop_wait cluster_key 0 s (or_blank s.leader) h
          (omega arith))
    | inr e ↦ rw e refl
  ]

  -- If a sleep of a second takes a second, `_process_quorum_replication` ends after at most
  -- `loop_wait + 1` rounds, whatever the resolver asks for.
  pub process_quorum_replication-finished :
      SleepsASecond
      → (cluster_key : SyncState Version) (h : Handler)
      → (process_quorum_replication primary (suc primary.loop_wait) cluster_key h).is_finished
        ≡ true
  unfolding process_quorum_replication
  process_quorum_replication-finished sleeps cluster_key h =
      from_key-finished sleeps cluster_key (maybe_enable primary cluster_key) h
