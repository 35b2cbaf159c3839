-- ===== src/Sync/Count.antt =====
-- How many nodes a report makes active where quorum commit is off.
use text.Mathlib.Text.{◌==◌}
use system_design_hse_miem.Prelude.{
  ℕ, ◌≤◌, ◌<◌, Bool, true, false, ◌&&◌, String, List, [], ◌∷◌, Option, if◌then◌else◌, ◌≡◌, refl,
  arith,
}
use system_design_hse_miem.Prelude.Int.{ℤ, pos, leb_ℤ}
use system_design_hse_miem.Collections.{Casing, add, len}
use system_design_hse_miem.Collections.Sets.{size, size-add-le}
use system_design_hse_miem.Collections.Dict.{CaseInsensitiveDict, has_key}
use system_design_hse_miem.Sync.Parser.{Ssn}
use system_design_hse_miem.Sync.Replicas.{Replica, ReplicaList}
use system_design_hse_miem.Sync.Handler.{
  Handler, Asked, Chosen, add_if, within_lag, choose_quorum, choose_sync, promotable_first,
  none_chosen, current_state, handle_change, process_readiness,
}

module _ ⦃c : Casing⦄ where
  abbrev IsWithin : ℕ → Chosen → Type 0
  IsWithin n ch = size ch.active ≤ n

  near_or_past :
      (n : ℕ) (near full : Bool) (chosen on past : Chosen)
      → (full ≡ true → IsWithin n chosen)
      → (full ≡ false → IsWithin n on)
      → IsWithin n past
      → IsWithin n (elim near [ true ↦ elim full [ true ↦ chosen | false ↦ on ] | false ↦ past ])
  near_or_past n true true chosen on past k l m = k refl
  near_or_past n true false chosen on past k l m = l refl
  near_or_past n false full chosen on past k l m = m

  choose_sync-le :
      (asked : Asked) (n : ℕ) (max_lsn : ℤ) (ready : CaseInsensitiveDict ℤ) (rs : List Replica)
      (ch : Chosen)
      → size ch.active < n
      → IsWithin n (choose_sync asked (pos n) max_lsn ready rs ch)
  unfolding choose_sync
  choose_sync-le asked n max_lsn ready [] ch h = omega arith
  choose_sync-le asked n max_lsn ready (r ∷ rs) ch h =
      let chosen : Chosen = record {
        confirmed =
            add_if (r.sync_state == "sync" && has_key ready r.application_name) ch.confirmed
              r.application_name;
        active = add ch.active r.application_name;
      } in
      near_or_past n (within_lag asked max_lsn r) (leb_ℤ (pos n) (len chosen.active)) chosen _ _
        (λ e. omega (arith, size-add-le ch.active r.application_name))
        (λ e. choose_sync-le asked n max_lsn ready rs chosen (unfold len in ground (arith, e)))
        (choose_sync-le asked n max_lsn ready rs ch h)

  either_mode :
      (n : ℕ) (in_quorum several : Bool) (count : ℤ) (by_quorum by_sync : ℤ → Chosen)
      → in_quorum ≡ false
      → several ≡ true
      → count ≡ pos n
      → IsWithin n (by_sync (pos n))
      → IsWithin n (
          if in_quorum
          then by_quorum (if several then count else pos 1)
          else by_sync (if several then count else pos 1))
  either_mode n in_quorum several count by_quorum by_sync plain many e h = rw (plain, many, e) h

  -- Where quorum commit is off, PostgreSQL supports several synchronous nodes, and at least one is asked for, a
  -- report makes no more nodes active than are asked for.
  pub current_state_active_le :
      (parse : String → Option Ssn) (asked : Asked) (key : String → Bool) (list : ReplicaList)
      (h : Handler) (n : ℕ)
      → asked.is_quorum_commit_mode ≡ false
      → asked.supports_multiple_sync ≡ true
      → asked.synchronous_node_count ≡ pos n
      → 0 < n
      → size (current_state parse asked key list h).0.active ≤ n
  unfolding current_state
  current_state_active_le parse asked key list h n plain several count some =
      let h' = process_readiness asked key list.replicas (handle_change parse asked h) in
      either_mode n asked.is_quorum_commit_mode asked.supports_multiple_sync
        asked.synchronous_node_count
        (λ k.
          choose_quorum asked k list.max_lsn h'.ready_replicas (promotable_first list.replicas)
            none_chosen)
        (λ k.
          choose_sync asked k list.max_lsn h'.ready_replicas (promotable_first list.replicas)
            none_chosen)
        plain several count
        (choose_sync-le asked n list.max_lsn h'.ready_replicas (promotable_first list.replicas)
          none_chosen some)
