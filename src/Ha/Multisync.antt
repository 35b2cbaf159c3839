-- ===== src/Ha/Multisync.antt =====
-- `_process_multisync_replication`: several synchronous nodes, without quorum commit.
use system_design_hse_miem.Prelude.{
  ℕ, Bool, not, ◌&&◌, List, [], ◌∷◌, Option, none, some, if◌then◌else◌,
}
use system_design_hse_miem.Prelude.Int.{pos, eqb_ℤ}
use system_design_hse_miem.Collections.{
  Casing, CaseInsensitiveSet, empty, of_list, len, nonempty, equals, ◌∩◌,
}
use system_design_hse_miem.Dcs.SyncKey.{SyncState, voters, write_sync_state}
use system_design_hse_miem.Sync.Handler.{Handler, SyncReport}
use system_design_hse_miem.Ha.Node.{same_name}
use system_design_hse_miem.Ha.Writes.{Write, key, names, Primary, maybe_enable, reported, reloaded}

-- `CaseInsensitiveSet('*')`
abbrev pub star : ⦃c : Casing⦄ → CaseInsensitiveSet
star = of_list ("*" ∷ [])

-- In strict mode some node must confirm, even if there is none.
abbrev pub starred : ⦃c : Casing⦄ → Bool → CaseInsensitiveSet → CaseInsensitiveSet
starred strict picked = if strict && not (nonempty picked) then star else picked

module _ ⦃c : Casing⦄ {Version Time : Type 0} (primary : Primary Version Time) where
  -- `write_sync_state(name, nodes, 0, version=sync.version)`, the `i`-th of the call
  abbrev pub put_key : ℕ → CaseInsensitiveSet → SyncState Version → Option (SyncState Version)
  put_key i nodes sync_key =
      write_sync_state primary.readers (primary.set_sync_state_value 0 i) (some primary.name)
        nodes.values (some (pos 0)) sync_key.version

  -- The function goes on after a write, and returns if the key was changed by someone else.
  abbrev pub after_write :
      CaseInsensitiveSet
      → Option (SyncState Version)
      → (SyncState Version → List Write)
      → List Write
  after_write nodes none go = []
  after_write nodes (some s) go = key primary.name nodes (pos 0) ∷ go s

  abbrev pub confirm : CaseInsensitiveSet → CaseInsensitiveSet → SyncState Version → List Write
  confirm allow_promote sync_common sync_key =
      if nonempty allow_promote && not (equals allow_promote sync_common)
      then after_write allow_promote (put_key 3 allow_promote sync_key) (λ s. [])
      else []

  -- The nodes that may be promoted after `synchronous_standby_names` has changed.
  abbrev pub promotable :
      SyncState Version → CaseInsensitiveSet → CaseInsensitiveSet → Handler → CaseInsensitiveSet
  promotable cluster_key picked allow_promote h =
      if nonempty picked && not (equals picked star) && not (equals allow_promote picked)
      then (reported primary cluster_key 1
          (reloaded primary (primary.asked_after 0 0) h)).0.sync_confirmed
      else allow_promote

  -- `num` is `None`, which asks for as many nodes as there are names.
  abbrev pub assign :
      SyncState Version
      → Handler
      → CaseInsensitiveSet
      → CaseInsensitiveSet
      → CaseInsensitiveSet
      → SyncState Version
      → List Write
  assign cluster_key h picked allow_promote sync_common sync_key =
      names picked (len picked)
      ∷ confirm (promotable cluster_key picked allow_promote h) sync_common sync_key

  abbrev pub shrink :
      Bool
      → SyncState Version
      → SyncReport
      → Handler
      → CaseInsensitiveSet
      → SyncState Version
      → List Write
  shrink strict cluster_key report h listed sync_key =
      let common = listed ∩ report.sync_confirmed in
      let go = assign cluster_key h (starred strict report.active) report.sync_confirmed common in
      if equals report.active listed
        && equals listed report.sync
        && eqb_ℤ (pos report.numsync) (len report.active)
      then []
      else if not (equals common listed)
      then after_write common (put_key 2 common sync_key) go
      else go sync_key

  -- The key names other nodes than PostgreSQL confirms.
  abbrev pub realign :
      Bool
      → SyncState Version
      → SyncReport
      → Handler
      → CaseInsensitiveSet
      → SyncState Version
      → List Write
  realign strict cluster_key report h listed sync_key =
      if equals report.active listed && not (equals listed report.sync_confirmed)
      then after_write report.sync_confirmed (put_key 1 report.sync_confirmed sync_key)
          (λ s. shrink strict cluster_key report h (of_list (voters s)) s)
      else shrink strict cluster_key report h listed sync_key

  abbrev pub take_key :
      Bool → SyncState Version → SyncReport → Handler → SyncState Version → List Write
  take_key strict cluster_key report h sync_key =
      if not (same_name (some primary.name) sync_key.leader)
      then after_write empty (put_key 0 empty sync_key)
          (λ s. realign strict cluster_key report h empty s)
      else realign strict cluster_key report h (of_list (voters sync_key)) sync_key

  abbrev pub with_key : Bool → SyncState Version → Handler → Option (SyncState Version) → List Write
  with_key strict cluster_key h none = []
  with_key strict cluster_key h (some sync_key) =
      let answer = reported primary cluster_key 0 h in
      take_key strict cluster_key answer.0 answer.1 sync_key

  -- What is written, after the key was made if there was none.
  unfoldable pub process_multisync_replication : Bool → SyncState Version → Handler → List Write
  unfolding maybe_enable write_sync_state equals len voters
  process_multisync_replication strict cluster_key h =
      with_key strict cluster_key h (maybe_enable primary cluster_key)
