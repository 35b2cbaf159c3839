-- ===== src/Sync/Handler.antt =====
-- `SyncHandler`: what it remembers of `synchronous_standby_names`, and the state it reports.
use text.Mathlib.Text.{◌==◌}
use system_design_hse_miem.Prelude.{
  ℕ, String, Bool, true, false, not, ◌&&◌, ◌||◌, List, [], ◌∷◌, ◌++◌, Option, none, some,
  if◌then◌else◌,
}
use system_design_hse_miem.Prelude.Int.{ℤ, pos, ◌-ℤ◌, ltb_ℤ, leb_ℤ}
use system_design_hse_miem.Collections.{Casing, CaseInsensitiveSet, empty, add, contains, len}
use system_design_hse_miem.Collections.Dict.{CaseInsensitiveDict, set_item, has_key}
use system_design_hse_miem.Sync.Parser.{SyncType, Ssn, empty_ssn}
use system_design_hse_miem.Sync.Replicas.{Replica, ReplicaList}

-- The attributes of `SyncHandler`.
pub record Handler : Type 0 where
  pub synchronous_standby_names : String
  pub ssn_data : Ssn
  pub primary_flush_lsn : ℤ
  pub ready_replicas : CaseInsensitiveDict ℤ

-- What the handler asks of PostgreSQL and of the global configuration during one call.
pub record Asked : Type 0 where
  pub setting : String
  pub last_operation : ℤ
  pub supports_quorum_commit : Bool
  pub supports_multiple_sync : Bool
  pub is_quorum_commit_mode : Bool
  pub synchronous_node_count : ℤ
  pub maximum_lag_on_syncnode : ℤ

-- `_SyncState`
pub record SyncReport : Type 0 where
  pub sync_type : SyncType
  pub numsync : ℕ
  pub sync : CaseInsensitiveSet
  pub sync_confirmed : CaseInsensitiveSet
  pub active : CaseInsensitiveSet

abbrev pub new_handler : Handler
new_handler = record {
  synchronous_standby_names = "";
  ssn_data = empty_ssn;
  primary_flush_lsn = pos 0;
  ready_replicas = record { entries = [] };
}

abbrev pub or_empty : Option Ssn → Ssn
or_empty none = empty_ssn
or_empty (some ssn) = ssn

-- `sync_confirmed` and `active`
pub record Chosen : Type 0 where
  pub confirmed : CaseInsensitiveSet
  pub active : CaseInsensitiveSet

module _ ⦃c : Casing⦄ where
  -- The entries whose key is in the set.
  unfoldable pub entries_in : CaseInsensitiveSet → List (String × ℤ) → List (String × ℤ)
  entries_in s [] = []
  entries_in s (e ∷ es) = let rest = entries_in s es in if contains s e.0 then e ∷ rest else rest

  -- `parse` is `parse_sync_standby_names`.
  unfoldable pub handle_change : (String → Option Ssn) → Asked → Handler → Handler
  unfolding entries_in
  handle_change parse asked h =
      let ssn = or_empty (parse asked.setting) in
      if asked.setting == h.synchronous_standby_names then h else record {
        synchronous_standby_names = asked.setting;
        ssn_data = ssn;
        primary_flush_lsn = asked.last_operation;
        ready_replicas = record { entries = entries_in ssn.members h.ready_replicas.entries };
      }

  -- The test of `_process_replica_readiness`; `in_sync_key` is `cluster.sync.matches`.
  unfoldable pub caught_up : Asked → (String → Bool) → ℤ → Replica → Bool
  caught_up asked in_sync_key flushed r =
      if asked.is_quorum_commit_mode
      then leb_ℤ flushed r.lsn
        && (r.sync_state == "quorum"
            || (not asked.supports_quorum_commit
                && (r.sync_state == "sync" || r.sync_state == "potential")))
      else in_sync_key r.application_name || (r.sync_state == "sync" && leb_ℤ flushed r.lsn)

  abbrev pub mark : Asked → (String → Bool) → Replica → Handler → Handler
  mark asked in_sync_key r h =
      if not (has_key h.ready_replicas r.application_name)
        && contains h.ssn_data.members r.application_name
        && caught_up asked in_sync_key h.primary_flush_lsn r
      then record h { ready_replicas = set_item h.ready_replicas r.application_name r.pid }
      else h

  unfoldable pub process_readiness : Asked → (String → Bool) → List Replica → Handler → Handler
  unfolding caught_up
  process_readiness asked in_sync_key [] h = h
  process_readiness asked in_sync_key (r ∷ rs) h =
      process_readiness asked in_sync_key rs (mark asked in_sync_key r h)

  abbrev pub add_if : Bool → CaseInsensitiveSet → String → CaseInsensitiveSet
  add_if b s v = if b then add s v else s

  abbrev pub within_lag : Asked → ℤ → Replica → Bool
  within_lag asked max_lsn r =
      leb_ℤ asked.maximum_lag_on_syncnode (pos 0)
      || leb_ℤ (max_lsn -ℤ r.lsn) asked.maximum_lag_on_syncnode

  -- The loop in quorum mode.
  unfoldable pub choose_quorum :
      Asked → ℤ → ℤ → CaseInsensitiveDict ℤ → List Replica → Chosen → Chosen
  choose_quorum asked count max_lsn ready [] ch = ch
  choose_quorum asked count max_lsn ready (r ∷ rs) ch = choose_quorum asked count max_lsn ready rs (
      if within_lag asked max_lsn r && (not r.nofailover || ltb_ℤ (len ch.active) count)
      then record {
        confirmed = add_if (has_key ready r.application_name) ch.confirmed r.application_name;
        active = add ch.active r.application_name;
      }
      else ch)

  -- The loop in the other mode, which ends once there are enough nodes.
  unfoldable pub choose_sync :
      Asked → ℤ → ℤ → CaseInsensitiveDict ℤ → List Replica → Chosen → Chosen
  choose_sync asked count max_lsn ready [] ch = ch
  choose_sync asked count max_lsn ready (r ∷ rs) ch =
      let chosen : Chosen = record {
        confirmed =
            add_if (r.sync_state == "sync" && has_key ready r.application_name) ch.confirmed
              r.application_name;
        active = add ch.active r.application_name;
      } in
      elim (within_lag asked max_lsn r) [
        | true ↦ elim (leb_ℤ count (len chosen.active)) [
          | true ↦ chosen
          | false ↦ choose_sync asked count max_lsn ready rs chosen
        ]
        | false ↦ choose_sync asked count max_lsn ready rs ch
      ]

-- `sorted(replica_list, key=lambda x: x.nofailover)`, which is stable
unfoldable pub having_nofailover : Bool → List Replica → List Replica
having_nofailover b [] = []
having_nofailover b (r ∷ rs) =
    let rest = having_nofailover b rs in
    if (if b then r.nofailover else not r.nofailover) then r ∷ rest else rest

abbrev pub promotable_first : List Replica → List Replica
promotable_first rs = having_nofailover false rs ++ having_nofailover true rs

module _ ⦃c : Casing⦄ where
  abbrev pub none_chosen : Chosen
  none_chosen = record { confirmed = empty; active = empty }

  abbrev pub choose : Asked → ReplicaList → Handler → Chosen
  choose asked list h =
      let count = if asked.supports_multiple_sync then asked.synchronous_node_count else pos 1 in
      let rs = promotable_first list.replicas in
      if asked.is_quorum_commit_mode
      then choose_quorum asked count list.max_lsn h.ready_replicas rs none_chosen
      else choose_sync asked count list.max_lsn h.ready_replicas rs none_chosen

  abbrev pub report : Handler → Chosen → SyncReport
  report h ch = record {
    sync_type = h.ssn_data.sync_type;
    numsync = h.ssn_data.num_sync;
    sync = if h.ssn_data.has_star then empty else h.ssn_data.members;
    sync_confirmed = ch.confirmed;
    active = ch.active;
  }

  -- `list` is the `_ReplicaList` that is built between the two calls.
  unfoldable pub current_state :
      (String → Option Ssn) → Asked → (String → Bool) → ReplicaList → Handler → SyncReport × Handler
  unfolding handle_change process_readiness having_nofailover choose_quorum choose_sync
  current_state parse asked in_sync_key list h =
      let ready = process_readiness asked in_sync_key list.replicas (handle_change parse asked h) in
      (report ready (choose asked list ready), ready)
