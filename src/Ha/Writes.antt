-- ===== src/Ha/Writes.antt =====
-- `_process_quorum_replication`: the transitions of the resolver are carried out, in rounds.
use system_design_hse_miem.Prelude.{
  ℕ, zero, suc, ◌+◌, leb, String, Bool, true, false, not, ◌&&◌, List, [], ◌∷◌, ◌++◌, Option, none,
  some, if◌then◌else◌,
}
use system_design_hse_miem.Prelude.Int.{ℤ, pos, max_ℤ}
use system_design_hse_miem.Collections.{Casing, CaseInsensitiveSet, len}
use system_design_hse_miem.Values.{Value}
use system_design_hse_miem.Dcs.{Readers, is_set, or_blank}
use system_design_hse_miem.Dcs.SyncKey.{SyncState, is_empty_sync, voters, matches, write_sync_state}
use system_design_hse_miem.Quorum.State.{
  QuorumStateResolver, Transition, TransitionType, sync, quorum, restart, init,
}
use system_design_hse_miem.Quorum.Gen.{Outcome, done}
use system_design_hse_miem.Quorum.Iterate.{iterate}
use system_design_hse_miem.Quorum.Published.{View, view}
use system_design_hse_miem.Sync.Parser.{Ssn}
use system_design_hse_miem.Sync.Replicas.{ReplicaList}
use system_design_hse_miem.Sync.Handler.{Handler, Asked, SyncReport, current_state, handle_change}

-- What is written: the `/sync` key, or `synchronous_standby_names`.
pub data Write : Type 0 where
  key : String → CaseInsensitiveSet → ℤ → Write
  names : CaseInsensitiveSet → ℤ → Write

-- The primary during one call: its settings, and the outcomes of what it asks the store, the
-- database and the clock for, in each round and before each transition. `asked_after` is given where
-- the database reloads a new setting as a primary.
pub record Primary (Version Time : Type 0) : Type 0 where
  pub name : String
  pub min_sync : ℤ
  pub sync_wanted : ℤ
  pub loop_wait : ℕ
  pub readers : Readers Time
  pub parse : String → Option Ssn
  pub enable : Value → Option Version → Option Version
  pub set_sync_state_value : ℕ → ℕ → Value → Option Version → Option Version
  pub elapsed : ℕ → ℕ → ℕ
  pub elapsed_at_end : ℕ → ℕ
  pub asked : ℕ → Asked
  pub replicas : ℕ → ReplicaList
  pub asked_after : ℕ → ℕ → Option Asked

-- What a transition leads to, unless the function returns.
pub record Acted (Version : Type 0) : Type 0 where
  pub writes : List Write
  pub key : SyncState Version
  pub handler : Handler

pub data Ending : Type 0 where
  returned : Ending
  raised : Ending
  ended : Option TransitionType → Ending

pub record Round (Version : Type 0) : Type 0 where
  pub writes : List Write
  pub key : SyncState Version
  pub leader : String
  pub handler : Handler
  pub ending : Ending

-- The rounds of a call, each as the view at its start and its writes; whether they came to an end.
pub record Rounds : Type 0 where
  pub log : List (View × List Write)
  pub is_finished : Bool

abbrev pub prefixed : {Version : Type 0} → List Write → Round Version → Round Version
prefixed ws round = record round { writes = ws ++ round.writes }

abbrev pub stopped : {Version : Type 0} → SyncState Version → String → Handler → Round Version
stopped sync_key leader h = record {
  writes = [];
  key = sync_key;
  leader = leader;
  handler = h;
  ending = returned;
}

abbrev pub carried :
    {Version : Type 0}
    → Option (Acted Version)
    → Round Version
    → (Acted Version → Round Version)
    → Round Version
carried none stop go = stop
carried (some acted) stop go = go acted

-- Another round follows, or none.
abbrev pub repeated : Bool → View × List Write → (Unit {0} → Rounds) → Rounds
repeated false entry more = record { log = entry ∷ []; is_finished = true }
repeated true entry more =
    let rest = more tt in record { log = entry ∷ rest.log; is_finished = rest.is_finished }

abbrev pub wants_restart : Ending → Bool
wants_restart (ended (some restart)) = true
wants_restart _ = false

module _ ⦃c : Casing⦄ {Version Time : Type 0} (primary : Primary Version Time) where
  -- `_maybe_enable_synchronous_mode`
  unfoldable pub maybe_enable : SyncState Version → Option (SyncState Version)
  unfolding write_sync_state
  maybe_enable sync_key =
      if is_empty_sync sync_key
      then write_sync_state primary.readers primary.enable (some primary.name) [] (some (pos 0))
          sync_key.version
      else some sync_key

  -- `_check_timeout()` in round `r` before transition `i`, and `_check_timeout(1)`
  abbrev pub is_late : ℕ → ℕ → Bool
  is_late r i = leb primary.loop_wait (primary.elapsed r i)

  abbrev pub is_late_soon : ℕ → Bool
  is_late_soon r = leb primary.loop_wait (primary.elapsed_at_end r + 1)

  abbrev pub reloaded : Option Asked → Handler → Handler
  reloaded none h = h
  reloaded (some asked) h = handle_change primary.parse asked h

  abbrev pub key_written :
      Transition → Handler → Option (SyncState Version) → Option (Acted Version)
  key_written t h none = none
  key_written t h (some s) =
      some record { writes = key t.leader t.names t.num ∷ []; key = s; handler = h }

  -- `none` is a `return`.
  abbrev pub act :
      ℕ → ℕ → TransitionType → Transition → SyncState Version → Handler → Option (Acted Version)
  act r i quorum t sync_key h = key_written t h (
      write_sync_state primary.readers (primary.set_sync_state_value r i) (some t.leader)
        t.names.values (some t.num) sync_key.version)
  act r i sync t sync_key h = some record {
    writes = names t.names (max_ℤ t.num primary.min_sync) ∷ [];
    key = sync_key;
    handler = reloaded (primary.asked_after r i) h;
  }
  act r i restart t sync_key h = some record { writes = []; key = sync_key; handler = h }

  abbrev pub act_in_time : ℕ → ℕ → Transition → SyncState Version → Handler → Option (Acted Version)
  act_in_time r i t sync_key h =
      if is_late r i then none else act r i t.transition_type t sync_key h

  -- The loop over the transitions; `last` is the one before.
  unfoldable pub carry_out :
      ℕ
      → ℕ
      → List Transition
      → Option TransitionType
      → SyncState Version
      → String
      → Handler
      → Round Version
  unfolding handle_change write_sync_state
  carry_out r i [] last sync_key leader h = record {
    writes = [];
    key = sync_key;
    leader = leader;
    handler = h;
    ending = ended last;
  }
  carry_out r i (t ∷ ts) last sync_key leader h =
      carried (act_in_time r i t sync_key h) (stopped sync_key t.leader h) λ acted.
        prefixed acted.writes
          (carry_out r (suc i) ts (some t.transition_type) acted.key t.leader acted.handler)

  abbrev pub resolver_of : SyncState Version → String → SyncReport → QuorumStateResolver
  resolver_of sync_key leader report =
      init leader sync_key.quorum (record { values = voters sync_key }) (pos report.numsync)
        report.sync (len report.sync_confirmed) report.active primary.sync_wanted primary.name

  abbrev pub reported : SyncState Version → ℕ → Handler → SyncReport × Handler
  reported cluster_key r h =
      current_state primary.parse (primary.asked r) (λ n. matches cluster_key (some n) false)
        (primary.replicas r) h

  abbrev pub resolved :
      ℕ → SyncState Version → String → Handler → Outcome (List Transition) → Round Version
  resolved r sync_key leader h (done ts) = carry_out r 0 ts none sync_key leader h
  resolved r sync_key leader h _ = record {
    writes = [];
    key = sync_key;
    leader = leader;
    handler = h;
    ending = raised;
  }

  -- One turn of `while True`, up to its last test.
  unfoldable pub round :
      SyncState Version → ℕ → SyncState Version → String → Handler → Round Version
  unfolding carry_out iterate init current_state matches voters len
  round cluster_key r sync_key leader h =
      let answer = reported cluster_key r h in
      resolved r sync_key leader answer.1 (iterate (resolver_of sync_key leader answer.0))

  -- `while True`, at most `fuel` turns.
  unfoldable pub rounds : ℕ → SyncState Version → ℕ → SyncState Version → String → Handler → Rounds
  unfolding round
  rounds zero cluster_key r sync_key leader h = record { log = []; is_finished = false }
  rounds (suc fuel) cluster_key r sync_key leader h =
      let turn = round cluster_key r sync_key leader h in
      let entry : View × List Write =
        (view (resolver_of sync_key leader (reported cluster_key r h).0), turn.writes) in
      repeated (wants_restart turn.ending && not (is_late_soon r)) entry
        λ _. rounds fuel cluster_key (suc r) turn.key turn.leader turn.handler

  abbrev pub from_key : ℕ → SyncState Version → Option (SyncState Version) → Handler → Rounds
  from_key fuel cluster_key none h = record { log = []; is_finished = true }
  from_key fuel cluster_key (some sync_key) h =
      if is_set sync_key.leader
      then rounds fuel cluster_key 0 sync_key (or_blank sync_key.leader) h
      else record { log = []; is_finished = true }

  unfoldable pub process_quorum_replication : ℕ → SyncState Version → Handler → Rounds
  unfolding maybe_enable rounds
  process_quorum_replication fuel cluster_key h =
      from_key fuel cluster_key (maybe_enable cluster_key) h
