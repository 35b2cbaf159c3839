-- ===== src/Sync/Replicas.antt =====
-- `_ReplicaList`: the replicas that may be synchronous, the best first.
use text.Mathlib.Text.{◌==◌}
use system_design_hse_miem.Prelude.{
  ℕ, zero, suc, String, Bool, true, false, not, ◌&&◌, ◌||◌, List, [], ◌∷◌, Option, none, some,
  if◌then◌else◌,
}
use system_design_hse_miem.Prelude.Int.{ℤ, ltb_ℤ, eqb_ℤ, max_ℤ}
use system_design_hse_miem.Collections.{Casing}
use system_design_hse_miem.Collections.Sorted.{comes_before}
use system_design_hse_miem.Collections.Dict.{CaseInsensitiveDict, get_item, has_key, dict_of_list}

-- What `_ReplicaList` reads of a member of the cluster.
pub record Member : Type 0 where
  pub name : String
  pub is_running : Bool
  pub nosync : Bool
  pub nofailover : Bool
  pub replicatefrom : String
  pub sync_priority : ℤ

-- A row of `pg_stat_replication`; `lsn` is the column that `synchronous_commit` asks for.
pub record Row : Type 0 where
  pub pid : ℤ
  pub application_name : String
  pub sync_state : String
  pub lsn : Option ℤ

pub record Replica : Type 0 where
  pub pid : ℤ
  pub application_name : String
  pub sync_state : String
  pub lsn : ℤ
  pub nofailover : Bool
  pub sync_priority : ℤ

pub record ReplicaList : Type 0 where
  pub replicas : List Replica
  pub max_lsn : ℤ

module _ ⦃c : Casing⦄ where
  -- `_should_cascade`, at most `fuel` calls deep; `none` is the `RecursionError`. A missing
  -- `replicatefrom` tag is the empty text.
  unfoldable pub should_cascade :
      ℕ → CaseInsensitiveDict Member → CaseInsensitiveDict Row → Member → Option Bool
  should_cascade zero members replication member = none
  should_cascade (suc fuel) members replication member =
      if member.replicatefrom == ""
      then some false
      else elim (get_item members member.replicatefrom) [
        | none ↦ some false
        | some m ↦
            let rest = should_cascade fuel members replication m in
            if m.replicatefrom == "" then some (has_key replication m.name) else rest
      ]

  -- The members that run and are not `nosync`, but for the node itself.
  unfoldable pub eligible : String → List Member → List (String × Member)
  eligible own [] = []
  eligible own (m ∷ ms) =
      let rest = eligible own ms in
      if m.is_running && not m.nosync && not (c.lower m.name == c.lower own)
      then (m.name, m) ∷ rest
      else rest

  abbrev pub streams : Option ℤ → Bool
  streams none = false
  streams (some n) = true

  unfoldable pub streaming : CaseInsensitiveDict Member → List Row → List (String × Row)
  streaming members [] = []
  streaming members (r ∷ rs) =
      let rest = streaming members rs in
      if streams r.lsn && has_key members r.application_name
      then (r.application_name, r) ∷ rest
      else rest

  abbrev pub replica_of : Row → Member → ℤ → Replica
  replica_of r m lsn = record {
    pid = r.pid;
    application_name = r.application_name;
    sync_state = r.sync_state;
    lsn = lsn;
    nofailover = m.nofailover;
    sync_priority = m.sync_priority;
  }

  abbrev pub unless_cascades :
      Row → Member → ℤ → Option Bool → Option (List Replica) → Option (List Replica)
  unless_cascades r m lsn none found = none
  unless_cascades r m lsn (some true) found = found
  unless_cascades r m lsn (some false) none = none
  unless_cascades r m lsn (some false) (some rs) = some (replica_of r m lsn ∷ rs)

  -- The body of the loop over `replication.values()`.
  abbrev pub consider :
      ℕ
      → CaseInsensitiveDict Member
      → CaseInsensitiveDict Row
      → Row
      → Option Member
      → Option ℤ
      → Option (List Replica)
      → Option (List Replica)
  unfolding should_cascade
  consider fuel members replication r (some m) (some lsn) found =
      unless_cascades r m lsn (should_cascade fuel members replication m) found
  consider fuel members replication r _ _ found = found

  unfoldable pub candidates :
      ℕ
      → CaseInsensitiveDict Member
      → CaseInsensitiveDict Row
      → List (String × Row)
      → Option (List Replica)
  candidates fuel members replication [] = some []
  candidates fuel members replication (e ∷ es) =
      consider fuel members replication e.1 (get_item members e.1.application_name) e.1.lsn
        (candidates fuel members replication es)

-- The order of `(sync_priority, sync_state, lsn)`.
abbrev pub is_above : Replica → Replica → Bool
is_above a b =
    ltb_ℤ b.sync_priority a.sync_priority
    || (eqb_ℤ a.sync_priority b.sync_priority
        && (comes_before b.sync_state a.sync_state
            || (a.sync_state == b.sync_state && ltb_ℤ b.lsn a.lsn)))

unfoldable pub insert_replica : Replica → List Replica → List Replica
insert_replica r [] = r ∷ []
insert_replica r (s ∷ ss) =
    let rest = insert_replica r ss in if is_above s r then s ∷ rest else r ∷ s ∷ ss

-- `sort(reverse=True)`: equal replicas keep their order.
unfoldable pub sort_replicas : List Replica → List Replica
unfolding insert_replica
sort_replicas [] = []
sort_replicas (r ∷ rs) = insert_replica r (sort_replicas rs)

unfoldable pub highest : ℤ → List Replica → ℤ
highest n [] = n
highest n (r ∷ rs) = highest (max_ℤ n r.lsn) rs

abbrev pub max_lsn_of : ℤ → List Replica → ℤ
unfolding highest
max_lsn_of last_operation (r ∷ s ∷ rs) = highest r.lsn (s ∷ rs)
max_lsn_of last_operation rs = last_operation

abbrev pub listed : ℤ → Option (List Replica) → Option ReplicaList
unfolding sort_replicas
listed last_operation none = none
listed last_operation (some rs) =
    let sorted = sort_replicas rs in
    some (record { replicas = sorted; max_lsn = max_lsn_of last_operation sorted })

-- `_ReplicaList(postgresql, cluster)` of the node `own`.
unfoldable pub replica_list :
    ⦃c : Casing⦄ → ℕ → String → List Member → List Row → ℤ → Option ReplicaList
unfolding candidates eligible streaming
replica_list fuel own cluster rows last_operation =
    let members = dict_of_list (eligible own cluster) in
    let replication = dict_of_list (streaming members rows) in
    listed last_operation (candidates fuel members replication replication.entries)
