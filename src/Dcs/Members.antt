-- ===== src/Dcs/Members.antt =====
-- `Member`, `Leader` and `Cluster`: the nodes, and what the store holds of them.
use text.Mathlib.Text.{◌==◌}
use system_design_hse_miem.Prelude.{
  String, Bool, true, false, not, List, [], ◌∷◌, Option, none, some, if◌then◌else◌,
}
use system_design_hse_miem.Prelude.Int.{ℤ, pos, ◌+ℤ◌}
use system_design_hse_miem.Values.{
  Value, null, str, Items, item, no_items, items, Fields, no_fields, dict, lookup, lookup_or,
}
use system_design_hse_miem.Config.{ClusterConfig}
use system_design_hse_miem.Dcs.{Node, raw, Readers, is_set, to_int, dict_in}
use system_design_hse_miem.Dcs.SyncKey.{SyncState, empty_sync}
use system_design_hse_miem.Dcs.StatusKey.{Failover, TimelineHistory, Status, empty_status, or_end}

pub record Member : Type 0 where
  pub name : String
  pub data_fields : Fields

pub record Leader (Version : Type 0) : Type 0 where
  pub version : Version
  pub member : Member

pub record Cluster (Version Time : Type 0) : Type 0 where
  pub initialize : Option String
  pub config : Option ClusterConfig
  pub leader : Option (Leader Version)
  pub status : Status
  pub members : List Member
  pub failover : Option (Failover Version Time)
  pub sync : SyncState Version
  pub history : Option (TimelineHistory Version)
  pub failsafe : Option Fields

abbrev pub api_url : Member → Value
api_url m = lookup "api_url" m.data_fields

abbrev pub tags : Member → Fields
tags m = or_end (dict_in (lookup_or "tags" (dict no_fields) m.data_fields))

abbrev pub state : Member → Value
state m = lookup_or "state" (str "unknown") m.data_fields

-- `RemoteMember(name, data)`
abbrev pub remote_member : String → Fields → Member
remote_member name data_fields = record { name = name; data_fields = data_fields }

-- `next((m for m in members if m.name == member_name), None)`
unfoldable pub find_member : String → List Member → Option Member
find_member name [] = none
find_member name (m ∷ ms) = if m.name == name then some m else find_member name ms

-- The last of the lines, `lines[-1]`.
abbrev pub last_line : Value → Items → Value
last_line v no_items = v
last_line v (item w ws) = last_line w ws

abbrev pub first_of : Value → Value
first_of (items (item v vs)) = v
first_of _ = null

abbrev pub next_timeline : Option ℤ → ℤ
next_timeline none = pos 0
next_timeline (some n) = n +ℤ pos 1

abbrev pub leader_member : {Version : Type 0} → Option (Leader Version) → Option String
leader_member none = none
leader_member (some l) = some l.member.name

abbrev pub timeline_of : {Time : Type 0} → Readers Time → Node → Items → ℤ
unfolding ◌+ℤ◌
timeline_of readers value (item v vs) = next_timeline (to_int readers (first_of (last_line v vs)))
timeline_of readers (raw s) no_items = if s == "[]" then pos 1 else pos 0
timeline_of readers value no_items = pos 0

module _ {Version Time : Type 0} where
  abbrev pub leader_name : Cluster Version Time → Option String
  leader_name c = leader_member c.leader

  unfoldable pub is_unlocked : Cluster Version Time → Bool
  is_unlocked c = not (is_set (leader_name c))

  abbrev pub has_member : Cluster Version Time → String → Bool
  unfolding find_member
  has_member c name = elim (find_member name c.members) [ none ↦ false | some m ↦ true ]

  -- `get_member(name, fallback_to_leader=False)`
  abbrev pub get_member : Cluster Version Time → String → Option Member
  unfolding find_member
  get_member c name = find_member name c.members

  -- A history is a tuple, which is never false; a line that has no number first counts as 0.
  unfoldable pub timeline : Readers Time → Cluster Version Time → ℤ
  timeline readers c = elim c.history [
    | none ↦ pos 0
    | some h ↦ timeline_of readers h.value h.lines
  ]

  abbrev pub empty_cluster : Cluster Version Time
  empty_cluster = record {
    initialize = none;
    config = none;
    leader = none;
    status = empty_status;
    members = [];
    failover = none;
    sync = empty_sync none;
    history = none;
    failsafe = none;
  }
