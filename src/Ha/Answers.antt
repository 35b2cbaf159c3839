-- ===== src/Ha/Answers.antt =====
-- `_MemberStatus`: what a node answers when it is asked for its status.
use text.Mathlib.Text.{◌==◌}
use system_design_hse_miem.Prelude.{
  String, Bool, true, false, not, ◌||◌, List, map, Option, none, some, if◌then◌else◌,
}
use system_design_hse_miem.Prelude.Int.{ℤ, pos, max_ℤ}
use system_design_hse_miem.Values.{
  Value, boolean, integer, str, Fields, no_fields, dict, Parse, lookup, lookup_or, truth,
}
use system_design_hse_miem.Tags.{nofailover}
use system_design_hse_miem.Dcs.{dict_in}
use system_design_hse_miem.Dcs.StatusKey.{or_end}
use system_design_hse_miem.Dcs.Members.{Member}

pub record MemberStatus : Type 0 where
  pub member : Member
  pub reachable : Bool
  pub in_recovery : Option Bool
  pub wal_position : ℤ
  pub data_fields : Fields

-- `unknown`
abbrev pub unknown : Member → MemberStatus
unknown m = record {
  member = m;
  reachable = false;
  in_recovery = none;
  wal_position = pos 0;
  data_fields = no_fields;
}

-- A position that `max` and `int` take; `none` is an exception.
abbrev pub number_in : Value → Option ℤ
number_in (integer n) = some n
number_in (boolean b) = some (if b then pos 1 else pos 0)
number_in _ = none

abbrev pub larger : Option ℤ → Option ℤ → Option ℤ
larger (some a) (some b) = some (max_ℤ a b)
larger _ _ = none

-- `json.get('wal') or json['xlog']`, if it is a `dict`
abbrev pub wal_in : Fields → Option Fields
wal_in json =
    if truth (lookup "wal" json) then dict_in (lookup "wal" json) else dict_in (lookup "xlog" json)

abbrev pub has_role : Fields → String → Bool
has_role json role = elim (lookup "role" json) [ str s ↦ s == role | _ ↦ false ]

abbrev pub recovering : Fields → Fields → Bool
recovering json wal =
    not (truth (lookup "location" wal) || has_role json "master" || has_role json "primary")

abbrev pub received : Fields → Option ℤ
received wal =
    larger (number_in (lookup_or "received_location" (integer (pos 0)) wal))
      (number_in (lookup_or "replayed_location" (integer (pos 0)) wal))

abbrev pub reached : Member → Fields → Bool → Option ℤ → Option MemberStatus
reached m json recovery none = none
reached m json recovery (some lsn) = some record {
  member = m;
  reachable = true;
  in_recovery = some recovery;
  wal_position = lsn;
  data_fields = json;
}

-- `none` is an exception.
unfoldable pub from_api_response : Member → Fields → Option MemberStatus
from_api_response m json = elim (wal_in json) [
  | none ↦ none
  | some wal ↦
      let recovery = recovering json wal in
      reached m json recovery (if recovery then received wal else some (pos 0))
]

abbrev pub status_tags : MemberStatus → Fields
status_tags st = or_end (dict_in (lookup_or "tags" (dict no_fields) st.data_fields))

-- `timeline`
abbrev pub status_timeline : MemberStatus → Value
status_timeline st = lookup_or "timeline" (integer (pos 0)) st.data_fields

abbrev pub watchdog_failed : MemberStatus → Bool
watchdog_failed st = truth (lookup_or "watchdog_failed" (boolean false) st.data_fields)

unfoldable pub failover_limitation : Parse → MemberStatus → Option String
failover_limitation parse st =
    if not st.reachable
    then some "not reachable"
    else if nofailover parse (status_tags st)
    then some "not allowed to promote"
    else if watchdog_failed st
    then some "not watchdog capable"
    else none

-- `request` is the HTTP request and `json.loads`: the `dict` that comes back, or an exception.
unfoldable pub fetch_node_status : (Member → Option Fields) → Member → MemberStatus
unfolding from_api_response
fetch_node_status request m = elim (request m) [
  | none ↦ unknown m
  | some json ↦ elim (from_api_response m json) [ none ↦ unknown m | some st ↦ st ]
]

-- The answers come in the order in which they complete.
unfoldable pub fetch_nodes_statuses :
    (Member → Option Fields) → (List Member → List Member) → List Member → List MemberStatus
unfolding fetch_node_status
fetch_nodes_statuses request as_completed ms = map (fetch_node_status request) (as_completed ms)
