-- ===== src/Tags.antt =====
-- patroni/tags.py: the tags of a node that say whether it may be promoted or be synchronous.
pub mod Priorities
mod Tests
use text.Mathlib.Text.{◌==◌}
use system_design_hse_miem.Prelude.{
  String, Bool, true, false, not, ◌&&◌, ◌||◌, Option, none, some, if◌then◌else◌,
}
use system_design_hse_miem.Prelude.Int.{ℤ, pos, leb_ℤ}
use system_design_hse_miem.Values.{
  Value, null, boolean, Fields, Parse, truth, is_null, yes_no, lookup, lookup_or, has_field,
  filter_fields,
}

-- The five tags that are dropped when they are off.
abbrev pub is_switch : String → Bool
is_switch tag =
    tag == "clonefrom"
    || tag == "nofailover"
    || tag == "noloadbalance"
    || tag == "nosync"
    || tag == "nostream"

abbrev pub keeps_tag : Fields → String → Value → Bool
keeps_tag tags tag value =
    not (is_switch tag)
    || truth value
    || (tag == "nofailover" && has_field "failover_priority" tags)
    || (tag == "nosync" && has_field "sync_priority" tags)

unfoldable pub filter_tags : Fields → Fields
filter_tags tags = filter_fields (keeps_tag tags) tags

abbrev at_most_zero : Option ℤ → Bool
at_most_zero none = false
at_most_zero (some n) = leb_ℤ n (pos 0)

abbrev or_one : Option ℤ → ℤ
or_one none = pos 1
or_one (some n) = n

module _ (parse : Parse) where
  unfoldable pub priority_tag : String → String → Fields → ℤ
  priority_tag bool_name priority_name tags =
      if truth (lookup bool_name tags)
      then pos 0
      else or_one (parse.parse_int (lookup priority_name tags) none)

  unfoldable pub bool_tag : String → String → Fields → Bool
  bool_tag bool_name priority_name tags =
      if is_null (lookup bool_name tags)
      then at_most_zero (parse.parse_int (lookup priority_name tags) none)
      else truth (lookup bool_name tags)

  abbrev pub clonefrom : Fields → Value
  clonefrom tags = lookup_or "clonefrom" (boolean false) tags

  unfoldable pub nofailover : Fields → Bool
  unfolding bool_tag
  nofailover tags = bool_tag "nofailover" "failover_priority" tags

  unfoldable pub failover_priority : Fields → ℤ
  unfolding priority_tag
  failover_priority tags = priority_tag "nofailover" "failover_priority" tags

  abbrev pub noloadbalance : Fields → Bool
  noloadbalance tags = truth (lookup_or "noloadbalance" (boolean false) tags)

  unfoldable pub nosync : Fields → Bool
  unfolding bool_tag
  nosync tags = bool_tag "nosync" "sync_priority" tags

  unfoldable pub sync_priority : Fields → ℤ
  unfolding priority_tag
  sync_priority tags = priority_tag "nosync" "sync_priority" tags

  abbrev pub replicatefrom : Fields → Value
  replicatefrom tags = lookup "replicatefrom" tags

  abbrev pub nostream : Fields → Bool
  nostream tags = yes_no (parse.parse_bool (lookup "nostream" tags))
