-- ===== src/Config.antt =====
-- patroni/global_config.py: the global configuration, which the other parts read.
pub mod Modes
mod Tests
use text.Mathlib.Text.{◌==◌}
use system_design_hse_miem.Prelude.{
  ℕ, String, Bool, true, false, not, ◌&&◌, ◌||◌, Option, none, some, if◌then◌else◌,
}
use system_design_hse_miem.Prelude.Int.{ℤ, pos, negsuc, max_ℤ}
use system_design_hse_miem.Collections.{Casing}
use system_design_hse_miem.Values.{
  Value, null, boolean, str, Items, no_items, items, Fields, no_fields, dict, Parse, truth, yes_no,
  lookup, lookup_or, has_field,
}

-- `cluster.config`: the data, and whether `modify_version` is set.
pub record ClusterConfig : Type 0 where
  pub data_fields : Fields
  pub modify_version : Bool

pub record GlobalConfig : Type 0 where
  pub config : Fields

-- A cluster, or its configuration, may be missing; either is `none` here.
unfoldable pub cluster_has_valid_config : Option ClusterConfig → Bool
cluster_has_valid_config none = false
cluster_has_valid_config (some c) = c.modify_version

abbrev truth_fields : Fields → Bool
truth_fields fs = truth (dict fs)

-- `elif default`
abbrev or_default : Option Fields → GlobalConfig → GlobalConfig
or_default none g = g
or_default (some fs) g = if truth_fields fs then record { config = fs } else g

unfoldable pub update : Option ClusterConfig → Option Fields → GlobalConfig → GlobalConfig
update none default g = or_default default g
update (some c) default g =
    if c.modify_version then record { config = c.data_fields } else or_default default g

abbrev new_config : GlobalConfig
new_config = record { config = no_fields }

unfoldable pub from_cluster : Option ClusterConfig → GlobalConfig → GlobalConfig
unfolding update cluster_has_valid_config
from_cluster cluster g =
    if not (cluster_has_valid_config cluster) then g else update cluster none new_config

abbrev pub get : String → GlobalConfig → Value
get name g = lookup name g.config

-- `value or default`
abbrev or_else : Value → Value → Value
or_else v default = if truth v then v else default

abbrev int_or : ℤ → Option ℤ → ℤ
int_or default none = default
int_or default (some n) = n

abbrev dict_of : Value → Fields
dict_of (dict fs) = fs
dict_of _ = no_fields

abbrev section : Value → Option Fields
section (dict fs) = some fs
section _ = none

module _ ⦃c : Casing⦄ where
  -- `str(value).lower() == 'quorum'`: the `str` of no other kind of value is that word.
  abbrev is_word : String → Value → Bool
  is_word word (str s) = c.lower s == word
  is_word word _ = false

  unfoldable pub is_quorum_commit_mode : GlobalConfig → Bool
  is_quorum_commit_mode g = is_word "quorum" (get "synchronous_mode" g)

unfoldable pub is_standby_cluster : GlobalConfig → Bool
is_standby_cluster g =
    let config = dict_of (get "standby_cluster" g) in
    truth (lookup "host" config)
    || truth (lookup "port" config)
    || truth (lookup "restore_command" config)

module _ (parse : Parse) where
  unfoldable pub check_mode : String → GlobalConfig → Bool
  check_mode mode g = yes_no (parse.parse_bool (get mode g))

  abbrev pub is_paused : GlobalConfig → Bool
  unfolding check_mode
  is_paused g = check_mode "pause" g

  unfoldable pub is_synchronous_mode : ⦃c : Casing⦄ → GlobalConfig → Bool
  unfolding check_mode is_quorum_commit_mode is_standby_cluster
  is_synchronous_mode g =
      (check_mode "synchronous_mode" g || is_quorum_commit_mode g) && not (is_standby_cluster g)

  unfoldable pub is_synchronous_mode_strict : GlobalConfig → Bool
  unfolding check_mode
  is_synchronous_mode_strict g = check_mode "synchronous_mode_strict" g

  unfoldable pub get_int : String → ℤ → Option String → GlobalConfig → ℤ
  get_int name default base_unit g = int_or default (parse.parse_int (get name g) base_unit)

  unfoldable pub min_synchronous_nodes : GlobalConfig → ℤ
  unfolding is_synchronous_mode_strict
  min_synchronous_nodes g = if is_synchronous_mode_strict g then pos 1 else pos 0

  unfoldable pub synchronous_node_count : GlobalConfig → ℤ
  unfolding get_int min_synchronous_nodes
  synchronous_node_count g =
      max_ℤ (get_int "synchronous_node_count" (pos 1) none g) (min_synchronous_nodes g)

  abbrev pub maximum_lag_on_failover : GlobalConfig → ℤ
  unfolding get_int
  maximum_lag_on_failover g = get_int "maximum_lag_on_failover" (pos 1048576) none g

  abbrev pub maximum_lag_on_syncnode : GlobalConfig → ℤ
  unfolding get_int
  maximum_lag_on_syncnode g = get_int "maximum_lag_on_syncnode" (negsuc 0) none g

  -- The name of a setting, or the one it had before.
  abbrev renamed : String → String → GlobalConfig → String
  renamed name old g = if has_field name g.config then name else old

  unfoldable pub primary_start_timeout : GlobalConfig → ℤ
  unfolding get_int
  primary_start_timeout g =
      get_int (renamed "primary_start_timeout" "master_start_timeout" g) (pos 300) none g

  unfoldable pub primary_stop_timeout : GlobalConfig → ℤ
  unfolding get_int
  primary_stop_timeout g =
      get_int (renamed "primary_stop_timeout" "master_stop_timeout" g) (pos 0) none g

  abbrev pub ignore_slots_matchers : GlobalConfig → Value
  ignore_slots_matchers g = or_else (get "ignore_slots" g) (items no_items)

  abbrev pub max_timelines_history : GlobalConfig → ℤ
  unfolding get_int
  max_timelines_history g = get_int "max_timelines_history" (pos 0) none g

  abbrev slots_in : Option Fields → Option Bool
  slots_in none = none
  slots_in (some fs) = some (yes_no (parse.parse_bool (lookup_or "use_slots" (boolean true) fs)))

  -- `none` is the `AttributeError` of `get` on a section that is not a `dict`.
  abbrev pub use_slots : GlobalConfig → Option Bool
  use_slots g = slots_in (section (or_else (get "postgresql" g) (dict no_fields)))

  abbrev pub permanent_slots : GlobalConfig → Value
  permanent_slots g =
      or_else (get "permanent_replication_slots" g)
        (or_else (get "permanent_slots" g) (or_else (get "slots" g) (dict no_fields)))

  abbrev pub member_slots_ttl : GlobalConfig → ℤ
  unfolding get_int
  member_slots_ttl g = get_int "member_slots_ttl" (pos 1800) (some "s") g
