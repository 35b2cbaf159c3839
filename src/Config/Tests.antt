-- ===== src/Config/Tests.antt =====
-- The properties of the global configuration at concrete settings.
use system_design_hse_miem.Prelude.{Bool, true, Option, none, some, if◌then◌else◌}
use system_design_hse_miem.Prelude.Int.{ℤ, pos, negsuc, ◌≤ℤ◌}
use system_design_hse_miem.Values.{Value, boolean, integer, Fields, no_fields, field, Parse}
use system_design_hse_miem.Config.{
  ClusterConfig, GlobalConfig, is_synchronous_mode_strict, synchronous_node_count,
}
use system_design_hse_miem.Config.Modes.{synchronous_node_count_bounds}

abbrev to_number : Value → Option ℤ
to_number (integer n) = some n
to_number _ = none

abbrev to_truth : Value → Option Bool
to_truth (boolean b) = some b
to_truth _ = none

abbrev plain : Parse
plain = record { parse_int = λ v unit. to_number v; parse_bool = to_truth }

-- Strict mode, and a number of nodes that makes no sense.
abbrev strict : Fields
strict =
    field "synchronous_mode_strict" (boolean true)
      (field "synchronous_node_count" (integer (negsuc 2)) no_fields)

abbrev in_force : GlobalConfig
in_force = record { config = strict }

abbrev seen : Option ClusterConfig
seen = some (record { data_fields = no_fields; modify_version = true })

synchronous_node_count_bounds_example :
    (if is_synchronous_mode_strict plain in_force then pos 1 else pos 0)
    ≤ℤ synchronous_node_count plain in_force
synchronous_node_count_bounds_example = synchronous_node_count_bounds plain in_force
