-- ===== src/Utils/Tests.antt =====
-- The properties of `patch_config` at concrete documents.
use system_design_hse_miem.Prelude.{String, true, false, ◌≡◌, refl}
use system_design_hse_miem.Prelude.Int.{pos}
use system_design_hse_miem.Values.{
  Value, null, boolean, integer, str, items, dict, Fields, no_fields, field, lookup, has_field,
}
use system_design_hse_miem.Utils.Patch.{remove_field, patch_config}
use system_design_hse_miem.Utils.PatchSettles.{patch_config-lookup}
use system_design_hse_miem.Utils.PatchAgain.{patch_config_twice}

abbrev printed : Value → String
printed null = "None"
printed (boolean b) = "True"
printed (integer n) = "10"
printed (str s) = s
printed (items vs) = "[]"
printed (dict fs) = "{}"

-- A configuration with a nested section
abbrev settings : Fields
settings = field "ttl" (str "30") (
    field "postgresql"
      (dict (field "use_slots" (boolean true) (field "port" (str "5432") no_fields))) no_fields)

-- One name is removed in the section, one is new, and one prints alike.
abbrev overrides : Fields
overrides =
    field "postgresql" (dict (field "use_slots" null no_fields))
      (field "loop_wait" (integer (pos 10)) (field "ttl" (str "30") no_fields))

first_is_a_change : (patch_config printed settings overrides).is_changed ≡ true
unfolding patch_config lookup has_field
first_is_a_change = refl

patch_config-lookup_example :
    lookup "postgresql" (patch_config printed settings overrides).config
    ≡ dict (field "port" (str "5432") no_fields)
unfolding patch_config lookup has_field remove_field
patch_config-lookup_example =
    patch_config-lookup printed settings overrides "postgresql" (refl, (refl, (refl, tt)))

patch_config_twice_example :
    (patch_config printed (patch_config printed settings overrides).config overrides).is_changed
    ≡ false
unfolding has_field
patch_config_twice_example =
    patch_config_twice printed settings overrides (refl, (refl, tt, tt), (refl, tt, (refl, tt, tt)))
