-- ===== src/Tags/Tests.antt =====
-- The properties of the tags at concrete tags.
use system_design_hse_miem.Prelude.{true, false, Option, none, some, ◌≡◌, refl}
use system_design_hse_miem.Prelude.Int.{ℤ, pos, negsuc}
use system_design_hse_miem.Values.{
  Value, null, boolean, integer, Fields, no_fields, field, Parse, lookup, has_field,
}
use system_design_hse_miem.Values.Lookup.{IsDict}
use system_design_hse_miem.Tags.{filter_tags, bool_tag}
use system_design_hse_miem.Tags.Priorities.{SameAnswers, filter_tags-SameAnswers}

abbrev to_number : Value → Option ℤ
to_number (integer n) = some n
to_number _ = none

abbrev plain : Parse
plain = record { parse_int = λ v unit. to_number v; parse_bool = λ v. none }

-- A node that is not to be promoted, with a priority that says otherwise, and `nosync` off.
abbrev tags : Fields
tags =
    field "nofailover" (boolean true)
      (field "failover_priority" (integer (pos 2)) (field "nosync" (boolean false) no_fields))

no_failover : bool_tag plain "nofailover" "failover_priority" tags ≡ true
unfolding bool_tag lookup
no_failover = refl

abbrev low_priority : Fields
low_priority = field "sync_priority" (integer (negsuc 0)) no_fields

unset : lookup "nosync" low_priority ≡ null
unfolding lookup
unset = refl

distinct : IsDict tags
unfolding has_field
distinct = (refl, (refl, (refl, tt)))

filter_tags-SameAnswers_example : SameAnswers plain tags (filter_tags tags)
filter_tags-SameAnswers_example = filter_tags-SameAnswers plain tags refl distinct
