-- ===== src/Values.antt =====
-- Values of a parsed JSON or YAML document, as `json.loads` and the configuration return them, and the
-- `dict` methods that read them. `patroni.utils` turns a value into a number or a truth value.
pub mod Lookup
use text.Mathlib.Text.{◌==◌}
use system_design_hse_miem.Prelude.{
  String, Bool, true, false, not, ◌||◌, Option, none, some, if◌then◌else◌,
}
use system_design_hse_miem.Prelude.Int.{ℤ, pos, eqb_ℤ}

mutual
  pub data Value : Type 0 where
    null : Value
    boolean : Bool → Value
    integer : ℤ → Value
    str : String → Value
    items : Items → Value
    dict : Fields → Value

  pub data Fields : Type 0 where
    no_fields : Fields
    field : String → Value → Fields → Fields

  pub data Items : Type 0 where
    item : Value → Items → Items
    no_items : Items

-- `parse_int` with its base unit, and `parse_bool`, of patroni/utils.py.
pub record Parse : Type 0 where
  pub parse_int : Value → Option String → Option ℤ
  pub parse_bool : Value → Option Bool

-- `bool(value)`
abbrev pub truth : Value → Bool
truth null = false
truth (boolean b) = b
truth (integer n) = not (eqb_ℤ n (pos 0))
truth (str s) = not (s == "")
truth (items no_items) = false
truth (items (item v vs)) = true
truth (dict no_fields) = false
truth (dict (field k v fs)) = true

-- `value is None`
abbrev pub is_null : Value → Bool
is_null null = true
is_null (boolean b) = false
is_null (integer n) = false
is_null (str s) = false
is_null (items vs) = false
is_null (dict fs) = false

-- `bool(parse_bool(value))`
abbrev pub yes_no : Option Bool → Bool
yes_no none = false
yes_no (some b) = b

-- `fields.get(name)`
unfoldable pub lookup : String → Fields → Value
lookup k no_fields = null
lookup k (field j v fs) = if j == k then v else lookup k fs

-- `name in fields`
unfoldable pub has_field : String → Fields → Bool
has_field k no_fields = false
has_field k (field j v fs) = j == k || has_field k fs

-- `fields.get(name, default)`
abbrev pub lookup_or : String → Value → Fields → Value
lookup_or k default fs = if has_field k fs then lookup k fs else default

-- `{name: value for name, value in fields.items() if p(name, value)}`
unfoldable pub filter_fields : (String → Value → Bool) → Fields → Fields
filter_fields p no_fields = no_fields
filter_fields p (field k v fs) =
    let rest = filter_fields p fs in if p k v then field k v rest else rest
