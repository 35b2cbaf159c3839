-- ===== src/Utils/Patch.antt =====
-- `patch_config` of patroni/utils.py: the overrides of one document are written into another. `str(value)`
-- is the argument `shown`. A `dict` that is stored is copied here, where Python shares it.
use text.Mathlib.Text.{◌==◌}
use system_design_hse_miem.Prelude.{
  String, Bool, true, false, not, ◌&&◌, ◌||◌, if◌then◌else◌, ◌≡◌, refl, ap, sym, arith, eq_iff,
}
use system_design_hse_miem.Values.{
  Value, null, boolean, integer, str, items, dict, Fields, no_fields, field, is_null, lookup,
  has_field, filter_fields,
}

-- `config[name] = value`
unfoldable pub set_field : String → Value → Fields → Fields
set_field k v no_fields = field k v no_fields
set_field k v (field j w fs) = if j == k then field j v fs else field j w (set_field k v fs)

-- what `config.pop(name, None)` leaves
unfoldable pub remove_field : String → Fields → Fields
unfolding filter_fields
remove_field k fs = filter_fields (λ j v. not (j == k)) fs

-- `isinstance(value, dict)`
abbrev pub is_dict : Value → Bool
is_dict null = false
is_dict (boolean b) = false
is_dict (integer n) = false
is_dict (str s) = false
is_dict (items vs) = false
is_dict (dict fs) = true

-- The entries of a `dict`
abbrev pub fields_of : Value → Fields
fields_of null = no_fields
fields_of (boolean b) = no_fields
fields_of (integer n) = no_fields
fields_of (str s) = no_fields
fields_of (items vs) = no_fields
fields_of (dict fs) = fs

-- A configuration and `is_changed`
pub record Patched : Type 0 where
  pub config : Fields
  pub is_changed : Bool

-- `value is None`
abbrev pub pop : String → Fields → Patched
pop k c = record { config = remove_field k c; is_changed = not (is_null (lookup k c)) }

-- A value that is not a `dict`
abbrev pub override : (Value → String) → String → Value → Fields → Patched
override shown k v c =
    if has_field k c && shown (lookup k c) == shown v
    then record { config = c; is_changed = false }
    else record { config = set_field k v c; is_changed = true }

-- A `dict`, with what patching the one in the configuration gives
abbrev pub merge : String → Value → Patched → Fields → Patched
merge k v inner c =
    if has_field k c && is_dict (lookup k c)
    then record { config = set_field k (dict inner.config) c; is_changed = inner.is_changed }
    else record { config = set_field k v c; is_changed = true }

abbrev pub also : Bool → Patched → Patched
also b p = record { config = p.config; is_changed = b || p.is_changed }

unfoldable pub patch_config : (Value → String) → Fields → Fields → Patched
patch_config shown c no_fields = record { config = c; is_changed = false }
patch_config shown c (field k null ds) =
    let p = pop k c in also p.is_changed (patch_config shown p.config ds)
patch_config shown c (field k (boolean b) ds) =
    let p = override shown k (boolean b) c in also p.is_changed (patch_config shown p.config ds)
patch_config shown c (field k (integer n) ds) =
    let p = override shown k (integer n) c in also p.is_changed (patch_config shown p.config ds)
patch_config shown c (field k (str s) ds) =
    let p = override shown k (str s) c in also p.is_changed (patch_config shown p.config ds)
patch_config shown c (field k (items vs) ds) =
    let p = override shown k (items vs) c in also p.is_changed (patch_config shown p.config ds)
patch_config shown c (field k (dict fs) ds) =
    let inner = patch_config shown (fields_of (lookup k c)) fs in
    let p = merge k (dict fs) inner c in also p.is_changed (patch_config shown p.config ds)

pub same_left : (i j k : String) → (i == k) ≡ true → (i == j) ≡ (k == j)
same_left i j k e = ap (λ x. x == j) ((eq_iff i k).0 e)

pub same_right : (i j k : String) → (k == j) ≡ true → (i == j) ≡ (i == k)
same_right i j k e = ap (λ x. i == x) (sym ((eq_iff k j).0 e))

pub lookup-set :
    (k j : String) (v : Value) (c : Fields)
    → lookup j (set_field k v c) ≡ (if k == j then v else lookup j c)
unfolding lookup set_field
lookup-set k j v no_fields = refl
lookup-set k j v (field i w c) =
    ground (arith, same_left i j k, same_right i j k, lookup-set k j v c)

pub has-set :
    (k j : String) (v : Value) (c : Fields)
    → has_field j (set_field k v c) ≡ (k == j || has_field j c)
unfolding has_field set_field
has-set k j v no_fields = ground arith
has-set k j v (field i w c) = ground (arith, same_left i j k, same_right i j k, has-set k j v c)

pub lookup-remove :
    (k j : String) (c : Fields)
    → lookup j (remove_field k c) ≡ (if k == j then null else lookup j c)
unfolding lookup remove_field filter_fields
lookup-remove k j no_fields = ground arith
lookup-remove k j (field i w c) =
    ground (arith, same_left i j k, same_right i j k, lookup-remove k j c)

pub has-remove :
    (k j : String) (c : Fields) → has_field j (remove_field k c) ≡ (not (k == j) && has_field j c)
unfolding has_field remove_field filter_fields
has-remove k j no_fields = ground arith
has-remove k j (field i w c) = ground (arith, same_left i j k, same_right i j k, has-remove k j c)
