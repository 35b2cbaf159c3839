-- ===== src/Utils/PatchReads.antt =====
-- What `patch_config` of patroni/utils.py leaves under each name.
use text.Mathlib.Text.{◌==◌}
use system_design_hse_miem.Prelude.{
  String, Bool, true, not, ◌&&◌, ◌||◌, if◌then◌else◌, ◌≡◌, refl, ap, sym, arith, eq_iff, Bool-cases,
  inl, inr,
}
use system_design_hse_miem.Values.{
  Value, null, boolean, integer, str, items, dict, Fields, field, is_null, lookup, has_field,
}
use system_design_hse_miem.Utils.Patch.{
  is_dict, fields_of, Patched, pop, override, merge, also, patch_config, lookup-set, has-set,
  lookup-remove, has-remove,
}

module _ (shown : Value → String) where
  -- One entry
  pub step : String → Value → Fields → Patched
  step k null c = pop k c
  step k (boolean b) c = override shown k (boolean b) c
  step k (integer n) c = override shown k (integer n) c
  step k (str s) c = override shown k (str s) c
  step k (items vs) c = override shown k (items vs) c
  step k (dict fs) c = merge k (dict fs) (patch_config shown (fields_of (lookup k c)) fs) c

  -- The value that one entry leaves
  abbrev pub written : Bool → Value → Value → Value
  written b old null = null
  written b old (boolean x) = if b && shown old == shown (boolean x) then old else boolean x
  written b old (integer x) = if b && shown old == shown (integer x) then old else integer x
  written b old (str x) = if b && shown old == shown (str x) then old else str x
  written b old (items x) = if b && shown old == shown (items x) then old else items x
  written b old (dict fs) =
      if b && is_dict old then dict (patch_config shown (fields_of old) fs).config else dict fs

  -- Whether one entry counts as a change
  abbrev pub alters : Bool → Value → Value → Bool
  alters b old null = not (is_null old)
  alters b old (boolean x) = not (b && shown old == shown (boolean x))
  alters b old (integer x) = not (b && shown old == shown (integer x))
  alters b old (str x) = not (b && shown old == shown (str x))
  alters b old (items x) = not (b && shown old == shown (items x))
  alters b old (dict fs) =
      if b && is_dict old then (patch_config shown (fields_of old) fs).is_changed else true

  override-changes :
      (k : String) (v : Value) (c : Fields)
      → (override shown k v c).is_changed ≡ not (has_field k c && shown (lookup k c) == shown v)
  override-changes k v c = elim (Bool-cases (has_field k c && shown (lookup k c) == shown v)) [
    | inl e ↦ rw e refl
    | inr e ↦ rw e refl
  ]

  override-lookup :
      (k j : String) (v : Value) (c : Fields)
      → lookup j (override shown k v c).config ≡ (
          if k == j
          then (if has_field k c && shown (lookup k c) == shown v then lookup k c else v)
          else lookup j c)
  override-lookup k j v c = elim (Bool-cases (has_field k c && shown (lookup k c) == shown v)) [
    | inl e ↦ rw e (elim (Bool-cases (k == j)) [
      | inl s ↦ rw s (ap (λ x. lookup x c) (sym ((eq_iff k j).0 s)))
      | inr s ↦ rw s refl
    ])
    | inr e ↦ rw e (lookup-set k j v c)
  ]

  override-has :
      (k j : String) (v : Value) (c : Fields)
      → has_field j (override shown k v c).config ≡ (k == j || has_field j c)
  override-has k j v c = elim (Bool-cases (has_field k c && shown (lookup k c) == shown v)) [
    | inl e ↦ rw e (elim (Bool-cases (k == j)) [
      | inl s ↦ ground (arith, e, s, ap (λ x. has_field x c) ((eq_iff k j).0 s))
      | inr s ↦ rw s refl
    ])
    | inr e ↦ rw e (has-set k j v c)
  ]

  merge-lookup :
      (k j : String) (v : Value) (inner : Patched) (c : Fields)
      → lookup j (merge k v inner c).config ≡ (
          if k == j
          then (if has_field k c && is_dict (lookup k c) then dict inner.config else v)
          else lookup j c)
  merge-lookup k j v inner c = elim (Bool-cases (has_field k c && is_dict (lookup k c))) [
    | inl e ↦ rw e (lookup-set k j (dict inner.config) c)
    | inr e ↦ rw e (lookup-set k j v c)
  ]

  merge-has :
      (k j : String) (v : Value) (inner : Patched) (c : Fields)
      → has_field j (merge k v inner c).config ≡ (k == j || has_field j c)
  merge-has k j v inner c = elim (Bool-cases (has_field k c && is_dict (lookup k c))) [
    | inl e ↦ rw e (has-set k j (dict inner.config) c)
    | inr e ↦ rw e (has-set k j v c)
  ]

  pub step-lookup :
      (k j : String) (v : Value) (c : Fields)
      → lookup j (step k v c).config
        ≡ (if k == j then written (has_field k c) (lookup k c) v else lookup j c)
  unfolding step
  step-lookup k j null c = lookup-remove k j c
  step-lookup k j (boolean b) c = override-lookup k j (boolean b) c
  step-lookup k j (integer b) c = override-lookup k j (integer b) c
  step-lookup k j (str b) c = override-lookup k j (str b) c
  step-lookup k j (items b) c = override-lookup k j (items b) c
  step-lookup k j (dict fs) c = merge-lookup k j (dict fs) _ c

  pub step-has :
      (k j : String) (v : Value) (c : Fields)
      → has_field j (step k v c).config ≡ (if k == j then not (is_null v) else has_field j c)
  unfolding step
  step-has k j null c = ground (arith, has-remove k j c)
  step-has k j (boolean b) c = ground (arith, override-has k j (boolean b) c)
  step-has k j (integer b) c = ground (arith, override-has k j (integer b) c)
  step-has k j (str b) c = ground (arith, override-has k j (str b) c)
  step-has k j (items b) c = ground (arith, override-has k j (items b) c)
  step-has k j (dict fs) c =
      ground (arith, merge-has k j (dict fs) (patch_config shown (fields_of (lookup k c)) fs) c)

  pub patch-step :
      (k : String) (v : Value) (ds c : Fields)
      → patch_config shown c (field k v ds)
        ≡ also (step k v c).is_changed (patch_config shown (step k v c).config ds)
  unfolding patch_config step
  patch-step k null ds c = refl
  patch-step k (boolean b) ds c = refl
  patch-step k (integer b) ds c = refl
  patch-step k (str b) ds c = refl
  patch-step k (items b) ds c = refl
  patch-step k (dict b) ds c = refl

  pub step-changes :
      (k : String) (v : Value) (c : Fields)
      → (step k v c).is_changed ≡ alters (has_field k c) (lookup k c) v
  unfolding step
  step-changes k null c = refl
  step-changes k (boolean b) c = override-changes k (boolean b) c
  step-changes k (integer b) c = override-changes k (integer b) c
  step-changes k (str b) c = override-changes k (str b) c
  step-changes k (items b) c = override-changes k (items b) c
  step-changes k (dict fs) c = elim (Bool-cases (has_field k c && is_dict (lookup k c))) [
    | inl e ↦ rw e refl
    | inr e ↦ rw e refl
  ]
