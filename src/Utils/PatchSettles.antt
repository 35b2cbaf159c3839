-- ===== src/Utils/PatchSettles.antt =====
-- What a document reads after `patch_config` of patroni/utils.py, and patching it again.
use text.Mathlib.Text.{◌==◌}
use system_design_hse_miem.Prelude.{
  String, false, not, if◌then◌else◌, ◌≡◌, refl, ap, sym, ◌∙◌, eq_iff, Bool-cases, inl, inr,
  then_branch, else_branch,
}
use system_design_hse_miem.Values.{Value, Fields, no_fields, field, is_null, lookup, has_field}
use system_design_hse_miem.Values.Lookup.{IsDict}
use system_design_hse_miem.Utils.Patch.{patch_config}
use system_design_hse_miem.Utils.PatchReads.{step, written, step-lookup, step-has, patch-step}

module _ (shown : Value → String) where
  -- Let the names of `data` be distinct. After `patch_config` each name of `data` reads as its entry
  -- says: nothing for `None`, the patched `dict` where both sides have one, the value that was there
  -- where it prints alike, and the value of `data` otherwise; every other name reads as before.
  pub patch_config-lookup :
      (c d : Fields) (j : String)
      → IsDict d
      → lookup j (patch_config shown c d).config ≡ (
          if has_field j d
          then written shown (has_field j c) (lookup j c) (lookup j d)
          else lookup j c)
  unfolding patch_config lookup has_field
  patch_config-lookup c no_fields j h = refl
  patch_config-lookup c (field k v ds) j h =
      let s = (step shown k v c).config in
      let first =
        ap (λ p. lookup j p.config) (patch-step shown k v ds c) ∙ patch_config-lookup s ds j h.1 in
      elim (Bool-cases (k == j)) [
        | inl e ↦
            let same : k ≡ j = (eq_iff k j).0 e in
            let gone : has_field j ds ≡ false = ap (λ x. has_field x ds) (sym same) ∙ h.0 in
            let here : lookup j s ≡ written shown (has_field k c) (lookup k c) v =
              step-lookup shown k j v c ∙ then_branch (k == j) _ _ e in
            first
            ∙ else_branch (has_field j ds) _ _ gone
            ∙ here
            ∙ ap (λ x. written shown (has_field x c) (lookup x c) v) same
            ∙ rw e refl
        | inr e ↦
            let here : lookup j s ≡ lookup j c =
              step-lookup shown k j v c ∙ else_branch (k == j) _ _ e in
            let there : has_field j s ≡ has_field j c =
              step-has shown k j v c ∙ else_branch (k == j) _ _ e in
            first ∙ rw (here, there, e) refl
      ]

  pub patch_config-has :
      (c d : Fields) (j : String)
      → IsDict d
      → has_field j (patch_config shown c d).config
        ≡ (if has_field j d then not (is_null (lookup j d)) else has_field j c)
  unfolding patch_config lookup has_field
  patch_config-has c no_fields j h = refl
  patch_config-has c (field k v ds) j h =
      let s = (step shown k v c).config in
      let first =
        ap (λ p. has_field j p.config) (patch-step shown k v ds c) ∙ patch_config-has s ds j h.1 in
      elim (Bool-cases (k == j)) [
        | inl e ↦
            let gone : has_field j ds ≡ false =
              ap (λ x. has_field x ds) (sym ((eq_iff k j).0 e)) ∙ h.0 in
            first ∙ else_branch (has_field j ds) _ _ gone ∙ step-has shown k j v c ∙ rw e refl
        | inr e ↦
            let there : has_field j s ≡ has_field j c =
              step-has shown k j v c ∙ else_branch (k == j) _ _ e in
            first ∙ rw (there, e) refl
      ]
