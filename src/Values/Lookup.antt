-- ===== src/Values/Lookup.antt =====
-- Reading a filtered `dict`.
use mathlib.Core.Path.{subst}
use text.Mathlib.Text.{◌==◌}
use system_design_hse_miem.Prelude.{
  String, Bool, false, ◌&&◌, if◌then◌else◌, ◌≡◌, refl, arith, eq_iff, Bool-cases, inl, inr,
}
use system_design_hse_miem.Values.{
  Value, null, Fields, no_fields, field, lookup, has_field, filter_fields,
}

-- The keys of a `dict` are distinct.
abbrev pub IsDict : Fields → Type 0
IsDict no_fields = Unit
IsDict (field k v fs) = (has_field k fs ≡ false) × IsDict fs

pub lookup_missing : (k : String) (fs : Fields) → has_field k fs ≡ false → lookup k fs ≡ null
unfolding lookup has_field
lookup_missing k no_fields h = refl
lookup_missing k (field j v fs) h = ground (arith, lookup_missing k fs)

pub has_field-filter :
    (p : String → Value → Bool) (k : String) (fs : Fields)
    → IsDict fs
    → has_field k (filter_fields p fs) ≡ (has_field k fs && p k (lookup k fs))
unfolding lookup has_field filter_fields
has_field-filter p k no_fields d = refl
has_field-filter p k (field j v fs) d = elim (Bool-cases (j == k)) [
  | inl e ↦
      let same : j ≡ k = (eq_iff j k).0 e in
      let absent : has_field k fs ≡ false = subst (λ i. has_field i fs ≡ false) same d.0 in
      grind (arith, same, has_field-filter p k fs d.1, absent)
  | inr e ↦ grind (arith, e, has_field-filter p k fs d.1)
]

pub lookup-filter :
    (p : String → Value → Bool) (k : String) (fs : Fields)
    → IsDict fs
    → lookup k (filter_fields p fs) ≡ (if p k (lookup k fs) then lookup k fs else null)
unfolding lookup has_field filter_fields
lookup-filter p k no_fields d = ground arith
lookup-filter p k (field j v fs) d = elim (Bool-cases (j == k)) [
  | inl e ↦
      let same : j ≡ k = (eq_iff j k).0 e in
      let absent : has_field k fs ≡ false = subst (λ i. has_field i fs ≡ false) same d.0 in
      grind
        (arith, same, has_field-filter p k fs d.1, lookup_missing k (filter_fields p fs), absent)
  | inr e ↦ grind (arith, e, lookup-filter p k fs d.1)
]
