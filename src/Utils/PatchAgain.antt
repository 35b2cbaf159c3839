-- ===== src/Utils/PatchAgain.antt =====
-- Patching a document twice with `patch_config` of patroni/utils.py.
use mathlib.Core.Path.{ap₂}
use text.Mathlib.Text.{◌==◌}
use system_design_hse_miem.Prelude.{
  String, Bool, true, false, not, ◌&&◌, ◌||◌, if◌then◌else◌, ◌≡◌, refl, ap, sym, ◌∙◌, arith, eq_iff,
  Bool-cases, inl, inr, then_branch, else_branch,
}
use system_design_hse_miem.Values.{
  Value, null, boolean, integer, str, items, dict, Fields, no_fields, field, is_null, lookup,
  has_field,
}
use system_design_hse_miem.Values.Lookup.{IsDict}
use system_design_hse_miem.Utils.Patch.{is_dict, fields_of, patch_config}
use system_design_hse_miem.Utils.PatchReads.{
  step, written, alters, step-lookup, step-has, step-changes, patch-step,
}
use system_design_hse_miem.Utils.PatchSettles.{patch_config-lookup, patch_config-has}

-- The names of a document are distinct, in the documents inside it too.
abbrev mutual
  pub IsDocument : Fields → Type 0
  IsDocument no_fields = Unit
  IsDocument (field k v ds) = (has_field k ds ≡ false) × IsInner v × IsDocument ds

  IsInner : Value → Type 0
  IsInner null = Unit
  IsInner (boolean b) = Unit
  IsInner (integer n) = Unit
  IsInner (str s) = Unit
  IsInner (items vs) = Unit
  IsInner (dict fs) = IsDocument fs

IsDocument→IsDict : (d : Fields) → IsDocument d → IsDict d
IsDocument→IsDict no_fields h = tt
IsDocument→IsDict (field k v ds) (h, inner, rest) = (h, IsDocument→IsDict ds rest)

has_here : (k : String) (v : Value) (ds : Fields) → has_field k (field k v ds) ≡ true
unfolding has_field
has_here k v ds = ground (arith, (eq_iff k k).1 refl)

has_later :
    (k j : String) (v : Value) (ds : Fields)
    → has_field j ds ≡ true
    → has_field j (field k v ds) ≡ true
unfolding has_field
has_later k j v ds m = ground (arith, m)

lookup_here : (k : String) (v : Value) (ds : Fields) → lookup k (field k v ds) ≡ v
unfolding lookup
lookup_here k v ds = ground (arith, (eq_iff k k).1 refl)

has_other :
    (k j : String) (ds : Fields) → has_field k ds ≡ false → has_field j ds ≡ true → (k == j) ≡ false
has_other k j ds h m = elim (Bool-cases (k == j)) [
  | inl s ↦ absurd (ground (arith, h, m, ap (λ x. has_field x ds) ((eq_iff k j).0 s)))
  | inr s ↦ s
]

lookup_later :
    (k j : String) (v : Value) (ds : Fields)
    → has_field k ds ≡ false
    → has_field j ds ≡ true
    → lookup j (field k v ds) ≡ lookup j ds
unfolding lookup
lookup_later k j v ds h m = ground (arith, has_other k j ds h m)

module _ (shown : Value → String) where
  -- Patching a document with entries that it already follows
  abbrev Quiet : Fields → Fields → Type 0
  Quiet c no_fields = Unit
  Quiet c (field k v ds) = (alters shown (has_field k c) (lookup k c) v ≡ false) × Quiet c ds

  Quiet-congr :
      (c e d : Fields)
      → ((j : String) → has_field j d ≡ true → has_field j c ≡ has_field j e)
      → ((j : String) → has_field j d ≡ true → lookup j c ≡ lookup j e)
      → IsDict d
      → Quiet c d
      → Quiet e d
  Quiet-congr c e no_fields h l doc q = tt
  Quiet-congr c e (field k v ds) h l doc q = (
    ap₂ (λ b o. alters shown b o v) (sym (h k (has_here k v ds))) (sym (l k (has_here k v ds)))
        ∙ q.0,
    Quiet-congr c e ds (λ j m. h j (has_later k j v ds m)) (λ j m. l j (has_later k j v ds m)) doc.1
        q.1,
  )

  Quiet→unchanged :
      (c d : Fields) → IsDict d → Quiet c d → (patch_config shown c d).is_changed ≡ false
  unfolding patch_config
  Quiet→unchanged c no_fields h q = refl
  Quiet→unchanged c (field k v ds) h q =
      let s = (step shown k v c).config in
      let rest : (patch_config shown s ds).is_changed ≡ false = Quiet→unchanged s ds h.1 (
        Quiet-congr c s ds
          (λ j m. sym (step-has shown k j v c ∙ else_branch (k == j) _ _ (has_other k j ds h.0 m)))
          (λ j m.
            sym (step-lookup shown k j v c ∙ else_branch (k == j) _ _ (has_other k j ds h.0 m)))
          h.1 q.1) in
      ap (λ p. p.is_changed) (patch-step shown k v ds c)
      ∙ ap₂ ◌||◌ (step-changes shown k v c ∙ q.0) rest

  mutual
    self-Quiet :
        (c d : Fields)
        → IsDocument d
        → ((j : String) → has_field j d ≡ true → has_field j c ≡ true)
        → ((j : String) → has_field j d ≡ true → lookup j c ≡ lookup j d)
        → Quiet c d
    self-Quiet c no_fields doc h l = tt
    self-Quiet c (field k v ds) (new, inner, doc) h l = (
      ap₂ (λ b o. alters shown b o v) (h k (has_here k v ds))
            (l k (has_here k v ds) ∙ lookup_here k v ds)
          ∙ self-alters v inner,
      self-Quiet c ds doc (λ j m. h j (has_later k j v ds m))
          (λ j m. l j (has_later k j v ds m) ∙ lookup_later k j v ds new m),
    )

    self-alters : (v : Value) → IsInner v → alters shown true v v ≡ false
    self-alters null inner = refl
    self-alters (boolean b) inner = ap not ((eq_iff _ _).1 refl)
    self-alters (integer n) inner = ap not ((eq_iff _ _).1 refl)
    self-alters (str s) inner = ap not ((eq_iff _ _).1 refl)
    self-alters (items vs) inner = ap not ((eq_iff _ _).1 refl)
    self-alters (dict fs) inner =
        Quiet→unchanged fs fs (IsDocument→IsDict fs inner)
          (self-Quiet fs fs inner (λ j m. m) (λ j m. refl))

  -- A value that stays where it prints alike
  kept-alters :
      (b : Bool) (old v : Value)
      → not (shown (if b && shown old == shown v then old else v) == shown v) ≡ false
  kept-alters b old v = elim (Bool-cases (b && shown old == shown v)) [
    | inl e ↦ rw e (ground (arith, e))
    | inr e ↦ rw e (ap not ((eq_iff (shown v) (shown v)).1 refl))
  ]

  mutual
    again-Quiet :
        (e c d : Fields)
        → IsDocument d
        → ((j : String) → has_field j d ≡ true → has_field j e ≡ not (is_null (lookup j d)))
        → ((j : String)
            → has_field j d ≡ true
            → lookup j e ≡ written shown (has_field j c) (lookup j c) (lookup j d))
        → Quiet e d
    again-Quiet e c no_fields doc h l = tt
    again-Quiet e c (field k v ds) (new, inner, doc) h l = (
      ap₂ (λ b o. alters shown b o v)
            (h k (has_here k v ds) ∙ ap (λ w. not (is_null w)) (lookup_here k v ds))
            (l k (has_here k v ds)
              ∙ ap (written shown (has_field k c) (lookup k c)) (lookup_here k v ds))
          ∙ again-alters (has_field k c) (lookup k c) v inner,
      again-Quiet e c ds doc
          (λ j m.
            h j (has_later k j v ds m) ∙ ap (λ w. not (is_null w)) (lookup_later k j v ds new m))
          (λ j m.
            l j (has_later k j v ds m)
            ∙ ap (written shown (has_field j c) (lookup j c)) (lookup_later k j v ds new m)),
    )

    again-alters :
        (b : Bool) (old v : Value)
        → IsInner v
        → alters shown (not (is_null v)) (written shown b old v) v ≡ false
    again-alters b old null inner = refl
    again-alters b old (boolean x) inner = kept-alters b old (boolean x)
    again-alters b old (integer x) inner = kept-alters b old (integer x)
    again-alters b old (str x) inner = kept-alters b old (str x)
    again-alters b old (items x) inner = kept-alters b old (items x)
    again-alters b old (dict fs) inner =
        let doc = IsDocument→IsDict fs inner in
        let gs = fields_of old in
        let after = (patch_config shown gs fs).config in
        elim (Bool-cases (b && is_dict old)) [
          | inl e ↦
              ap (λ w. alters shown true w (dict fs)) (then_branch (b && is_dict old) _ _ e)
              ∙ Quiet→unchanged after fs doc (
                  again-Quiet after gs fs inner
                    (λ j m. patch_config-has shown gs fs j doc ∙ then_branch _ _ _ m)
                    (λ j m. patch_config-lookup shown gs fs j doc ∙ then_branch _ _ _ m))
          | inr e ↦
              ap (λ w. alters shown true w (dict fs)) (else_branch (b && is_dict old) _ _ e)
              ∙ self-alters (dict fs) inner
        ]

  -- Let the names of `data` be distinct, in the documents inside it too. Then patching a configuration
  -- once more, with another copy of `data`, reports no change.
  pub patch_config_twice :
      (c d : Fields)
      → IsDocument d
      → (patch_config shown (patch_config shown c d).config d).is_changed ≡ false
  patch_config_twice c d doc =
      let once = IsDocument→IsDict d doc in
      Quiet→unchanged (patch_config shown c d).config d once (
        again-Quiet (patch_config shown c d).config c d doc
          (λ j m. patch_config-has shown c d j once ∙ then_branch _ _ _ m)
          (λ j m. patch_config-lookup shown c d j once ∙ then_branch _ _ _ m))
