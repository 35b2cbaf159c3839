-- ===== src/Ha/Nested.antt =====
-- Sequences of writes that keep the `/sync` key within the synchronous nodes, and the sets they need.
use system_design_hse_miem.Prelude.{
  String, length, ◌||◌, Bool, true, false, not, ◌&&◌, List, [], ◌∷◌, if◌then◌else◌, ◌≡◌, refl, ap,
  ◌∙◌, arith, Bool-cases, inl, inr, else_branch,
}
use system_design_hse_miem.Collections.{
  Casing, CaseInsensitiveSet, has, select, contains, nonempty, equals, ◌∩◌,
}
use system_design_hse_miem.Collections.Sets.{
  Subset, HasNodup, equals→Superset, of_list-HasNodup, empty→zero,
}
use system_design_hse_miem.Quorum.Published.{View}
use system_design_hse_miem.Ha.Writes.{Write}
use system_design_hse_miem.Ha.WritesSafe.{write}
use system_design_hse_miem.Ha.Multisync.{starred}

module _ ⦃c : Casing⦄ where
  -- After each write the nodes of the key are synchronous ones.
  abbrev pub Nested : View → List Write → Type 0
  Nested v [] = Unit
  Nested v (w ∷ ws) = Subset (write w v).voters (write w v).sync × Nested (write w v) ws

  pub Nested-if :
      (b : Bool) (ws us : List Write) (v : View)
      → (b ≡ true → Nested v ws)
      → (b ≡ false → Nested v us)
      → Nested v (if b then ws else us)
  Nested-if true ws us v h k = h refl
  Nested-if false ws us v h k = k refl

  nothing_in : (ws : List String) (x : String) → length ws ≡ 0 → has ws x ≡ true → ⊥
  unfolding has
  nothing_in [] x e m = cc m
  nothing_in (w ∷ ws) x e m = omega (arith, e)

  pub Subset-nil : (s t : CaseInsensitiveSet) → nonempty s ≡ false → Subset s t
  Subset-nil s t h x m = absurd (nothing_in s.values x (empty→zero s h) (unfold contains in m))

  pub starred-Subset :
      (strict : Bool) (s active : CaseInsensitiveSet)
      → Subset s active
      → Subset s (starred strict active)
  starred-Subset strict s active sub = elim (Bool-cases (nonempty active)) [
    | inl e ↦
        let kept : starred strict active ≡ active =
          else_branch (strict && not (nonempty active)) _ _ (ground (arith, e)) in
        λ x m. ap (λ t. contains t x) kept ∙ sub x m
    | inr e ↦ λ x m.
        absurd (nothing_in active.values x (empty→zero active e) (unfold contains in (sub x m)))
  ]

  pub true_of_not : {b : Bool} → not b ≡ false → b ≡ true
  true_of_not h = ground (arith, h)

  pub covered :
      (common listed allow : CaseInsensitiveSet)
      → equals common listed ≡ true
      → HasNodup common
      → Subset common allow
      → (x : String) → (contains listed x || contains allow x) ≡ true
      → contains allow x ≡ true
  covered common listed allow e d within x h =
      ground (arith, h, equals→Superset common listed d e x, within x)

  pub ∩-HasNodup : (s t : CaseInsensitiveSet) → HasNodup (s ∩ t)
  ∩-HasNodup s t = unfold ◌∩◌ in of_list-HasNodup (select (contains s) t.values)
