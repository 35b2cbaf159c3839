-- ===== src/Collections/Overlap.antt =====
-- Two sets inside a third that is smaller than both together have a common member.
use system_design_hse_miem.Prelude.{
  String, true, List, [], ◌∷◌, ◌++◌, ◌≡◌, arith, ◌<◌, ◌+◌, Bool-cases, inl, inr, ◌⊎◌, length-append,
}
use system_design_hse_miem.Collections.{Casing, CaseInsensitiveSet, has, contains}
use system_design_hse_miem.Collections.Members.{same_refl, has-append, IsNodup, length-le_of_subset}
use system_design_hse_miem.Collections.Sets.{Subset, HasNodup, size}

module _ ⦃c : Casing⦄ where
  abbrev Common : List String → List String → Type 0
  Common ws vs = (x : String) × (has ws x ≡ true) × (has vs x ≡ true)

  Common-cons : (w : String) (ws vs : List String) → Common ws vs → Common (w ∷ ws) vs
  unfolding has
  Common-cons w ws vs (x, m, n) = (x, ground arith, n)

  meet_or_repeat :
      (ws vs : List String) → IsNodup ws → IsNodup vs → Common ws vs ⊎ IsNodup (ws ++ vs)
  meet_or_repeat [] vs d e = inr e
  meet_or_repeat (w ∷ ws) vs d e = elim (Bool-cases (has vs w)) [
    | inl m ↦ inl (w, unfold has in (ground (arith, same_refl w)), m)
    | inr absent ↦ elim (meet_or_repeat ws vs d.1 e) [
      | inl found ↦ inl (Common-cons w ws vs found)
      | inr rest ↦ inr (ground (arith, has-append ws vs w), rest)
    ]
  ]

  has-append_sub :
      (ws vs us : List String)
      → ((x : String) → has ws x ≡ true → has us x ≡ true)
      → ((x : String) → has vs x ≡ true → has us x ≡ true)
      → (x : String) → has (ws ++ vs) x ≡ true
      → has us x ≡ true
  has-append_sub ws vs us a b x h = ground (arith, has-append ws vs x, a x, b x)

  pub overlap :
      (a b u : CaseInsensitiveSet)
      → HasNodup a
      → HasNodup b
      → Subset a u
      → Subset b u
      → size u < size a + size b
      → (x : String) × (contains a x ≡ true) × (contains b x ≡ true)
  unfolding contains
  overlap a b u da db sa sb small = elim (meet_or_repeat a.values b.values da db) [
    | inl found ↦ found
    | inr d ↦ absurd (
        omega (
          arith,
          length-append {0} a.values b.values,
          length-le_of_subset (a.values ++ b.values) u.values d
              (has-append_sub a.values b.values u.values sa sb),
        ))
  ]
