-- ===== src/Collections/Sets.antt =====
-- What the set operations contain, and how large their results are.
use system_design_hse_miem.Prelude.{
  ℕ, String, true, false, not, ◌&&◌, ◌||◌, List, [], ◌∷◌, ◌++◌, length, ◌≡◌, arith, refl, ◌≤◌, ◌+◌,
  ◌∙◌, ap, Bool-cases, inl, inr,
}
use system_design_hse_miem.Collections.{
  Casing, CaseInsensitiveSet, empty, same, has, select, contains, add, discard, of_list, ◌∪◌, ◌∩◌,
  ◌∖◌, all_in, issubset, is_proper_subset, equals, nonempty,
}
use system_design_hse_miem.Collections.Members.{
  same_refl, has_congr, has-store, has-append, has-store_all, length-store, IsNodup,
  store_all-IsNodup, store-IsNodup, length-le_of_subset, has-select, has-pop_ne,
}

module _ ⦃c : Casing⦄ where
  -- Containment of sets, as a statement on each text.
  abbrev pub Subset : CaseInsensitiveSet → CaseInsensitiveSet → Type 0
  Subset s t = (x : String) → contains s x ≡ true → contains t x ≡ true

  abbrev pub HasNodup : CaseInsensitiveSet → Type 0
  HasNodup s = IsNodup s.values

  abbrev pub size : CaseInsensitiveSet → ℕ
  size s = length s.values

  pub contains_congr :
      (s : CaseInsensitiveSet) (v w : String) → same v w ≡ true → contains s v ≡ contains s w
  contains_congr s v w h = unfold contains in has_congr s.values v w h

  pub contains-add :
      (s : CaseInsensitiveSet) (v x : String) → contains (add s v) x ≡ (same v x || contains s x)
  contains-add s v x = unfold contains add in has-store s.values v x

  pub contains-discard_ne :
      (s : CaseInsensitiveSet) (v x : String)
      → same v x ≡ false
      → contains (discard s v) x ≡ contains s x
  contains-discard_ne s v x h = unfold contains discard in has-pop_ne s.values v x h

  pub contains-of_list : (vs : List String) (x : String) → contains (of_list vs) x ≡ has vs x
  contains-of_list vs x = unfold contains of_list in has-store_all [] vs x

  pub contains-∪ :
      (s t : CaseInsensitiveSet) (x : String) → contains (s ∪ t) x ≡ (contains s x || contains t x)
  contains-∪ s t x =
      unfold ◌∪◌ in
      (contains-of_list (s.values ++ t.values) x
        ∙ (unfold contains in has-append s.values t.values x))

  pub contains-∩ :
      (s t : CaseInsensitiveSet) (x : String) → contains (s ∩ t) x ≡ (contains s x && contains t x)
  contains-∩ s t x =
      unfold ◌∩◌ in
      (contains-of_list (select (contains s) t.values) x
        ∙ (unfold contains in has-select (contains s) t.values x (contains_congr_at s x)))
    where
      contains_congr_at :
          (s : CaseInsensitiveSet) (x v : String) → same v x ≡ true → contains s v ≡ contains s x
      contains_congr_at s x v h = contains_congr s v x h

  pub contains-∖ :
      (s t : CaseInsensitiveSet) (x : String)
      → contains (s ∖ t) x ≡ (not (contains t x) && contains s x)
  contains-∖ s t x =
      unfold ◌∖◌ in
      (contains-of_list (select (λ v. not (contains t v)) s.values) x
        ∙ (unfold contains in
            has-select (λ v. not (contains t v)) s.values x
              (λ v h. ap not (contains_congr t v x h))))

  pub of_list-HasNodup : (vs : List String) → HasNodup (of_list vs)
  of_list-HasNodup vs = unfold of_list in store_all-IsNodup [] vs tt

  pub ∪-HasNodup : (s t : CaseInsensitiveSet) → HasNodup (s ∪ t)
  ∪-HasNodup s t = unfold ◌∪◌ in of_list-HasNodup (s.values ++ t.values)

  pub ∖-HasNodup : (s t : CaseInsensitiveSet) → HasNodup (s ∖ t)
  ∖-HasNodup s t = unfold ◌∖◌ in of_list-HasNodup (select (λ v. not (contains t v)) s.values)

  pub size_mono : (s t : CaseInsensitiveSet) → HasNodup s → Subset s t → size s ≤ size t
  size_mono s t d h = length-le_of_subset s.values t.values d (unfold contains in h)

  all_in-Subset :
      (vs : List String) (t : CaseInsensitiveSet)
      → all_in vs t ≡ true
      → (x : String) → has vs x ≡ true
      → contains t x ≡ true
  unfolding all_in has
  all_in-Subset [] t h x m = cc
  all_in-Subset (v ∷ vs) t h x m =
      ground (arith, all_in-Subset vs t (ground arith) x, contains_congr t v x)

  -- `<=` says that each member of the one is a member of the other.
  pub issubset→Subset : (s t : CaseInsensitiveSet) → issubset s t ≡ true → Subset s t
  issubset→Subset s t h x m =
      all_in-Subset s.values t (unfold issubset in (ground arith)) x (unfold contains in m)

  Subset→all_in :
      (vs : List String) (t : CaseInsensitiveSet)
      → ((x : String) → has vs x ≡ true → contains t x ≡ true)
      → all_in vs t ≡ true
  unfolding all_in has
  Subset→all_in [] t h = refl
  Subset→all_in (v ∷ vs) t h =
      ground (arith, h v, same_refl v, Subset→all_in vs t (λ x m. h x (ground arith)))

  pub Subset→issubset : (s t : CaseInsensitiveSet) → HasNodup s → Subset s t → issubset s t ≡ true
  unfolding issubset
  Subset→issubset s t d h =
      ground (arith, size_mono s t d h, Subset→all_in s.values t (unfold contains in h))

  -- `==` says that the members are the same, and as many.
  pub equals→size : (s t : CaseInsensitiveSet) → equals s t ≡ true → size s ≡ size t
  unfolding equals issubset
  equals→size s t h = ground arith

  pub equals→Subset : (s t : CaseInsensitiveSet) → equals s t ≡ true → Subset s t
  equals→Subset s t h = issubset→Subset s t (unfold equals in (ground arith))

  pub not_proper_of_size :
      (s t : CaseInsensitiveSet) → size t ≤ size s → is_proper_subset s t ≡ false
  unfolding is_proper_subset
  not_proper_of_size s t h = ground arith

  pub contains-nil : (x : String) → contains empty x ≡ false
  unfolding contains
  contains-nil x = refl

  pub nonempty→pos : (s : CaseInsensitiveSet) → nonempty s ≡ true → 1 ≤ size s
  unfolding nonempty
  nonempty→pos s h = ground arith

  pub empty→zero : (s : CaseInsensitiveSet) → nonempty s ≡ false → size s ≡ 0
  unfolding nonempty
  empty→zero s h = ground arith

  pub contains-singleton : (v x : String) → contains (of_list (v ∷ [])) x ≡ same v x
  contains-singleton v x = contains-of_list (v ∷ []) x ∙ (unfold has in (ground arith))

  pub contains-copy :
      (s : CaseInsensitiveSet) (x : String) → contains (of_list s.values) x ≡ contains s x
  contains-copy s x = contains-of_list s.values x ∙ (unfold contains in refl)

  pub ruleset members =
      (contains-∪, contains-∩, contains-∖, contains-singleton, contains-copy, contains-add)

  pub size-add-le : (s : CaseInsensitiveSet) (v : String) → size (add s v) ≤ size s + 1
  unfolding add
  size-add-le s v = ground (arith, length-store s.values v)

  -- A set within `s` and one text more has at most one member more.
  pub size-le_of_add :
      (u s : CaseInsensitiveSet) (v : String)
      → HasNodup u
      → ((x : String) → contains u x ≡ true → (same v x || contains s x) ≡ true)
      → size u ≤ size s + 1
  size-le_of_add u s v d h =
      omega (arith, size-add-le s v, size_mono u (add s v) d (λ x m. contains-add s v x ∙ h x m))

  pub nonempty-∖_self : (s : CaseInsensitiveSet) → nonempty (s ∖ s) ≡ false
  unfolding nonempty
  nonempty-∖_self s =
      ground (arith, size_mono (s ∖ s) empty (∖-HasNodup s s) (λ x m. grind (arith, contains-∖, m)))

  pub size-∪_self : (s : CaseInsensitiveSet) → HasNodup s → size (s ∪ s) ≡ size s
  size-∪_self s d = omega (
    arith,
    size_mono (s ∪ s) s (∪-HasNodup s s) (λ x m. grind (arith, contains-∪, m)),
    size_mono s (s ∪ s) d (λ x m. grind (arith, contains-∪, m)),
  )

  pub equals_refl : (s : CaseInsensitiveSet) → HasNodup s → equals s s ≡ true
  unfolding equals
  equals_refl s d = ground (arith, Subset→issubset s s d (λ x m. m))

  size-add_new :
      (s : CaseInsensitiveSet) (x : String) → contains s x ≡ false → size (add s x) ≡ size s + 1
  unfolding add contains
  size-add_new s x h = ground (arith, length-store s.values x, h)

  pub add-HasNodup : (s : CaseInsensitiveSet) (x : String) → HasNodup s → HasNodup (add s x)
  add-HasNodup s x d = unfold add in store-IsNodup s.values x d

  -- A set without repetition that `==` another has all of its members.
  pub equals→Superset : (s t : CaseInsensitiveSet) → HasNodup s → equals s t ≡ true → Subset t s
  equals→Superset s t d e x m = elim (Bool-cases (contains s x)) [
    | inl here ↦ here
    | inr absent ↦
        let larger : size (add s x) ≤ size t = size_mono (add s x) t (add-HasNodup s x d) λ y n.
          ground (arith, n, contains-add s x y, contains_congr t x y, m, equals→Subset s t e y) in
        absurd (omega (arith, larger, size-add_new s x absent, equals→size s t e))
  ]
