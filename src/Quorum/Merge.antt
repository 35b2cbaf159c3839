-- ===== src/Quorum/Merge.antt =====
-- The merging of transitions in `__iter__`.
use system_design_hse_miem.Prelude.{
  String, true, false, List, [], ◌∷◌, ◌≡◌, ◌≢◌, refl, ap, inl, inr, arith, Bool-cases,
}
use system_design_hse_miem.Collections.{Casing}
use system_design_hse_miem.Quorum.State.{Transition, TransitionType, sync, quorum, restart}
use system_design_hse_miem.Quorum.Iterate.{merge, same_type}
use system_design_hse_miem.Quorum.Published.{View, apply, apply_as, AllSafe, InRange, Leaves}
use mathlib.Core.Path.{subst}

-- A transition hides the one before it, if both write the same place.
apply-apply :
    (a b : TransitionType) (t u : Transition) (v : View)
    → same_type a b ≡ true
    → apply_as b u (apply_as a t v) ≡ apply_as b u v
apply-apply sync sync t u v h = refl
apply-apply quorum quorum t u v h = refl
apply-apply restart restart t u v h = refl
apply-apply sync quorum t u v h = cc
apply-apply sync restart t u v h = cc
apply-apply quorum sync t u v h = cc
apply-apply quorum restart t u v h = cc
apply-apply restart sync t u v h = cc
apply-apply restart quorum t u v h = cc

module _ ⦃c : Casing⦄ where
  -- What is merged away is safe to leave out.
  pub merge-AllSafe :
      (name : String) (v : View) (ts : List Transition)
      → AllSafe name v ts
      → AllSafe name v (merge ts)
  unfolding merge
  merge-AllSafe name v [] h = tt
  merge-AllSafe name v (t ∷ []) h = h
  merge-AllSafe name v (t ∷ u ∷ ts) h =
      elim (Bool-cases (same_type t.transition_type u.transition_type)) [
        | inl merged ↦ rw merged (
            merge-AllSafe name v (u ∷ ts) (
              subst
                (λ w.
                  InRange u.transition_type u × Leaves name w u.transition_type × AllSafe name w ts)
                (apply-apply t.transition_type u.transition_type t u v merged) h.2))
        | inr kept ↦ elim (Bool-cases (same_type t.transition_type restart)) [
          | inl last ↦ rw (kept, last) (h.0, h.1, tt)
          | inr more ↦ rw (kept, more) (h.0, h.1, merge-AllSafe name (apply t v) (u ∷ ts) h.2)
        ]
      ]

-- No two neighbours write the same place, and nothing follows a hint to restart.
abbrev pub Alternates : List Transition → Type 0
Alternates [] = Unit
Alternates (t ∷ []) = Unit
Alternates (t ∷ u ∷ ts) =
    (same_type t.transition_type u.transition_type ≡ false)
    × (t.transition_type ≢ restart)
    × Alternates (u ∷ ts)

-- The first transition of a merged list has the type of the first that was merged.
head_type : List Transition → TransitionType → TransitionType
head_type [] a = a
head_type (t ∷ ts) a = t.transition_type

same_type→eq : (a b : TransitionType) → same_type a b ≡ true → a ≡ b
same_type→eq a b h = ground arith

merge-head :
    (t : Transition) (ts : List Transition) → head_type (merge (t ∷ ts)) restart ≡ t.transition_type
unfolding merge head_type
merge-head t [] = refl
merge-head t (u ∷ ts) = elim (Bool-cases (same_type t.transition_type u.transition_type)) [
  | inl merged ↦
      rw merged (cc (merge-head u ts, same_type→eq t.transition_type u.transition_type merged))
  | inr kept ↦ elim (Bool-cases (same_type t.transition_type restart)) [
    | inl last ↦ rw (kept, last)
    | inr more ↦ rw (kept, more)
  ]
]

cons-Alternates :
    (t u : Transition) (ts : List Transition)
    → same_type t.transition_type u.transition_type ≡ false
    → same_type t.transition_type restart ≡ false
    → head_type ts restart ≡ u.transition_type
    → Alternates ts
    → Alternates (t ∷ ts)
unfolding head_type
cons-Alternates t u [] d r e h = tt
cons-Alternates t u (w ∷ ts) d r e h = (rw e d, (λ p. cc (r, ap (λ a. same_type a restart) p)), h)

-- In a merged list no two transitions in a row are of the same type, and only the last one can be a
-- hint to restart.
pub merge-Alternates : (ts : List Transition) → Alternates (merge ts)
unfolding merge
merge-Alternates [] = tt
merge-Alternates (t ∷ []) = tt
merge-Alternates (t ∷ u ∷ ts) = elim (Bool-cases (same_type t.transition_type u.transition_type)) [
  | inl merged ↦ rw merged (merge-Alternates (u ∷ ts))
  | inr kept ↦ elim (Bool-cases (same_type t.transition_type restart)) [
    | inl last ↦ rw (kept, last) tt
    | inr more ↦
        rw (kept, more)
          (cons-Alternates t u (merge (u ∷ ts)) kept more (merge-head u ts)
            (merge-Alternates (u ∷ ts)))
  ]
]
