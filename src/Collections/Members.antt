-- ===== src/Collections/Members.antt =====
-- Members and sizes of lists of texts that are compared as keys of `_values`.
use system_design_hse_miem.Prelude.{
  String, Bool, true, false, ◌&&◌, ◌||◌, List, [], ◌∷◌, ◌++◌, length, if◌then◌else◌, ◌≡◌, arith,
  eq_iff, ◌∙◌, ◌+◌, ◌≤◌, refl,
}
use system_design_hse_miem.Collections.{Casing, same, has, store, pop, store_all, select}

module _ ⦃c : Casing⦄ where
  pub same_refl : (v : String) → same v v ≡ true
  unfolding same
  same_refl v = (eq_iff (c.lower v) (c.lower v)).1 refl

  pub same_comm : (v w : String) → same v w ≡ same w v
  unfolding same
  same_comm v w = ground (arith, eq_iff (c.lower v) (c.lower w), eq_iff (c.lower w) (c.lower v))

  -- Texts that are one key have the same answers.
  pub same_left : (v w x : String) → same v w ≡ true → same v x ≡ same w x
  unfolding same
  same_left v w x h = ground (
    arith,
    eq_iff (c.lower v) (c.lower w),
    eq_iff (c.lower v) (c.lower x),
    eq_iff (c.lower w) (c.lower x),
  )

  pub same_right : (x v w : String) → same v w ≡ true → same x v ≡ same x w
  same_right x v w h = same_comm x v ∙ same_left v w x h ∙ same_comm w x

  pub has_congr : (ws : List String) (v w : String) → same v w ≡ true → has ws v ≡ has ws w
  unfolding has
  has_congr [] v w h = refl
  has_congr (x ∷ ws) v w h = ground (arith, same_right x v w h, has_congr ws v w h)

  pub has-store : (ws : List String) (v x : String) → has (store ws v) x ≡ (same v x || has ws x)
  unfolding has store
  has-store [] v x = refl
  has-store (w ∷ ws) v x = ground (arith, same_left w v x, has-store ws v x)

  pub has-append : (ws vs : List String) (x : String) → has (ws ++ vs) x ≡ (has ws x || has vs x)
  unfolding has
  has-append [] vs x = refl
  has-append (w ∷ ws) vs x = ground (arith, has-append ws vs x)

  pub has-store_all :
      (ws vs : List String) (x : String) → has (store_all ws vs) x ≡ (has ws x || has vs x)
  unfolding has store_all
  has-store_all ws [] x = ground arith
  has-store_all ws (v ∷ vs) x = ground (arith, has-store_all (store ws v) vs x, has-store ws v x)

  pub length-store :
      (ws : List String) (v : String)
      → length (store ws v) ≡ (if has ws v then length ws else length ws + 1)
  unfolding has store
  length-store [] v = refl
  length-store (w ∷ ws) v = ground (arith, length-store ws v)

  -- No text is there twice.
  abbrev pub IsNodup : List String → Type 0
  IsNodup [] = Unit
  IsNodup (w ∷ ws) = (has ws w ≡ false) × IsNodup ws

  pub store-IsNodup : (ws : List String) (v : String) → IsNodup ws → IsNodup (store ws v)
  unfolding has store
  store-IsNodup [] v h = ground arith
  store-IsNodup (w ∷ ws) v h =
      ground (arith, store-IsNodup ws v h.1, has-store ws v w, same_comm w v, has_congr ws w v)

  pub store_all-IsNodup : (ws vs : List String) → IsNodup ws → IsNodup (store_all ws vs)
  unfolding store_all
  store_all-IsNodup ws [] h = h
  store_all-IsNodup ws (v ∷ vs) h = store_all-IsNodup (store ws v) vs (store-IsNodup ws v h)

  pub has-pop_ne :
      (ws : List String) (v x : String) → same v x ≡ false → has (pop ws v) x ≡ has ws x
  unfolding has pop
  has-pop_ne [] v x h = refl
  has-pop_ne (w ∷ ws) v x h = ground (arith, has-pop_ne ws v x h, same_left w v x)

  pub length-pop :
      (ws : List String) (v : String) → has ws v ≡ true → length (pop ws v) + 1 ≡ length ws
  unfolding has pop
  length-pop [] v h = cc
  length-pop (w ∷ ws) v h = ground (arith, length-pop ws v)

  -- A list with no text twice is at most as long as a list that has all of its texts.
  pub length-le_of_subset :
      (ws vs : List String)
      → IsNodup ws
      → ((x : String) → has ws x ≡ true → has vs x ≡ true)
      → length ws ≤ length vs
  unfolding has
  length-le_of_subset [] vs d sub = omega arith
  length-le_of_subset (w ∷ ws) vs d sub =
      let here : has vs w ≡ true = sub w (ground (arith, same_refl w)) in
      omega (
        arith,
        length-pop vs w here,
        length-le_of_subset ws (pop vs w) d.1
            λ x h. ground (arith, has-pop_ne vs w x, sub x, has_congr ws w x),
      )

  pub has-select :
      (p : String → Bool) (ws : List String) (x : String)
      → ((v : String) → same v x ≡ true → p v ≡ p x)
      → has (select p ws) x ≡ (p x && has ws x)
  unfolding has select
  has-select p [] x h = ground arith
  has-select p (w ∷ ws) x h = ground (arith, has-select p ws x h, h w)
