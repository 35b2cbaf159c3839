-- ===== src/Collections/Sorted.antt =====
-- `sorted(names)` and the slice `[:k]` of Python, on texts.
use Prim.Native.Nat.{Ordering}
use Prim.Native.String.{compare}
use system_design_hse_miem.Prelude.{
  ◌-◌, suc, String, Bool, true, false, List, [], ◌∷◌, length, take, if◌then◌else◌,
}
use system_design_hse_miem.Prelude.Int.{ℤ, pos, negsuc}

unfoldable pub comes_before : String → String → Bool
comes_before a b = elim (compare a b) [ Ordering.lt ↦ true | _ ↦ false ]

module _ (before : String → String → Bool) where
  unfoldable pub insert_sorted : String → List String → List String
  insert_sorted v [] = v ∷ []
  insert_sorted v (w ∷ ws) = if before w v then w ∷ insert_sorted v ws else v ∷ w ∷ ws

  unfoldable pub sort_by : List String → List String
  unfolding insert_sorted
  sort_by [] = []
  sort_by (v ∷ vs) = insert_sorted v (sort_by vs)

-- `sorted(vs)`
unfoldable pub sorted : List String → List String
unfolding sort_by comes_before
sorted vs = sort_by comes_before vs

-- `sorted(vs, reverse=True)`
unfoldable pub sorted_reverse : List String → List String
unfolding sort_by comes_before
sorted_reverse vs = sort_by (λ a b. comes_before b a) vs

-- `vs[:k]`; a negative `k` leaves out the last `-k`
unfoldable pub slice_to : ℤ → List String → List String
slice_to (pos n) vs = take n vs
slice_to (negsuc n) vs = take (length vs - suc n) vs
