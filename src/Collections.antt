-- ===== src/Collections.antt =====
-- patroni/collections.py. Python's `str.lower` is the field of `Casing`. An entry of the `dict`
-- `_values` has the key `value.lower()`, so the model keeps the values, in insertion order.
pub mod Sorted
pub mod Members
pub mod Sets
pub mod Overlap
pub mod Dict
mod Tests
use text.Mathlib.Text.{◌==◌}
use system_design_hse_miem.Prelude.{
  String, Bool, true, false, not, ◌&&◌, ◌||◌, List, [], ◌∷◌, ◌++◌, length, ltb, if◌then◌else◌,
}
use system_design_hse_miem.Prelude.Int.{ℤ, pos}

-- Python's `str.lower`.
pub record Casing : Type 0 where
  pub lower : String → String

pub record CaseInsensitiveSet : Type 0 where
  pub values : List String

abbrev pub empty : CaseInsensitiveSet
empty = record { values = [] }

module _ ⦃c : Casing⦄ where
  -- two texts that are one key of `_values`
  unfoldable pub same : String → String → Bool
  same v w = c.lower v == c.lower w

  -- `value.lower() in self._values`
  unfoldable pub has : List String → String → Bool
  has [] v = false
  has (w ∷ ws) v = same w v || has ws v

  -- `self._values[value.lower()] = value`
  unfoldable pub store : List String → String → List String
  store [] v = v ∷ []
  store (w ∷ ws) v = if same w v then v ∷ ws else w ∷ store ws v

  -- `self._values.pop(value.lower(), None)`
  pub pop : List String → String → List String
  pop [] v = []
  pop (w ∷ ws) v = if same w v then ws else w ∷ pop ws v

  unfoldable pub contains : CaseInsensitiveSet → String → Bool
  unfolding has same
  contains s v = has s.values v

  unfoldable pub len : CaseInsensitiveSet → ℤ
  len s = pos (length s.values)

  unfoldable pub add : CaseInsensitiveSet → String → CaseInsensitiveSet
  unfolding store same
  add s v = record { values = store s.values v }

  unfoldable pub discard : CaseInsensitiveSet → String → CaseInsensitiveSet
  unfolding pop same
  discard s v = record { values = pop s.values v }

  unfoldable pub store_all : List String → List String → List String
  store_all ws [] = ws
  store_all ws (v ∷ vs) = store_all (store ws v) vs

  -- `CaseInsensitiveSet(values)`, and `_from_iterable` of the mixin methods
  unfoldable pub of_list : List String → CaseInsensitiveSet
  unfolding store_all store same
  of_list vs = record { values = store_all [] vs }

  pub select : (String → Bool) → List String → List String
  select p [] = []
  select p (v ∷ vs) = let rest = select p vs in if p v then v ∷ rest else rest

  -- The methods that `collections.abc.Set` derives from `__contains__`, `__iter__` and `__len__`.
  infixl 65 ◌∪◌ ◌∖◌
  infixl 70 ◌∩◌
  unfoldable pub ◌∪◌ : CaseInsensitiveSet → CaseInsensitiveSet → CaseInsensitiveSet
  unfolding of_list
  s ∪ t = of_list (s.values ++ t.values)

  unfoldable pub ◌∩◌ : CaseInsensitiveSet → CaseInsensitiveSet → CaseInsensitiveSet
  unfolding of_list select contains
  s ∩ t = of_list (select (contains s) t.values)

  unfoldable pub ◌∖◌ : CaseInsensitiveSet → CaseInsensitiveSet → CaseInsensitiveSet
  unfolding of_list select contains
  s ∖ t = of_list (select (λ v. not (contains t v)) s.values)

  pub discard_all : CaseInsensitiveSet → List String → CaseInsensitiveSet
  unfolding discard
  discard_all s [] = s
  discard_all s (v ∷ vs) = discard_all (discard s v) vs

  -- `s -= t`
  unfoldable pub difference_update : CaseInsensitiveSet → CaseInsensitiveSet → CaseInsensitiveSet
  unfolding discard_all
  difference_update s t = discard_all s t.values

  -- `s &= t`
  unfoldable pub intersection_update : CaseInsensitiveSet → CaseInsensitiveSet → CaseInsensitiveSet
  unfolding discard_all ◌∖◌
  intersection_update s t = discard_all s (s ∖ t).values

  pub all_in : List String → CaseInsensitiveSet → Bool
  unfolding contains
  all_in [] t = true
  all_in (v ∷ vs) t = contains t v && all_in vs t

  -- `issubset`, `<=`
  unfoldable pub issubset : CaseInsensitiveSet → CaseInsensitiveSet → Bool
  unfolding all_in
  issubset s t = not (ltb (length t.values) (length s.values)) && all_in s.values t

  -- `s < t`, which is also `t > s`
  unfoldable pub is_proper_subset : CaseInsensitiveSet → CaseInsensitiveSet → Bool
  unfolding issubset
  is_proper_subset s t = ltb (length s.values) (length t.values) && issubset s t

  -- `s == t`
  unfoldable pub equals : CaseInsensitiveSet → CaseInsensitiveSet → Bool
  unfolding issubset
  equals s t = not (ltb (length s.values) (length t.values)) && issubset s t

  -- `if s`
  unfoldable pub nonempty : CaseInsensitiveSet → Bool
  nonempty s = ltb 0 (length s.values)
