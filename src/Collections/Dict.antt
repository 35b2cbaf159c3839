-- ===== src/Collections/Dict.antt =====
-- `CaseInsensitiveDict` of patroni/collections.py: the entries in insertion order, each with the key
-- as it was last set.
use system_design_hse_miem.Prelude.{
  String, Bool, true, false, ◌||◌, List, [], ◌∷◌, Option, none, some, if◌then◌else◌, ◌≡◌, refl,
  arith,
}
use system_design_hse_miem.Collections.{Casing, same}
use system_design_hse_miem.Collections.Members.{same_left, same_right}

pub record CaseInsensitiveDict (V : Type 0) : Type 0 where
  pub entries : List (String × V)

module _ ⦃c : Casing⦄ {V : Type 0} where
  -- `key.lower() in self._values`
  unfoldable pub has_entry : List (String × V) → String → Bool
  has_entry [] k = false
  has_entry (e ∷ es) k = same e.0 k || has_entry es k

  -- `__getitem__`; `none` is the `KeyError`
  unfoldable pub get_entry : List (String × V) → String → Option V
  get_entry [] k = none
  get_entry (e ∷ es) k = if same e.0 k then some e.1 else get_entry es k

  -- `__setitem__`
  unfoldable pub set_entry : List (String × V) → String → V → List (String × V)
  set_entry [] k v = (k, v) ∷ []
  set_entry (e ∷ es) k v = if same e.0 k then (k, v) ∷ es else e ∷ set_entry es k v

  unfoldable pub set_item : CaseInsensitiveDict V → String → V → CaseInsensitiveDict V
  unfolding set_entry
  set_item d k v = record { entries = set_entry d.entries k v }

  unfoldable pub get_item : CaseInsensitiveDict V → String → Option V
  unfolding get_entry
  get_item d k = get_entry d.entries k

  unfoldable pub has_key : CaseInsensitiveDict V → String → Bool
  unfolding has_entry
  has_key d k = has_entry d.entries k

  -- `update` with the entries, one after the other
  unfoldable pub set_all : List (String × V) → List (String × V) → List (String × V)
  unfolding set_entry
  set_all es [] = es
  set_all es (f ∷ fs) = set_all (set_entry es f.0 f.1) fs

  -- `CaseInsensitiveDict(data)`
  unfoldable pub dict_of_list : List (String × V) → CaseInsensitiveDict V
  unfolding set_all
  dict_of_list fs = record { entries = set_all [] fs }

  get_entry-set :
      (es : List (String × V)) (k j : String) (v : V)
      → get_entry (set_entry es k v) j ≡ (if same k j then some v else get_entry es j)
  unfolding get_entry set_entry
  get_entry-set [] k j v = refl
  get_entry-set (e ∷ es) k j v =
      ground (arith, same_left e.0 k j, same_right e.0 k j, get_entry-set es k j v)

  -- A key that is set is read back, in any case of its letters, and the other keys keep their values.
  pub get_item-set_item :
      (d : CaseInsensitiveDict V) (k j : String) (v : V)
      → get_item (set_item d k v) j ≡ (if same k j then some v else get_item d j)
  unfolding get_item set_item
  get_item-set_item d k j v = get_entry-set d.entries k j v

  has_entry-set :
      (es : List (String × V)) (k j : String) (v : V)
      → has_entry (set_entry es k v) j ≡ (same k j || has_entry es j)
  unfolding has_entry set_entry
  has_entry-set [] k j v = refl
  has_entry-set (e ∷ es) k j v = ground (arith, same_left e.0 k j, has_entry-set es k j v)

  pub has_key-set_item :
      (d : CaseInsensitiveDict V) (k j : String) (v : V)
      → has_key (set_item d k v) j ≡ (same k j || has_key d j)
  unfolding has_key set_item
  has_key-set_item d k j v = has_entry-set d.entries k j v

  has_entry_congr :
      (es : List (String × V)) (k j : String) → same k j ≡ true → has_entry es k ≡ has_entry es j
  unfolding has_entry
  has_entry_congr [] k j h = refl
  has_entry_congr (e ∷ es) k j h = ground (arith, same_right e.0 k j h, has_entry_congr es k j h)

  pub has_key_congr :
      (d : CaseInsensitiveDict V) (k j : String) → same k j ≡ true → has_key d k ≡ has_key d j
  unfolding has_key
  has_key_congr d k j h = has_entry_congr d.entries k j h
