-- ===== src/Dcs/Matches.antt =====
-- `matches` searches the voters of the `/sync` key, whatever their case.
use Prim.Native.Char.{Char}
use Prim.Native.String.append
use Prim.Native.String.{◌++◌}
use text.Mathlib.Text.{◌==◌}
use system_design_hse_miem.Prelude.{
  String, Bool, true, false, not, ◌&&◌, ◌||◌, List, [], ◌∷◌, map, Option, none, some, if◌then◌else◌,
  ◌≡◌, refl, sym, ap, ◌∙◌, arith, eq_iff, Bool-cases, inl, inr,
}
use system_design_hse_miem.Collections.{Casing, has, same}
use system_design_hse_miem.Texts.{
  is_comma, is_blank, is_empty, push, split, strip_all, strip, lstrip, rstrip, keep_unless_blank,
}
use system_design_hse_miem.Dcs.{is_set, or_blank}
use system_design_hse_miem.Dcs.SyncKey.{SyncState, str_to_list, voters, matches, listed}

-- `str.lower` on texts whose characters have a lower-case letter each: it keeps commas and white space.
pub record IsCharwise (c : Casing) : Type 0 where
  pub to_lower : Char → Char
  pub lower_nil : c.lower String.[] ≡ String.[]
  pub lower_cons :
      (d : Char) (s : String) → c.lower (String.◌∷◌ d s) ≡ String.◌∷◌ (to_lower d) (c.lower s)
  pub comma_same : (d : Char) → is_comma (to_lower d) ≡ is_comma d
  pub blank_same : (d : Char) → is_blank (to_lower d) ≡ is_blank d

append_nil : (s : String) → s ++ "" ≡ s
append_nil String.[] = append.nil ""
append_nil (String.◌∷◌ d s) = append.cons d s "" ∙ ap (String.◌∷◌ d) (append_nil s)

blank_list : [] ≡ str_to_list ""
unfolding str_to_list split strip_all strip rstrip lstrip
blank_list = refl

standby_list :
    (o : Option String)
    → (if is_set o then str_to_list (or_blank o) else []) ≡ str_to_list (or_blank o)
standby_list none = blank_list
standby_list (some t) = elim (Bool-cases (t == "")) [
  | inl e ↦ rw e (blank_list ∙ ap str_to_list (sym ((eq_iff t "").0 e)))
  | inr e ↦ rw e
]

module _ ⦃c : Casing⦄ (by : IsCharwise c) where
  push-lower :
      (d : Char) (ps : List String)
      → push (by.to_lower d) (map c.lower ps) ≡ map c.lower (push d ps)
  push-lower d [] = rw (by.lower_cons d String.[], by.lower_nil)
  push-lower d (p ∷ ps) = rw (by.lower_cons d p)

  split-lower : (s : String) → split is_comma (c.lower s) ≡ map c.lower (split is_comma s)
  unfolding split
  split-lower String.[] = rw (by.lower_nil)
  split-lower (String.◌∷◌ d s) = elim (Bool-cases (is_comma d)) [
    | inl e ↦ rw (by.lower_cons d s, by.comma_same d, e, by.lower_nil, split-lower s)
    | inr e ↦
        rw (by.lower_cons d s, by.comma_same d, e, split-lower s, push-lower d (split is_comma s))
  ]

  is_empty-lower : (s : String) → is_empty (c.lower s) ≡ is_empty s
  is_empty-lower String.[] = rw (by.lower_nil)
  is_empty-lower (String.◌∷◌ d s) = rw (by.lower_cons d s)

  lstrip-lower : (s : String) → lstrip (c.lower s) ≡ c.lower (lstrip s)
  unfolding lstrip
  lstrip-lower String.[] = rw (by.lower_nil)
  lstrip-lower (String.◌∷◌ d s) = elim (Bool-cases (is_blank d)) [
    | inl e ↦ rw (by.lower_cons d s, by.blank_same d, e, lstrip-lower s)
    | inr e ↦ rw (by.lower_cons d s, by.blank_same d, e, by.lower_cons d s)
  ]

  keep-lower :
      (d : Char) (r : String)
      → keep_unless_blank (by.to_lower d) (c.lower r) ≡ c.lower (keep_unless_blank d r)
  keep-lower d r = elim (Bool-cases (is_blank d && is_empty r)) [
    | inl e ↦ rw (by.blank_same d, is_empty-lower r, e, by.lower_nil)
    | inr e ↦ rw (by.blank_same d, is_empty-lower r, e, by.lower_cons d r)
  ]

  rstrip-lower : (s : String) → rstrip (c.lower s) ≡ c.lower (rstrip s)
  unfolding rstrip
  rstrip-lower String.[] = rw (by.lower_nil)
  rstrip-lower (String.◌∷◌ d s) = rw (by.lower_cons d s, rstrip-lower s, keep-lower d (rstrip s))

  strip-lower : (s : String) → strip (c.lower s) ≡ c.lower (strip s)
  unfolding strip
  strip-lower s = ap rstrip (lstrip-lower s) ∙ rstrip-lower (lstrip s)

  strip_all-lower : (ps : List String) → strip_all (map c.lower ps) ≡ map c.lower (strip_all ps)
  unfolding strip_all
  strip_all-lower [] = refl
  strip_all-lower (p ∷ ps) = elim (Bool-cases (is_empty (strip p))) [
    | inl e ↦ rw (strip-lower p, is_empty-lower (strip p), e, strip_all-lower ps)
    | inr e ↦ rw (strip-lower p, is_empty-lower (strip p), e, strip_all-lower ps)
  ]

  str_to_list-lower : (s : String) → str_to_list (c.lower s) ≡ map c.lower (str_to_list s)
  unfolding str_to_list
  str_to_list-lower s = ap strip_all (split-lower s) ∙ strip_all-lower (split is_comma s)

  listed-lower :
      (name : String) (ns : List String) → listed (c.lower name) (map c.lower ns) ≡ has ns name
  unfolding listed has same
  listed-lower name [] = refl
  listed-lower name (n ∷ ns) = ap (λ b. c.lower n == c.lower name || b) (listed-lower name ns)

  listed-search :
      (o : Option String) (name : String)
      → listed (c.lower name) (str_to_list (c.lower (or_blank o ++ "")))
        ≡ has (if is_set o then str_to_list (or_blank o) else []) name
  listed-search o name =
      ap (λ t. listed (c.lower name) (str_to_list (c.lower t))) (append_nil (or_blank o))
      ∙ ap (listed (c.lower name)) (str_to_list-lower (or_blank o))
      ∙ listed-lower name (str_to_list (or_blank o))
      ∙ ap (λ ns. has ns name) (sym (standby_list o))

  none_has : (name : String) → has [] name ≡ false
  unfolding has
  none_has name = refl

  guarded :
      (set : Bool) (o : Option String) (name : String)
      → (is_set (some name)
          && not (not set)
          && listed (c.lower name) (str_to_list (c.lower (or_blank o ++ ""))))
        ≡ (is_set (some name)
            && has (if not (not set) && is_set o then str_to_list (or_blank o) else []) name)
  guarded true o name = ground (arith, listed-search o name)
  guarded false o name = ground (arith, none_has name)

  -- Where `lower` works on each character and keeps commas and white space, a name matches the
  -- `/sync` key exactly if it is not empty and one of the voters, whatever its case.
  pub matches-voters :
      {Version : Type 0} (s : SyncState Version) (name : String)
      → matches s (some name) false ≡ (is_set (some name) && has (voters s) name)
  unfolding matches voters
  matches-voters s name = guarded (is_set s.leader) s.sync_standby name
