-- ===== src/Texts/Split.antt =====
-- What `join` writes, `split` and `strip` read.
use Prim.Native.Char.{Char}
use Prim.Native.String.append
use Prim.Native.String.{◌++◌}
use system_design_hse_miem.Prelude.{
  String, Bool, true, false, List, [], ◌∷◌, All, ◌≡◌, refl, ap, ◌∙◌,
}
use system_design_hse_miem.Texts.{
  is_blank, is_comma, is_empty, split, lstrip, rstrip, strip, strip_all, join,
}

module _ (cut : Char → Bool) where
  -- No character of a text is the separator or white space.
  abbrev pub IsSolid : String → Type 0
  IsSolid String.[] = Unit
  IsSolid (String.◌∷◌ c s) = (cut c ≡ false) × (is_blank c ≡ false) × IsSolid s

  -- A name that stays apart from others.
  abbrev pub IsName : String → Type 0
  IsName n = (is_empty n ≡ false) × IsSolid n

  pub split_solid : (n : String) → IsSolid n → split cut n ≡ n ∷ []
  unfolding split
  split_solid String.[] h = refl
  split_solid (String.◌∷◌ c s) h = rw (h.0, split_solid s h.2)

  pub split-append :
      (sep : Char) (n rest : String)
      → cut sep ≡ true
      → IsSolid n
      → split cut (n ++ String.◌∷◌ sep rest) ≡ n ∷ split cut rest
  unfolding split
  split-append sep String.[] rest e h = rw (append.nil (String.◌∷◌ sep rest), e)
  split-append sep (String.◌∷◌ c s) rest e h =
      rw (append.cons c s (String.◌∷◌ sep rest), h.0, split-append sep s rest e h.2)

  rstrip_solid : (n : String) → IsSolid n → rstrip n ≡ n
  unfolding rstrip
  rstrip_solid String.[] h = refl
  rstrip_solid (String.◌∷◌ c s) h = rw (rstrip_solid s h.2, h.1)

  lstrip_solid : (n : String) → IsSolid n → lstrip n ≡ n
  unfolding lstrip
  lstrip_solid String.[] h = refl
  lstrip_solid (String.◌∷◌ c s) h = rw (h.1)

  pub strip_solid : (n : String) → IsSolid n → strip n ≡ n
  unfolding strip
  strip_solid n h = ap rstrip (lstrip_solid n h) ∙ rstrip_solid n h

  strip_all_names : (ns : List String) → All IsName ns → strip_all ns ≡ ns
  unfolding strip_all
  strip_all_names [] h = refl
  strip_all_names (n ∷ ns) h = rw (strip_solid n h.0.1, h.0.0, strip_all_names ns h.1)

split-join :
    (n : String) (ns : List String)
    → All (IsName is_comma) (n ∷ ns)
    → split is_comma (join (n ∷ ns)) ≡ n ∷ ns
unfolding join
split-join n [] h = split_solid is_comma n h.0.1
split-join n (m ∷ ns) h =
    split-append is_comma "," n (join (m ∷ ns)) refl h.0.1 ∙ ap (λ ps. n ∷ ps) (split-join m ns h.1)

pub strip_all-split-join :
    (n : String) (ns : List String)
    → All (IsName is_comma) (n ∷ ns)
    → strip_all (split is_comma (join (n ∷ ns))) ≡ n ∷ ns
strip_all-split-join n ns h = ap strip_all (split-join n ns h) ∙ strip_all_names is_comma (n ∷ ns) h
