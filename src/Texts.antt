-- ===== src/Texts.antt =====
-- The `str` methods that patroni uses: `split`, `strip`, `join`. White space is ASCII's.
pub mod Split
use Prim.Native.Char.{Char, code}
use Prim.Native.String
use Prim.Native.String.{◌++◌}
use system_design_hse_miem.Prelude.{
  ℕ, String, Bool, true, false, not, ◌&&◌, ◌||◌, List, [], ◌∷◌, if◌then◌else◌, leb, ◌==◌,
}

abbrev pub is_blank : Char → Bool
is_blank c = (leb 9 (code c) && leb (code c) 13) || (leb 28 (code c) && leb (code c) 32)

abbrev pub is_comma : Char → Bool
is_comma c = code c == 44

abbrev pub is_colon : Char → Bool
is_colon c = code c == 58

abbrev pub is_empty : String → Bool
is_empty String.[] = true
is_empty (String.◌∷◌ c s) = false

-- One more character at the front of the first piece.
abbrev pub push : Char → List String → List String
push c [] = String.◌∷◌ c String.[] ∷ []
push c (p ∷ ps) = String.◌∷◌ c p ∷ ps

-- `s.split(sep)`, where `cut` tells `sep` from the other characters
unfoldable pub split : (Char → Bool) → String → List String
split cut String.[] = String.[] ∷ []
split cut (String.◌∷◌ c s) =
    let rest = split cut s in if cut c then String.[] ∷ rest else push c rest

unfoldable pub lstrip : String → String
lstrip String.[] = String.[]
lstrip (String.◌∷◌ c s) = let rest = lstrip s in if is_blank c then rest else String.◌∷◌ c s

abbrev pub keep_unless_blank : Char → String → String
keep_unless_blank c rest = if is_blank c && is_empty rest then String.[] else String.◌∷◌ c rest

unfoldable pub rstrip : String → String
rstrip String.[] = String.[]
rstrip (String.◌∷◌ c s) = keep_unless_blank c (rstrip s)

-- `s.strip()`
unfoldable pub strip : String → String
unfolding lstrip rstrip
strip s = rstrip (lstrip s)

-- The pieces that are not empty once stripped.
unfoldable pub strip_all : List String → List String
unfolding strip
strip_all [] = []
strip_all (p ∷ ps) = let rest = strip_all ps in if is_empty (strip p) then rest else strip p ∷ rest

-- `','.join(names)`
unfoldable pub join : List String → String
join [] = String.[]
join (n ∷ []) = n
join (n ∷ m ∷ ns) = n ++ String.◌∷◌ "," (join (m ∷ ns))
