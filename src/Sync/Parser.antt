-- ===== src/Sync/Parser.antt =====
-- `parse_sync_standby_names`, on the tokens that `SYNC_REP_PARSER_RE.finditer` returns.
use Prim.Native.Char.{Char, code}
use system_design_hse_miem.Prelude.{
  ℕ, ◌+◌, ◌*◌, ◌-◌, String, Bool, true, false, ◌&&◌, ◌||◌, List, [], ◌∷◌, Option, none, some,
  if◌then◌else◌, ◌==◌,
}
use system_design_hse_miem.Collections.{Casing, CaseInsensitiveSet, empty, add}

pub data Kind : Type 0 where
  first any space ident dquot star num comma parenstart parenend junk : Kind

abbrev pub rank : Kind → ℕ
rank first = 0
rank any = 1
rank space = 2
rank ident = 3
rank dquot = 4
rank star = 5
rank num = 6
rank comma = 7
rank parenstart = 8
rank parenend = 9
rank junk = 10

abbrev pub is_kind : Kind → Kind → Bool
is_kind a b = rank a == rank b

-- The last group, the text and the start of a match.
pub record Token : Type 0 where
  pub kind : Kind
  pub value : String
  pub start : ℕ

pub data SyncType : Type 0 where
  off priority quorum : SyncType

-- `_SSN`
pub record Ssn : Type 0 where
  pub sync_type : SyncType
  pub has_star : Bool
  pub num_sync : ℕ
  pub members : CaseInsensitiveSet

abbrev pub empty_ssn : Ssn
empty_ssn = record { sync_type = off; has_star = false; num_sync = 0; members = empty }

-- `int` of a text of digits
unfoldable pub digits : ℕ → String → ℕ
digits n String.[] = n
digits n (String.◌∷◌ c s) = digits (10 * n + (code c - 48)) s

abbrev pub is_quote : Char → Bool
is_quote c = code c == 34

-- `replace('""', '"')`; the flag says that a quote has been read and not written yet.
unfoldable pub undouble : Bool → String → String
undouble false String.[] = String.[]
undouble true String.[] = String.◌∷◌ "\"" String.[]
undouble false (String.◌∷◌ c s) = elim (is_quote c) [
  | true ↦ undouble true s
  | false ↦ String.◌∷◌ c (undouble false s)
]
undouble true (String.◌∷◌ c s) = elim (is_quote c) [
  | true ↦ String.◌∷◌ c (undouble false s)
  | false ↦ String.◌∷◌ "\"" (String.◌∷◌ c (undouble false s))
]

abbrev pub tail : String → String
tail String.[] = String.[]
tail (String.◌∷◌ c s) = s

unfoldable pub drop_last : String → String
drop_last String.[] = String.[]
drop_last (String.◌∷◌ c String.[]) = String.[]
drop_last (String.◌∷◌ c (String.◌∷◌ d s)) = String.◌∷◌ c (drop_last (String.◌∷◌ d s))

-- The name in a quoted token.
unfoldable pub unquote : String → String
unfolding undouble drop_last
unquote s = undouble false (drop_last (tail s))

unfoldable pub without_spaces : List Token → List Token
without_spaces [] = []
without_spaces (t ∷ ts) =
    let rest = without_spaces ts in if is_kind t.kind space then rest else t ∷ rest

-- `tokens[-1][0] == 'parenend'`
unfoldable pub is_closed : List Token → Bool
is_closed [] = false
is_closed (t ∷ []) = is_kind t.kind parenend
is_closed (t ∷ u ∷ ts) = is_closed (u ∷ ts)

-- `tokens[:-1]`
unfoldable pub inner : List Token → List Token
inner [] = []
inner (t ∷ []) = []
inner (t ∷ u ∷ ts) = t ∷ inner (u ∷ ts)

-- `sync_type`, `num` and `synclist`
pub record Wrapper : Type 0 where
  pub wrapped : SyncType
  pub count : ℕ
  pub synclist : List Token

abbrev pub bare : List Token → Wrapper
bare ts = record { wrapped = priority; count = 1; synclist = ts }

abbrev pub numbered : List Token → Wrapper
numbered (t ∷ u ∷ ts) =
    if is_kind t.kind num && is_kind u.kind parenstart && is_closed ts
    then record { wrapped = priority; count = digits 0 t.value; synclist = inner ts }
    else bare (t ∷ u ∷ ts)
numbered ts = bare ts

unfoldable pub unwrap : List Token → Wrapper
unfolding is_closed inner digits
unwrap (t ∷ u ∷ v ∷ ts) =
    if is_kind t.kind any && is_kind u.kind num && is_kind v.kind parenstart && is_closed ts
    then record { wrapped = quorum; count = digits 0 u.value; synclist = inner ts }
    else if is_kind t.kind first && is_kind u.kind num && is_kind v.kind parenstart && is_closed ts
    then record { wrapped = priority; count = digits 0 u.value; synclist = inner ts }
    else numbered (t ∷ u ∷ v ∷ ts)
unwrap ts = numbered ts

abbrev pub is_item : Token → Bool
is_item t =
    is_kind t.kind ident
    || is_kind t.kind first
    || is_kind t.kind any
    || is_kind t.kind star
    || is_kind t.kind dquot

-- The name that an item adds to `members`.
abbrev pub name_of : Token → String
name_of t = if is_kind t.kind dquot then unquote t.value else t.value

module _ ⦃c : Casing⦄ where
  -- The loop over `synclist`: `odd` is `i % 2 == 1`; `none` is the `ValueError`.
  unfoldable pub read_list :
      Bool → Bool → CaseInsensitiveSet → List Token → Option (Bool × CaseInsensitiveSet)
  unfolding add
  read_list odd has_star members [] = some (has_star, members)
  read_list true has_star members (t ∷ []) = none
  read_list true has_star members (t ∷ u ∷ ts) =
      let rest = read_list false has_star members (u ∷ ts) in
      if is_kind t.kind comma then rest else none
  read_list false has_star members (t ∷ ts) =
      let rest = read_list true (has_star || is_kind t.kind star) (add members (name_of t)) ts in
      if is_item t then rest else none

  abbrev pub ssn_of : Wrapper → Option (Bool × CaseInsensitiveSet) → Option Ssn
  ssn_of w none = none
  ssn_of w (some r) =
      some (record { sync_type = w.wrapped; has_star = r.0; num_sync = w.count; members = r.1 })

  unfoldable pub parse_tokens : List Token → Option Ssn
  unfolding unwrap read_list
  parse_tokens [] = some empty_ssn
  parse_tokens (t ∷ ts) =
      let w = unwrap (t ∷ ts) in ssn_of w (read_list false false empty w.synclist)

  unfoldable pub parse_sync_standby_names : (String → List Token) → String → Option Ssn
  unfolding parse_tokens without_spaces
  parse_sync_standby_names finditer value = parse_tokens (without_spaces (finditer value))
