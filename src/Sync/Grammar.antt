-- ===== src/Sync/Grammar.antt =====
-- Which values of `synchronous_standby_names` are parsed, and into which names.
use system_design_hse_miem.Prelude.{
  String, Bool, true, false, ◌&&◌, ◌||◌, List, [], ◌∷◌, ◌++◌, none, some, if◌then◌else◌, ◌≡◌, refl,
  ap, ◌∙◌, arith, Bool-cases, inl, inr,
}
use system_design_hse_miem.Collections.{Casing, empty, add, of_list, store_all, store}
use system_design_hse_miem.Sync.Parser.{
  any, star, num, comma, parenstart, parenend, is_kind, Token, quorum, digits, is_closed, inner,
  Wrapper, unwrap, is_item, name_of, read_list, ssn_of, parse_tokens,
}

-- Items with single commas between them, and none at either end; or nothing.
abbrev pub is_separated : List Token → Bool
is_separated [] = true
is_separated (t ∷ []) = is_item t
is_separated (t ∷ u ∷ []) = false
is_separated (t ∷ u ∷ v ∷ ts) = is_item t && is_kind u.kind comma && is_separated (v ∷ ts)

-- The names of the items at the even places.
abbrev pub item_names : List Token → List String
item_names [] = []
item_names (t ∷ []) = name_of t ∷ []
item_names (t ∷ u ∷ ts) = name_of t ∷ item_names ts

abbrev pub any_star : List Token → Bool
any_star [] = false
any_star (t ∷ []) = is_kind t.kind star
any_star (t ∷ u ∷ ts) = is_kind t.kind star || any_star ts

module _ ⦃c : Casing⦄ where
  read_list-eq :
      (has_star : Bool) (members : List String) (ts : List Token)
      → read_list false has_star (record { values = members }) ts ≡ (
          if is_separated ts
          then some (has_star || any_star ts, record { values = store_all members (item_names ts) })
          else none)
  unfolding read_list add store_all
  read_list-eq has_star members [] = ground arith
  read_list-eq has_star members (t ∷ []) = ground arith
  read_list-eq has_star members (t ∷ u ∷ []) = ground arith
  read_list-eq has_star members (t ∷ u ∷ v ∷ ts) =
      ground
        (arith, read_list-eq (has_star || is_kind t.kind star) (store members (name_of t)) (v ∷ ts))

  ssn-eq :
      (w : Wrapper)
      → ssn_of w (read_list false false empty w.synclist) ≡ (
          if is_separated w.synclist
          then some (record {
            sync_type = w.wrapped;
            has_star = any_star w.synclist;
            num_sync = w.count;
            members = of_list (item_names w.synclist);
          })
          else none)
  unfolding of_list
  ssn-eq w = elim (Bool-cases (is_separated w.synclist)) [
    | inl e ↦ rw (read_list-eq false [] w.synclist, e)
    | inr e ↦ rw (read_list-eq false [] w.synclist, e)
  ]

is_closed-append :
    (ts : List Token) (e : Token) → is_closed (ts ++ (e ∷ [])) ≡ is_kind e.kind parenend
unfolding is_closed
is_closed-append [] e = refl
is_closed-append (t ∷ []) e = refl
is_closed-append (t ∷ u ∷ ts) e = is_closed-append (u ∷ ts) e

inner-append : (ts : List Token) (e : Token) → inner (ts ++ (e ∷ [])) ≡ ts
unfolding inner
inner-append [] e = refl
inner-append (t ∷ []) e = refl
inner-append (t ∷ u ∷ ts) e = ap (λ us. t ∷ us) (inner-append (u ∷ ts) e)

-- The tokens of `ANY n (...)`.
pub record IsAny (a n p e : Token) : Type 0 where
  pub starts : is_kind a.kind any ≡ true
  pub counts : is_kind n.kind num ≡ true
  pub opens : is_kind p.kind parenstart ≡ true
  pub closes : is_kind e.kind parenend ≡ true

unwrap_any :
    (a n p e : Token) (ts : List Token)
    → IsAny a n p e
    → unwrap (a ∷ n ∷ p ∷ (ts ++ (e ∷ [])))
      ≡ record { wrapped = quorum; count = digits 0 n.value; synclist = ts }
unfolding unwrap
unwrap_any a n p e ts h =
    rw (h.starts, h.counts, h.opens, is_closed-append ts e, h.closes, inner-append ts e)

-- A value `ANY n (...)` is parsed exactly if items and single commas alternate between the
-- parentheses, from an item to an item, or nothing stands there; then it asks for `n` of the items' names.
pub parse_tokens_any :
    ⦃c : Casing⦄ (a n p e : Token) (ts : List Token)
    → IsAny a n p e
    → parse_tokens (a ∷ n ∷ p ∷ (ts ++ (e ∷ []))) ≡ (
        if is_separated ts
        then some (record {
          sync_type = quorum;
          has_star = any_star ts;
          num_sync = digits 0 n.value;
          members = of_list (item_names ts);
        })
        else none)
unfolding parse_tokens
parse_tokens_any a n p e ts h =
    ap (λ w. ssn_of w (read_list false false empty w.synclist)) (unwrap_any a n p e ts h)
    ∙ ssn-eq (record { wrapped = quorum; count = digits 0 n.value; synclist = ts })
