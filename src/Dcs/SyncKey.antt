-- ===== src/Dcs/SyncKey.antt =====
-- `SyncState`: the `/sync` key, who led last and who was synchronous with it.
use text.Mathlib.Text.{◌==◌}
use Prim.Native.String.{◌++◌}
use system_design_hse_miem.Prelude.{
  String, Bool, false, not, ◌&&◌, ◌||◌, List, [], ◌∷◌, Option, none, some, if◌then◌else◌,
}
use system_design_hse_miem.Prelude.Int.{ℤ, pos}
use system_design_hse_miem.Collections.{Casing}
use system_design_hse_miem.Collections.Sorted.{sorted}
use system_design_hse_miem.Texts.{is_comma, split, strip_all, join}
use system_design_hse_miem.Values.{
  Value, null, integer, str, Fields, no_fields, field, dict, lookup, truth,
}
use system_design_hse_miem.Dcs.{Node, parsed, Readers, text_of, is_set, or_blank, document, to_int}

pub record SyncState (Version : Type 0) : Type 0 where
  pub version : Option Version
  pub leader : Option String
  pub sync_standby : Option String
  pub quorum : ℤ

unfoldable pub str_to_list : String → List String
unfolding split strip_all
str_to_list value = strip_all (split is_comma value)

-- `name in names`
unfoldable pub listed : String → List String → Bool
listed name [] = false
listed name (n ∷ ns) = n == name || listed name ns

abbrev pub quorum_of : {Time : Type 0} → Readers Time → Fields → Option ℤ
quorum_of readers fs =
    if truth (lookup "leader" fs) && truth (lookup "quorum" fs)
    then to_int readers (lookup "quorum" fs)
    else some (pos 0)

abbrev pub or_null : Option String → Value
or_null none = null
or_null (some s) = str s

abbrev pub number_or_null : Option ℤ → Value
number_or_null none = null
number_or_null (some n) = integer n

abbrev pub joined : List String → Value
joined [] = null
joined (n ∷ ns) = str (join (sorted (n ∷ ns)))

-- `AbstractDCS.sync_state`
abbrev pub sync_state : Option String → List String → Option ℤ → Value
sync_state leader sync_standby quorum = dict (
    field "leader" (or_null leader) (
      field "quorum" (number_or_null quorum)
        (field "sync_standby" (joined sync_standby) no_fields)))

module _ {Version : Type 0} where
  abbrev pub empty_sync : Option Version → SyncState Version
  empty_sync version = record {
    version = version;
    leader = none;
    sync_standby = none;
    quorum = pos 0;
  }

  abbrev pub is_empty_sync : SyncState Version → Bool
  is_empty_sync s = not (is_set s.leader)

  unfoldable pub voters : SyncState Version → List String
  unfolding str_to_list
  voters s =
      if not (is_empty_sync s) && is_set s.sync_standby
      then str_to_list (or_blank s.sync_standby)
      else []

  unfoldable pub sync_members : SyncState Version → List String
  unfolding voters
  sync_members s = if is_set s.leader then or_blank s.leader ∷ voters s else []

  module _ ⦃c : Casing⦄ where
    abbrev pub search_str : SyncState Version → Bool → String
    search_str s check_leader =
        or_blank s.sync_standby ++ (if check_leader then "," ++ or_blank s.leader else "")

    unfoldable pub matches : SyncState Version → Option String → Bool → Bool
    unfolding str_to_list listed
    matches s name check_leader =
        is_set name
        && not (is_empty_sync s)
        && listed (c.lower (or_blank name)) (str_to_list (c.lower (search_str s check_leader)))

    unfoldable pub leader_matches : SyncState Version → Option String → Bool
    leader_matches s name =
        is_set name
        && not (is_empty_sync s)
        && c.lower (or_blank name) == c.lower (or_blank s.leader)

  module _ {Time : Type 0} (readers : Readers Time) where
    abbrev pub with_quorum : Option Version → Fields → Option ℤ → SyncState Version
    with_quorum version fs none = empty_sync version
    with_quorum version fs (some q) = record {
      version = version;
      leader = text_of (lookup "leader" fs);
      sync_standby = text_of (lookup "sync_standby" fs);
      quorum = q;
    }

    abbrev pub from_document : Option Version → Option Fields → SyncState Version
    from_document version none = empty_sync version
    from_document version (some fs) = with_quorum version fs (quorum_of readers fs)

    unfoldable pub sync_from_node : Option Version → Node → SyncState Version
    sync_from_node version value = from_document version (document readers value)

  abbrev pub written :
      {Time : Type 0} → Readers Time → Value → Option Version → Option (SyncState Version)
  written readers value none = none
  written readers value (some version) = some (sync_from_node readers (some version) (parsed value))

  -- `set_sync_state_value` is the store's: it returns the version of the key, or a `bool`.
  unfoldable pub write_sync_state :
      {Time : Type 0}
      → Readers Time
      → (Value → Option Version → Option Version)
      → Option String
      → List String
      → Option ℤ
      → Option Version
      → Option (SyncState Version)
  write_sync_state readers set_sync_state_value leader sync_standby quorum version =
      let value = sync_state leader sync_standby quorum in
      written readers value (set_sync_state_value value version)
