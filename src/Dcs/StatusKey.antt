-- ===== src/Dcs/StatusKey.antt =====
-- `Failover`, `TimelineHistory` and `Status`: the other keys that are read from a document.
use system_design_hse_miem.Prelude.{
  String, Bool, true, false, not, ◌&&◌, List, [], ◌∷◌, map, Option, none, some, if◌then◌else◌,
}
use system_design_hse_miem.Prelude.Int.{ℤ, pos, ◌+ℤ◌, eqb_ℤ}
use system_design_hse_miem.Texts.{is_colon, split, strip}
use system_design_hse_miem.Values.{
  Value, boolean, integer, str, Items, no_items, items, Fields, no_fields, dict, lookup, lookup_or,
  truth,
}
use system_design_hse_miem.Dcs.{
  Node, absent, raw, parsed, Readers, text_of, is_set, to_int, dict_in,
}

pub record Failover (Version Time : Type 0) : Type 0 where
  pub version : Version
  pub leader : Option String
  pub candidate : Option String
  pub scheduled_at : Option Time

pub record TimelineHistory (Version : Type 0) : Type 0 where
  pub version : Version
  pub value : Node
  pub lines : Items

pub record Status : Type 0 where
  pub last_lsn : ℤ
  pub slots : Option Fields
  pub retain_slots : Items

abbrev pub second : List String → Option String
second [] = none
second (a ∷ rest) = some a

abbrev pub or_end : Option Fields → Fields
or_end none = no_fields
or_end (some fs) = fs

abbrev pub not_fields : Option Fields → Bool
not_fields none = true
not_fields (some fs) = false

abbrev pub items_in : Option Value → Items
items_in (some (items vs)) = vs
items_in _ = no_items

abbrev pub lines_of : {Time : Type 0} → Readers Time → Node → Items
lines_of readers (raw s) = items_in (readers.loads s)
lines_of readers _ = no_items

module _ {Version Time : Type 0} (readers : Readers Time) where
  -- The older form, `leader:candidate`.
  abbrev pub legacy : Version → List String → Failover Version Time
  legacy version [] = record {
    version = version;
    leader = none;
    candidate = none;
    scheduled_at = none;
  }
  legacy version (a ∷ rest) = record {
    version = version;
    leader = some a;
    candidate = second rest;
    scheduled_at = none;
  }

  abbrev pub with_time : Version → Fields → Option Time → Failover Version Time
  with_time version fs time = record {
    version = version;
    leader = text_of (lookup "leader" fs);
    candidate = text_of (lookup "member" fs);
    scheduled_at = time;
  }

  -- `none` is the exception of the date parser.
  abbrev pub scheduled : Version → Fields → Option Time → Option (Failover Version Time)
  scheduled version fs none = none
  scheduled version fs (some time) = some (with_time version fs (some time))

  abbrev pub from_fields : Version → Fields → Option (Failover Version Time)
  from_fields version fs =
      if truth (lookup "scheduled_at" fs)
      then scheduled version fs (readers.parse_time (lookup "scheduled_at" fs))
      else some (with_time version fs none)

  abbrev pub from_text : Version → String → Option Value → Option (Failover Version Time)
  from_text version s none = some (legacy version (map strip (split is_colon s)))
  from_text version s (some v) = from_fields version (or_end (dict_in v))

  abbrev pub from_value : Version → Value → Option (Failover Version Time)
  from_value version (dict fs) = from_fields version fs
  from_value version v = if truth v then none else from_fields version no_fields

  -- `none` is an exception: of the date parser, or of `json.loads` on a value that is no text.
  unfoldable pub failover_from_node : Version → Node → Option (Failover Version Time)
  failover_from_node version absent = from_fields version no_fields
  failover_from_node version (raw s) =
      if truth (str s) then from_text version s (readers.loads s) else from_fields version no_fields
  failover_from_node version (parsed v) = from_value version v

  -- `len(failover)`
  unfoldable pub len_failover : Failover Version Time → ℤ
  unfolding ◌+ℤ◌
  len_failover f =
      (if is_set f.leader then pos 1 else pos 0) +ℤ (if is_set f.candidate then pos 1 else pos 0)

  abbrev pub history_from_node : Version → Node → TimelineHistory Version
  history_from_node version value = record {
    version = version;
    value = value;
    lines = lines_of readers value;
  }

abbrev pub empty_status : Status
empty_status = record { last_lsn = pos 0; slots = none; retain_slots = no_items }

abbrev pub is_empty_status : Status → Bool
is_empty_status s =
    eqb_ℤ s.last_lsn (pos 0) && not_fields s.slots && not (truth (items s.retain_slots))

abbrev pub fields_in : Option Value → Option Fields
fields_in (some (dict fs)) = some fs
fields_in _ = none

abbrev pub or_zero : Option ℤ → ℤ
or_zero none = pos 0
or_zero (some n) = n

module _ {Time : Type 0} (readers : Readers Time) where
  -- A field that may hold its document as a text.
  abbrev pub loaded : Value → Option Value
  loaded (str s) = readers.loads s
  loaded v = some v

  abbrev pub status_of : Fields → Status
  status_of fs = record {
    last_lsn = or_zero (to_int readers (lookup_or "optime" (str "") fs));
    slots = fields_in (loaded (lookup "slots" fs));
    retain_slots = items_in (loaded (lookup "retain_slots" fs));
  }

  -- A number alone is the older form.
  abbrev pub status_from_value : Option Value → Status
  status_from_value (some (integer n)) = record {
    last_lsn = n;
    slots = none;
    retain_slots = no_items;
  }
  status_from_value (some (boolean b)) = record {
    last_lsn = if b then pos 1 else pos 0;
    slots = none;
    retain_slots = no_items;
  }
  status_from_value (some (dict fs)) = status_of fs
  status_from_value _ = empty_status

  unfoldable pub status_from_node : Node → Status
  status_from_node absent = empty_status
  status_from_node (raw s) = status_from_value (readers.loads s)
  status_from_node (parsed v) = status_from_value (some v)
