-- ===== src/Dcs.antt =====
-- patroni/dcs/__init__.py: what the keys of the distributed configuration store hold. The store and
-- `json` are outside: a key is read as a text or as a parsed document.
pub mod SyncKey
pub mod Written
pub mod Matches
pub mod StatusKey
pub mod Legacy
pub mod Members
mod Tests
use system_design_hse_miem.Prelude.{String, Bool, true, false, Option, none, some, if◌then◌else◌}
use system_design_hse_miem.Prelude.Int.{ℤ, pos}
use system_design_hse_miem.Values.{
  Value, null, boolean, integer, str, items, Fields, dict, lookup, truth,
}

-- What `from_node` is given: nothing, a text, or a document.
pub data Node : Type 0 where
  absent : Node
  raw : String → Node
  parsed : Value → Node

-- `json.loads`, which may raise `ValueError`; `int` of a text; and `dateutil.parser.parse`.
pub record Readers (Time : Type 0) : Type 0 where
  pub loads : String → Option Value
  pub int_of : String → Option ℤ
  pub parse_time : Value → Option Time

-- A field that the writers fill with a text or with `None`.
abbrev pub text_of : Value → Option String
text_of (str s) = some s
text_of _ = none

-- `bool(name)`
abbrev pub is_set : Option String → Bool
is_set none = false
is_set (some s) = truth (str s)

-- `name or ''`
abbrev pub or_blank : Option String → String
or_blank none = ""
or_blank (some s) = s

-- The `dict` that a node holds, if any; a text that is empty or no JSON has none.
abbrev pub dict_in : Value → Option Fields
dict_in (dict fs) = some fs
dict_in _ = none

abbrev pub dict_loaded : Option Value → Option Fields
dict_loaded none = none
dict_loaded (some v) = dict_in v

module _ {Time : Type 0} (readers : Readers Time) where
  abbrev pub document : Node → Option Fields
  document absent = none
  document (raw s) = if truth (str s) then dict_loaded (readers.loads s) else none
  document (parsed v) = dict_in v

  -- `int(value)`, `none` where it raises
  abbrev pub to_int : Value → Option ℤ
  to_int (integer n) = some n
  to_int (boolean b) = some (if b then pos 1 else pos 0)
  to_int (str s) = readers.int_of s
  to_int _ = none
