-- ===== src/Dcs/Tests.antt =====
-- The properties of the keys at concrete values.
use system_design_hse_miem.Prelude.{ℕ, String, false, List, [], ◌∷◌, none, some, ◌≡◌, refl, ◌&&◌}
use system_design_hse_miem.Prelude.Int.{pos}
use system_design_hse_miem.Collections.{Casing, has}
use system_design_hse_miem.Dcs.{parsed, Readers, is_set}
use system_design_hse_miem.Dcs.SyncKey.{SyncState, voters, matches, sync_state, sync_from_node}
use system_design_hse_miem.Dcs.Written.{IsWritten, sync_from_node-IsWritten}
use system_design_hse_miem.Dcs.Matches.{IsCharwise, matches-voters}

-- No text is JSON here, and no time is read.
abbrev readers : Readers ℕ
readers = record { loads = λ s. none; int_of = λ s. none; parse_time = λ v. none }

abbrev seventh : ℕ
seventh = 7

abbrev names : List String
names = "c" ∷ "b" ∷ []

sync_from_node-IsWritten_example :
    IsWritten "a" names
      (pos 1)
      (some seventh)
      (sync_from_node readers (some seventh) (parsed (sync_state (some "a") names (some (pos 1)))))
sync_from_node-IsWritten_example =
    sync_from_node-IsWritten readers "a" names (pos 1) (some seventh) refl
      ((refl, (refl, refl, tt)), ((refl, (refl, refl, tt)), tt))

instance abbrev plain : Casing
plain = record { lower = λ s. s }

plain-IsCharwise : IsCharwise plain
plain-IsCharwise = record {
  to_lower = λ d. d;
  lower_nil = refl;
  lower_cons = λ d s. refl;
  comma_same = λ d. refl;
  blank_same = λ d. refl;
}

abbrev state : SyncState ℕ
state = record {
  version = some 1;
  leader = some "foo";
  sync_standby = some "bar, zoo";
  quorum = pos 0;
}

matches-voters_example :
    matches state (some "zoo") false ≡ (is_set (some "zoo") && has (voters state) "zoo")
matches-voters_example = matches-voters plain-IsCharwise state "zoo"
