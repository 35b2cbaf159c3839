-- ===== src/Sync/Tests.antt =====
-- The properties of sync.py at concrete values.
use system_design_hse_miem.Prelude.{
  arith, ◌≤◌, ℕ, String, true, false, List, [], ◌∷◌, ◌++◌, Option, none, some, ◌≡◌, refl,
}
use system_design_hse_miem.Prelude.Int.{pos, negsuc}
use system_design_hse_miem.Collections.{Casing, of_list, same}
use system_design_hse_miem.Collections.Dict.{CaseInsensitiveDict, get_item, has_key}
use system_design_hse_miem.Sync.Parser.{
  Kind, any, num, ident, comma, parenstart, parenend, Token, Ssn, quorum, parse_tokens, digits,
}
use system_design_hse_miem.Sync.Grammar.{parse_tokens_any}
use system_design_hse_miem.Sync.Replicas.{Member, Row, Replica, ReplicaList, should_cascade}
use system_design_hse_miem.Sync.Cascade.{should_cascade_cycle}
use system_design_hse_miem.Sync.Handler.{Asked, new_handler, current_state}
use system_design_hse_miem.Sync.Count.{current_state_active_le}
use system_design_hse_miem.Collections.Sets.{size}
use system_design_hse_miem.Sync.Ready.{IsSound, current_state-IsSound}

instance abbrev plain : Casing
plain = record { lower = λ s. s }

abbrev token : Kind → String → ℕ → Token
token k v n = record { kind = k; value = v; start = n }

-- The list of `ANY 2 (a,b)`.
abbrev two_names : List Token
two_names = token ident "a" 7 ∷ token comma "," 8 ∷ token ident "b" 9 ∷ []

abbrev any_of_two : List Token
any_of_two = two_names ++ (token parenend ")" 10 ∷ [])

parse_tokens_any_example :
    parse_tokens (token any "ANY" 0 ∷ token num "2" 4 ∷ token parenstart "(" 6 ∷ any_of_two)
    ≡ some (record {
      sync_type = quorum;
      has_star = false;
      num_sync = digits 0 "2";
      members = of_list ("a" ∷ "b" ∷ []);
    })
parse_tokens_any_example =
    parse_tokens_any (token any "ANY" 0) (token num "2" 4) (token parenstart "(" 6)
      (token parenend ")" 10) two_names
      (record { starts = refl; counts = refl; opens = refl; closes = refl })

abbrev cascading : String → String → Member
cascading name from = record {
  name = name;
  is_running = true;
  nosync = false;
  nofailover = false;
  replicatefrom = from;
  sync_priority = pos 1;
}

-- `b` and `c` have each other in their `replicatefrom` tags.
abbrev circle : CaseInsensitiveDict Member
circle = record { entries = ("b", cascading "b" "c") ∷ ("c", cascading "c" "b") ∷ [] }

abbrev rows : CaseInsensitiveDict Row
rows = record { entries = [] }

finds_c : get_item circle "c" ≡ some (cascading "c" "b")
unfolding get_item same
finds_c = refl

finds_b : get_item circle "b" ≡ some (cascading "b" "c")
unfolding get_item same
finds_b = refl

should_cascade_cycle_example : should_cascade 1000 circle rows (cascading "b" "c") ≡ none
should_cascade_cycle_example =
    should_cascade_cycle 1000 circle rows (cascading "b" "c") (cascading "c" "b") refl refl finds_c
      finds_b

abbrev asked : Asked
asked = record {
  setting = "ANY 1 (b)";
  last_operation = pos 10;
  supports_quorum_commit = true;
  supports_multiple_sync = true;
  is_quorum_commit_mode = true;
  synchronous_node_count = pos 1;
  maximum_lag_on_syncnode = negsuc 0;
}

abbrev parse_one : String → Option Ssn
parse_one s = some (record {
  sync_type = quorum;
  has_star = false;
  num_sync = 1;
  members = record { values = "b" ∷ [] };
})

-- `b` has caught up.
abbrev replica_b : Replica
replica_b = record {
  pid = pos 42;
  application_name = "b";
  sync_state = "quorum";
  lsn = pos 12;
  nofailover = false;
  sync_priority = pos 1;
}

abbrev list : ReplicaList
list = record { replicas = replica_b ∷ []; max_lsn = pos 12 }

none_ready : (x : String) → has_key new_handler.ready_replicas x ≡ true → ⊥
unfolding has_key
none_ready x h = cc

current_state-IsSound_example :
    let (rep, h) = current_state parse_one asked (λ s. false) list new_handler in IsSound rep h
current_state-IsSound_example =
    current_state-IsSound parse_one asked (λ s. false) list new_handler
      (λ x h. absurd (none_ready x h))

-- The same replica where quorum commit is off.
abbrev asked_one : Asked
asked_one = record asked { is_quorum_commit_mode = false }

current_state_active_le_example :
    size (current_state parse_one asked_one (λ s. false) list new_handler).0.active ≤ 1
current_state_active_le_example =
    current_state_active_le parse_one asked_one (λ s. false) list new_handler 1 refl refl refl
      (omega arith)
