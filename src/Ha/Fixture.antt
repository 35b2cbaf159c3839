-- ===== src/Ha/Fixture.antt =====
-- The nodes that the tests run.
use system_design_hse_miem.Prelude.{ℕ, ◌+◌, String, Bool, [], ◌∷◌, true, false, none, some}
use system_design_hse_miem.Prelude.Int.{pos, negsuc, ◌+ℤ◌, ◌-ℤ◌}
use system_design_hse_miem.Collections.{
  Casing, CaseInsensitiveSet, contains, of_list, nonempty, issubset, ◌∪◌, len,
}
use system_design_hse_miem.Values.{
  integer, str, Fields, no_fields, field, dict, Parse, lookup, has_field,
}
use system_design_hse_miem.Tags.{nofailover, failover_priority}
use system_design_hse_miem.Config.{
  GlobalConfig, check_mode, is_quorum_commit_mode, is_synchronous_mode, is_standby_cluster, get_int,
}
use system_design_hse_miem.Quorum.State.{QuorumStateResolver, check_invariants}
use system_design_hse_miem.Dcs.{Readers}
use system_design_hse_miem.Dcs.SyncKey.{SyncState, voters, sync_members, matches, leader_matches}
use system_design_hse_miem.Dcs.Members.{Member, Cluster, empty_cluster}
use system_design_hse_miem.Ha.Answers.{fetch_node_status, fetch_nodes_statuses, failover_limitation}
use system_design_hse_miem.Ha.Node.{Ha, Outside, quorum_commit_mode_is_active, sync_mode_is_active}
use system_design_hse_miem.Ha.Race.{is_healthiest_of, others}
use system_design_hse_miem.Ha.Leadership.{is_healthiest_node}
use system_design_hse_miem.Ha.Writes.{Primary}
use system_design_hse_miem.Sync.Parser.{Ssn, priority}
use system_design_hse_miem.Quorum.Published.{View}
use system_design_hse_miem.Sync.Handler.{Asked}
use system_design_hse_miem.Sync.Replicas.{ReplicaList}

-- The names below have no upper-case letter.
instance abbrev pub plain : Casing
plain = record { lower = λ s. s }

abbrev pub parse : Parse
parse = record { parse_int = λ v unit. none; parse_bool = λ v. none }

abbrev pub readers : Readers Unit
readers = record { loads = λ s. none; int_of = λ s. none; parse_time = λ v. none }

abbrev pub node : String → Member
node name = record { name = name; data_fields = field "api_url" (str "http://node") no_fields }

-- Node `b`, after leader `a` is gone; `b` and `c` were its voters.
abbrev pub key_of_a : SyncState ℕ
key_of_a = record { version = some 7; leader = some "a"; sync_standby = some "b,c"; quorum = pos 1 }

abbrev pub cluster : Cluster ℕ Unit
cluster = record empty_cluster {
  members = node "b" ∷ node "c" ∷ [];
  sync = key_of_a;
  history = none;
}

abbrev pub mode : String → GlobalConfig
mode m = record { config = field "synchronous_mode" (str m) no_fields }

abbrev pub node_b : Ha ℕ Unit
node_b = record {
  cluster = cluster;
  old_cluster = cluster;
  old_is_cluster = false;
  config = mode "quorum";
  name = "b";
  supports_multiple_sync = true;
  nofailover = false;
  failover_priority = pos 1;
  last_timeline = none;
  released_leader_key_timestamp = pos 0;
}

abbrev pub answer_at : ℕ → Fields
answer_at lsn =
    field "role" (str "replica")
      (field "wal" (dict (field "received_location" (integer (pos lsn)) no_fields)) no_fields)

abbrev pub outside : Outside Unit
outside = record {
  parse = parse;
  readers = readers;
  request = λ m. some (answer_at 100);
  as_completed = λ ms. ms;
  replica_cached_timeline = λ n. some (pos 1);
  last_operation = pos 100;
  is_primary = false;
  primary_timeline = pos 1;
  sysid = "";
  watchdog_is_healthy = true;
  ttl = pos 30;
  now = pos 1000;
  failsafe = none;
}

-- What a test computes with.
unfoldable pub run : Ha ℕ Unit → Bool
unfolding is_healthiest_node is_synchronous_mode is_quorum_commit_mode check_mode is_standby_cluster
    lookup get_int ◌-ℤ◌ ◌+ℤ◌ voters sync_members matches contains of_list failover_limitation
    nofailover failover_priority has_field quorum_commit_mode_is_active sync_mode_is_active
    is_healthiest_of others fetch_node_status fetch_nodes_statuses check_invariants nonempty
    issubset ◌∪◌ len leader_matches
run ha = (is_healthiest_node outside ha).value

-- The resolver of `a`, with `b` and `c` as synchronous nodes.
abbrev pub resolver_a : QuorumStateResolver
resolver_a = record {
  leader = "a";
  quorum = pos 1;
  voters = of_list ("b" ∷ "c" ∷ []);
  numsync = pos 1;
  sync = record { values = "b" ∷ "c" ∷ [] };
  numsync_confirmed = pos 2;
  active = record { values = "b" ∷ "c" ∷ [] };
  sync_wanted = pos 1;
  leader_wanted = "a";
}

abbrev pub acked : CaseInsensitiveSet
acked = record { values = "a" ∷ "b" ∷ [] }

-- Without quorum commit.
abbrev pub node_b_single : Ha ℕ Unit
node_b_single = record node_b { supports_multiple_sync = false }

-- The primary `a`, with an empty `/sync` key and the replica `b`.
abbrev pub asked_of_a : Asked
asked_of_a = record {
  setting = "";
  last_operation = pos 100;
  supports_quorum_commit = true;
  supports_multiple_sync = true;
  is_quorum_commit_mode = true;
  synchronous_node_count = pos 1;
  maximum_lag_on_syncnode = negsuc 0;
}

abbrev pub replica_b : ReplicaList
replica_b = record {
  replicas =
      record {
        pid = pos 1;
        application_name = "b";
        sync_state = "async";
        lsn = pos 100;
        nofailover = false;
        sync_priority = pos 1;
      }
      ∷ [];
  max_lsn = pos 100;
}

abbrev pub primary_a : Primary ℕ Unit
primary_a = record {
  name = "a";
  min_sync = pos 0;
  sync_wanted = pos 1;
  loop_wait = 10;
  readers = readers;
  parse = λ s. none;
  enable = λ value version. some 1;
  set_sync_state_value = λ r i value version. some (r + i + 2);
  elapsed = λ r i. r + r;
  elapsed_at_end = λ r. r + r;
  asked = λ r. asked_of_a;
  replicas = λ r. replica_b;
  asked_after = λ r i. none;
}

-- Primary `a` with `b` in its settings, without quorum commit.
abbrev pub ssn_b : Ssn
ssn_b = record {
  sync_type = priority;
  has_star = false;
  num_sync = 1;
  members = record { values = "b" ∷ [] };
}

abbrev pub primary_single : Primary ℕ Unit
primary_single = record primary_a {
  parse = λ s. some ssn_b;
  asked = λ r. record asked_of_a { setting = "b"; is_quorum_commit_mode = false };
}

abbrev pub key_b : SyncState ℕ
key_b = record { version = some 7; leader = some "a"; sync_standby = some "b"; quorum = pos 0 }

abbrev pub view_b : View
view_b = record {
  leader = "a";
  quorum = pos 0;
  voters = record { values = "b" ∷ [] };
  numsync = pos 1;
  sync = record { values = "b" ∷ [] };
}
