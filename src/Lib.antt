-- ===== src/Lib.antt =====
-- Verification of the repository's Python code: the parts of Patroni, the high-availability agent of the
-- PostgreSQL cluster in code/postgres-ha, that decide which nodes are synchronous; and the back end of
-- the bank demo in code/bank-cache-demo.
--
-- In Patroni, global_config.py says how many synchronous nodes are wanted, tags.py which nodes may be
-- synchronous, postgresql/sync.py finds the nodes that are, and quorum.py turns these numbers and the
-- `/sync` key of the store (dcs/__init__.py) into safe changes of the key and of PostgreSQL's
-- `synchronous_standby_names`, which ha.py carries out. When the leader is gone, ha.py on each node
-- asks the others for their status (tags and positions), and decides by the key whether the node may
-- lead. Names of nodes are compared without their case by collections.py. The paths below are relative
-- to code/postgres-ha/patroni-master/patroni, and Python's `str.lower` is the instance argument
-- `Casing`.
--
--   Prelude      names of the libraries, Boolean tests, lists, and signed integers over the native ones
--   Collections  collections.py. Sorted: `sorted` and slices; Members, Sets, Overlap: laws of sets by
--                their members and sizes; Dict: `CaseInsensitiveDict`
--   Quorum       quorum.py. State: `QuorumStateResolver` and `check_invariants`. Gen: a generator method
--                as a state that yields, and its exceptions. Updates: `quorum_update`, `sync_update`.
--                Phases: the private methods and `_generate_transitions`. Iterate: `__iter__`. Published,
--                UpdatesSafe, PhasesSafe, Checks, Recover, FailoverSafe, Safety: what an observer of the
--                two settings holds after each transition. Merge, Steady: the other properties
--   Texts        the methods of `str` that are used; Split: joined names are split again
--   Values       documents of JSON and YAML; Lookup: reading a filtered `dict`
--   Tags         tags.py. Priorities: the Boolean tags and the priorities
--   Config       global_config.py. Modes: what is in force, and counts
--   Utils        utils.py. Patch: `patch_config`. PatchReads, PatchSettles, PatchAgain: what it leaves
--                under each name, and patching twice
--   Dcs          dcs/__init__.py. SyncKey: `SyncState` and the writer of the `/sync` key; StatusKey:
--                `Failover`, `TimelineHistory`, `Status`; Members: `Member`, `Leader`, `Cluster`. Written,
--                Matches, Legacy: properties of the keys
--   Sync         postgresql/sync.py. Parser: `parse_sync_standby_names`; Replicas: `_ReplicaList`;
--                Handler: `SyncHandler`. Grammar, Ready, Count, Cascade: their properties
--   Ha           ha.py. Answers: `_MemberStatus`; Node: what a node knows, and its modes; Race:
--                `_is_healthiest_node`; Decision: the manual failover, and whether a failover is
--                possible; Leadership: `is_healthiest_node`. Votes, Asked, Wins, Commits, Candidates,
--                Growth: properties of the race. Writes: `_process_quorum_replication`; Promotion:
--                `process_sync_replication_prepromote`; Multisync: `_process_multisync_replication`.
--                WritesSafe, WritesEnd, PromotionSafe, Nested, MultisyncNested: what they leave in
--                the two settings
--   Background   async_executor.py. Critical: `CriticalTask`; Executor: `AsyncExecutor` as a step
--                relation. Single, Overlap: how many tasks run at a time
--   Watchdog     watchdog/base.py. Settings: `WatchdogConfig`; Device: the interface of a device, and
--                `NullWatchdog`; Guard, Follow: `Watchdog`. Activation, Stuck: properties
--   Bank         code/bank-cache-demo/backend/main.py. Services: Redis and the database, as arguments
--                with their documented behaviour; Money: amounts and balances; Replies: responses and
--                exceptions;
--                Handlers: the endpoints on the state of Redis and the database; Startup: `lifespan`.
--                Updates, Transfers, Cents, Reads, Stale, Score: their properties
--
-- An operation that changes an object takes the object and returns the new one. An exception is a value:
-- `quorum_error` and `assertion_error` of the resolver, `http_error` and `crash` of an endpoint, `none`
-- of a parser. Loops recur on their list. `_should_cascade` recurs on fuel, the depth of its calls,
-- since its recursion need not end; `lifespan` makes the 60 attempts of its loop. The rounds of
-- `_process_quorum_replication` recur on fuel, and `loop_wait + 1` is enough if a sleep takes its time.
--
-- What the store, the database, the other nodes and the clock answer during a call is an argument, for
-- each round and each write; so is the order in which the nodes answer. The writes of a call are
-- listed in their order. `patch_config` copies a `dict` that it stores, where Python shares it with
-- `data`, and `str` of a value is its argument. The list of members that `is_healthiest_node` extends
-- in place is part of the state it returns. A thread of `AsyncExecutor` takes one step for each part
-- of its code that holds the lock; scheduling an action and starting its thread are two steps. A device
-- of the watchdog is an argument with its operations, each of which may fail, except the questions
-- whether it runs and whether it is healthy.
--
-- An amount of money is a fraction, an infinity or `NaN`, as a float is; the column keeps cents or
-- `NaN`, and rounds. A transaction that is not committed leaves the database as it was; a commit or a
-- deletion of keys that fails may have been done. The four products and quotients of floats in the
-- credit score, `parse_int` and `parse_bool` of utils.py, `json.loads`, the date parser, and the
-- matches of the regular expression of sync.py are arguments. White space and digits are ASCII's. A
-- field of a key that the writers fill with a text or `None` counts as missing where a document has
-- another kind of value there.
--
-- Not modelled: logging, failures of the calls of Redis that read or store a key or clear the cache,
-- the statistics and health endpoints, `__delitem__` and the representations of `CaseInsensitiveDict`,
-- the text that `SyncHandler` makes of the synchronous names, the slots of a cluster, the Linux device
-- of the watchdog, and the rest of Patroni: the cycle of ha.py around the race, its failsafe mode and
-- its restarts, the clients of the stores, the management of PostgreSQL, the REST API, the rest of
-- utils.py and the tools.
pub mod Prelude
pub mod Collections
pub mod Quorum
pub mod Texts
pub mod Values
pub mod Tags
pub mod Config
pub mod Utils
pub mod Dcs
pub mod Sync
pub mod Ha
pub mod Background
pub mod Watchdog
pub mod Bank
