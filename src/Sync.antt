-- ===== src/Sync.antt =====
-- patroni/postgresql/sync.py: `synchronous_standby_names` and the nodes that are synchronous.
pub mod Parser
pub mod Grammar
pub mod Replicas
pub mod Cascade
pub mod Handler
pub mod Ready
pub mod Count
mod Tests
