-- ===== src/Background.antt =====
-- patroni/async_executor.py: long tasks in threads of their own. Each call that holds the lock is a
-- step on the shared state.
pub mod Critical
pub mod Executor
pub mod Single
pub mod Overlap
mod Tests
