-- ===== src/Quorum.antt =====
-- patroni/quorum.py: the transitions of `synchronous_standby_names` and of the `/sync` key.
pub mod State
pub mod Gen
pub mod Updates
pub mod Phases
pub mod Iterate
pub mod Published
pub mod UpdatesSafe
pub mod PhasesSafe
pub mod Checks
pub mod Recover
pub mod FailoverSafe
pub mod Safety
pub mod Merge
pub mod Steady
mod Tests
