-- ===== src/Ha.antt =====
-- patroni/ha.py: which node may become the leader, and how the leader keeps the nodes that are
-- synchronous. HTTP requests, the database and the clock are arguments.
pub mod Fixture
mod Tests
mod WritesTests
pub mod Answers
pub mod Node
pub mod Race
pub mod Votes
pub mod Asked
pub mod Wins
pub mod Commits
pub mod Decision
pub mod Leadership
pub mod Candidates
pub mod Growth
pub mod Writes
pub mod WritesSafe
pub mod WritesEnd
pub mod Promotion
pub mod PromotionSafe
pub mod Multisync
pub mod Nested
pub mod MultisyncNested
