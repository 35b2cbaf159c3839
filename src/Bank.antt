-- ===== src/Bank.antt =====
-- bank-cache-demo/backend/main.py: a bank's read endpoints behind a Redis cache, and transfers.
pub mod Services
pub mod Money
pub mod Replies
pub mod Handlers
pub mod Updates
pub mod Transfers
pub mod Cents
pub mod Reads
pub mod Stale
pub mod Score
pub mod Startup
pub mod Fixture
mod Tests
