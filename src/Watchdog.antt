-- ===== src/Watchdog.antt =====
-- patroni/watchdog/base.py: the device that resets the machine if the leader stops working.
pub mod Settings
pub mod Device
pub mod Guard
pub mod Follow
pub mod Activation
pub mod Stuck
mod Tests
