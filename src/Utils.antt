-- ===== src/Utils.antt =====
-- `patroni.utils`: patching one configuration document with another.
pub mod Patch
pub mod PatchReads
pub mod PatchSettles
pub mod PatchAgain
mod Tests
