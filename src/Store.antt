-- ===== src/Store.antt =====
-- src/store/KvStore.hpp and src/store/KvStore.cpp: the sharded key-value store.
pub mod Shard
pub mod State
pub mod Ops
pub mod Background
pub mod Sharding
pub mod Effects
pub mod Spec
pub mod Refine
pub mod Expiry
pub mod After
pub mod Sweep
pub mod Scheduled
pub mod Covers
pub mod Swept
pub mod Run
mod RunTests
pub mod Tests
