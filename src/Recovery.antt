-- ===== src/Recovery.antt =====
-- The start of the server (src/main.cpp): the log is replayed into an empty store.
pub mod Startup
pub mod Lost
pub mod Logged
pub mod Restored
pub mod Follows
pub mod Replayed
pub mod Durable
pub mod Boot
pub mod Tests
