-- ===== src/Server.antt =====
-- src/main.cpp: the reactor, the thread pool and the store as one system.
pub mod System
pub mod Working
pub mod Events
pub mod Steps
pub mod OneAtATime
pub mod Writable
mod Tests
