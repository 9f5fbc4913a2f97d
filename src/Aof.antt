-- ===== src/Aof.antt =====
-- src/store/AofWriter.hpp and src/store/AofWriter.cpp: the append-only file.
pub mod Writer
pub mod Replay
mod Records
pub mod RoundTrip
pub mod Torn
pub mod Tests
