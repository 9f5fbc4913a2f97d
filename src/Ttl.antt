-- ===== src/Ttl.antt =====
-- src/store/TtlManager.hpp and src/store/TtlManager.cpp: the heap of deadlines, and the thread with its
-- waits. The loop over due deadlines calls the store back and is modelled with it (Store/Background).
pub mod Heap
pub mod Sorted
pub mod Thread
pub mod Overslept
mod Tests
