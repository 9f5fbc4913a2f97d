-- ===== src/Pool.antt =====
-- src/ThreadPool.hpp: the queue of tasks and the loop of a worker.
pub mod Queue
pub mod Order
mod Tests
