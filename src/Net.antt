-- ===== src/Net.antt =====
-- src/net: the connections of the reactor, without the system calls.
pub mod Table
pub mod Frames
pub mod Connection
pub mod Drained
pub mod Reactor
pub mod Loop
pub mod Socket
pub mod Owners
mod SocketTests
pub mod Flight
pub mod Follows
pub mod Counts
pub mod Completions
pub mod Outgoing
pub mod Generations
pub mod Unsent
pub mod Armed
pub mod Arming
pub mod Delivered
pub mod InOrder
mod InOrderTests
pub mod Idle
pub mod Frame
pub mod Handles
pub mod HandlesOwned
pub mod Run
pub mod Stops
pub mod Wake
pub mod Heard
mod WakeTests
mod IdleTests
pub mod Stream
pub mod Events
pub mod Orderly
mod Reading
pub mod Order
pub mod Sending
pub mod Tests
