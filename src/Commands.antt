-- ===== src/Commands.antt =====
-- src/commands: the command classes and the dispatcher, with the message handler of src/main.cpp.
pub mod Command
pub mod Dispatch
pub mod Replies
pub mod Tests
