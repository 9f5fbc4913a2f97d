-- ===== src/Resp.antt =====
-- src/protocol: the RESP encoders and the request parser. The proofs are in the modules below.
pub mod Encode
pub mod Scan
pub mod Inline
pub mod Parser
mod Lines
pub mod Rounds
pub mod Steps
pub mod Progress
pub mod RoundTrip
pub mod Prefix
pub mod Tokens
pub mod Quoting
pub mod InlineLine
pub mod Tests
