-- ===== src/Serialization.antt =====
-- src/serialization.rs: the wire format of each message, field by field.
pub mod Version
pub mod Mutation
pub mod GetReq
pub mod SetReq
pub mod CasReq
pub mod DelReq
pub mod WatchReq
pub mod CliReq
pub mod GetRes
pub mod SetRes
pub mod CasRes
pub mod DelRes
pub mod WatchRes
pub mod RedirectRes
pub mod CliRes
pub mod VoteReq
pub mod VoteRes
pub mod Append
pub mod AppendRes
pub mod PeerMsg
pub mod Library
pub mod Delivery
pub mod Answers
pub mod Sizes
pub mod Parsing
pub mod Elections
pub mod Commits
