-- ===== src/Messages.antt =====
-- src/serialization.rs: the messages between servers, and between clients and servers. The
-- field `cached_size` is left out.
pub mod Unknown
pub mod Version
pub mod Mutation
pub mod GetReq
pub mod SetReq
pub mod CasReq
pub mod DelReq
pub mod WatchReq
pub mod CliReq
pub mod GetRes
pub mod SetRes
pub mod CasRes
pub mod DelRes
pub mod RedirectRes
pub mod WatchRes
pub mod CliRes
pub mod VoteReq
pub mod VoteRes
pub mod Append
pub mod AppendRes
pub mod PeerMsg
