-- ===== src/Serialization/Sizes.antt =====
-- The sizes that src/serialization.rs computes, which the length prefixes of nested messages are.
use rasputin.Prelude.{◌^◌, ◌≡◌, ◌<◌, length}
use rasputin.Messages.PeerMsg.{PeerMsg}
use rasputin.Messages.CliReq.{CliReq}
use rasputin.Messages.CliRes.{CliRes}
use rasputin.Protobuf.{Coding, CodingLaws}
use rasputin.Serialization.PeerMsg
use rasputin.Serialization.CliReq
use rasputin.Serialization.CliRes

module _ ⦃C : Coding⦄ (laws : CodingLaws C) where
  -- The size that is computed of a message between servers, of a request and of a response, with
  -- all messages inside, is the number of bytes that are written, where they are fewer than 2^32
  -- and the coding of a value has the size that the library computes.
  pub length-write_to_with_cached_sizes :
      (m : PeerMsg) (request : CliReq) (response : CliRes)
      → length (PeerMsg.write_to_with_cached_sizes m) < 2 ^ 32
      → length (CliReq.write_to_with_cached_sizes request) < 2 ^ 32
      → length (CliRes.write_to_with_cached_sizes response) < 2 ^ 32
      → (PeerMsg.compute_size m ≡ length (PeerMsg.write_to_with_cached_sizes m))
        × (CliReq.compute_size request ≡ length (CliReq.write_to_with_cached_sizes request))
        × (CliRes.compute_size response ≡ length (CliRes.write_to_with_cached_sizes response))
  length-write_to_with_cached_sizes m request response a b c = (
    PeerMsg.compute_size-write_to_with_cached_sizes laws m a,
    CliReq.compute_size-write_to_with_cached_sizes laws request b,
    CliRes.compute_size-write_to_with_cached_sizes laws response c,
  )
