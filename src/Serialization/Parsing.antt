-- ===== src/Serialization/Parsing.antt =====
-- Bytes of any kind that src/serialization.rs parses, and what src/server/server.rs does with them.
use rasputin.Prelude.{ℕ, ◌≡◌, ◌≢◌, ◌<◌, refl, arith, Bytes, ◌++◌, panic}
use mathlib.Core.Path.{subst}
use rasputin.Messages.PeerMsg.{PeerMsg}
use rasputin.Messages.PeerMsg
use rasputin.Messages.CliReq.{CliReq}
use rasputin.Messages.CliReq
use rasputin.Messages.CliRes.{CliRes}
use rasputin.Platform.{TimeOps, Rocks, Wire}
use rasputin.Roles.{Envelope}
use rasputin.Server.{Server, Readings}
use rasputin.Server.Clients.{handle_cli}
use rasputin.Server.Running.{peer_request, cli_request, handle_peer, handle}
use rasputin.Protobuf.{Coding, CodingLaws, varint, ProtobufResult, failed, spent}
use rasputin.Protobuf.Merging.{unexpected, on_string, on_message}
use rasputin.Protobuf.Ends.{CodingEnds, NotSpent}
use rasputin.Protobuf.Rounds.{merge_all-failed}
use rasputin.Serialization.PeerMsg.{
  merge_from as merge_peer, merge_field as peer_field, merge_from-NotSpent as peer_ends,
}
use rasputin.Serialization.CliReq.{
  merge_from as merge_req, merge_field as req_field, merge_from-NotSpent as req_ends,
}
use rasputin.Serialization.CliRes.{merge_from as merge_res, merge_from-NotSpent as res_ends}
use rasputin.Serialization.Library.{WireLaws}

NotSpent-ne {ℓ} : {A : Type ℓ} (r : ProtobufResult A) → NotSpent r → r ≢ failed spent
NotSpent-ne r h = λ e. (subst NotSpent e h) tt

module _ ⦃C : Coding⦄ (ends : CodingEnds C) where
  -- Whatever the bytes are, the loops of merge_from end, for each of the messages that are parsed
  -- and for those inside, where a read of the library takes bytes off the front, and a tag at
  -- least one: the fuel is enough.
  pub merge_from_ends :
      (m : PeerMsg) (request : CliReq) (response : CliRes) (is : Bytes)
      → (merge_peer m is ≢ failed spent)
        × (merge_req request is ≢ failed spent)
        × (merge_res response is ≢ failed spent)
  merge_from_ends m request response is = (
    NotSpent-ne (merge_peer m is) (peer_ends ends m is),
    NotSpent-ne (merge_req request is) (req_ends ends request is),
    NotSpent-ne (merge_res response is) (res_ends ends response is),
  )

-- A field number of a message, by the wire type that the field does not have.
abbrev pub IsPeerField : ℕ → Type 0
IsPeerField n = (0 < n) × (n < 6)

abbrev pub IsNested : ℕ → Type 0
IsNested n = (1 < n) × (n < 7)

module _ ⦃C : Coding⦄ where
  peer_field-varint :
      (m : PeerMsg) (n : ℕ) (is : Bytes) → IsPeerField n → peer_field m n varint is ≡ unexpected
  unfolding peer_field on_string on_message
  peer_field-varint m n is h = ground arith

  req_field-varint :
      (m : CliReq) (n : ℕ) (is : Bytes) → IsNested n → req_field m n varint is ≡ unexpected
  unfolding req_field on_message
  req_field-varint m n is h = ground arith

module _ {Db : Type 0} ⦃C : Coding⦄ (laws : CodingLaws C) ⦃T : TimeOps⦄ ⦃R : Rocks Db⦄ ⦃W : Wire⦄
    (wire : WireLaws W) where
  -- The tag of a field of a message between servers, or of a field of a request but its number,
  -- with the wire type of a number, makes the thread that takes up the message panic, whatever
  -- bytes follow and whatever the server is: the message does not parse.
  pub handle_malformed :
      (s : Server Db) (now : Readings) (peer client : Envelope) (n k : ℕ) (rest more : Bytes)
      → IsPeerField n
      → IsNested k
      → peer.msg ≡ C.write_tag n varint ++ rest
      → client.msg ≡ C.write_tag k varint ++ more
      → (handle s (now, peer_request peer) ≡ panic) × (handle s (now, cli_request client) ≡ panic)
  unfolding handle handle_peer handle_cli merge_peer merge_req
  handle_malformed s now peer client n k rest more h j e f = (
    rw
        (
          e,
          wire.parse_peer_lem,
          merge_all-failed laws peer_field n varint PeerMsg.new rest (omega arith) (omega arith) _
              (peer_field-varint PeerMsg.new n rest h),
        )
        refl,
    rw
        (
          f,
          wire.parse_cli_req_lem,
          merge_all-failed laws req_field k varint CliReq.new more (omega arith) (omega arith) _
              (req_field-varint CliReq.new k more j),
        )
        refl,
  )
