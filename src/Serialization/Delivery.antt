-- ===== src/Serialization/Delivery.antt =====
-- The messages of src/serialization.rs on their way between the servers of src/server/server.rs and
-- the clients of src/client/mod.rs.
use rasputin.Prelude.{
  ◌^◌, ◌≡◌, ◌<◌, ◌∙◌, refl, sym, Bytes, Bool, true, some, List, [], ◌∷◌, ok, ◌>>=◌, map, length,
}
use mathlib.Core.Path.{subst}
use rasputin.Messages.PeerMsg.{PeerMsg}
use rasputin.Messages.PeerMsg
use rasputin.Messages.CliReq.{CliReq}
use rasputin.Messages.CliReq
use rasputin.Messages.CliRes.{CliRes}
use rasputin.Messages.CliRes
use rasputin.Platform.{Wire, write_peer_msg}
use rasputin.Roles.{SocketAddr, Token, Envelope}
use rasputin.Codec.{TryRead, ReadLaws}
use rasputin.Codec
use rasputin.Codec.Frames.{encode_each, AllFit}
use rasputin.ServerConn
use rasputin.ServerConn.{ServerConn}
use rasputin.ServerConn.Writing.{joined, outgoing}
use rasputin.ServerConn.Reading.{absorb, envelope, absorb-encode_each}
use rasputin.ServerConn.Delivery.{Traffic, AllWorking, sent, carry, outgoing-carry}
use rasputin.Protobuf.{Coding, CodingLaws}
use rasputin.Serialization.PeerMsg.{
  write_to_with_cached_sizes as write_peer, Fits as PeerFits,
  merge_from-write_to_with_cached_sizes as peer_back,
}
use rasputin.Serialization.CliReq.{write_to_with_cached_sizes as write_req, Fits as ReqFits}
use rasputin.Serialization.CliRes.{write_to_with_cached_sizes as write_res, Fits as ResFits}
use rasputin.Serialization.Library.{WireLaws}

-- A message that can be sent: its required fields are set, its numbers are machine words, and it
-- is shorter than 2^32 bytes.
pub record IsSendable {M : Type 0} (initialized : M → Bool) (Fits : M → Type 0) (write : M → Bytes)
    (m : M) : Type 0 where
  pub set : initialized m ≡ true
  pub words : Fits m
  pub short : length (write m) < 2 ^ 32

module _ ⦃C : Coding⦄ where
  abbrev pub IsPeerMsg : PeerMsg → Type 0
  IsPeerMsg = IsSendable PeerMsg.is_initialized PeerFits write_peer

  abbrev pub IsCliReq : CliReq → Type 0
  IsCliReq = IsSendable CliReq.is_initialized ReqFits write_req

  abbrev pub IsCliRes : CliRes → Type 0
  IsCliRes = IsSendable CliRes.is_initialized ResFits write_res

module _ ⦃C : Coding⦄ (coding : CodingLaws C) ⦃W : Wire⦄ (wire : WireLaws W) where
  pub parse_peer-encode_peer : (m : PeerMsg) → IsPeerMsg m → W.parse_peer (W.encode_peer m) ≡ some m
  parse_peer-encode_peer m s =
      rw
        (
          wire.encode_peer_lem m s.set,
          wire.parse_peer_lem (write_peer m),
          peer_back coding m s.words s.short,
          s.set,
        )
        refl

  -- What a server writes as a message to its peers, a peer parses as that message.
  pub parse_peer-write_peer_msg :
      (m : PeerMsg) → IsPeerMsg m → (do msg ← write_peer_msg m; ok (W.parse_peer msg)) ≡ ok (some m)
  unfolding write_peer_msg
  parse_peer-write_peer_msg m s = rw (s.set, parse_peer-encode_peer m s) refl

  abbrev pub AllPeerMsgs : List PeerMsg → Type 0
  AllPeerMsgs [] = Unit {0}
  AllPeerMsgs (m ∷ ms) = IsPeerMsg m × AllPeerMsgs ms

  AllFit-encode_peer : (ms : List PeerMsg) → AllPeerMsgs ms → AllFit (map W.encode_peer ms)
  AllFit-encode_peer [] all = tt
  AllFit-encode_peer (m ∷ ms) all =
      (rw (wire.encode_peer_lem m all.0.set) all.0.short, AllFit-encode_peer ms all.1)

  parse_each :
      (addr : SocketAddr) (tok : Token) (ms : List PeerMsg)
      → AllPeerMsgs ms
      → map (λ (e : Envelope). W.parse_peer e.msg) (map (envelope addr tok) (map W.encode_peer ms))
        ≡ map some ms
  parse_each addr tok [] all = refl
  parse_each addr tok (m ∷ ms) all =
      rw (parse_peer-encode_peer m all.0, parse_each addr tok ms all.1) refl

  -- The messages between servers that are queued on a new registered connection in any way
  -- between calls of `writable` on a socket that does not fail, in bytes of fewer than 2^64,
  -- reach the other end if nothing panics: however what is written and queued is cut into reads
  -- of a connection that is registered and decodes afresh, it hands on envelopes with its own
  -- token and the sender's address, which parse, in order, as exactly these messages, if each has
  -- its required fields, machine words for numbers, no unknown fields, and fewer than 2^32 bytes.
  -- The coding of values and the parser of the library take back what they write.
  pub absorb-carry :
      ⦃S : TryRead⦄ (reads : ReadLaws S) (tok there : Token) (addr : SocketAddr) (ms : List PeerMsg)
      (ts : List Traffic) (d c : ServerConn) (cuts : List Bytes)
      → AllPeerMsgs ms
      → AllWorking ts
      → sent ts ≡ map W.encode_peer ms
      → length (encode_each (sent ts)) < 2 ^ 64
      → carry (record ServerConn.new { token = some tok }) ts ≡ ok d
      → c.token ≡ some there
      → c.req_codec ≡ Codec.new
      → joined cuts ≡ outgoing d
      → (envelopes : List Envelope) × (absorb c addr cuts ≡ ok (c, envelopes))
        × (envelopes ≡ map (envelope addr there) (sent ts))
        × (map (λ (e : Envelope). W.parse_peer e.msg) envelopes ≡ map some ms)
  absorb-carry reads tok there addr ms ts d c cuts all working queued bound carried registered fresh
        whole =
      let fit : AllFit (sent ts) = subst AllFit (sym queued) (AllFit-encode_peer ms all) in
      let out : outgoing d ≡ encode_each (sent ts) =
        outgoing-carry tok ts d working bound carried in
      (
        map (envelope addr there) (sent ts),
        absorb-encode_each reads c there addr cuts (sent ts) registered fresh (whole ∙ out) fit,
        refl,
        rw queued (parse_each addr there ms all),
      )
