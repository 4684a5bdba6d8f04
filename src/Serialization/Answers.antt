-- ===== src/Serialization/Answers.antt =====
-- A request of src/client/mod.rs that a server of src/server/server.rs answers, in the bytes of
-- src/serialization.rs.
use rasputin.Prelude.{
  ℕ, ◌^◌, ◌≡◌, ◌<◌, ◌≤◌, refl, sym, Bytes, true, some, List, ◌∷◌, ◌++◌, ok, map, length,
}
use mathlib.Core.Path.{subst}
use rasputin.Messages.CliReq.{CliReq}
use rasputin.Messages.CliReq
use rasputin.Messages.GetReq
use rasputin.Messages.GetRes
use rasputin.Messages.CliRes.{CliRes}
use rasputin.Messages.CliRes
use rasputin.Platform.{Timespec, found, Rocks, Wire, write_cli_res}
use rasputin.Roles.{SocketAddr, Token, Envelope, leader, is_leader}
use rasputin.Codec.{TryRead, ReadLaws, encode}
use rasputin.ServerConn.{io_ok}
use rasputin.ServerConn.Writing.{joined}
use rasputin.Server.{Server}
use rasputin.Server.Messaging.{reply}
use rasputin.Server.Clients.{get_result, reply_cli, lead_cli, handle_cli}
use rasputin.Client.{ClientWire, Client, finished, Attempt, read_bytes, req}
use rasputin.Client.Streams.{AllWork, roomy}
use rasputin.Client.Requests.{AllSkipped, req-answer}
use rasputin.Protobuf.{Coding, CodingLaws}
use rasputin.Serialization.CliReq.{merge_from-write_to_with_cached_sizes as req_back}
use rasputin.Serialization.CliRes.{merge_from-write_to_with_cached_sizes as res_back}
use rasputin.Serialization.Library.{WireLaws, ClientWireLaws}
use rasputin.Serialization.Delivery.{IsCliReq, IsCliRes}

-- The response of a leader that finds this value, having learned up to this txid.
abbrev pub got : CliReq → Bytes → ℕ → CliRes
got m value txid =
    CliRes.set_get (CliRes.set_req_id CliRes.new (CliReq.get_req_id m))
      (GetRes.set_txid (get_result (found value)) txid)

module _ ⦃C : Coding⦄ (coding : CodingLaws C) ⦃W : Wire⦄ (wire : WireLaws W) ⦃V : ClientWire⦄
    (client_wire : ClientWireLaws V) where
  -- What a client writes as a request, the server parses as that request, and what the server
  -- writes as a response, the client parses as that response, where both have their required
  -- fields, machine words for numbers, no unknown fields, and fewer than 2^32 bytes, and the
  -- coding of values and the parser of the library take back what they write.
  pub parse_cli_req-encode_cli_req :
      (request : CliReq) (response : CliRes)
      → IsCliReq request
      → IsCliRes response
      → (W.parse_cli_req (V.encode_cli_req request) ≡ some request)
        × (V.parse_cli_res (W.encode_cli_res response) ≡ some response)
  parse_cli_req-encode_cli_req m r s t = (
    rw
        (
          client_wire.encode_cli_req_lem m s.set,
          wire.parse_cli_req_lem,
          req_back coding m s.words s.short,
          s.set,
        )
        refl,
    rw
        (
          wire.encode_cli_res_lem r t.set,
          client_wire.parse_cli_res_lem,
          res_back coding r t.words t.short,
          t.set,
        )
        refl,
  )

  -- A read that a client writes is answered by a leader that has the key: the server replies on
  -- the envelope with the bytes of a response that carries the stored value, and the client,
  -- which passes over the servers before it and whose socket takes the request and brings the
  -- reply's frame cut in any way, returns that response, where request and response have their
  -- required fields, machine words for numbers, no unknown fields, and fewer than 2^32 bytes, and
  -- the coding of values and the parser of the library take back what they write.
  pub req-handle_cli :
      ⦃S : TryRead⦄ (reads : ReadLaws S) {Db : Type 0} ⦃R : Rocks Db⦄ (s : Server Db)
      (env : Envelope) (until : Timespec) (term need : ℕ) (have : List Token) (value : Bytes)
      (self : Client) (net : ℕ → SocketAddr → Attempt) (m : CliReq) (passed rest : List SocketAddr)
      (peer : SocketAddr)
      → IsCliReq m
      → CliReq.has_get m ≡ true
      → env.msg ≡ V.encode_cli_req m
      → s.state ≡ leader term have need until
      → R.read s.db (GetReq.get_key (CliReq.get_get m)) ≡ found value
      → IsCliRes (got m value s.rep_log.last_learned_txid)
      → self.servers ≡ passed ++ peer ∷ rest
      → AllSkipped net 0 m passed
      → (net (length passed) peer).connected ≡ io_ok tt
      → AllWork (net (length passed) peer).writes
      → length (encode env.msg) ≤ roomy (net (length passed) peer).writes
      → joined (map read_bytes (net (length passed) peer).reads)
        ≡ encode (W.encode_cli_res (got m value s.rep_log.last_learned_txid))
      → (handle_cli s env
          ≡ ok (reply s env (W.encode_cli_res (got m value s.rep_log.last_learned_txid))))
        × (req self net m ≡ ok (finished (io_ok (got m value s.rep_log.last_learned_txid))))
        × (GetRes.get_value (CliRes.get_get (got m value s.rep_log.last_learned_txid)) ≡ value)
  unfolding handle_cli lead_cli get_result reply_cli write_cli_res is_leader
  req-handle_cli reads s env until term need have value self net m passed rest peer sendable get
        bytes e there fits servers skipped connects works takes arrives =
      let res : CliRes = got m value s.rep_log.last_learned_txid in
      let parsed = parse_cli_req-encode_cli_req m res sendable fits in
      (
        rw (bytes, parsed.0, e, get, there) refl,
        req-answer reads self net m passed rest peer (W.encode_cli_res res) res servers sendable.set
            skipped
            record {
              connects = connects;
              works = works;
              takes =
                  subst (λ b. length (encode b) ≤ roomy (net (length passed) peer).writes) bytes
                    takes;
              sends = arrives;
              fits =
                  subst (λ b. length b < 2 ^ 32) (sym (wire.encode_cli_res_lem res fits.set))
                    fits.short;
              parses = parsed.1;
            }
            refl,
        refl,
      )
