-- ===== src/ServerConn/Reading.antt =====
-- What src/server/server_conn.rs hands on of the bytes that it reads, however the stream is cut.
use rasputin.Prelude.{
  ◌≡◌, refl, ap, sym, ◌∙◌, Bytes, some, List, [], ◌∷◌, ◌++◌, map, Outcome, ok, ◌>>=◌, arith,
}
use mathlib.Core.Path.{subst}
use mathlib.Core.List.{map-append}
use rasputin.Roles.{Envelope, SocketAddr, Token}
use rasputin.Codec.{TryRead, ReadLaws, Framed, decode}
use rasputin.Codec
use rasputin.Codec.Feed.{IsWaiting, feed_each, feed_each-append, feed_each-IsWaiting}
use rasputin.Codec.Cuts.{decode-feed_each}
use rasputin.Codec.Frames.{encode_each, AllFit, decode-encode_each}
use rasputin.ServerConn.{ServerConn, io_ok, received, readable, envelopes, unwrap_io}
use rasputin.ServerConn.Writing.{joined}

abbrev pub envelope : SocketAddr → Token → Bytes → Envelope
envelope addr tok msg = record { address = some addr; tok = tok; msg = msg }

module _ ⦃S : TryRead⦄ where
  -- The connection is found readable again and again, each time with some bytes.
  unfoldable pub absorb :
      ServerConn → SocketAddr → List Bytes → Outcome (ServerConn × List Envelope)
  absorb c addr [] = ok (c, [])
  absorb c addr (bytes ∷ rest) = do
    (d, reqs, result) ← readable c (received bytes) (some addr) (io_ok tt)
    done ← unwrap_io result
    (e, later) ← absorb d addr rest
    ok (e, reqs ++ later)

envelopes-eq :
    (addr : SocketAddr) (tok : Token) (ms : List Bytes)
    → envelopes (some addr) (some tok) ms ≡ ok (map (envelope addr tok) ms)
unfolding envelopes
envelopes-eq addr tok [] = refl
envelopes-eq addr tok (m ∷ ms) = rw (envelopes-eq addr tok ms) refl

module _ ⦃S : TryRead⦄ (laws : ReadLaws S) where
  readable-received :
      (c : ServerConn) (tok : Token) (addr : SocketAddr) (bytes : Bytes)
      → c.token ≡ some tok
      → IsWaiting c.req_codec
      → let r = feed_each c.req_codec bytes in
        readable c (received bytes) (some addr) (io_ok tt)
        ≡ ok (record c { req_codec = r.1 }, map (envelope addr tok) r.0, io_ok tt)
  unfolding readable
  readable-received c tok addr bytes t w =
      simp (t, decode-feed_each laws c.req_codec bytes w, envelopes-eq)

  absorb-eq :
      (c : ServerConn) (tok : Token) (addr : SocketAddr) (cuts : List Bytes)
      → c.token ≡ some tok
      → IsWaiting c.req_codec
      → let r = feed_each c.req_codec (joined cuts) in
        absorb c addr cuts ≡ ok (record c { req_codec = r.1 }, map (envelope addr tok) r.0)
  unfolding absorb joined feed_each
  absorb-eq c tok addr [] t w = refl
  absorb-eq c tok addr (bytes ∷ rest) t w =
      let r = feed_each c.req_codec bytes in
      simp (
        readable-received c tok addr bytes t w,
        absorb-eq (record c { req_codec = r.1 }) tok addr rest t
            (feed_each-IsWaiting c.req_codec bytes w),
        feed_each-append,
        map-append,
      )

  absorb-decode :
      (c : ServerConn) (tok : Token) (addr : SocketAddr) (cuts : List Bytes)
      → c.token ≡ some tok
      → IsWaiting c.req_codec
      → let r = decode c.req_codec (joined cuts) in
        absorb c addr cuts ≡ ok (record c { req_codec = r.1 }, map (envelope addr tok) r.0)
  absorb-decode c tok addr cuts t w =
      rw (decode-feed_each laws c.req_codec (joined cuts) w) (absorb-eq c tok addr cuts t w)

  -- However the stream of the frames of some messages, each shorter than 2^32 bytes, is cut into
  -- reads of a connection that is registered and decodes afresh, it hands on one envelope for
  -- each message, in order, with the sender's address and its own token, and is as before.
  pub absorb-encode_each :
      (c : ServerConn) (tok : Token) (addr : SocketAddr) (cuts ms : List Bytes)
      → c.token ≡ some tok
      → c.req_codec ≡ Codec.new
      → joined cuts ≡ encode_each ms
      → AllFit ms
      → absorb c addr cuts ≡ ok (c, map (envelope addr tok) ms)
  absorb-encode_each c tok addr cuts ms t fresh e fit =
      let whole : decode c.req_codec (joined cuts) ≡ (ms, Codec.new) =
        ap (λ (f : Framed). decode f (joined cuts)) fresh
        ∙ ap (decode Codec.new) e
        ∙ decode-encode_each laws ms fit in
      absorb-decode c tok addr cuts t (subst IsWaiting (sym fresh) (omega arith))
      ∙ ap
          (λ (r : List Bytes × Framed).
            ok (record c { req_codec = r.1 }, map (envelope addr tok) r.0))
          whole
      ∙ ap (λ (f : Framed). ok (record c { req_codec = f }, map (envelope addr tok) ms)) (sym fresh)
