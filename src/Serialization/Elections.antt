-- ===== src/Serialization/Elections.antt =====
-- An election between servers of src/server/server.rs, in the bytes of src/serialization.rs.
use rasputin.Prelude.{
  ℕ, ◌+◌, ◌≡◌, ◌≢◌, ◌≤◌, ◌∙◌, refl, arith, true, false, some, List, [], ◌∷◌, ◌++◌, ok, length,
  length-append, contains, nat_key, string_key,
}
use rasputin.Messages.PeerMsg.{PeerMsg}
use rasputin.Messages.PeerMsg
use rasputin.Platform.{Timespec, TimeOps, Rocks, Wire, write_peer_msg}
use rasputin.Roles.{
  SocketAddr, Token, Envelope, candidate, leader, valid_leader, valid_candidate, following, term_of,
}
use rasputin.Server.{Server, Readings}
use rasputin.Server.Messaging.{reply}
use rasputin.Server.Replication.{update_rep_peers}
use rasputin.Server.Voting.{
  count_vote, should_grant_vote, become_follower, decide_vote, vote_reply, vote_request,
  handle_vote_req, candidate_vote, take_vote, handle_vote_res,
}
use rasputin.Server.Running.{dispatch_peer, handle_peer}
use rasputin.Protobuf.{Coding, CodingLaws}
use rasputin.Serialization.Library.{WireLaws}
use rasputin.Serialization.Delivery.{IsPeerMsg, parse_peer-encode_peer}

module _ {Db : Type 0} ⦃C : Coding⦄ (coding : CodingLaws C) ⦃T : TimeOps⦄ ⦃R : Rocks Db⦄ ⦃W : Wire⦄
    (wire : WireLaws W) where
  -- The thread that takes up a message handles the one that was written.
  pub handle_peer-encode_peer :
      (s : Server Db) (now : Readings) (env : Envelope) (m : PeerMsg)
      → IsPeerMsg m
      → env.msg ≡ W.encode_peer m
      → handle_peer s now env ≡ dispatch_peer s now env (PeerMsg.get_srvid m) m
  unfolding handle_peer
  handle_peer-encode_peer s now env m sendable e =
      rw (e, parse_peer-encode_peer coding wire m sendable) refl

  granted :
      (v : Server Db) (now : Readings) (env : Envelope) (s : Server Db) (term : ℕ)
      (addr : SocketAddr)
      → s.id ≢ v.id
      → valid_leader v.state (now 0) ≡ false
      → following v.state s.id ≡ false
      → should_grant_vote v (now 2) (PeerMsg.get_vote_req (vote_request s term)) ≡ true
      → env.address ≡ some addr
      → handle_vote_req v now env s.id (PeerMsg.get_vote_req (vote_request s term))
        ≡ ok (
            reply
              (become_follower v (now 3) env s.id (PeerMsg.get_vote_req (vote_request s term)) addr)
              env
              (W.encode_peer (vote_reply v term true)))
  unfolding handle_vote_req decide_vote write_peer_msg
  granted v now env s term addr other unled stranger grants known =
      ground (arith, string_key.beq_iff s.id v.id)

  won :
      (s v : Server Db) (now : Readings) (env : Envelope) (term need : ℕ) (have : List Token)
      (until : Timespec) (addr : SocketAddr)
      → s.state ≡ candidate term have need until
      → T.before (now 0) until ≡ true
      → T.before (now 1) until ≡ true
      → contains have env.tok ≡ false
      → need ≤ length have + 1
      → env.address ≡ some addr
      → (t : Server Db) × (handle_vote_res s now env v.id
            (PeerMsg.get_vote_res (vote_reply v term true))
          ≡ ok t)
        × (t.state ≡ leader term [] need until)
  unfolding handle_vote_res take_vote candidate_vote valid_candidate term_of count_vote
  won s v now env term need have until addr e b0 b1 fresh enough known =
      let full : length (have ++ env.tok ∷ []) ≡ length have + 1 =
        length-append have (env.tok ∷ []) in
      (
        record (update_rep_peers s v.id env.address env.tok) { state = leader term [] need until },
        ground (arith, full),
        refl,
      )

  -- An election is won over the wire: where a candidate that lacks one vote has written its
  -- request, a server without a valid lease that does not follow it, knows the sender's address
  -- and finds its log recent enough follows it from then on and writes an ack, and by this ack,
  -- from a socket that has not voted, the candidate leads in its term until its lease ends, if
  -- that lease is still valid when it is read, and both messages have their required fields,
  -- machine words for numbers, no unknown fields, and fewer than 2^32 bytes, over a coding of
  -- values and a parser of the library that take back what they write.
  pub handle_peer_elects :
      (s v : Server Db) (now later : Readings) (asks acks : Envelope) (term need : ℕ)
      (have : List Token) (until : Timespec) (here there : SocketAddr)
      → s.state ≡ candidate term have need until
      → IsPeerMsg (vote_request s term)
      → IsPeerMsg (vote_reply v term true)
      → asks.msg ≡ W.encode_peer (vote_request s term)
      → acks.msg ≡ W.encode_peer (vote_reply v term true)
      → asks.address ≡ some here
      → acks.address ≡ some there
      → s.id ≢ v.id
      → valid_leader v.state (now 0) ≡ false
      → following v.state s.id ≡ false
      → should_grant_vote v (now 2) (PeerMsg.get_vote_req (vote_request s term)) ≡ true
      → T.before (later 0) until ≡ true
      → T.before (later 1) until ≡ true
      → contains have acks.tok ≡ false
      → need ≤ length have + 1
      → (handle_peer v now asks
          ≡ ok (
              reply
                (become_follower v
                  (now 3)
                  asks
                  s.id
                  (PeerMsg.get_vote_req (vote_request s term))
                  here)
                asks
                (W.encode_peer (vote_reply v term true))))
        × (t : Server Db) × (handle_peer s later acks ≡ ok t)
        × (t.state ≡ leader term [] need until)
  unfolding dispatch_peer
  handle_peer_elects s v now later asks acks term need have until here there e f g q r a b other
        unled stranger grants b0 b1 fresh enough =
      let (t, ran, led) = won s v later acks term need have until there e b0 b1 fresh enough b in
      (
        handle_peer-encode_peer v now asks (vote_request s term) f q
            ∙ granted v now asks s term here other unled stranger grants a,
        t,
        handle_peer-encode_peer s later acks (vote_reply v term true) g r ∙ ran,
        led,
      )
