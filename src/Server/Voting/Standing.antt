-- ===== src/Server/Voting/Standing.antt =====
-- An election of src/server/server.rs, from the tick that starts it to the last vote.
use rasputin.Prelude.{
  ℕ, ◌+◌, ◌/◌, ◌-◌, ◌%◌, ◌^◌, ◌<◌, ◌≡◌, ◌∙◌, ap, refl, arith, List, [], ◌∷◌, ◌++◌, ok, ◌>>=◌, true,
  false, none, some, contains, length, length-append, leb, if◌then◌else◌, nat_key,
}
use rasputin.AckedLog.{PeerId}
use rasputin.Messages.PeerMsg
use rasputin.Messages.PeerMsg.{PeerMsg}
use rasputin.Messages.VoteReq
use rasputin.Messages.VoteRes
use rasputin.Platform.{Timespec, TimeOps, Rocks, Wire, write_peer_msg}
use rasputin.Roles.{
  Envelope, State, Token, SocketAddr, leader, candidate, leader_duration, valid_leader,
  valid_candidate, should_extend_leadership, term_of,
}
use rasputin.Server.{Server, Readings}
use rasputin.Server.Messaging.{send_msg, peer_broadcast}
use rasputin.Server.Replication.{update_rep_peers}
use rasputin.Server.Voting.{
  count_vote, candidate_vote, take_vote, handle_vote_res, stand, request_votes, canvass, cron,
}
use rasputin.Server.Voting.Polls.{NotIn}
use rasputin.Server.Voting.Nacks.{requests}
use rasputin.Server.Running.{peer_request, cron_tick, dispatch_peer, handle_peer, handle, run}

module _ ⦃T : TimeOps⦄ ⦃W : Wire⦄ where
  -- Each message parses as an ack in the term, from a known address, on a socket that is not among
  -- the given ones nor among those of the messages before, and is taken up before the given time.
  abbrev pub AreAcks : ℕ → Timespec → List Token → List (Readings × Envelope) → Type 0
  AreAcks term until have [] = Unit
  AreAcks term until have ((now, env) ∷ rest) =
      ((addr : SocketAddr) × (msg : PeerMsg) × (env.address ≡ some addr)
        × (W.parse_peer env.msg ≡ some msg)
        × (PeerMsg.has_vote_res msg ≡ true)
        × (VoteRes.get_success (PeerMsg.get_vote_res msg) ≡ true)
        × (VoteRes.get_term (PeerMsg.get_vote_res msg) ≡ term)
        × NotIn env.tok have
        × (T.before (now 0) until ≡ true)
        × (T.before (now 1) until ≡ true))
      × AreAcks term until (have ++ env.tok ∷ []) rest

NotIn-contains : (x : Token) (xs : List Token) → NotIn x xs → contains xs x ≡ false
unfolding contains
NotIn-contains x [] h = refl
NotIn-contains x (y ∷ ys) h = ground (arith, NotIn-contains x ys h.1, h.0)

-- The state after one more ack.
abbrev counted : ℕ → List Token → ℕ → Timespec → State
counted term have need until =
    if leb need (length have) then leader term [] need until else candidate term have need until

module _ {Db : Type 0} ⦃T : TimeOps⦄ ⦃R : Rocks Db⦄ ⦃W : Wire⦄ where
  count_vote-rpc_tx :
      (s : Server Db) (env : Envelope) (id : PeerId) → (count_vote s env id true).rpc_tx ≡ s.rpc_tx
  unfolding count_vote update_rep_peers
  count_vote-rpc_tx s env id = ground arith

  handle-ack :
      (s : Server Db) (now : Readings) (env : Envelope) (term need : ℕ) (have : List Token)
      (until : Timespec) (addr : SocketAddr) (msg : PeerMsg)
      → s.state ≡ candidate term have need until
      → env.address ≡ some addr
      → W.parse_peer env.msg ≡ some msg
      → PeerMsg.has_vote_res msg ≡ true
      → VoteRes.get_success (PeerMsg.get_vote_res msg) ≡ true
      → VoteRes.get_term (PeerMsg.get_vote_res msg) ≡ term
      → contains have env.tok ≡ false
      → T.before (now 0) until ≡ true
      → T.before (now 1) until ≡ true
      → handle s (now, peer_request env)
        ≡ ok (record (count_vote s env (PeerMsg.get_srvid msg) true) {
          state = counted term (have ++ env.tok ∷ []) need until;
        })
  unfolding handle handle_peer dispatch_peer handle_vote_res take_vote candidate_vote
      valid_candidate term_of
  handle-ack s now env term need have until addr msg e a p r y n fresh b0 b1 = ground arith

  run-acks :
      (s : Server Db) (acks : List (Readings × Envelope)) (term need : ℕ) (have : List Token)
      (until : Timespec)
      → s.state ≡ counted term have need until
      → length have + length acks ≡ need
      → AreAcks term until have acks
      → (t : Server Db) × (run s (requests acks) ≡ ok t)
        × (t.state ≡ leader term [] need until)
        × (t.rpc_tx ≡ s.rpc_tx)
  unfolding run
  run-acks s [] term need have until e l h = (s, refl, ground arith, refl)
  run-acks s ((now, env) ∷ rest) term need have until e l
        ((addr, msg, a, p, r, y, n, fresh, b0, b1), h) =
      let step =
        handle-ack s now env term need have until addr msg (ground arith) a p r y n
          (NotIn-contains env.tok have fresh) b0 b1 in
      let s' : Server Db = record (count_vote s env (PeerMsg.get_srvid msg) true) {
        state = counted term (have ++ env.tok ∷ []) need until;
      } in
      let (t, ran, leads, sent) =
        run-acks s' rest term need (have ++ env.tok ∷ []) until refl
          (omega (arith, l, length-append have (env.tok ∷ []))) h in
      (
        t,
        ap (λ m. m >>= λ u. run u (requests rest)) step ∙ ran,
        leads,
        sent ∙ count_vote-rpc_tx s env (PeerMsg.get_srvid msg),
      )

  -- What a candidate sends to all.
  abbrev asks : Server Db → ℕ → Envelope
  asks s term = record {
    address = none;
    tok = 2 ^ 64 - 1;
    msg = W.encode_peer (record PeerMsg.new {
      srvid = some s.id;
      vote_req = some (record VoteReq.new {
        term = some term;
        last_learned_term = some s.rep_log.last_learned_term;
        last_learned_txid = some s.rep_log.last_learned_txid;
        last_accepted_term = some s.rep_log.last_accepted_term;
        last_accepted_txid = some s.rep_log.last_accepted_txid;
      });
    });
  }

  cron-stands :
      (s : Server Db) (now : Readings) (until : Timespec)
      → valid_leader s.state (now 0) ≡ false
      → valid_candidate s.state (now 1) ≡ false
      → T.plus (now 2) leader_duration ≡ until
      → T.before (now 4) until ≡ true
      → s.highest_term + 1 < 2 ^ 64
      → length s.peers < 510
      → cron s now
        ≡ ok (record s {
          highest_term = s.highest_term + 1;
          state = candidate (s.highest_term + 1) [] (length s.peers / 2 + 1) until;
          rpc_tx = s.rpc_tx ++ asks s (s.highest_term + 1) ∷ [];
        })
  unfolding cron stand canvass request_votes valid_candidate should_extend_leadership term_of
      write_peer_msg peer_broadcast send_msg
  cron-stands s now until l c u b small few =
      let term : (s.highest_term + 1) % 2 ^ 64 ≡ s.highest_term + 1 = omega (arith, small) in
      let need : (length s.peers / 2 + 1) % 2 ^ 8 ≡ length s.peers / 2 + 1 = omega (arith, few) in
      ground (arith, term, need)

  -- In a cluster of fewer than 510 servers, where neither a lease nor a candidacy is valid and
  -- the next term is below 2^64, a tick, with a fresh lease that is still valid when it is read
  -- again, asks all peers once for their votes in the next term, naming what the log has learned
  -- and accepted, and acks in that term from as many sockets as are more than half of the peers,
  -- all from known addresses and before the lease ends, make the server the leader in that term
  -- until then.
  pub run-elected :
      (s : Server Db) (now : Readings) (until : Timespec) (acks : List (Readings × Envelope))
      → valid_leader s.state (now 0) ≡ false
      → valid_candidate s.state (now 1) ≡ false
      → T.plus (now 2) leader_duration ≡ until
      → T.before (now 4) until ≡ true
      → s.highest_term + 1 < 2 ^ 64
      → length s.peers < 510
      → length acks ≡ length s.peers / 2 + 1
      → AreAcks (s.highest_term + 1) until [] acks
      → (t : Server Db) × (run s ((now, cron_tick) ∷ requests acks) ≡ ok t)
        × (t.state ≡ leader (s.highest_term + 1) [] (length s.peers / 2 + 1) until)
        × (t.rpc_tx ≡ s.rpc_tx ++ asks s (s.highest_term + 1) ∷ [])
  unfolding run handle
  run-elected s now until acks l c u b small few enough h =
      let term = s.highest_term + 1 in
      let need = length s.peers / 2 + 1 in
      let s' : Server Db = record s {
        highest_term = term;
        state = candidate term [] need until;
        rpc_tx = s.rpc_tx ++ asks s term ∷ [];
      } in
      let (t, ran, leads, sent) =
        run-acks s' acks term need [] until (ground arith) (omega (arith, enough)) h in
      (
        t,
        ap (λ m. m >>= λ u. run u (requests acks)) (cron-stands s now until l c u b small few)
            ∙ ran,
        leads,
        sent,
      )
