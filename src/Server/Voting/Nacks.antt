-- ===== src/Server/Voting/Nacks.antt =====
-- What src/server/server.rs answers to vote requests while a lease is valid.
use rasputin.Prelude.{
  ℕ, ◌≡◌, ◌≢◌, refl, sym, arith, ◌∙◌, ap, List, [], ◌∷◌, ◌++◌, ok, ◌>>=◌, true, false, some,
  string_key,
}
use mathlib.Core.List.{append_assoc, append-nil}
use rasputin.AckedLog.{PeerId}
use rasputin.Messages.PeerMsg
use rasputin.Messages.PeerMsg.{PeerMsg}
use rasputin.Messages.VoteRes
use rasputin.Platform.{Timespec, TimeOps, Rocks, Wire, write_peer_msg}
use rasputin.Roles.{
  Envelope, State, leader, candidate, follower, init, valid_leader, following, term_of,
}
use rasputin.Server.{Server, Readings}
use rasputin.Server.Messaging.{reply, send_msg}
use rasputin.Server.Voting.{decide_vote, handle_vote_req}
use rasputin.Server.Running.{Input, peer_request, dispatch_peer, handle_peer, handle, run}

-- A lease in a term until a time, of another server than the one that is named.
abbrev IsLeased : State → PeerId → ℕ → Timespec → Type 0
IsLeased (leader t need have end) id term until = (t ≡ term) × (end ≡ until)
IsLeased (follower t lid tok addr end) id term until = (t ≡ term) × (end ≡ until) × (id ≢ lid)
IsLeased _ id term until = ⊥

abbrev pub requests : List (Readings × Envelope) → List (Readings × Input)
requests [] = []
requests ((now, env) ∷ rest) = (now, peer_request env) ∷ requests rest

module _ ⦃T : TimeOps⦄ where
  lease-holds :
      (state : State) (id : PeerId) (term : ℕ) (until now : Timespec)
      → IsLeased state id term until
      → T.before now until ≡ true
      → (valid_leader state now ≡ true) × (following state id ≡ false) × (term_of state ≡ some term)
  unfolding valid_leader following term_of
  lease-holds (leader t need have end) id term until now l b = (grind arith, refl, ap some l.0)
  lease-holds (follower t lid tok addr end) id term until now l b = (
    grind arith,
    ground (arith, string_key.beq_iff id lid, string_key.beq_iff lid id),
    ap some l.0,
  )
  lease-holds (candidate t need have end) id term until now l b = elim l [ ]
  lease-holds init id term until now l b = elim l [ ]

module _ ⦃T : TimeOps⦄ ⦃W : Wire⦄ where
  -- Each message parses as a vote request of another server than this one and the one that has the
  -- lease, and is taken up before the lease ends.
  abbrev pub AreRivals : PeerId → State → ℕ → Timespec → List (Readings × Envelope) → Type 0
  AreRivals id state term until [] = Unit
  AreRivals id state term until ((now, env) ∷ rest) =
      ((msg : PeerMsg) × (W.parse_peer env.msg ≡ some msg)
        × (PeerMsg.has_vote_res msg ≡ false)
        × (PeerMsg.has_vote_req msg ≡ true)
        × (PeerMsg.get_srvid msg ≢ id)
        × IsLeased state (PeerMsg.get_srvid msg) term until
        × (T.before (now 0) until ≡ true))
      × AreRivals id state term until rest

  -- A refusal in the given term, back to where the request came from.
  abbrev nack : PeerId → ℕ → Envelope → Envelope
  nack id term env = record {
    address = env.address;
    tok = env.tok;
    msg = W.encode_peer (record PeerMsg.new {
      srvid = some id;
      vote_res = some (record VoteRes.new { success = some false; term = some term });
    });
  }

  abbrev pub nacks : PeerId → ℕ → List (Readings × Envelope) → List Envelope
  nacks id term [] = []
  nacks id term ((now, env) ∷ rest) = nack id term env ∷ nacks id term rest

module _ {Db : Type 0} ⦃T : TimeOps⦄ ⦃R : Rocks Db⦄ ⦃W : Wire⦄ where
  handle-nack :
      (s : Server Db) (now : Readings) (env : Envelope) (msg : PeerMsg) (term : ℕ)
      → W.parse_peer env.msg ≡ some msg
      → PeerMsg.has_vote_res msg ≡ false
      → PeerMsg.has_vote_req msg ≡ true
      → PeerMsg.get_srvid msg ≢ s.id
      → (valid_leader s.state (now 0) ≡ true)
        × (following s.state (PeerMsg.get_srvid msg) ≡ false)
        × (term_of s.state ≡ some term)
      → handle s (now, peer_request env)
        ≡ ok (record s { rpc_tx = s.rpc_tx ++ nack s.id term env ∷ [] })
  unfolding handle handle_peer dispatch_peer handle_vote_req decide_vote write_peer_msg reply
      send_msg
  handle-nack s now env msg term parsed no_res req foreign l =
      ground (arith, string_key.beq_iff (PeerMsg.get_srvid msg) s.id)

  -- While a lease is valid, however many vote requests of servers other than this one and the one
  -- that has the lease come, each changes nothing and is answered, in order and to where it came
  -- from, with a refusal that names this server and the term of the lease.
  pub run-nacks :
      (s : Server Db) (rivals : List (Readings × Envelope)) (term : ℕ) (until : Timespec)
      → AreRivals s.id s.state term until rivals
      → run s (requests rivals) ≡ ok (record s { rpc_tx = s.rpc_tx ++ nacks s.id term rivals })
  unfolding run
  run-nacks s [] term until h =
      ap (λ sent. ok (record s { rpc_tx = sent })) (sym (append-nil s.rpc_tx))
  run-nacks s ((now, env) ∷ rest) term until
        ((msg, parsed, no_res, req, foreign, leased, early), h) =
      let answer = nack s.id term env in
      let t : Server Db = record s { rpc_tx = s.rpc_tx ++ answer ∷ [] } in
      let step =
        handle-nack s now env msg term parsed no_res req foreign
          (lease-holds s.state (PeerMsg.get_srvid msg) term until (now 0) leased early) in
      ap (λ m. m >>= λ u. run u (requests rest)) step
      ∙ run-nacks t rest term until h
      ∙ ap (λ sent. ok (record s { rpc_tx = sent })) (append_assoc s.rpc_tx (answer ∷ []) _)
