-- ===== src/Server/Messaging.antt =====
-- src/server/server.rs: `new_txid`, `reply`, `peer_broadcast`.
use rasputin.Prelude.{ℕ, ◌+◌, ◌%◌, ◌^◌, Bytes, [], ◌∷◌, ◌++◌, none}
use rasputin.Roles.{Envelope, peer_broadcast_token}
use rasputin.Server.{Server}

-- `x + 1` on a `u64`, as it is compiled for release.
abbrev pub next_u64 : ℕ → ℕ
next_u64 x = (x + 1) % 2 ^ 64

module _ {Db : Type 0} where
  -- The new txid is the generator's new value.
  unfoldable pub new_txid : Server Db → Server Db
  new_txid s = record s { max_generated_txid = next_u64 s.max_generated_txid }

  unfoldable pub send_msg : Server Db → Envelope → Server Db
  send_msg s env = record s { rpc_tx = s.rpc_tx ++ env ∷ [] }

  unfoldable pub reply : Server Db → Envelope → Bytes → Server Db
  unfolding send_msg
  reply s req res_buf = send_msg s (record { address = req.address; tok = req.tok; msg = res_buf })

  unfoldable pub peer_broadcast : Server Db → Bytes → Server Db
  unfolding send_msg
  peer_broadcast s msg =
      send_msg s (record { address = none; tok = peer_broadcast_token; msg = msg })
