-- ===== src/AckedLog/Entries.antt =====
-- What `get` of src/server/acked_log.rs reads after the other operations.
use rasputin.Prelude.{
  ℕ, ◌≤◌, ◌≡◌, refl, ◌∙◌, [], ◌∷◌, none, some, arith, eqb, if◌then◌else◌, nat_key,
}
use rasputin.BTreeMap.{BTreeMap, get-insert}
use rasputin.BTreeMap
use mathlib.Core.Option
use rasputin.AckedLog.{
  LogEntry, Acked, InMemoryLog, PeerId, get, push_pending, append_ack, push_ack, learn_entry,
  take_quorum, ack_up_to,
}
use rasputin.AckedLog.Bounds.{Within, IsValid, Within-append_ack}

module _ {ℓ} {T : Type ℓ} where
  -- Below its first key a pending map has no entry.
  pub get-Within :
      (lo hi q : ℕ) (m : BTreeMap ℕ (Acked (LogEntry T)))
      → Within lo hi m
      → q ≤ lo
      → BTreeMap.get q m ≡ none
  unfolding BTreeMap.get
  get-Within lo hi q [] w h = refl
  get-Within lo hi q ((j, ent) ∷ m) w h = ground (arith, get-Within j hi q m w.2)

  -- After an append, get reads the new entry at its txid and what it read before at any other.
  pub get-push_pending :
      (log : InMemoryLog T) (term txid : ℕ) (entry : T) (q : ℕ)
      → get (push_pending log term txid entry) q ≡ (if eqb txid q then some entry else get log q)
  unfolding get push_pending
  get-push_pending log term txid entry q = ground (
    arith,
    get-insert q txid
        (record {
          acks = [];
          inner = record {
            txid = txid;
            term = term;
            last_txid = log.last_accepted_txid;
            last_term = log.last_accepted_term;
            entry = entry;
          };
        })
        log.pending,
  )

  entries-append_ack :
      (peer : PeerId) (q : ℕ) (m : BTreeMap ℕ (Acked (LogEntry T)))
      → Option.map (λ al. al.inner.entry) (BTreeMap.get q (append_ack peer m))
        ≡ Option.map (λ al. al.inner.entry) (BTreeMap.get q m)
  unfolding append_ack push_ack BTreeMap.get
  entries-append_ack peer q [] = refl
  entries-append_ack peer q ((j, ent) ∷ m) = ground (arith, entries-append_ack peer q m)

  get-take_quorum :
      (m : BTreeMap ℕ (Acked (LogEntry T))) (log : InMemoryLog T) (lo hi q : ℕ)
      → Within lo hi m
      → get (take_quorum m log).0 q ≡ get (record log { pending = m }) q
  unfolding take_quorum get learn_entry BTreeMap.get
  get-take_quorum [] log lo hi q w = refl
  get-take_quorum ((j, ent) ∷ m) log lo hi q w = ground (
    arith,
    get-take_quorum m (learn_entry log j ent.inner) j hi q w.2,
    get-Within j hi q m w.2,
    get-insert q j ent.inner log.committed,
  )

  get-acked :
      (log : InMemoryLog T) (peer : PeerId) (q : ℕ)
      → get (record log { pending = append_ack peer log.pending }) q ≡ get log q
  unfolding get
  get-acked log peer q = rw (entries-append_ack peer q log.pending)

  -- On a valid log ack_up_to changes no entry that get reads: what it learns can still be read,
  -- and so can the rest.
  pub get-ack_up_to :
      (log : InMemoryLog T) (txid : ℕ) (peer : PeerId) (q : ℕ)
      → IsValid log
      → get (ack_up_to log txid peer).0 q ≡ get log q
  unfolding ack_up_to
  get-ack_up_to log txid peer q v =
      get-take_quorum (append_ack peer log.pending) log log.last_learned_txid log.last_accepted_txid
        q (Within-append_ack peer _ _ _ v)
      ∙ get-acked log peer q
