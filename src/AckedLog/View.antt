-- ===== src/AckedLog/View.antt =====
-- `ViewableLog` of src/server/acked_log.rs: the terms and txids that a log has.
use rasputin.Prelude.{ℕ, ◌<◌, ◌≡◌, refl, List, [], ◌∷◌, ◌++◌, arith, eqb_iff, nat_key}
use rasputin.BTreeMap.{BTreeMap, insert}
use rasputin.AckedLog.{LogEntry, Acked, InMemoryLog, push_pending, append_ack, push_ack, PeerId}
use rasputin.AckedLog.Bounds.{Within, IsValid, Within-le}

module _ {ℓ} {T : Type ℓ} where
  -- The two loops.
  unfoldable pub view_pending : BTreeMap ℕ (Acked (LogEntry T)) → List (ℕ × ℕ)
  view_pending [] = []
  view_pending ((txid, acked) ∷ m) = (acked.inner.term, txid) ∷ view_pending m

  unfoldable pub view_committed : BTreeMap ℕ (LogEntry T) → List (ℕ × ℕ)
  view_committed [] = []
  view_committed ((txid, learned) ∷ m) = (learned.term, txid) ∷ view_committed m

  abbrev pub acked : InMemoryLog T → List (ℕ × ℕ)
  acked log = view_pending log.pending

  abbrev pub learned : InMemoryLog T → List (ℕ × ℕ)
  learned log = view_committed log.committed

  view_pending-insert :
      (lo hi t : ℕ) (ent : Acked (LogEntry T)) (m : BTreeMap ℕ (Acked (LogEntry T)))
      → Within lo hi m
      → hi < t
      → view_pending (insert t ent m) ≡ view_pending m ++ (ent.inner.term, t) ∷ []
  unfolding view_pending insert
  view_pending-insert lo hi t ent [] w h = refl
  view_pending-insert lo hi t ent ((j, x) ∷ m) w h =
      ground (arith, eqb_iff j t, Within-le j hi m w.2, view_pending-insert j hi t ent m w.2 h)

  -- On a valid log a new entry, above the last accepted one, is seen behind those that were.
  acked-push_pending :
      (log : InMemoryLog T) (term txid : ℕ) (entry : T)
      → IsValid log
      → log.last_accepted_txid < txid
      → acked (push_pending log term txid entry) ≡ acked log ++ (term, txid) ∷ []
  unfolding push_pending
  acked-push_pending log term txid entry v h =
      view_pending-insert log.last_learned_txid log.last_accepted_txid txid _ log.pending v h

  -- An ack changes nothing of what is seen.
  view_pending-append_ack :
      (peer : PeerId) (m : BTreeMap ℕ (Acked (LogEntry T)))
      → view_pending (append_ack peer m) ≡ view_pending m
  unfolding view_pending append_ack push_ack
  view_pending-append_ack peer [] = refl
  view_pending-append_ack peer ((j, ent) ∷ m) = ground (arith, view_pending-append_ack peer m)
