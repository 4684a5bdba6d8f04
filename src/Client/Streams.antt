-- ===== src/Client/Streams.antt =====
-- The loops `send_to` and `recv_into` of src/client/mod.rs.
use rasputin.Prelude.{
  ℕ, ◌+◌, ◌≡◌, ◌≤◌, ◌<◌, ◌^◌, refl, sym, ap, ◌∙◌, Bytes, List, [], ◌∷◌, ◌++◌, map, arith, length,
  take, drop, take-append-drop, length-drop, min, eqb, eqb_iff, Bool-cases, inl, inr,
}
use mathlib.Core.List.{append_assoc, append-nil}
use rasputin.Codec.{TryRead, ReadLaws, Framed, decode, encode}
use rasputin.Codec
use rasputin.Codec.Feed.{IsWaiting, feed_each, feed_each-append, feed_each-IsWaiting}
use rasputin.Codec.Cuts.{decode-feed_each}
use rasputin.Codec.Frames.{encode_each, decode-encode_each}
use rasputin.ServerConn.{
  IoResult, io_ok, WriteAnswer, write_blocked, room, write_failed, ReadAnswer,
}
use rasputin.ServerConn.Writing.{joined, IsWorking}
use rasputin.Client.{Progress, running, finished, send_to, recv_into, read_bytes, returned}

abbrev pub AllWork : List WriteAnswer → Type 0
AllWork [] = Unit {0}
AllWork (w ∷ ws) = IsWorking w × AllWork ws

-- The bytes that a socket has room for.
unfoldable pub roomy : List WriteAnswer → ℕ
roomy [] = 0
roomy (room n ∷ ws) = n + roomy ws
roomy (write_blocked ∷ ws) = roomy ws
roomy (write_failed e ∷ ws) = roomy ws

length-nil : (xs : Bytes) → length xs ≡ 0 → xs ≡ []
length-nil [] e = refl
length-nil (x ∷ xs) e = ground arith

take-length-drop : (n : ℕ) (xs : Bytes) → length (drop n xs) ≡ 0 → take n xs ≡ xs
take-length-drop n xs e =
    sym (append-nil (take n xs))
    ∙ ap (◌++◌ (take n xs)) (sym (length-nil (drop n xs) e))
    ∙ take-append-drop n xs

-- send_to ends, having written exactly its buffer, on a socket that does not fail and that has
-- room, over the calls of the loop, for as many bytes as the buffer has, where it has any.
pub send_to-finished :
    (sock buf : Bytes) (ws : List WriteAnswer)
    → AllWork ws
    → 0 < length buf
    → length buf ≤ roomy ws
    → send_to sock buf ws ≡ finished (sock ++ buf, io_ok tt)
unfolding send_to roomy
send_to-finished sock buf [] works some_bytes enough = ground arith
send_to-finished sock buf (write_blocked ∷ ws) works some_bytes enough =
    send_to-finished sock buf ws works.1 some_bytes enough
send_to-finished sock buf (write_failed e ∷ ws) works some_bytes enough = elim works.0 [ ]
send_to-finished sock buf (room n ∷ ws) works some_bytes enough =
    let r = min n (length buf) in
    elim (Bool-cases (eqb (length (drop r buf)) 0)) [
      | inl all ↦ rw all (
          ap (λ (b : Bytes). finished (sock ++ b, io_ok tt))
            (take-length-drop r buf (ground (arith, eqb_iff (length (drop r buf)) 0))))
      | inr part ↦ rw part (
          send_to-finished (sock ++ take r buf) (drop r buf) ws works.1
            (ground (arith, eqb_iff (length (drop r buf)) 0)) (omega (arith, length-drop r buf))
          ∙ ap (λ (b : Bytes). finished (b, io_ok tt))
              (append_assoc sock (take r buf) (drop r buf)
                ∙ ap (◌++◌ sock) (take-append-drop r buf)))
    ]

append-none : (xs ys : List Bytes) → xs ++ ys ≡ [] → (xs ≡ []) × (ys ≡ [])
append-none [] ys e = (refl, e)
append-none (x ∷ xs) ys e = ground arith

-- Of the messages of two rounds there is one; the first round has it, or the rest of the loop.
returned-one :
    (out later : List Bytes) (m : Bytes) (again : Progress (IoResult Bytes))
    → out ++ later ≡ m ∷ []
    → (later ≡ m ∷ [] → again ≡ finished (io_ok m))
    → returned out again ≡ finished (io_ok m)
returned-one [] later m again e k = k e
returned-one (x ∷ []) later m again e k = ap (λ (b : Bytes). finished (io_ok b)) (ground arith)
returned-one (x ∷ y ∷ rest) later m again e k = ground arith

module _ ⦃S : TryRead⦄ (laws : ReadLaws S) where
  recv_into-feed_each :
      (f : Framed) (m : Bytes) (reads : List ReadAnswer)
      → IsWaiting f
      → (feed_each f (joined (map read_bytes reads))).0 ≡ m ∷ []
      → recv_into f reads ≡ finished (io_ok m)
  unfolding recv_into joined feed_each
  recv_into-feed_each f m [] w e = ground arith
  recv_into-feed_each f m (answer ∷ rest) w e = rw (decode-feed_each laws f (read_bytes answer) w) (
      returned-one (feed_each f (read_bytes answer)).0 _ m _
        (ap (λ (r : List Bytes × Framed). r.0)
            (sym (feed_each-append f (read_bytes answer) (joined (map read_bytes rest))))
          ∙ e)
        (recv_into-feed_each (feed_each f (read_bytes answer)).1 m rest
          (feed_each-IsWaiting f (read_bytes answer) w)))

  -- recv_into returns a message shorter than 2^32 bytes once its frame has arrived, however the
  -- frame is cut into reads and however many reads fail or block in between.
  pub recv_into-encode :
      (m : Bytes) (reads : List ReadAnswer)
      → joined (map read_bytes reads) ≡ encode m
      → length m < 2 ^ 32
      → recv_into Codec.new reads ≡ finished (io_ok m)
  unfolding encode_each
  recv_into-encode m reads e fits = recv_into-feed_each Codec.new m reads (omega arith) (
      ap (λ (b : Bytes). (feed_each Codec.new b).0) (e ∙ sym (append-nil (encode m)))
      ∙ ap (λ (r : List Bytes × Framed). r.0)
          (sym (decode-feed_each laws Codec.new (encode m ++ []) (omega arith))
            ∙ decode-encode_each laws (m ∷ []) (fits, tt)))

  recv_into-unfed :
      (f : Framed) (reads : List ReadAnswer)
      → IsWaiting f
      → (feed_each f (joined (map read_bytes reads))).0 ≡ []
      → recv_into f reads ≡ running
  unfolding recv_into joined
  recv_into-unfed f [] w e = refl
  recv_into-unfed f (answer ∷ rest) w e =
      let none_yet = append-none (feed_each f (read_bytes answer)).0 _ (
        ap (λ (r : List Bytes × Framed). r.0)
          (sym (feed_each-append f (read_bytes answer) (joined (map read_bytes rest))))
        ∙ e) in
      rw (decode-feed_each laws f (read_bytes answer) w, none_yet.0)
        (recv_into-unfed (feed_each f (read_bytes answer)).1 rest
          (feed_each-IsWaiting f (read_bytes answer) w) none_yet.1)

  -- recv_into goes on as long as what has arrived does not complete a message, also where every
  -- further read fails or finds the stream closed.
  pub recv_into-running :
      (f : Framed) (reads : List ReadAnswer)
      → IsWaiting f
      → (decode f (joined (map read_bytes reads))).0 ≡ []
      → recv_into f reads ≡ running
  recv_into-running f reads w e = recv_into-unfed f reads w (
      ap (λ (r : List Bytes × Framed). r.0)
        (sym (decode-feed_each laws f (joined (map read_bytes reads)) w))
      ∙ e)
