-- ===== src/Examples/Connections.antt =====
-- Connections of src/server and their event loop, a client and a clock at work.
use rasputin.Prelude.{
  ℕ, ◌+◌, ◌*◌, ◌≡◌, refl, arith, Bytes, Bool, true, false, none, some, List, [], ◌∷◌, ◌++◌, map, ok,
  Returns, Keeps, inl, zero, suc,
}
use rasputin.Roles.{SocketAddr, peer_broadcast_token}
use rasputin.Codec.{TryRead, ReadLaws, Framed, decode, encode, usize_to_array}
use rasputin.Codec
use rasputin.Codec.Cuts.{decode-append}
use rasputin.Codec.Frames.{encode_each}
use rasputin.ServerConn.{
  ServerConn, IoResult, io_ok, io_err, EventSet, WriteAnswer, write_blocked, room, write_failed,
  ReadAnswer, read_blocked, received, read_failed,
}
use rasputin.ServerConn
use rasputin.ServerConn.Writing.{joined, IsValid}
use rasputin.ServerConn.Delivery.{Traffic, queues, writes, carry, sent, Delivers, carry-Delivers}
use rasputin.ServerConn.Reading.{absorb, envelope, absorb-encode_each}
use rasputin.ConnSet.{Answers, accepted}
use rasputin.TrafficCop.Loop.{Turn, readied, timed_out, notified, run, InvSome, run-Inv}
use rasputin.Client.{ClientWire, Client, Attempt, running, finished, recv_into, req}
use rasputin.Client.Calls.{get_request}
use rasputin.Client.Streams.{roomy, recv_into-running}
use rasputin.Client.Requests.{Reply, req-answer, req-unreachable}
use rasputin.Messages.CliRes.{CliRes}
use rasputin.Messages.CliRes
use rasputin.Clock.{TestClock, Timespec, now}
use rasputin.Clock
use rasputin.Clock.Sleeps.{sleeps, total, elapsed, IsNormal, sleeps-total}
use rasputin.Examples.Slabs.{slots, slots_laws}
use rasputin.Examples.Streams.{from_memory, from_memory_laws, messages, messages-AllFit}

-- Two messages are queued, and written in three pieces.
abbrev traffic : List Traffic
traffic =
    queues (7 ∷ 8 ∷ [])
    ∷ writes (room 3) (io_ok tt)
    ∷ queues (9 ∷ [])
    ∷ writes write_blocked (io_ok tt)
    ∷ writes (room 100) (io_ok tt)
    ∷ []

abbrev peer_conn : ServerConn
peer_conn = record ServerConn.new { token = some 2 }

peer_conn-IsValid : IsValid 2 peer_conn
unfolding joined
peer_conn-IsValid = record { registered = refl; counted = refl; filled = tt; interested = refl }

carry-Delivers_example :
    Returns (Delivers from_memory_laws (sent traffic)) (carry peer_conn traffic)
unfolding encode_each encode usize_to_array
carry-Delivers_example =
    carry-Delivers from_memory_laws 2 traffic (tt, (tt, (tt, tt))) (omega arith, (omega arith, tt))
      (omega arith)

-- The frames of three messages, cut inside the first size and inside a message.
abbrev cuts : List Bytes
cuts = (0 ∷ 0 ∷ []) ∷ (0 ∷ 2 ∷ 7 ∷ []) ∷ [] ∷ (8 ∷ 0 ∷ 0 ∷ 0 ∷ 0 ∷ 0 ∷ 0 ∷ 0 ∷ 1 ∷ 9 ∷ []) ∷ []

absorb-encode_each_example :
    absorb peer_conn "127.0.0.1:7770" cuts
    ≡ ok (peer_conn, map (envelope "127.0.0.1:7770" 2) messages)
unfolding joined encode_each encode usize_to_array
absorb-encode_each_example =
    absorb-encode_each from_memory_laws peer_conn 2 "127.0.0.1:7770" cuts messages refl refl refl
      messages-AllFit

decode-append_example : decode Codec.new ((0 ∷ 0 ∷ []) ++ (0 ∷ 1 ∷ 9 ∷ [])) ≡ (
    let r = decode Codec.new (0 ∷ 0 ∷ []) in
    let s = decode r.1 (0 ∷ 1 ∷ 9 ∷ []) in (r.0 ++ s.0, s.1))
decode-append_example =
    decode-append from_memory_laws Codec.new (0 ∷ 0 ∷ []) (0 ∷ 1 ∷ 9 ∷ []) (omega arith)

-- The event loop dials a peer, broadcasts to it, hears it, and loses it.
abbrev pub calm : Answers
calm = record {
  accept = accepted;
  register = io_ok tt;
  reregister = io_ok tt;
  read = received (0 ∷ 0 ∷ []);
  peer_addr = some "127.0.0.1:7770";
  write = room 100;
}

abbrev pub flags : Bool → Bool → EventSet
flags readable hup = record { readable = readable; writable = readable; error = false; hup = hup }

abbrev day : List Turn
day =
    timed_out (λ k. record { connected = io_ok tt; registered = io_ok tt })
    ∷ notified (record { address = none; tok = peer_broadcast_token; msg = 7 ∷ [] })
    ∷ readied 2 (flags true false) calm
    ∷ readied 2 (flags false true) calm
    ∷ []

run-Inv_example :
    Keeps (InvSome slots_laws) (run (io_ok tt) (io_ok tt) (λ s. some s) ("127.0.0.1:7770" ∷ []) day)
run-Inv_example = run-Inv slots_laws (io_ok tt) (io_ok tt) (λ s. some s) ("127.0.0.1:7770" ∷ []) day

-- Two answers that come in one read are both dropped.
recv_into-running_example :
    recv_into Codec.new (received (0 ∷ 0 ∷ []) ∷ read_failed (some 104) ∷ received [] ∷ [])
    ≡ running
unfolding joined decode Codec.decode_loop Codec.read_size Codec.read_msg
recv_into-running_example =
    recv_into-running from_memory_laws Codec.new
      (received (0 ∷ 0 ∷ []) ∷ read_failed (some 104) ∷ received [] ∷ []) (omega arith) refl

two_at_once : recv_into Codec.new (received (encode (7 ∷ []) ++ encode (9 ∷ [])) ∷ []) ≡ running
unfolding recv_into decode Codec.decode_loop Codec.read_size Codec.read_msg Codec.size_of encode
    usize_to_array Codec.array_to_usize
two_at_once = refl

abbrev answer : CliRes
answer = CliRes.set_req_id CliRes.new 1

instance abbrev wire : ClientWire
wire = record { encode_cli_req = λ m. 5 ∷ []; parse_cli_res = λ b. some answer }

abbrev client : Client
client = record { servers = "127.0.0.1:1" ∷ "127.0.0.1:2" ∷ []; req_counter = 0 }

-- The first server refuses; the second answers.
abbrev net : ℕ → SocketAddr → Attempt
net k peer = elim k [
  | zero ↦ record { connected = io_err (some 111); writes = []; reads = [] }
  | suc j ↦ record {
    connected = io_ok tt;
    writes = room 100 ∷ [];
    reads = received (0 ∷ 0 ∷ 0 ∷ 1 ∷ 9 ∷ []) ∷ [];
  }
]

reply : Reply (get_request (1 ∷ []) 1) (9 ∷ []) answer (net 1 "127.0.0.1:2")
unfolding joined roomy encode usize_to_array
reply = record {
  connects = refl;
  works = (tt, tt);
  takes = omega arith;
  sends = refl;
  fits = omega arith;
  parses = refl;
}

req-answer_example : req client net (get_request (1 ∷ []) 1) ≡ ok (finished (io_ok answer))
req-answer_example =
    req-answer from_memory_laws client net (get_request (1 ∷ []) 1) ("127.0.0.1:1" ∷ []) []
      "127.0.0.1:2" (9 ∷ []) answer refl refl (inl (some 111, refl), tt) reply refl

abbrev dead : ℕ → SocketAddr → Attempt
dead k peer = record { connected = io_err (some 111); writes = []; reads = [] }

req-unreachable_example : req client dead (get_request (1 ∷ []) 1) ≡ ok (finished (io_err none))
req-unreachable_example =
    req-unreachable from_memory_laws client dead (get_request (1 ∷ []) 1) refl
      (inl (some 111, refl), (inl (some 111, refl), tt))

sleeps-total_example :
    let d = sleeps Clock.new (600 ∷ 1100 ∷ 400 ∷ []) in
    IsNormal (now d)
    × (total (now d) ≡ total (now Clock.new) + elapsed (600 ∷ 1100 ∷ 400 ∷ []) * 1000000)
sleeps-total_example =
    sleeps-total Clock.new (600 ∷ 1100 ∷ 400 ∷ []) (omega arith)
      (omega arith, (omega arith, (omega arith, tt))) (omega arith)

-- After a second in two halves the nanoseconds are a whole second.
whole_second : now (sleeps Clock.new (500 ∷ 500 ∷ [])) ≡ record { sec = 0; nsec = 1000000000 }
unfolding sleeps Clock.sleep_ms Clock.carry_over
whole_second = refl

-- 2148 milliseconds show as a negative number of nanoseconds, by its bits.
negative : now (sleeps Clock.new (2148 ∷ [])) ≡ record { sec = 0; nsec = 2148000000 }
unfolding sleeps Clock.sleep_ms Clock.carry_over
negative = refl
