-- ===== src/Rtp/ProtocolOpt/Safety.antt =====
-- Lab2/My Codes: what every run of `sendMessageOpt` and `recvMessageOpt` over the network keeps.
use computer_network_labs.Prelude.{
  ℕ, ◌+◌, ◌≤◌, ◌<◌, ◌^◌, ◌≡◌, refl, ◌∙◌, ◌≢◌, inl, inr, true, List, [], ◌∷◌, ◌++◌, Option, none,
  some, length, All, All-append, ltb, Bool-cases, arith,
}
use computer_network_labs.Rtp.Crc.Ieee.{IsBytes}
use computer_network_labs.Rtp.Packet.{
  Packet, file_statics, receive_buffer, decode_packet, packet_checks,
}
use computer_network_labs.Rtp.Packet.Segments.{segments, segments-file_statics}
use computer_network_labs.Rtp.Packet.RoundTrip.{data_datagram_arrives}
use computer_network_labs.Rtp.Receiver.{
  Receiver, cache_size, fresh_receiver, recv_packet_turn_opt, next, ack_datagram,
}
use computer_network_labs.Rtp.Receiver.Invariant.{Holds, IsGenuine, recv_packet_turn_opt-Holds}
use computer_network_labs.Rtp.Receiver.Delivery.{
  data_datagram-IsGenuine, failed-IsGenuine, fresh-Holds,
}
use computer_network_labs.Rtp.Receiver.Caching.{
  IsData, Caches, packet_checks-HasChecksum, packet_checks_refuses,
}
use computer_network_labs.Rtp.Receiver.Selective.{
  Answers, Selects, recv_packet_turn_opt-SelectsFrom,
}
use computer_network_labs.Rtp.Sender.{Poll, recv_buffer}
use computer_network_labs.Rtp.Sender.Window.{headers, Any}
use computer_network_labs.Rtp.SenderOpt.{SenderOpt, send_turn_opt}
use computer_network_labs.Rtp.SenderOpt.Acked.{AckedBy}
use computer_network_labs.Rtp.SenderOpt.Turn.{IsPacketOf, send_turn_opt-TurnsTo}
use computer_network_labs.Rtp.Protocol.{DataArrives, AckArrives}
use computer_network_labs.Rtp.Protocol.Behind.{All-among, Acks, ack-top, noise-none}
use computer_network_labs.Rtp.ProtocolOpt.{System, send, receive, Reach, here, more, initial_opt}

-- An acknowledgement of a packet that is cached.
abbrev IsCachedAck : Receiver → List ℕ → Type 0
IsCachedAck r d = (k : ℕ) × (d ≡ ack_datagram k) × (k < 2 ^ 32) × (r.cached k ≡ 1)

record IsConsistent (file : List ℕ) (t : System) : Type 0 where
  receiver : Holds file t.receiver
  packets : All (IsPacketOf file 0 (t.receiver.recv_base + t.receiver.window_recv)) t.data_net
  sound : All (IsCachedAck t.receiver) t.ack_net
  stopped : t.receiver.cached t.receiver.recv_base ≢ 1
  covered : (k : ℕ) → k < t.receiver.recv_base → t.receiver.cached k ≡ 1
  acked : (k : ℕ) → t.sender.acked k ≡ 1 → t.receiver.cached k ≡ 1
  based : (k : ℕ) → k < t.sender.window.send_base → t.receiver.cached k ≡ 1
  ahead : t.sender.window.next_seq_num ≤ t.sender.window.send_base + t.sender.window.window
  narrow : t.sender.window.window ≤ t.receiver.window_recv
  fits : t.receiver.window_recv + cache_size ≤ 2 ^ 32

-- The sender is not ahead of the receiver.
behind :
    (file : List ℕ) (t : System)
    → IsConsistent file t
    → t.sender.window.send_base ≤ t.receiver.recv_base
behind file t v = elim (Bool-cases (ltb t.receiver.recv_base t.sender.window.send_base)) [
  | inl lt ↦ absurd (v.stopped (v.based t.receiver.recv_base (ground arith)))
  | inr ge ↦ ground arith
]

-- What the sender takes as acknowledged is cached.
Acks-cached :
    (r : Receiver) (net : List (List ℕ)) (reply : Option (List ℕ)) (k : ℕ)
    → All (IsCachedAck r) net
    → AckArrives net reply
    → Any (Acks k) (headers (length (recv_buffer reply)) (recv_buffer reply))
    → r.cached k ≡ 1
unfolding headers
Acks-cached r net none k sound arr a = elim a [ ]
Acks-cached r net (some d) k sound (inr noise) a =
    absurd (noise-none k (headers (length d) d) noise a)
Acks-cached r net (some d) k sound (inl among) a =
    let (j, e, fits, cached) = All-among (IsCachedAck r) d net sound among in
    let same : k ≡ j = ack-top j k d fits e a in rw same cached

IsPacketOf-mono :
    (file : List ℕ) (lo hi hi' : ℕ) (ds : List (List ℕ))
    → hi ≤ hi'
    → All (IsPacketOf file lo hi) ds
    → All (IsPacketOf file 0 hi') ds
IsPacketOf-mono file lo hi hi' [] le h = tt
IsPacketOf-mono file lo hi hi' (d ∷ ds) le h =
    let (k, e, above, below) = h.0 in
    ((k, e, omega arith, omega arith), IsPacketOf-mono file lo hi hi' ds le h.1)

IsCachedAck-mono :
    (r r' : Receiver) (ds : List (List ℕ))
    → ((i : ℕ) → r.cached i ≡ 1 → r'.cached i ≡ 1)
    → All (IsCachedAck r) ds
    → All (IsCachedAck r') ds
IsCachedAck-mono r r' [] keeps h = tt
IsCachedAck-mono r r' (d ∷ ds) keeps h =
    let (k, e, fits, c) = h.0 in ((k, e, fits, keeps k c), IsCachedAck-mono r r' ds keeps h.1)

send-IsConsistent :
    (file : List ℕ) (t : System) (w : Poll) (s : SenderOpt) (sent : List (List ℕ))
    → AckArrives t.ack_net w.received
    → send_turn_opt file t.sender w ≡ some (s, sent)
    → IsConsistent file t
    → IsConsistent file (record t { sender = s; data_net = sent ++ t.data_net })
send-IsConsistent file t w s sent arrives e v =
    let below = behind file t v in
    let fits : t.sender.window.send_base + t.sender.window.window < 2 ^ 32 =
      omega (arith, v.receiver.inside, v.narrow, v.fits) in
    let turn =
      send_turn_opt-TurnsTo file t.sender s w sent (record { fits = fits; ahead = v.ahead }) e in
    let acked : (k : ℕ) → s.acked k ≡ 1 → t.receiver.cached k ≡ 1 =
      λ k h. cached_of k (turn.acks k h) in
    record {
      receiver = v.receiver;
      packets =
          All-append (IsPacketOf file 0 (t.receiver.recv_base + t.receiver.window_recv)) sent
            t.data_net
            (IsPacketOf-mono file t.sender.window.send_base
              (t.sender.window.send_base + t.sender.window.window)
              (t.receiver.recv_base + t.receiver.window_recv) sent (omega (arith, v.narrow))
              turn.packets)
            v.packets;
      sound = v.sound;
      stopped = v.stopped;
      covered = v.covered;
      acked = acked;
      based = λ k h. elim (Bool-cases (ltb k t.sender.window.send_base)) [
        | inl old ↦ v.based k (ground arith)
        | inr new ↦ acked k (turn.first.passed k (ground arith) h)
      ];
      ahead = omega (arith, turn.ahead, turn.window, turn.first.forward);
      narrow = omega (arith, turn.window, v.narrow);
      fits = v.fits;
    }
  where
    cached_of :
        (k : ℕ)
        → AckedBy t.sender.acked
            (headers (length (recv_buffer w.received)) (recv_buffer w.received))
            k
        → t.receiver.cached k ≡ 1
    cached_of k (inl before) = v.acked k before
    cached_of k (inr now) = Acks-cached t.receiver t.ack_net w.received k v.sound arrives now

-- A packet of the sender is genuine, and its number is below the end of the receiver's window.
arrived :
    (file : List ℕ) (hi : ℕ) (net : List (List ℕ)) (d : List ℕ)
    → IsBytes file
    → hi < 2 ^ 32
    → All (IsPacketOf file 0 hi) net
    → DataArrives net d
    → let p = decode_packet (receive_buffer d) in
      IsGenuine file p × (packet_checks p ≡ true → p.rtp.seq_num < hi)
arrived file hi net d hf fits packets (inr bad) =
    let refused = packet_checks_refuses (decode_packet (receive_buffer d)) bad in
    (failed-IsGenuine file (decode_packet (receive_buffer d)) refused, λ c. cc)
arrived file hi net d hf fits packets (inl among) =
    let (k, e, above, below) = All-among (IsPacketOf file 0 hi) d net packets among in
    let a = data_datagram_arrives file k (omega arith) hf in
    rw e (data_datagram-IsGenuine file k (omega arith) hf, λ c. omega (arith, a.1))

receive-IsConsistent :
    (file : List ℕ) (t : System) (d : List ℕ) (r : Receiver) (sent : List (List ℕ))
    → IsBytes file
    → DataArrives t.data_net d
    → recv_packet_turn_opt t.receiver (decode_packet (receive_buffer d)) ≡ next r sent
    → IsConsistent file t
    → IsConsistent file (record t { receiver = r; ack_net = sent ++ t.ack_net })
receive-IsConsistent file t d r sent hf arrives e v = record {
  receiver = held;
  packets =
      IsPacketOf-mono file 0 hi (r.recv_base + r.window_recv) t.data_net
        (omega (arith, sel.forward, sel.window)) v.packets;
  sound =
      All-append (IsCachedAck r) sent t.ack_net (answered selects.answer)
        (IsCachedAck-mono t.receiver r t.ack_net sel.kept v.sound);
  stopped = sel.stopped;
  covered = λ k h. elim (Bool-cases (ltb k t.receiver.recv_base)) [
    | inl old ↦ sel.kept k (v.covered k (ground arith))
    | inr new ↦ sel.passed k (ground arith) h
  ];
  acked = λ k h. sel.kept k (v.acked k h);
  based = λ k h. sel.kept k (v.based k h);
  ahead = v.ahead;
  narrow = omega (arith, v.narrow, sel.window);
  fits = omega (arith, v.fits, sel.window);
}
  where
    p : Packet
    p = decode_packet (receive_buffer d)

    hi : ℕ
    hi = t.receiver.recv_base + t.receiver.window_recv

    fits : t.receiver.recv_base + t.receiver.window_recv < 2 ^ 32
    fits = omega (arith, v.receiver.inside, v.fits)

    facts :
        IsGenuine file p
        × (packet_checks p ≡ true → p.rtp.seq_num < t.receiver.recv_base + t.receiver.window_recv)
    facts =
        arrived file (t.receiver.recv_base + t.receiver.window_recv) t.data_net d hf fits v.packets
          arrives

    held : Holds file r
    held = rw e at (recv_packet_turn_opt-Holds file t.receiver p facts.0 v.receiver)

    selects : Selects t.receiver p r sent
    selects = rw e at (recv_packet_turn_opt-SelectsFrom t.receiver p)

    sel : Caches t.receiver p r
    sel = selects.caches

    cached : IsData p → r.cached p.rtp.seq_num ≡ 1
    cached genuine_data = elim (Bool-cases (ltb p.rtp.seq_num t.receiver.recv_base)) [
      | inl old ↦ sel.kept p.rtp.seq_num (v.covered p.rtp.seq_num (ground arith))
      | inr new ↦
          let below = facts.1 ((packet_checks-HasChecksum p).1 genuine_data.1) in
          sel.taken (genuine_data, ground arith, omega arith)
    ]

    answered : Answers p sent → All (IsCachedAck r) sent
    answered (inr (_, none_sent)) = rw none_sent tt
    answered (inl (genuine_data, one)) =
        let below = facts.1 ((packet_checks-HasChecksum p).1 genuine_data.1) in
        rw one ((p.rtp.seq_num, refl, omega arith, cached genuine_data), tt)

Reach-IsConsistent :
    (file : List ℕ) {s t : System}
    → IsBytes file
    → IsConsistent file s
    → Reach file s t
    → IsConsistent file t
Reach-IsConsistent file hf v here = v
Reach-IsConsistent file hf v (more {t = t} run (send w s sent running arrives e)) =
    send-IsConsistent file t w s sent arrives e (Reach-IsConsistent file hf v run)
Reach-IsConsistent file hf v (more {t = t} run (receive d r sent arrives e)) =
    receive-IsConsistent file t d r sent hf arrives e (Reach-IsConsistent file hf v run)

initial-IsConsistent :
    (file : List ℕ) (window window_recv : ℕ)
    → window ≤ window_recv
    → window_recv + cache_size ≤ 2 ^ 32
    → IsConsistent file (initial_opt window window_recv)
unfolding initial_opt fresh_receiver
initial-IsConsistent file window window_recv narrow h = record {
  receiver = unfold fresh_receiver in fresh-Holds file window_recv;
  packets = tt;
  sound = tt;
  stopped = λ e. omega arith;
  covered = λ k h. absurd (omega arith);
  acked = λ k h. absurd (omega arith);
  based = λ k h. absurd (omega arith);
  ahead = omega arith;
  narrow = narrow;
  fits = h;
}

-- Let a sender of a file of bytes and a receiver, whose window is not smaller than the sender's and
-- is at most 2 ^ 32 - 80000, run with selective acknowledgements over a network that loses,
-- repeats, delays, reorders and corrupts datagrams, where no checksum of a corrupted one is right.
-- At every time the receiver has written the segments before its `recv_base`, `send_base` is not
-- ahead of it, and every number that the sender takes as acknowledged is cached.
pub written_opt_prefix :
    (file : List ℕ) (window window_recv : ℕ) (t : System)
    → IsBytes file
    → window ≤ window_recv
    → window_recv + cache_size ≤ 2 ^ 32
    → Reach file (initial_opt window window_recv) t
    → (t.receiver.written ≡ segments file t.receiver.recv_base)
      × (t.sender.window.send_base ≤ t.receiver.recv_base)
      × ((k : ℕ) → t.sender.acked k ≡ 1 → t.receiver.cached k ≡ 1)
written_opt_prefix file window window_recv t hf narrow h run =
    let v =
      Reach-IsConsistent file hf (initial-IsConsistent file window window_recv narrow h) run in
    (v.receiver.prefix, behind file t v, v.acked)

-- Let a sender of a file of bytes and a receiver, whose window is not smaller than the sender's and
-- is at most 2 ^ 32 - 80000, run with selective acknowledgements over a network that loses,
-- repeats, delays, reorders and corrupts datagrams, where no checksum of a corrupted one is right.
-- When the test on which `sendMessageOpt` returns is met, the receiver has written the whole file.
pub sent_opt_is_written :
    (file : List ℕ) (window window_recv : ℕ) (t : System)
    → IsBytes file
    → window ≤ window_recv
    → window_recv + cache_size ≤ 2 ^ 32
    → Reach file (initial_opt window window_recv) t
    → file_statics (length file) ≤ t.sender.window.send_base
    → t.receiver.written ≡ file
sent_opt_is_written file window window_recv t hf narrow h run done =
    let v =
      Reach-IsConsistent file hf (initial-IsConsistent file window window_recv narrow h) run in
    let le = behind file t v in
    v.receiver.prefix
    ∙ segments-file_statics file t.receiver.recv_base (omega (arith, v.receiver.inside))
        (omega arith)
