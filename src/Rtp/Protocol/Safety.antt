-- ===== src/Rtp/Protocol/Safety.antt =====
-- Lab2/My Codes: what every run of `sendMessage` and `recvMessage` over the network keeps.
use computer_network_labs.Prelude.{
  ℕ, ◌+◌, ◌≤◌, ◌<◌, ◌^◌, ◌≡◌, refl, ◌∙◌, inl, inr, List, ◌++◌, length, All, All-append, arith,
}
use computer_network_labs.Rtp.Crc.Ieee.{IsBytes}
use computer_network_labs.Rtp.Packet.{file_statics, receive_buffer, decode_packet}
use computer_network_labs.Rtp.Packet.Segments.{segments, segments-file_statics}
use computer_network_labs.Rtp.Receiver.{
  Receiver, cache_size, fresh_receiver, recv_packet_turn, next,
}
use computer_network_labs.Rtp.Receiver.Invariant.{Holds, IsGenuine, recv_packet_turn-Holds}
use computer_network_labs.Rtp.Receiver.Delivery.{
  data_datagram-IsGenuine, failed-IsGenuine, fresh-Holds,
}
use computer_network_labs.Rtp.Receiver.Caching.{packet_checks_refuses}
use computer_network_labs.Rtp.Receiver.Acks.{Acknowledges, recv_packet_turn-AcksFrom}
use computer_network_labs.Rtp.Sender.{Sender, Poll, send_turn, receive_acks}
use computer_network_labs.Rtp.Sender.Window.{
  send_turn-base, receive_acks-IsGreatest, SendsInWindow, send_turn-IsInWindow,
}
use computer_network_labs.Rtp.Protocol.Behind.{IsSound, All-among, IsSound-mono, acks_behind}
use computer_network_labs.Rtp.Protocol.{
  System, DataArrives, AckArrives, Step, send, receive, Reach, here, more, initial,
}

pub record IsConsistent (file : List ℕ) (t : System) : Type 0 where
  pub receiver : Holds file t.receiver
  pub genuine : All (λ d. IsGenuine file (decode_packet (receive_buffer d))) t.data_net
  pub sound : All (IsSound t.receiver.recv_base) t.ack_net
  pub behind : t.sender.send_base ≤ t.receiver.recv_base
  pub ahead : t.sender.next_seq_num ≤ t.sender.send_base + t.sender.window
  pub fits : t.sender.window + cache_size ≤ 2 ^ 32

sent-IsGenuine :
    (file : List ℕ) (s : Sender) (sent : List (List ℕ))
    → IsBytes file
    → s.send_base + s.window < 2 ^ 32
    → SendsInWindow file s sent
    → All (λ d. IsGenuine file (decode_packet (receive_buffer d))) sent
sent-IsGenuine file s sent hf fits (inl e) = rw e tt
sent-IsGenuine file s sent hf fits (inr (e, lo, hi)) =
    rw e (data_datagram-IsGenuine file s.next_seq_num (omega arith) hf, tt)

send-IsConsistent :
    (file : List ℕ) (t : System) (w : Poll)
    → IsBytes file
    → AckArrives t.ack_net w.received
    → IsConsistent file t
    → IsConsistent file (record t {
      sender = (send_turn file t.sender w).0;
      data_net = (send_turn file t.sender w).1 ++ t.data_net;
    })
send-IsConsistent file t w hf arrives v =
    let fits : t.sender.send_base + t.sender.window < 2 ^ 32 =
      omega (arith, v.receiver.inside, v.behind, v.fits) in
    let turn = send_turn-IsInWindow file t.sender w (record { fits = fits; ahead = v.ahead }) in
    let (base, window) = send_turn-base file t.sender w in
    record {
      receiver = v.receiver;
      genuine =
          All-append (λ d. IsGenuine file (decode_packet (receive_buffer d)))
            (send_turn file t.sender w).1 t.data_net
            (sent-IsGenuine file t.sender (send_turn file t.sender w).1 hf fits turn.0) v.genuine;
      sound = v.sound;
      behind = rw base (
          acks_behind t w.received t.sender.send_base (receive_acks w.received t.sender).send_base
            v.sound v.receiver.inside arrives v.behind
            (receive_acks-IsGreatest t.sender w.received));
      ahead = turn.2;
      fits = rw window v.fits;
    }

receive-IsConsistent :
    (file : List ℕ) (t : System) (d : List ℕ) (r : Receiver) (sent : List (List ℕ))
    → DataArrives t.data_net d
    → recv_packet_turn t.receiver (decode_packet (receive_buffer d)) ≡ next r sent
    → IsConsistent file t
    → IsConsistent file (record t { receiver = r; ack_net = sent ++ t.ack_net })
receive-IsConsistent file t d r sent arrives e v =
    let p = decode_packet (receive_buffer d) in
    let kept = recv_packet_turn-Holds file t.receiver p (genuine arrives) v.receiver in
    let acks = recv_packet_turn-AcksFrom t.receiver p in
    let held : Holds file r = rw e at kept in
    let acked : Acknowledges t.receiver p r sent = rw e at acks in
    record {
      receiver = held;
      genuine = v.genuine;
      sound = rw acked.one (
        (r.recv_base, refl, omega arith),
        IsSound-mono t.receiver.recv_base r.recv_base t.ack_net acked.caches.forward v.sound,
      );
      behind = omega (arith, v.behind, acked.caches.forward);
      ahead = v.ahead;
      fits = v.fits;
    }
  where
    genuine : DataArrives t.data_net d → IsGenuine file (decode_packet (receive_buffer d))
    genuine (inl among) =
        All-among (λ d. IsGenuine file (decode_packet (receive_buffer d))) d t.data_net v.genuine
          among
    genuine (inr bad) =
        failed-IsGenuine file (decode_packet (receive_buffer d))
          (packet_checks_refuses (decode_packet (receive_buffer d)) bad)

pub Step-IsConsistent :
    (file : List ℕ) {t u : System}
    → IsBytes file
    → Step file t u
    → IsConsistent file t
    → IsConsistent file u
Step-IsConsistent file hf (send {t = t} w running arrives) v =
    send-IsConsistent file t w hf arrives v
Step-IsConsistent file hf (receive {t = t} d r sent arrives e) v =
    receive-IsConsistent file t d r sent arrives e v

pub Reach-IsConsistent :
    (file : List ℕ) {s t : System}
    → IsBytes file
    → IsConsistent file s
    → Reach file s t
    → IsConsistent file t
Reach-IsConsistent file hf v here = v
Reach-IsConsistent file hf v (more r st) =
    Step-IsConsistent file hf st (Reach-IsConsistent file hf v r)

pub initial-IsConsistent :
    (file : List ℕ) (window window_recv : ℕ)
    → window + cache_size ≤ 2 ^ 32
    → IsConsistent file (initial window window_recv)
unfolding initial fresh_receiver
initial-IsConsistent file window window_recv h = record {
  receiver = unfold fresh_receiver in fresh-Holds file window_recv;
  genuine = tt;
  sound = tt;
  behind = omega arith;
  ahead = omega arith;
  fits = h;
}

-- Let a sender of a file of bytes, with a window of at most 2 ^ 32 - 80000, and a receiver run over
-- a network that loses, repeats, delays, reorders and corrupts datagrams, where no checksum of a
-- corrupted one is right. At every time the receiver has written the segments before its
-- `recv_base`, a prefix of the file, and the sender's `send_base` is not ahead of it.
pub written_prefix :
    (file : List ℕ) (window window_recv : ℕ) (t : System)
    → IsBytes file
    → window + cache_size ≤ 2 ^ 32
    → Reach file (initial window window_recv) t
    → (t.receiver.written ≡ segments file t.receiver.recv_base)
      × (t.sender.send_base ≤ t.receiver.recv_base)
written_prefix file window window_recv t hf h r =
    let v = Reach-IsConsistent file hf (initial-IsConsistent file window window_recv h) r in
    (v.receiver.prefix, v.behind)

-- Let a sender of a file of bytes, with a window of at most 2 ^ 32 - 80000, and a receiver run over
-- a network that loses, repeats, delays, reorders and corrupts datagrams, where no checksum of a
-- corrupted one is right. When the test on which `sendMessage` returns is met, the receiver has
-- written the whole file.
pub sent_is_written :
    (file : List ℕ) (window window_recv : ℕ) (t : System)
    → IsBytes file
    → window + cache_size ≤ 2 ^ 32
    → Reach file (initial window window_recv) t
    → file_statics (length file) ≤ t.sender.send_base
    → t.receiver.written ≡ file
sent_is_written file window window_recv t hf h r done =
    let v = Reach-IsConsistent file hf (initial-IsConsistent file window window_recv h) r in
    v.receiver.prefix
    ∙ segments-file_statics file t.receiver.recv_base (omega (arith, v.receiver.inside))
        (omega (arith, v.behind))
