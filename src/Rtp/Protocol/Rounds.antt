-- ===== src/Rtp/Protocol/Rounds.antt =====
-- Lab2/My Codes: one round in which nothing is lost, from any state that a run can reach.
use computer_network_labs.Prelude.{
  ℕ, ◌+◌, ◌≤◌, ◌<◌, ◌^◌, ◌≡◌, ◌≢◌, refl, sym, ap, ◌∙◌, inl, inr, Bool, List, [], ◌∷◌, none, ltb,
  Bool-cases, arith,
}
use computer_network_labs.Rtp.Crc.Ieee.{IsBytes}
use computer_network_labs.Rtp.Packet.{Packet, receive_buffer, decode_packet, data_datagram}
use computer_network_labs.Rtp.Packet.RoundTrip.{data_datagram_arrives}
use computer_network_labs.Rtp.Receiver.{
  Receiver, cache_size, ack_datagram, recv_packet_turn, Turn, next, finish, fault,
}
use computer_network_labs.Rtp.Receiver.Bounds.{Safe, recv_packet_turn-Safe}
use computer_network_labs.Rtp.Receiver.Caching.{EndsLoop, packet_checks-HasChecksum}
use computer_network_labs.Rtp.Receiver.Acks.{Acknowledges, recv_packet_turn-AcksFrom}
use computer_network_labs.Rtp.Sender.{Sender, Poll, send_turn, receive_acks}
use computer_network_labs.Rtp.Sender.Window.{IsInWindow, send_turn-base}
use computer_network_labs.Rtp.Protocol.{System, Step, send, receive, Reach, here, more}
use computer_network_labs.Rtp.Protocol.Safety.{IsConsistent, Step-IsConsistent}
use computer_network_labs.Rtp.Protocol.Room.{HasRoom, Step-HasRoom, packet-IsSmall}

-- A state of a run with room for the file, in which neither window is empty.
pub record IsReady (file : List ℕ) (n : ℕ) (t : System) : Type 0 where
  pub consistent : IsConsistent file t
  pub room : HasRoom file n t
  pub may_send : 0 < t.sender.window
  pub may_receive : 0 < t.receiver.window_recv
  pub fits_receiver : t.receiver.window_recv + cache_size ≤ 2 ^ 32

next-window :
    (q r : Receiver) (p : Packet) (sent : List (List ℕ))
    → recv_packet_turn q p ≡ next r sent
    → r.window_recv ≡ q.window_recv
next-window q r p sent e =
    let acks : Acknowledges q p r sent = rw e at (recv_packet_turn-AcksFrom q p) in
    acks.caches.window

pub Step-IsReady :
    (file : List ℕ) (n : ℕ) {t u : System}
    → IsBytes file
    → Step file t u
    → IsReady file n t
    → IsReady file n u
Step-IsReady file n hf (send {t = t} w running arrives) v =
    let step = Step.send {t = t} w running arrives in
    let (base, window) = send_turn-base file t.sender w in
    record {
      consistent = Step-IsConsistent file hf step v.consistent;
      room = Step-HasRoom file n hf v.consistent step v.room;
      may_send = rw window v.may_send;
      may_receive = v.may_receive;
      fits_receiver = v.fits_receiver;
    }
Step-IsReady file n hf (receive {t = t} d r sent arrives e) v =
    let step = Step.receive {t = t} d r sent arrives e in
    let window = next-window t.receiver r (decode_packet (receive_buffer d)) sent e in
    record {
      consistent = Step-IsConsistent file hf step v.consistent;
      room = Step-HasRoom file n hf v.consistent step v.room;
      may_send = v.may_send;
      may_receive = rw window v.may_receive;
      fits_receiver = rw window v.fits_receiver;
    }

pub Reach-IsReady :
    (file : List ℕ) (n : ℕ) {s t : System}
    → IsBytes file
    → IsReady file n s
    → Reach file s t
    → IsReady file n t
Reach-IsReady file n hf v here = v
Reach-IsReady file n hf v (more r step) = Step-IsReady file n hf step (Reach-IsReady file n hf v r)

pub ready-IsInWindow : (file : List ℕ) (n : ℕ) (t : System) → IsReady file n t → IsInWindow t.sender
ready-IsInWindow file n t v = record {
  fits = omega (arith, v.consistent.receiver.inside, v.consistent.behind, v.consistent.fits);
  ahead = v.consistent.ahead;
}

-- Nothing arrives, and the timer may have run out.
abbrev pub silent : Bool → Poll
silent expired = record { received = none; expired = expired }

pub receive_acks-none : (s : Sender) → (receive_acks none s).send_base ≡ s.send_base
unfolding receive_acks
receive_acks-none s = refl

-- At the start of its window the sender sends the first packet of it.
pub send_turn-first :
    (file : List ℕ) (s : Sender) (w : Poll)
    → s.next_seq_num ≡ s.send_base
    → 0 < s.window
    → s.send_base + s.window < 2 ^ 32
    → (send_turn file s w).1 ≡ data_datagram file s.send_base ∷ []
unfolding send_turn
send_turn-first file s w same pos fits = ground arith

-- A packet whose number is not ahead of `recv_base` takes the receiver past it, and is
-- acknowledged.
pub receive_round :
    (file : List ℕ) (n : ℕ) (t : System) (k : ℕ)
    → IsBytes file
    → IsReady file n t
    → k < n
    → k ≤ t.receiver.recv_base
    → (r : Receiver) × (recv_packet_turn t.receiver
          (decode_packet (receive_buffer (data_datagram file k)))
        ≡ next r (ack_datagram r.recv_base ∷ []))
      × (k < r.recv_base)
receive_round file n t k hf v lt le = go (recv_packet_turn t.receiver p) refl
  where
    p : Packet
    p = decode_packet (receive_buffer (data_datagram file k))

    fits : t.receiver.recv_base + t.receiver.window_recv < 2 ^ 32
    fits = omega (arith, v.consistent.receiver.inside, v.fits_receiver)

    small : k < 2 ^ 32
    small = omega (arith, v.room.fits.room)

    safe : Safe n (recv_packet_turn t.receiver p)
    safe =
        (recv_packet_turn-Safe n t.receiver p (packet-IsSmall file n k hf v.room.fits.room lt)
          v.room.fits).0

    past :
        (r : Receiver) (sent : List (List ℕ))
        → recv_packet_turn t.receiver p ≡ next r sent
        → k < r.recv_base
    past r sent e =
        let a = data_datagram_arrives file k small hf in
        let acks : Acknowledges t.receiver p r sent =
          rw e at (recv_packet_turn-AcksFrom t.receiver p) in
        elim (Bool-cases (ltb k t.receiver.recv_base)) [
          | inl before ↦ ground (arith, acks.caches.forward)
          | inr at_base ↦
              let same : p.rtp.seq_num ≡ t.receiver.recv_base = ground (arith, a.1) in
              let cached : r.cached p.rtp.seq_num ≡ 1 = acks.caches.taken (
                (a.0, (packet_checks-HasChecksum p).0 a.3),
                omega arith,
                omega (arith, v.may_receive, fits),
              ) in
              let moved : r.recv_base ≢ t.receiver.recv_base =
                λ q. acks.caches.stopped (rw (q ∙ sym same) cached) in
              ground (arith, acks.caches.forward)
        ]

    go :
        (u : Turn)
        → recv_packet_turn t.receiver p ≡ u
        → (r : Receiver) × (recv_packet_turn t.receiver p ≡ next r (ack_datagram r.recv_base ∷ []))
          × (k < r.recv_base)
    go (next r sent) e =
        let acks : Acknowledges t.receiver p r sent =
          rw e at (recv_packet_turn-AcksFrom t.receiver p) in
        (r, e ∙ ap (λ (x : List (List ℕ)). next r x) acks.one, past r sent e)
    go (finish r sent) e =
        let ends : EndsLoop t.receiver p = (rw e at (recv_packet_turn-AcksFrom t.receiver p)).2 in
        absurd (omega (arith, ends.0, (data_datagram_arrives file k small hf).0))
    go fault e = let no : ⊥ = rw e at safe in absurd no

-- The steps that follow others.
pub Reach-append :
    {file : List ℕ} {s t u : System} → Reach file s t → Reach file t u → Reach file s u
Reach-append r here = r
Reach-append r (more q step) = more (Reach-append r q) step
