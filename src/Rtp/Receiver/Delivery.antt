-- ===== src/Rtp/Receiver/Delivery.antt =====
-- Lab2/My Codes/receiver_def.c: a whole run of `recvMessage` or `recvMessageOpt`.
use computer_network_labs.Prelude.{
  ℕ, ◌<◌, ◌^◌, ◌≡◌, refl, sym, ap, ◌∙◌, false, List, [], ◌∷◌, some, Bool-cases, Option-cases, inl,
  inr, length, All, ◌==◌, arith,
}
use computer_network_labs.Rtp.Crc.Ieee.{IsBytes}
use computer_network_labs.Rtp.Packet.{
  Packet, receive_buffer, decode_packet, data_datagram, fread, offset, packet_checks,
}
use computer_network_labs.Rtp.Packet.Segments.{segments}
use computer_network_labs.Rtp.Packet.RoundTrip.{data_datagram_arrives}
use computer_network_labs.Rtp.Receiver.{
  Receiver, Turn, next, finish, fault, recv_packet_turn, recv_packet_turn_opt, Poll, Run, going,
  timed_out, returned, faulted, poll_turn, recv_loop, fresh_receiver,
}
use computer_network_labs.Rtp.Receiver.Invariant.{
  Holds, IsGenuine, After, Complete, recv_packet_turn-Holds, recv_packet_turn_opt-Holds,
}

-- A turn in which nothing is received, or a packet that is genuine.
abbrev pub IsGenuinePoll : List ℕ → Poll → Type 0
IsGenuinePoll file w =
    (d : List ℕ) → w.received ≡ some d → IsGenuine file (decode_packet (receive_buffer d))

-- While a run goes on, a prefix of the file has been written. If it returns a size, the whole file
-- has been written, and this is its size.
abbrev pub Delivers : List ℕ → Run → Type 0
Delivers file (going r) = Holds file r
Delivers file timed_out = Unit
Delivers file (returned n r) = (r.written ≡ file) × (n ≡ length file)
Delivers file faulted = Unit

abbrev Keeps : List ℕ → (Receiver → Packet → Turn) → Type 0
Keeps file turn =
    (r : Receiver) (p : Packet)
    → IsGenuine file p
    → Holds file r
    → After (Holds file) (Complete file) (turn r p)

module _ (file : List ℕ) (turn : Receiver → Packet → Turn) (keeps : Keeps file turn) where
  poll_turn-Holds :
      (r : Receiver) (w : Poll)
      → IsGenuinePoll file w
      → Holds file r
      → After (Holds file) (Complete file) (poll_turn turn r w)
  unfolding poll_turn
  poll_turn-Holds r w g v = elim (Option-cases w.received) [
    | inl e ↦ rw (e, poll_turn) v
    | inr (d, e) ↦
        let kept = keeps r (decode_packet (receive_buffer d)) (g d e) v in
        elim (Bool-cases (length d == 0)) [
          | inl empty ↦ rw (e, poll_turn, empty) v
          | inr full ↦ rw (e, poll_turn, full) kept
        ]
  ]

  continue_run :
      (t : Turn) (rest : Receiver → Run)
      → After (Holds file) (Complete file) t
      → ((r : Receiver) → Holds file r → Delivers file (rest r))
      → Delivers file (elim t [
        | next r' sent ↦ rest r'
        | finish r' sent ↦ returned (length r'.written) r'
        | fault ↦ faulted
      ])
  continue_run (next r sent) rest h ih = ih r h
  continue_run (finish r sent) rest h ih = (h, ap length h)
  continue_run fault rest h ih = tt

  recv_loop-Delivers :
      (ws : List Poll) (r : Receiver)
      → All (IsGenuinePoll file) ws
      → Holds file r
      → Delivers file (recv_loop turn r ws)
  unfolding recv_loop
  recv_loop-Delivers [] r g v = v
  recv_loop-Delivers (w ∷ ws) r g v = elim (Bool-cases w.expired) [
    | inl e ↦ rw (e, recv_loop) tt
    | inr e ↦
        rw (e, recv_loop)
          (continue_run (poll_turn turn r w) (λ r'. recv_loop turn r' ws)
            (poll_turn-Holds r w g.0 v) (λ r' h. recv_loop-Delivers ws r' g.1 h))
  ]

pub fresh-Holds : (file : List ℕ) (window : ℕ) → Holds file (fresh_receiver window 0)
unfolding fresh_receiver segments
fresh-Holds file window = record {
  faithful = λ i h. absurd (omega arith);
  prefix = refl;
  inside = omega arith;
}

-- `recvMessage` with `recv_base` 0 and any window, on turns that bring nothing but genuine packets,
-- in any order and any number of times: what it has written is always a prefix of the sender's
-- file, in whole segments, and if it returns a size then it has written the file and the size is
-- the file's.
pub recv_message-Delivers :
    (file : List ℕ) (window : ℕ) (ws : List Poll)
    → All (IsGenuinePoll file) ws
    → Delivers file (recv_loop recv_packet_turn (fresh_receiver window 0) ws)
recv_message-Delivers file window ws g =
    recv_loop-Delivers file recv_packet_turn (recv_packet_turn-Holds file) ws
      (fresh_receiver window 0) g (fresh-Holds file window)

-- The same for `recvMessageOpt`.
pub recv_message_opt-Delivers :
    (file : List ℕ) (window : ℕ) (ws : List Poll)
    → All (IsGenuinePoll file) ws
    → Delivers file (recv_loop recv_packet_turn_opt (fresh_receiver window 0) ws)
recv_message_opt-Delivers file window ws g =
    recv_loop-Delivers file recv_packet_turn_opt (recv_packet_turn_opt-Holds file) ws
      (fresh_receiver window 0) g (fresh-Holds file window)

-- The datagram that the sender makes for any sequence number is genuine.
pub data_datagram-IsGenuine :
    (file : List ℕ) (seq : ℕ)
    → seq < 2 ^ 32
    → IsBytes file
    → IsGenuine file (decode_packet (receive_buffer (data_datagram file seq)))
data_datagram-IsGenuine file seq h hf =
    let a = data_datagram_arrives file seq h hf in
    let p = decode_packet (receive_buffer (data_datagram file seq)) in
    record {
      segment = λ t c. a.4 ∙ ap (λ n. fread file (offset n)) (sym a.1);
      last = λ t c. absurd (omega arith);
    }

-- A packet that fails the test of the checksum is genuine: it is not used.
pub failed-IsGenuine : (file : List ℕ) (p : Packet) → packet_checks p ≡ false → IsGenuine file p
failed-IsGenuine file p h = record { segment = λ t c. cc; last = λ t c. cc }
