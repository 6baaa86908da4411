-- ===== src/Rtp/Sender/Examples.antt =====
-- Lab2/My Codes/sender_def.c: the theorems on the sender at concrete turns, and a run of it.
use computer_network_labs.Prelude.{
  ℕ, ◌≡◌, refl, ◌↔◌, ◌≤◌, true, false, List, [], ◌∷◌, Option, none, some, pos, length,
  if◌then◌else◌, ◌+◌, arith,
}
use computer_network_labs.Rtp.Crc.{checksum}
use computer_network_labs.Rtp.Header.{encode, decode, make_rtp_header, checks}
use computer_network_labs.Rtp.Packet.{file_statics}
use computer_network_labs.Rtp.Receiver.{init_receiver, ack_datagram}
use computer_network_labs.Rtp.Sender.{
  Sender, Poll, init_sender, start_datagram, receive_acks, send_turn, send_loop, Run, going,
  returned,
}
use computer_network_labs.Rtp.Sender.Window.{
  headers, IsGreatest, receive_acks-IsGreatest, SendsInWindow, send_turn-IsInWindow,
}
use computer_network_labs.Rtp.Sender.Session.{Accepts, init_sender_iff, handshake}

abbrev hello : List ℕ
hello = 104 ∷ 101 ∷ 108 ∷ 108 ∷ 111 ∷ []

abbrev start : Sender
start = record { send_base = 0; next_seq_num = 0; window = 2 }

abbrev quiet : Poll
quiet = record { received = none; expired = false }

abbrev acked : Poll
acked = record { received = some (ack_datagram 1); expired = false }

is_returned : Run → Option ℕ
is_returned (going s sent) = none
is_returned (returned s sent) = some s.send_base

run_returns : is_returned (send_loop hello start [] (quiet ∷ acked ∷ [])) ≡ some 1
unfolding is_returned send_loop make_rtp_header encode decode checks checksum file_statics
run_returns = refl

receive_acks-IsGreatest_example :
    let d = ack_datagram 1 in
    IsGreatest 0 (headers (length d) d) (receive_acks (some d) start).send_base
receive_acks-IsGreatest_example = receive_acks-IsGreatest start (some (ack_datagram 1))

send_turn-IsInWindow_example :
    let t = send_turn hello start acked in
    SendsInWindow hello start t.1
    × (0 ≤ t.0.send_base)
    × (t.0.next_seq_num ≤ t.0.send_base + t.0.window)
    × (t.0.next_seq_num ≡ (if false then t.0.send_base else 0 + length t.1))
send_turn-IsInWindow_example = send_turn-IsInWindow hello start acked (omega arith)

init_sender_iff_example :
    ((init_sender 7 true true (some (ack_datagram 7))).0 ≡ pos 0)
    ↔ ((◌≡◌ true true) × (◌≡◌ true true) × Accepts 7 (some (ack_datagram 7)))
init_sender_iff_example = init_sender_iff 7 true true (some (ack_datagram 7))

handshake_example :
    (init_receiver true (some (start_datagram 7)) true ≡ (pos 0, ack_datagram 7 ∷ []))
    × (init_sender 7 true true (some (ack_datagram 7)) ≡ (pos 0, start_datagram 7 ∷ []))
handshake_example = handshake 7 (omega arith)
