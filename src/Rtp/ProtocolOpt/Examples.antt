-- ===== src/Rtp/ProtocolOpt/Examples.antt =====
-- Lab2/My Codes: the theorem on the selective protocol at a run that transfers a small file.
use computer_network_labs.Prelude.{
  ℕ, ◌≡◌, ◌≤◌, refl, inl, List, [], ◌∷◌, ◌==◌, none, some, if◌then◌else◌, false, arith,
}
use computer_network_labs.Rtp.Crc.{checksum}
use computer_network_labs.Rtp.Header.{encode, decode, make_rtp_header, checks}
use computer_network_labs.Rtp.Packet.{
  data_datagram, receive_buffer, decode_packet, packet_checks, file_statics,
}
use computer_network_labs.Rtp.Packet.Segments.{segments}
use computer_network_labs.Rtp.Receiver.{
  Receiver, fresh_receiver, ack_datagram, recv_packet_turn_opt, Turn, next, finish, fault,
}
use computer_network_labs.Rtp.Sender.{Poll}
use computer_network_labs.Rtp.SenderOpt.{SenderOpt, send_turn_opt}
use computer_network_labs.Rtp.ProtocolOpt.{System, initial_opt, Reach, here, more, send, receive}
use computer_network_labs.Rtp.ProtocolOpt.Safety.{sent_opt_is_written, written_opt_prefix}

abbrev hello : List ℕ
hello = 104 ∷ 101 ∷ 108 ∷ 108 ∷ 111 ∷ []

abbrev quiet : Poll
quiet = record { received = none; expired = false }

abbrev acknowledged : Poll
acknowledged = record { received = some (ack_datagram 0); expired = false }

abbrev state_of : Turn → Receiver
state_of (next r sent) = r
state_of (finish r sent) = r
state_of fault = fresh_receiver 0 0

abbrev received : Receiver
received = state_of (
    recv_packet_turn_opt (fresh_receiver 2 0)
      (decode_packet (receive_buffer (data_datagram hello 0))))

-- The sender after its first packet, and after the acknowledgement and one more packet.
abbrev one_sent : SenderOpt
one_sent = record (initial_opt 2 2).sender {
  window = record { send_base = 0; next_seq_num = 1; window = 2 };
}

abbrev one_acked : SenderOpt
one_acked = record {
  window = record { send_base = 1; next_seq_num = 2; window = 2 };
  acked = λ i. if 0 == i then 1 else 0;
}

-- The state at the end of the run.
abbrev last : System
last = record {
  sender = one_acked;
  receiver = received;
  data_net = data_datagram hello 1 ∷ data_datagram hello 0 ∷ [];
  ack_net = ack_datagram 0 ∷ [];
}

transfer : Reach hello (initial_opt 2 2) last
unfolding initial_opt recv_packet_turn_opt fresh_receiver receive_buffer decode_packet packet_checks
    make_rtp_header encode decode checks checksum file_statics send_turn_opt data_datagram
transfer =
    more
      (more (more here (send quiet one_sent (data_datagram hello 0 ∷ []) refl tt refl))
        (receive (data_datagram hello 0) received (ack_datagram 0 ∷ []) (inl (inl refl)) refl))
      (send acknowledged one_acked (data_datagram hello 1 ∷ []) refl (inl (inl refl)) refl)

written_opt_prefix_example :
    (last.receiver.written ≡ segments hello last.receiver.recv_base)
    × (last.sender.window.send_base ≤ last.receiver.recv_base)
    × ((k : ℕ) → last.sender.acked k ≡ 1 → last.receiver.cached k ≡ 1)
written_opt_prefix_example =
    written_opt_prefix hello 2 2 last (omega arith) (omega arith) (omega arith) transfer

sent_opt_is_written_example : last.receiver.written ≡ hello
unfolding file_statics
sent_opt_is_written_example =
    sent_opt_is_written hello 2 2 last (omega arith) (omega arith) (omega arith) transfer
      (omega arith)
