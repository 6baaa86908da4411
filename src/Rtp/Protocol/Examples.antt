-- ===== src/Rtp/Protocol/Examples.antt =====
-- Lab2/My Codes: the theorems on the protocol at a run that transfers a small file.
use computer_network_labs.Prelude.{
  ℕ, ◌≡◌, ◌≤◌, refl, inl, true, false, List, pos, [], ◌∷◌, ◌++◌, length, none, some, arith,
}
use computer_network_labs.Rtp.Crc.{checksum}
use computer_network_labs.Rtp.Header.{encode, decode, make_rtp_header, checks}
use computer_network_labs.Rtp.Packet.{
  data_datagram, receive_buffer, decode_packet, packet_checks, file_statics,
}
use computer_network_labs.Rtp.Packet.Segments.{segments}
use computer_network_labs.Rtp.Receiver.{
  Receiver, fresh_receiver, ack_datagram, recv_packet_turn, Turn, next, finish, fault,
}
use computer_network_labs.Rtp.Sender.{
  Sender, Poll, send_turn, send_loop, returned, terminate_sender,
}
use computer_network_labs.Rtp.Protocol.{System, initial, Reach, here, more, send, receive}
use computer_network_labs.Rtp.Protocol.Safety.{written_prefix, sent_is_written}
use computer_network_labs.Rtp.Protocol.Liveness.{can_finish}
use computer_network_labs.Rtp.Protocol.Stale.{send_loop_stale}
use computer_network_labs.Rtp.Protocol.Again.{arrival, second_transfer_is_empty}
use computer_network_labs.Rtp.Receiver.Message.{ended, recv_message}

abbrev hello : List ℕ
hello = 104 ∷ 101 ∷ 108 ∷ 108 ∷ 111 ∷ []

abbrev quiet : Poll
quiet = record { received = none; expired = false }

abbrev acked : Poll
acked = record { received = some (ack_datagram 1); expired = false }

abbrev state_of : Turn → Receiver
state_of (next r sent) = r
state_of (finish r sent) = r
state_of fault = fresh_receiver 0 0

abbrev received : Receiver
received =
    state_of (
      recv_packet_turn (fresh_receiver 2 0)
        (decode_packet (receive_buffer (data_datagram hello 0))))

-- The states of the run: the packet is sent, it arrives, and its acknowledgement arrives.
abbrev packet_sent : System
packet_sent = record (initial 2 2) {
  sender = (send_turn hello (initial 2 2).sender quiet).0;
  data_net = (send_turn hello (initial 2 2).sender quiet).1 ++ [];
}

abbrev packet_received : System
packet_received = record packet_sent { receiver = received; ack_net = ack_datagram 1 ∷ [] }

abbrev ack_received : System
ack_received = record packet_received {
  sender = (send_turn hello packet_received.sender acked).0;
  data_net = (send_turn hello packet_received.sender acked).1 ++ packet_received.data_net;
}

transfer : Reach hello (initial 2 2) ack_received
unfolding initial recv_packet_turn fresh_receiver receive_buffer decode_packet packet_checks
    make_rtp_header encode decode checksum file_statics send_turn data_datagram
transfer =
    more
      (more (more here (send quiet refl tt))
        (receive (data_datagram hello 0) received (ack_datagram 1 ∷ []) (inl (inl refl)) refl))
      (send acked refl (inl (inl refl)))

written_prefix_example :
    (ack_received.receiver.written ≡ segments hello ack_received.receiver.recv_base)
    × (ack_received.sender.send_base ≤ ack_received.receiver.recv_base)
written_prefix_example = written_prefix hello 2 2 ack_received (omega arith) (omega arith) transfer

sent_is_written_example : ack_received.receiver.written ≡ hello
unfolding file_statics send_turn make_rtp_header encode decode checks checksum initial
sent_is_written_example =
    sent_is_written hello 2 2 ack_received (omega arith) (omega arith) transfer (omega arith)

abbrev start : Sender
start = record { send_base = 0; next_seq_num = 0; window = 2 }

abbrev stale : Poll
stale = record { received = some (ack_datagram 1804289383); expired = false }

send_loop_stale_example :
    let t = send_turn hello start stale in
    send_loop hello start [] (stale ∷ []) ≡ returned t.0 (t.1 ++ [])
unfolding file_statics
send_loop_stale_example =
    send_loop_stale hello start [] 1804289383 false [] (omega arith) (omega arith) (omega arith)

-- A run that has lost its only packet.
can_finish_example :
    (u : System) × Reach hello packet_sent u
    × (file_statics (length hello) ≤ u.sender.send_base)
    × (recv_packet_turn u.receiver (decode_packet (receive_buffer (terminate_sender u.sender)))
        ≡ finish u.receiver (ack_datagram u.receiver.recv_base ∷ []))
    × (u.receiver.written ≡ hello)
unfolding file_statics initial
can_finish_example =
    can_finish hello 2 2 packet_sent (omega arith) (omega arith) (omega arith) (omega arith)
      (omega arith) (more here (send quiet (unfold file_statics initial in refl) tt))

-- A sender that has sent one segment before, and its turn.
abbrev used : Sender
used = record { send_base = 1; next_seq_num = 1; window = 2 }

second_transfer_is_empty_example :
    (send_loop hello used [] (quiet ∷ []) ≡ returned used [])
    × (recv_message true true 2 1 (arrival (terminate_sender used) ∷ []) ≡ ended (pos 0) (some []))
unfolding file_statics
second_transfer_is_empty_example =
    second_transfer_is_empty hello used 2 (quiet ∷ []) [] (omega arith) (omega arith)
