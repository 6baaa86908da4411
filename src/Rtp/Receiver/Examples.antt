-- ===== src/Rtp/Receiver/Examples.antt =====
-- Lab2/My Codes/receiver_def.c: the theorems on the receiver at a small file, and a run of it.
use mathlib.Core.Option.{some-injective}
use computer_network_labs.Prelude.{
  ℕ, ◌≡◌, refl, subst, true, false, List, [], ◌∷◌, Option, none, some, arith,
}
use computer_network_labs.Rtp.Crc.{checksum}
use computer_network_labs.Rtp.Header.{decode, encode, make_rtp_header, rtp_end}
use computer_network_labs.Rtp.Packet.{
  Packet, data_datagram, receive_buffer, decode_packet, packet_checks,
}
use computer_network_labs.Rtp.Receiver.{
  Receiver, fresh_receiver, ack_datagram, next, flush, recv_packet_turn, recv_packet_turn_opt, Poll,
  Run, returned, recv_loop,
}
use computer_network_labs.Rtp.Receiver.Flush.{flush_total}
use computer_network_labs.Rtp.Receiver.Invariant.{IsGenuine}
use computer_network_labs.Rtp.Receiver.Delivery.{IsGenuinePoll, data_datagram-IsGenuine}
use computer_network_labs.Rtp.Receiver.Message.{
  recv_message, recv_message_opt, Answers, Fails, recv_message-Answers, recv_message_opt-Answers,
}
use computer_network_labs.Rtp.Receiver.Acks.{AcksFrom, recv_packet_turn-AcksFrom}
use computer_network_labs.Rtp.Receiver.Versions.{EndsLike, recv_packet_turn-EndsLike}
use computer_network_labs.Rtp.Packet.Corruption.{IsWhole, set}
use computer_network_labs.Rtp.Receiver.Rejection.{IsDrained, Ignores, corrupted-Ignores}
use computer_network_labs.Rtp.Receiver.Selective.{
  SelectsFrom, recv_packet_turn_opt-SelectsFrom, recv_packet_turn_opt-beyond,
}
use computer_network_labs.Rtp.Receiver.Bounds.{Safe, Fits, IsSmall, recv_packet_turn-Safe}

abbrev hello : List ℕ
hello = 104 ∷ 101 ∷ 108 ∷ 108 ∷ 111 ∷ []

abbrev poll : List ℕ → Poll
poll d = record { expired = false; received = some d }

abbrev end_datagram : ℕ → List ℕ
end_datagram n = encode (make_rtp_header rtp_end 0 n true)

size_of : Run → Option ℕ
size_of (returned n r) = some n
size_of _ = none

-- The one segment and the END packet, after a copy of the END packet that comes too early.
abbrev session : Run
session =
    recv_loop recv_packet_turn (fresh_receiver 4 0)
      (poll (end_datagram 1) ∷ poll (data_datagram hello 0) ∷ poll (end_datagram 1) ∷ [])

session_returns : size_of session ≡ some 5
unfolding size_of recv_loop recv_packet_turn fresh_receiver data_datagram receive_buffer
    decode_packet packet_checks make_rtp_header encode decode checksum
session_returns = refl

flush_total_example : (r' : Receiver) × (flush (fresh_receiver 4 0) ≡ some r')
unfolding fresh_receiver
flush_total_example = flush_total (fresh_receiver 4 0) 0 (omega arith) (omega arith) (omega arith)

genuine : IsGenuinePoll hello (poll (data_datagram hello 0))
genuine d e =
    subst (λ x. IsGenuine hello (decode_packet (receive_buffer x)))
      (some-injective (data_datagram hello 0) d e)
      (data_datagram-IsGenuine hello 0 (omega arith) (omega arith))

abbrev data_polls : List Poll
data_polls = poll (data_datagram hello 0) ∷ poll (data_datagram hello 0) ∷ []

recv_message-Answers_example :
    Answers hello (Fails true true data_polls) (recv_message true true 4 0 data_polls)
recv_message-Answers_example =
    recv_message-Answers hello true true 4 data_polls (omega arith) (genuine, (genuine, tt))

recv_message_opt-Answers_example :
    Answers hello (Fails true false data_polls) (recv_message_opt true false 4 0 data_polls)
recv_message_opt-Answers_example =
    recv_message_opt-Answers hello true false 4 data_polls (omega arith) (genuine, (genuine, tt))

abbrev packet : Packet
packet = decode_packet (receive_buffer (data_datagram hello 0))

recv_packet_turn-AcksFrom_example :
    AcksFrom (fresh_receiver 4 0) packet (recv_packet_turn (fresh_receiver 4 0) packet)
recv_packet_turn-AcksFrom_example = recv_packet_turn-AcksFrom (fresh_receiver 4 0) packet

packet-IsSmall : IsSmall 1 packet
unfolding data_datagram receive_buffer decode_packet packet_checks make_rtp_header encode decode
packet-IsSmall = record {
  data_length = λ t. omega arith;
  end_length = λ t. omega arith;
  number = λ t c. omega arith;
}

fresh-Fits : Fits 1 (fresh_receiver 4 0)
unfolding fresh_receiver
fresh-Fits = record { base = omega arith; room = omega arith; clear = λ i le. omega arith }

recv_packet_turn-Safe_example :
    Safe 1 (recv_packet_turn (fresh_receiver 4 0) packet)
    × Safe 1 (recv_packet_turn_opt (fresh_receiver 4 0) packet)
recv_packet_turn-Safe_example =
    recv_packet_turn-Safe 1 (fresh_receiver 4 0) packet packet-IsSmall fresh-Fits

recv_packet_turn_opt-SelectsFrom_example :
    SelectsFrom (fresh_receiver 4 0) packet (recv_packet_turn_opt (fresh_receiver 4 0) packet)
recv_packet_turn_opt-SelectsFrom_example =
    recv_packet_turn_opt-SelectsFrom (fresh_receiver 4 0) packet

-- A packet behind a window of no packets.
recv_packet_turn_opt-beyond_example :
    recv_packet_turn_opt (fresh_receiver 0 0) packet
    ≡ next (fresh_receiver 0 0) (ack_datagram packet.rtp.seq_num ∷ [])
unfolding fresh_receiver data_datagram receive_buffer decode_packet packet_checks make_rtp_header
    encode decode checksum
recv_packet_turn_opt-beyond_example =
    recv_packet_turn_opt-beyond (fresh_receiver 0 0) packet refl refl (omega arith) (omega arith)
      (omega arith) (omega arith) (λ e. omega arith)

recv_packet_turn-EndsLike_example :
    EndsLike
      (recv_packet_turn (fresh_receiver 4 0) packet)
      (recv_packet_turn_opt (fresh_receiver 4 0) packet)
recv_packet_turn-EndsLike_example = recv_packet_turn-EndsLike (fresh_receiver 4 0) packet

fresh-IsDrained : IsDrained (fresh_receiver 4 0)
unfolding fresh_receiver
fresh-IsDrained = record { inside = omega arith; missing = omega arith }

end-IsWhole : IsWhole (end_datagram 0)
unfolding encode make_rtp_header decode checksum
end-IsWhole = record { bytes = omega arith; header = omega arith; whole = refl; fits = omega arith }

end_checks : packet_checks (decode_packet (receive_buffer (end_datagram 0))) ≡ true
unfolding packet_checks encode make_rtp_header decode checksum decode_packet receive_buffer
end_checks = refl

-- An END packet that a changed byte makes a DATA packet.
corrupted-Ignores_example :
    Ignores (fresh_receiver 4 0) (decode_packet (receive_buffer (set (end_datagram 0) 0 2)))
unfolding encode make_rtp_header
corrupted-Ignores_example =
    corrupted-Ignores (fresh_receiver 4 0) (end_datagram 0) 0 2 fresh-IsDrained end-IsWhole
      end_checks (omega arith) (omega arith) (omega arith) (omega arith) (omega arith)
