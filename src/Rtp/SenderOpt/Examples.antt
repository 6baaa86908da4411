-- ===== src/Rtp/SenderOpt/Examples.antt =====
-- Lab2/My Codes/sender_def.c: the theorems on `sendMessageOpt` at concrete turns, and a run of it.
use computer_network_labs.Prelude.{
  ℕ, ◌≡◌, refl, false, List, [], ◌∷◌, Option, none, some, ◌==◌, ==_iff, if◌then◌else◌, arith,
}
use computer_network_labs.Rtp.Crc.{checksum}
use computer_network_labs.Rtp.Header.{encode, decode, make_rtp_header, checks}
use computer_network_labs.Rtp.Packet.{file_statics, data_datagram}
use computer_network_labs.Rtp.Receiver.{ack_datagram}
use computer_network_labs.Rtp.Sender.{Poll}
use computer_network_labs.Rtp.Sender.Window.{headers}
use computer_network_labs.Rtp.SenderOpt.{
  SenderOpt, send_again, send_turn_opt, send_message_opt, Run, going, returned, faulted,
}
use computer_network_labs.Rtp.SenderOpt.Turn.{
  SendsAgain, send_again-SendsAgain, TurnsTo, send_turn_opt-TurnsTo,
}
use computer_network_labs.Rtp.SenderOpt.Bounds.{StaysInside, send_turn_opt-StaysInside}

abbrev hello : List ℕ
hello = 104 ∷ 101 ∷ 108 ∷ 108 ∷ 111 ∷ []

-- Two packets were sent, and the second is acknowledged.
abbrev middle : SenderOpt
middle = record {
  window = record { send_base = 0; next_seq_num = 2; window = 2 };
  acked = λ i. if i == 1 then 1 else 0;
}

abbrev start : SenderOpt
start = record { window = record { send_base = 0; next_seq_num = 0; window = 2 }; acked = λ i. 0 }

abbrev poll : List ℕ → Poll
poll d = record { received = some d; expired = false }

is_returned : Run → Option ℕ
is_returned (going t sent) = none
is_returned (returned t sent) = some t.window.send_base
is_returned faulted = none

-- The array is as a transfer before this one left it.
abbrev used : SenderOpt
used = record start { acked = λ i. 1 }

run_returns :
    is_returned (send_message_opt hello used (poll [] ∷ poll (ack_datagram 0) ∷ [])) ≡ some 1
unfolding is_returned send_message_opt make_rtp_header encode decode checks checksum file_statics
run_returns = refl

-- An acknowledgement of a number behind the array faults.
far_ack_faults : send_turn_opt hello start (poll (ack_datagram 1804289383)) ≡ none
unfolding send_turn_opt make_rtp_header encode decode checks checksum
far_ack_faults = refl

send_again-SendsAgain_example : SendsAgain hello middle.acked 0 2 [] (data_datagram hello 0 ∷ [])
unfolding send_again
send_again-SendsAgain_example =
    send_again-SendsAgain hello middle.window middle.acked [] (data_datagram hello 0 ∷ []) refl

-- The packets 0 and 1 are acknowledged after the turn.
abbrev finished : SenderOpt
finished = record {
  window = record { send_base = 2; next_seq_num = 2; window = 2 };
  acked = λ i. if 0 == i then 1 else if i == 1 then 1 else 0;
}

send_turn_opt-TurnsTo_example : TurnsTo hello middle (poll (ack_datagram 0)) finished []
unfolding send_turn_opt make_rtp_header encode decode checks checksum
send_turn_opt-TurnsTo_example =
    send_turn_opt-TurnsTo hello middle finished (poll (ack_datagram 0)) [] (omega arith) refl

middle-StaysInside : StaysInside middle (poll (ack_datagram 0))
unfolding headers make_rtp_header encode decode checks checksum
middle-StaysInside = record {
  window = omega arith;
  room = omega arith;
  before = λ k h. ground (arith, ==_iff k 1);
  now = (λ e. omega arith, tt);
}

send_turn_opt-StaysInside_example :
    (out : SenderOpt × List (List ℕ)) × (send_turn_opt hello middle (poll (ack_datagram 0))
      ≡ some out)
send_turn_opt-StaysInside_example =
    send_turn_opt-StaysInside hello middle (poll (ack_datagram 0)) middle-StaysInside
