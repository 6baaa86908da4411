-- ===== src/Rtp/Protocol/Again.antt =====
-- Lab2/My Codes: a second transfer in the same processes. `initSender` and `initReceiver` leave
-- `send_base` and `recv_base` as the first transfer left them.
use computer_network_labs.Prelude.{
  ℕ, ◌≤◌, ◌<◌, ◌^◌, ◌≡◌, refl, true, false, List, [], ◌∷◌, some, pos, leb, length, arith,
}
use computer_network_labs.Rtp.Header.{encode}
use computer_network_labs.Rtp.Packet.{file_statics, receive_buffer, decode_packet}
use computer_network_labs.Rtp.Receiver
use computer_network_labs.Rtp.Sender
use computer_network_labs.Rtp.Receiver.{
  Receiver, ack_datagram, finish, fresh_receiver, poll_turn, recv_loop, recv_packet_turn,
}
use computer_network_labs.Rtp.Receiver.Message.{ended, to_int, after_loop, recv_message}
use computer_network_labs.Rtp.Sender.{Sender, returned, send_loop, end_datagram, terminate_sender}
use computer_network_labs.Rtp.Protocol.Ending.{end_finishes}

-- The turn in which a datagram arrives.
abbrev pub arrival : List ℕ → Receiver.Poll
arrival d = record { expired = false; received = some d }

recv_loop-end :
    (window base seq : ℕ) (ws : List Receiver.Poll)
    → seq < 2 ^ 32
    → seq ≤ base
    → recv_loop recv_packet_turn (fresh_receiver window base) (arrival (end_datagram seq) ∷ ws)
      ≡ Receiver.returned 0 (fresh_receiver window base)
unfolding encode fresh_receiver
recv_loop-end window base seq ws fits le =
    let r = fresh_receiver window base in
    let turn : recv_packet_turn r (decode_packet (receive_buffer (end_datagram seq)))
        ≡ finish r (ack_datagram base ∷ []) =
      end_finishes r seq fits le in
    unfold recv_loop poll_turn in rw (recv_loop, poll_turn, turn) refl

send_loop-over :
    (file : List ℕ) (s : Sender) (ws : List Sender.Poll)
    → file_statics (length file) ≤ s.send_base
    → send_loop file s [] ws ≡ returned s []
send_loop-over file s ws le = by_turns ws
  where
    over : leb (file_statics (length file)) s.send_base ≡ true
    over = ground arith

    by_turns : (ws : List Sender.Poll) → send_loop file s [] ws ≡ returned s []
    by_turns [] = unfold send_loop in rw over refl
    by_turns (w ∷ ws) = unfold send_loop in rw (send_loop, over) refl

-- Let both programs end a first transfer with `send_base` and `recv_base` at its number of
-- segments, below 2 ^ 32, and start a second one for a file that has no more segments. Then
-- `sendMessage` returns 0 at once and has sent nothing, whatever its turns bring, and the END
-- packet that `terminateSender` sends ends `recvMessage`, if it arrives first, with the result 0
-- and an empty file.
pub second_transfer_is_empty :
    (file : List ℕ) (s : Sender) (window : ℕ) (ws : List Sender.Poll) (vs : List Receiver.Poll)
    → s.send_base < 2 ^ 32
    → file_statics (length file) ≤ s.send_base
    → (send_loop file s [] ws ≡ returned s [])
      × (recv_message true true window s.send_base (arrival (terminate_sender s) ∷ vs)
          ≡ ended (pos 0) (some []))
unfolding fresh_receiver
second_transfer_is_empty file s window ws vs fits le = (
  send_loop-over file s ws le,
  unfold recv_message after_loop to_int terminate_sender in
      rw (recv_loop-end window s.send_base s.send_base vs fits (omega arith)) refl,
)
