-- ===== src/Rtp/Protocol/Stale.antt =====
-- Lab2/My Codes/sender_def.c: `sendMessage` and an acknowledgement that belongs to no DATA packet.
use computer_network_labs.Prelude.{
  ℕ, ◌≤◌, ◌<◌, ◌^◌, ◌≡◌, refl, ◌∙◌, Bool, true, false, List, [], ◌∷◌, ◌++◌, some, leb, length,
  arith,
}
use computer_network_labs.Rtp.Header.{make_rtp_header, rtp_ack}
use computer_network_labs.Rtp.Header.RoundTrip.{made-checks}
use computer_network_labs.Rtp.Packet.{file_statics}
use computer_network_labs.Rtp.Receiver.{ack_datagram}
use computer_network_labs.Rtp.Sender.{Sender, Poll, receive_acks, send_turn, returned, send_loop}
use computer_network_labs.Rtp.Sender.Session.{made-seq_num, made-type}
use computer_network_labs.Rtp.Sender.Window.{
  IsAck, is_ack-IsAck, IsGreatest, receive_acks-IsGreatest, send_turn-base,
}
use computer_network_labs.Rtp.Protocol.Behind.{headers-ack}

made-IsAck : (k : ℕ) → IsAck (make_rtp_header rtp_ack 0 k true)
made-IsAck k =
    (is_ack-IsAck (make_rtp_header rtp_ack 0 k true)).0
      (ground (arith, made-type rtp_ack k, made-checks rtp_ack 0 k))

-- One acknowledgement with a greater number becomes `send_base`.
pub receive_acks-ack :
    (s : Sender) (k : ℕ)
    → k < 2 ^ 32
    → s.send_base < k
    → (receive_acks (some (ack_datagram k)) s).send_base ≡ k
receive_acks-ack s k fits lt =
    let top = (receive_acks (some (ack_datagram k)) s).send_base in
    let g : IsGreatest s.send_base (make_rtp_header rtp_ack 0 k true ∷ []) top =
      rw (headers-ack k fits) at (receive_acks-IsGreatest s (some (ack_datagram k))) in
    let covered = g.bound.0 (made-IsAck k) in
    ground (arith, covered, g.reached, made-seq_num rtp_ack k)

-- The fault: an acknowledgement whose number is not below the number of segments, such as a second
-- copy of the answer to the START packet with its random number, makes `sendMessage` return 0 at
-- its next test, in every state in which it still runs and whatever the receiver has got.
pub send_loop_stale :
    (file : List ℕ) (s : Sender) (sent : List (List ℕ)) (k : ℕ) (expired : Bool) (ws : List Poll)
    → k < 2 ^ 32
    → file_statics (length file) ≤ k
    → s.send_base < file_statics (length file)
    → let w : Poll = record { received = some (ack_datagram k); expired = expired } in
      let t = send_turn file s w in send_loop file s sent (w ∷ ws) ≡ returned t.0 (t.1 ++ sent)
send_loop_stale file s sent k expired ws fits le lt = stops ws
  where
    w : Poll
    w = record { received = some (ack_datagram k); expired = expired }

    base : (send_turn file s w).0.send_base ≡ k
    base = (send_turn-base file s w).0 ∙ receive_acks-ack s k fits (omega arith)

    running : leb (file_statics (length file)) s.send_base ≡ false
    running = ground arith

    over : leb (file_statics (length file)) (send_turn file s w).0.send_base ≡ true
    over = ground (arith, base)

    stops :
        (ws : List Poll)
        → send_loop file s sent (w ∷ ws)
          ≡ returned (send_turn file s w).0 ((send_turn file s w).1 ++ sent)
    stops [] = unfold send_loop in rw (running, send_loop, over) refl
    stops (v ∷ ws) = unfold send_loop in rw (running, send_loop, over) refl
