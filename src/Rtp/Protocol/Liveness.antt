-- ===== src/Rtp/Protocol/Liveness.antt =====
-- Lab2/My Codes: from every state that a run can reach, the transfer can be finished.
use computer_network_labs.Prelude.{
  ℕ, zero, suc, ◌+◌, ◌≤◌, ◌<◌, ◌^◌, ◌≡◌, refl, ap, ◌∙◌, inl, inr, Bool, true, false, List, [], ◌∷◌,
  ◌++◌, some, length, leb, Bool-cases, arith,
}
use computer_network_labs.Rtp.Crc.Ieee.{IsBytes}
use computer_network_labs.Rtp.Packet.{file_statics, receive_buffer, decode_packet, data_datagram}
use computer_network_labs.Rtp.Receiver.{
  cache_size, fresh_receiver, ack_datagram, recv_packet_turn, finish,
}
use computer_network_labs.Rtp.Sender.{Poll, send_turn, terminate_sender}
use computer_network_labs.Rtp.Sender.Window.{send_turn-IsInWindow, send_turn-base}
use computer_network_labs.Rtp.Protocol.{System, Step, Reach, here, more, initial}
use computer_network_labs.Rtp.Packet.Segments.{segments-file_statics}
use computer_network_labs.Rtp.Protocol.Safety.{initial-IsConsistent}
use computer_network_labs.Rtp.Protocol.Stale.{receive_acks-ack}
use computer_network_labs.Rtp.Protocol.Ending.{end_finishes}
use computer_network_labs.Rtp.Protocol.Rounds.{
  IsReady, Step-IsReady, Reach-IsReady, ready-IsInWindow, silent, receive_acks-none,
  send_turn-first, receive_round, Reach-append,
}

-- The state after a turn of the sender.
abbrev sent_state : List ℕ → System → Poll → System
sent_state file t w = record t {
  sender = (send_turn file t.sender w).0;
  data_net = (send_turn file t.sender w).1 ++ t.data_net;
}

abbrev Running : List ℕ → System → Type 0
Running file t = leb (file_statics (length file)) t.sender.send_base ≡ false

-- A silent turn keeps `send_base`.
silent-base :
    (file : List ℕ) (t : System) (expired : Bool)
    → (sent_state file t (silent expired)).sender.send_base ≡ t.sender.send_base
silent-base file t expired =
    (send_turn-base file t.sender (silent expired)).0 ∙ receive_acks-none t.sender

-- The timer runs out, and the sender sends the packet of `send_base`.
resend :
    (file : List ℕ) (n : ℕ) (t : System)
    → IsBytes file
    → IsReady file n t
    → Running file t
    → (u : System) × Reach file t u
      × IsReady file n u
      × (u.sender.send_base ≡ t.sender.send_base)
      × ((rest : List (List ℕ)) × (u.data_net ≡ data_datagram file t.sender.send_base ∷ rest))
resend file n t hf v running =
    let first = Step.send {t = t} (silent true) running tt in
    let middle = sent_state file t (silent true) in
    let v' = Step-IsReady file n hf first v in
    let base = silent-base file t true in
    let turn = send_turn-IsInWindow file t.sender (silent true) (ready-IsInWindow file n t v) in
    let back : middle.sender.next_seq_num ≡ middle.sender.send_base = turn.3 in
    let running' : Running file middle = rw base running in
    let second = Step.send {t = middle} (silent false) running' tt in
    let sends =
      send_turn-first file middle.sender (silent false) back v'.may_send
        (ready-IsInWindow file n middle v').fits in
    (
      sent_state file middle (silent false),
      more (more here first) second,
      Step-IsReady file n hf second v',
      silent-base file middle false ∙ base,
      (middle.data_net, ap (λ (x : List (List ℕ)). x ++ middle.data_net) sends ∙ rw base refl),
    )

-- The packet of `send_base` arrives, and so does its acknowledgement: `send_base` has grown.
round_trip :
    (file : List ℕ) (n : ℕ) (t : System) (rest : List (List ℕ))
    → IsBytes file
    → IsReady file n t
    → Running file t
    → t.data_net ≡ data_datagram file t.sender.send_base ∷ rest
    → (u : System) × Reach file t u × IsReady file n u × (t.sender.send_base < u.sender.send_base)
round_trip file n t rest hf v running sent =
    let base = t.sender.send_base in
    let below : t.sender.send_base < n = ground (arith, v.room.enough) in
    let (r, e, past) = receive_round file n t base hf v below v.consistent.behind in
    let first =
      Step.receive {t = t} (data_datagram file base) r (ack_datagram r.recv_base ∷ [])
        (inl (rw sent (inl refl))) e in
    let v' = Step-IsReady file n hf first v in
    let middle : System = record t {
      receiver = r;
      ack_net = ack_datagram r.recv_base ∷ t.ack_net;
    } in
    let w : Poll = record { received = some (ack_datagram r.recv_base); expired = false } in
    let second = Step.send {t = middle} w running (inl (inl refl)) in
    let grown =
      (send_turn-base file t.sender w).0
      ∙ receive_acks-ack t.sender r.recv_base (omega (arith, v'.consistent.receiver.inside)) past in
    (
      sent_state file middle w,
      more (more here first) second,
      Step-IsReady file n hf second v',
      rw grown past,
    )

round :
    (file : List ℕ) (n : ℕ) (t : System)
    → IsBytes file
    → IsReady file n t
    → Running file t
    → (u : System) × Reach file t u × IsReady file n u × (t.sender.send_base < u.sender.send_base)
round file n t hf v running =
    let (m, reach, v', base, (rest, net)) = resend file n t hf v running in
    let (u, reach', v'', grown) = round_trip file n m rest hf v' (rw base running) (rw base net) in
    (u, Reach-append reach reach', v'', rw base at grown)

finish_rounds :
    (rounds : ℕ) (file : List ℕ) (n : ℕ) (t : System)
    → IsBytes file
    → IsReady file n t
    → file_statics (length file) ≤ t.sender.send_base + rounds
    → (u : System) × Reach file t u
      × IsReady file n u
      × (file_statics (length file) ≤ u.sender.send_base)
finish_rounds zero file n t hf v le = (t, here, v, omega arith)
finish_rounds (suc rounds) file n t hf v le =
    elim (Bool-cases (leb (file_statics (length file)) t.sender.send_base)) [
      | inl done ↦ (t, here, v, ground arith)
      | inr running ↦
          let (m, reach, v', grown) = round file n t hf v running in
          let (u, reach', v'', over) = finish_rounds rounds file n m hf v' (omega arith) in
          (u, Reach-append reach reach', v'', over)
    ]

initial-IsReady :
    (file : List ℕ) (window window_recv : ℕ)
    → file_statics (length file) + window < cache_size
    → 0 < window
    → 0 < window_recv
    → window_recv + cache_size ≤ 2 ^ 32
    → IsReady file (file_statics (length file) + window) (initial window window_recv)
unfolding initial fresh_receiver
initial-IsReady file window window_recv enough pos pos' fits = record {
  consistent =
      unfold initial fresh_receiver in initial-IsConsistent file window window_recv (omega arith);
  room = record {
    fits = record { base = omega arith; room = enough; clear = λ i le e. omega arith };
    packets = tt;
    enough = omega arith;
  };
  may_send = pos;
  may_receive = pos';
  fits_receiver = fits;
}

-- Let a file of bytes, the sender's window and the receiver's arrays be such that the arrays hold
-- the segments and one window. Neither window is empty, and the receiver's is at most 2 ^ 32 -
-- 80000, so that its end does not wrap around. From every state that a run over the network can
-- reach, however much was lost, there is a continuation of the run after which the test is met on
-- which `sendMessage` returns; and then the END packet that `terminateSender` makes ends the loop
-- of `recvMessage`, with the whole file written.
pub can_finish :
    (file : List ℕ) (window window_recv : ℕ) (t : System)
    → IsBytes file
    → file_statics (length file) + window < cache_size
    → 0 < window
    → 0 < window_recv
    → window_recv + cache_size ≤ 2 ^ 32
    → Reach file (initial window window_recv) t
    → (u : System) × Reach file t u
      × (file_statics (length file) ≤ u.sender.send_base)
      × (recv_packet_turn u.receiver (decode_packet (receive_buffer (terminate_sender u.sender)))
          ≡ finish u.receiver (ack_datagram u.receiver.recv_base ∷ []))
      × (u.receiver.written ≡ file)
unfolding terminate_sender
can_finish file window window_recv t hf enough pos pos' fits reach =
    let n = file_statics (length file) + window in
    let v =
      Reach-IsReady file n hf (initial-IsReady file window window_recv enough pos pos' fits)
        reach in
    let (u, reach', v', over) =
      finish_rounds (file_statics (length file)) file n t hf v (omega arith) in
    let c = v'.consistent in
    (
      u,
      reach',
      over,
      end_finishes u.receiver u.sender.send_base (omega (arith, c.behind, c.receiver.inside))
          c.behind,
      c.receiver.prefix
          ∙ segments-file_statics file u.receiver.recv_base (omega (arith, c.receiver.inside))
              (omega (arith, c.behind)),
    )
