-- ===== src/Rtp/Sender.antt =====
-- Lab2/My Codes/sender_def.c with the cumulative acknowledgements: `initSender`, `sendMessage` and
-- `terminateSender`. The socket and the timer are inputs, what `rtp_recv` and `read` return; the
-- calls that only start or stop the timer are left out.
pub mod Window
pub mod Session
mod Examples
use computer_network_labs.Prelude.{
  ℕ, zero, suc, ◌+◌, ◌-◌, ◌%◌, ◌^◌, Bool, true, false, not, ◌&&◌, ◌||◌, List, [], ◌∷◌, ◌++◌, Option,
  none, some, ℤ, pos, negsuc, minus_one, ltb, leb, ◌==◌, if◌then◌else◌, drop, length,
}
use computer_network_labs.Rtp.Header.{
  Header, encode, decode, make_rtp_header, checks, rtp_start, rtp_end, rtp_ack,
}
use computer_network_labs.Rtp.Packet.{file_statics, data_datagram}

-- The globals that both versions of the sender use. `first` only decides when the timer starts.
pub record Sender : Type 0 where
  pub send_base : ℕ
  pub next_seq_num : ℕ
  pub window : ℕ

-- What `recvfrom` returns: -1, or the number of bytes read.
abbrev pub recv_num : Option (List ℕ) → ℤ
recv_num none = minus_one
recv_num (some d) = pos (length d)

-- The buffer, which is cleared before the call.
abbrev pub recv_buffer : Option (List ℕ) → List ℕ
recv_buffer none = []
recv_buffer (some d) = d

-- `n < sizeof(rtp_header_t)`: the comparison is unsigned, and -1 becomes the greatest number.
abbrev pub lt_header_size : ℤ → Bool
lt_header_size (pos n) = ltb n 11
lt_header_size (negsuc n) = false

abbrev pub start_datagram : ℕ → List ℕ
start_datagram seq = encode (make_rtp_header rtp_start 0 seq true)

abbrev pub end_datagram : ℕ → List ℕ
end_datagram seq = encode (make_rtp_header rtp_end 0 seq true)

-- `initSender`: the result and the datagrams sent, from the random number, whether the socket was
-- made, whether `sendto` succeeded, and what comes back within 100 ms.
unfoldable pub init_sender : ℕ → Bool → Bool → Option (List ℕ) → ℤ × List (List ℕ)
init_sender start_seq connected sent reply =
    let recv_header = decode (recv_buffer reply) in
    if not connected
    then (minus_one, [])
    else if not sent
    then (minus_one, start_datagram start_seq ∷ [])
    else if lt_header_size (recv_num reply)
    then (minus_one, start_datagram start_seq ∷ end_datagram 0 ∷ [])
    else if not (recv_header.seq_num == start_seq)
        || (not (recv_header.type == rtp_ack) || not (checks recv_header))
    then (minus_one, start_datagram start_seq ∷ end_datagram 0 ∷ [])
    else (pos 0, start_datagram start_seq ∷ [])

-- The test of an acknowledgement.
abbrev pub is_ack : Header → Bool
is_ack h = h.type == rtp_ack && checks h

-- One acknowledgement of `sendMessage`: the new `send_base`.
unfoldable pub take_ack : ℕ → Header → ℕ
take_ack base ack =
    if is_ack ack then (if ltb base ack.seq_num then ack.seq_num else base) else base

-- `while(recv_len >= 11)` over the datagram, 11 bytes a round; `fuel` rounds at most.
unfoldable pub take_acks : ℕ → ℕ → List ℕ → ℕ
unfolding take_ack
take_acks zero base datagram = base
take_acks (suc fuel) base datagram = elim (leb 11 (length datagram)) [
  | true ↦ take_acks fuel (take_ack base (decode datagram)) (drop 11 datagram)
  | false ↦ base
]

-- What a turn finds: what `rtp_recv` reads without waiting, and whether the timer has run out.
pub record Poll : Type 0 where
  pub received : Option (List ℕ)
  pub expired : Bool

-- `next_seq_num < send_base + window && next_seq_num >= send_base`, in 32 bits.
unfoldable pub may_send : Sender → Bool
may_send s =
    ltb s.next_seq_num ((s.send_base + s.window) % 2 ^ 32) && leb s.send_base s.next_seq_num

-- The first part of a turn: the next packet, if the window allows it.
unfoldable pub send_next : List ℕ → Sender → Sender × List (List ℕ)
unfolding may_send
send_next file s =
    if may_send s
    then (
      record s { next_seq_num = (s.next_seq_num + 1) % 2 ^ 32 },
      data_datagram file s.next_seq_num ∷ [],
    )
    else (s, [])

-- The second part: acknowledgements.
unfoldable pub receive_acks : Option (List ℕ) → Sender → Sender
unfolding take_acks
receive_acks reply s = record s {
  send_base = take_acks (length (recv_buffer reply)) s.send_base (recv_buffer reply);
}

-- The third part: on the timer, go back to `send_base`.
unfoldable pub on_timer : Bool → Sender → Sender
on_timer expired s = if expired then record s { next_seq_num = s.send_base } else s

-- The body of the loop of `sendMessage` behind its first test: the state, and the datagrams sent.
unfoldable pub send_turn : List ℕ → Sender → Poll → Sender × List (List ℕ)
unfolding send_next receive_acks on_timer
send_turn file s w =
    let (s', sent) = send_next file s in (on_timer w.expired (receive_acks w.received s'), sent)

-- A run of `sendMessage` over the turns that come: still going, or returned 0. It never returns -1.
pub data Run : Type 0 where
  going : Sender → List (List ℕ) → Run
  returned : Sender → List (List ℕ) → Run

-- `sent` are the datagrams so far, the last one first.
unfoldable pub send_loop : List ℕ → Sender → List (List ℕ) → List Poll → Run
unfolding send_turn
send_loop file s sent [] =
    if leb (file_statics (length file)) s.send_base then returned s sent else going s sent
send_loop file s sent (w ∷ ws) = elim (leb (file_statics (length file)) s.send_base) [
  | true ↦ returned s sent
  | false ↦ let (s', out) = send_turn file s w in send_loop file s' (out ++ sent) ws
]

-- `terminateSender`: the END packet.
unfoldable pub terminate_sender : Sender → List ℕ
terminate_sender s = end_datagram s.send_base
