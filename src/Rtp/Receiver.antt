-- ===== src/Rtp/Receiver.antt =====
-- Lab2/My Codes/receiver_def.c. The arrays `packet_cache` and `cached` are functions of the index;
-- an access outside their 80000 elements, or outside the packet that was received, is a fault. The
-- socket and the timer are inputs: what `recv_packet` and `read` return on each turn of a loop.
pub mod Flush
pub mod Invariant
pub mod Delivery
pub mod Caching
pub mod Sort
pub mod Acks
pub mod Selective
pub mod Versions
pub mod Message
pub mod Rejection
pub mod Bounds
mod Examples
use computer_network_labs.Prelude.{
  ℕ, zero, suc, ◌+◌, ◌-◌, ◌%◌, ◌^◌, Bool, true, false, not, ◌&&◌, ◌||◌, List, [], ◌∷◌, ◌++◌, Option,
  none, some, ℤ, pos, minus_one, ltb, leb, ◌==◌, if◌then◌else◌, take, length,
}
use computer_network_labs.Rtp.Header.{
  Header, encode, decode, make_rtp_header, checks, rtp_start, rtp_end, rtp_data, rtp_ack,
}
use computer_network_labs.Rtp.Packet.{
  Packet, receive_buffer, decode_packet, clear_checksum, packet_checks,
}

-- The length of `packet_cache` and `cached`.
abbrev pub cache_size : ℕ
cache_size = 80000

-- The globals, and the bytes that were written to `fp`.
pub record Receiver : Type 0 where
  pub window_recv : ℕ
  pub recv_base : ℕ
  pub packet_cache : ℕ → Packet
  pub cached : ℕ → ℕ
  pub written : List ℕ

abbrev pub update {ℓ} : {A : Type ℓ} → (ℕ → A) → ℕ → A → ℕ → A
update f i v j = if i == j then v else f j

abbrev pub ack_datagram : ℕ → List ℕ
ack_datagram n = encode (make_rtp_header rtp_ack 0 n true)

-- `initReceiver`: the result and the datagrams sent, from whether the socket was bound, what
-- `recvfrom` read within ten seconds, and whether `sendto` succeeded.
unfoldable pub init_receiver : Bool → Option (List ℕ) → Bool → ℤ × List (List ℕ)
init_receiver bound none sent = (minus_one, [])
init_receiver bound (some datagram) sent =
    let start_header = decode (receive_buffer datagram) in
    if not bound || ltb (length datagram) 11
    then (minus_one, [])
    else if not (checks start_header) || not (start_header.type == rtp_start)
    then (minus_one, [])
    else if not sent
    then (minus_one, ack_datagram start_header.seq_num ∷ [])
    else (pos 0, ack_datagram start_header.seq_num ∷ [])

-- One round of the loop that writes cached packets: `fwrite` and `recv_base += 1`.
unfoldable pub write_one : Receiver → Receiver
write_one r = record r {
  recv_base = r.recv_base + 1;
  written = let p = r.packet_cache r.recv_base in r.written ++ take p.rtp.length p.payload;
}

-- `while(cached[recv_base] == 1)`, with one round for each index from `recv_base` on. After the
-- last one the test reads behind the end of the array, which is the fault.
unfoldable pub flush_rounds : ℕ → Receiver → Option Receiver
unfolding write_one
flush_rounds zero r = none
flush_rounds (suc n) r =
    let rest = flush_rounds n (write_one r) in if r.cached r.recv_base == 1 then rest else some r

unfoldable pub flush : Receiver → Option Receiver
unfolding flush_rounds
flush r = flush_rounds (cache_size - r.recv_base) r

-- The window test of the code, in 32 bits.
unfoldable pub in_window : Receiver → ℕ → Bool
in_window r seq_num =
    ltb seq_num ((r.recv_base + r.window_recv) % 2 ^ 32) && leb r.recv_base seq_num

-- `packet_cache[seq_num] = recv_p` and `cached[seq_num] = 1`
unfoldable pub stored : Receiver → Packet → Receiver
unfolding clear_checksum
stored r p = record r {
  packet_cache = update r.packet_cache p.rtp.seq_num (clear_checksum p);
  cached = update r.cached p.rtp.seq_num 1;
}

-- The cache after a packet whose checksum is right.
unfoldable pub store : Receiver → Packet → Option Receiver
unfolding in_window stored
store r p =
    if not (in_window r p.rtp.seq_num)
    then some r
    else if not (ltb p.rtp.seq_num cache_size)
    then none
    else some (stored r p)

-- A turn of a loop goes on, ends the loop, or faults. The datagrams are those that it sends.
pub data Turn : Type 0 where
  next : Receiver → List (List ℕ) → Turn
  finish : Receiver → List (List ℕ) → Turn
  fault : Turn

-- The end of a turn of `recvMessage`: the loop that writes, then the cumulative acknowledgement.
unfoldable pub flush_and_ack : Option Receiver → Turn
unfolding flush
flush_and_ack none = fault
flush_and_ack (some r) = elim (flush r) [
  | none ↦ fault
  | some r' ↦ next r' (ack_datagram r'.recv_base ∷ [])
]

-- The end of a turn of `recvMessageOpt`, after the datagrams `sent` so far.
unfoldable pub flush_only : List (List ℕ) → Option Receiver → Turn
unfolding flush
flush_only sent none = fault
flush_only sent (some r) = elim (flush r) [ none ↦ fault | some r' ↦ next r' sent ]

-- `recv_p.rtp.type == RTP_END && recv_p.rtp.seq_num <= recv_base`
abbrev pub is_end : Receiver → Packet → Bool
is_end r p = p.rtp.type == rtp_end && leb p.rtp.seq_num r.recv_base

-- The turn of `recvMessage` for a packet. The checksum is computed over 11 + length bytes, which
-- are in the packet for a length of at most 1461.
unfoldable pub recv_packet_turn : Receiver → Packet → Turn
unfolding store flush_and_ack packet_checks
recv_packet_turn r p =
    if p.rtp.type == rtp_data
    then if ltb 1461 p.rtp.length
      then fault
      else flush_and_ack (if packet_checks p then store r p else some r)
    else if not (is_end r p)
    then flush_and_ack (some r)
    else if ltb 1461 p.rtp.length
    then fault
    else if packet_checks p
    then finish r (ack_datagram r.recv_base ∷ [])
    else flush_and_ack (some r)

-- The same for `recvMessageOpt`, which acknowledges the packet itself.
unfoldable pub recv_packet_turn_opt : Receiver → Packet → Turn
unfolding store flush_only packet_checks
recv_packet_turn_opt r p =
    if p.rtp.type == rtp_data
    then if ltb 1461 p.rtp.length
      then fault
      else if packet_checks p
      then flush_only (ack_datagram p.rtp.seq_num ∷ []) (store r p)
      else flush_only [] (some r)
    else if not (is_end r p)
    then flush_only [] (some r)
    else if ltb 1461 p.rtp.length
    then fault
    else if packet_checks p
    then finish r (ack_datagram r.recv_base ∷ [])
    else flush_only [] (some r)

-- What a turn finds: that the ten seconds are over, and what `recv_packet` reads, if anything.
pub record Poll : Type 0 where
  pub expired : Bool
  pub received : Option (List ℕ)

-- A run of a loop is still going, returned -1 on the timer, returned the size of the file, or
-- faulted.
pub data Run : Type 0 where
  going : Receiver → Run
  timed_out : Run
  returned : ℕ → Receiver → Run
  faulted : Run

-- The body of either loop; `turn` is its part for a packet. An empty datagram is like none.
unfoldable pub poll_turn : (Receiver → Packet → Turn) → Receiver → Poll → Turn
poll_turn turn r w = elim w.received [
  | none ↦ next r []
  | some datagram ↦
      if length datagram == 0 then next r [] else turn r (decode_packet (receive_buffer datagram))
]

-- Either loop over the turns that come; `recvMessage` is `recv_loop recv_packet_turn`.
unfoldable pub recv_loop : (Receiver → Packet → Turn) → Receiver → List Poll → Run
unfolding poll_turn
recv_loop turn r [] = going r
recv_loop turn r (w ∷ ws) = elim w.expired [
  | true ↦ timed_out
  | false ↦ elim (poll_turn turn r w) [
    | next r' sent ↦ recv_loop turn r' ws
    | finish r' sent ↦ returned (length r'.written) r'
    | fault ↦ faulted
  ]
]

-- The state in which `recvMessage` starts: the arrays are cleared and the file is empty.
unfoldable pub fresh_receiver : ℕ → ℕ → Receiver
fresh_receiver window base = record {
  window_recv = window;
  recv_base = base;
  packet_cache = λ i. decode_packet (receive_buffer []);
  cached = λ i. 0;
  written = [];
}
