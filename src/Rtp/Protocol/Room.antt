-- ===== src/Rtp/Protocol/Room.antt =====
-- Lab2/My Codes: the arrays of the receiver are long enough for a file whose segments and window
-- they hold.
use computer_network_labs.Prelude.{
  ℕ, ◌+◌, ◌≤◌, ◌<◌, ◌≡◌, refl, inl, inr, false, List, ◌++◌, length, leb, All, All-append, arith,
}
use computer_network_labs.Rtp.Crc.Ieee.{IsBytes}
use computer_network_labs.Rtp.Packet.{file_statics, receive_buffer, decode_packet, data_datagram}
use computer_network_labs.Rtp.Packet.RoundTrip.{data_datagram_arrives}
use computer_network_labs.Rtp.Receiver.{Receiver, cache_size, recv_packet_turn, next}
use computer_network_labs.Rtp.Receiver.Caching.{packet_checks_refuses}
use computer_network_labs.Rtp.Receiver.Bounds.{
  Fits, IsSmall, Safe, recv_packet_turn-Safe, recv_packet_turn-KeepsRoom,
}
use computer_network_labs.Rtp.Sender.{Poll, send_turn}
use computer_network_labs.Rtp.Sender.Window.{SendsInWindow, send_turn-IsInWindow, send_turn-base}
use computer_network_labs.Rtp.Protocol.{System, DataArrives, Step, send, receive}
use computer_network_labs.Rtp.Protocol.Behind.{All-among}
use computer_network_labs.Rtp.Protocol.Safety.{IsConsistent}

-- A packet of one of the first `n` numbers.
abbrev IsPacketBelow : List ℕ → ℕ → List ℕ → Type 0
IsPacketBelow file n d = (k : ℕ) × (d ≡ data_datagram file k) × (k < n)

-- There is room for `n` numbers, the segments and one window, and only such packets are sent.
pub record HasRoom (file : List ℕ) (n : ℕ) (t : System) : Type 0 where
  pub fits : Fits n t.receiver
  pub packets : All (IsPacketBelow file n) t.data_net
  pub enough : file_statics (length file) + t.sender.window ≤ n

pub packet-IsSmall :
    (file : List ℕ) (n k : ℕ)
    → IsBytes file
    → n < cache_size
    → k < n
    → IsSmall n (decode_packet (receive_buffer (data_datagram file k)))
packet-IsSmall file n k hf room lt =
    let a = data_datagram_arrives file k (omega arith) hf in
    record { data_length = λ t. a.2; end_length = λ t. a.2; number = λ t c. omega (arith, a.1) }

sent-below :
    (file : List ℕ) (n : ℕ) (t : System) (sent : List (List ℕ))
    → t.sender.send_base + t.sender.window ≤ n
    → SendsInWindow file t.sender sent
    → All (IsPacketBelow file n) sent
sent-below file n t sent le (inl e) = rw e tt
sent-below file n t sent le (inr (e, above, below)) =
    rw e ((t.sender.next_seq_num, refl, omega arith), tt)

send-HasRoom :
    (file : List ℕ) (n : ℕ) (t : System) (w : Poll)
    → leb (file_statics (length file)) t.sender.send_base ≡ false
    → IsConsistent file t
    → HasRoom file n t
    → HasRoom file n (record t {
      sender = (send_turn file t.sender w).0;
      data_net = (send_turn file t.sender w).1 ++ t.data_net;
    })
send-HasRoom file n t w running v h =
    let turn =
      send_turn-IsInWindow file t.sender w
        (record { fits = omega (arith, v.receiver.inside, v.behind, v.fits); ahead = v.ahead }) in
    let (base, window) = send_turn-base file t.sender w in
    let below : t.sender.send_base + t.sender.window ≤ n = ground (arith, h.enough) in
    record {
      fits = h.fits;
      packets =
          All-append (IsPacketBelow file n) (send_turn file t.sender w).1 t.data_net
            (sent-below file n t (send_turn file t.sender w).1 below turn.0) h.packets;
      enough = rw window h.enough;
    }

receive-Fits :
    (file : List ℕ) (n : ℕ) (r r' : Receiver) (net sent : List (List ℕ)) (d : List ℕ)
    → IsBytes file
    → All (IsPacketBelow file n) net
    → DataArrives net d
    → recv_packet_turn r (decode_packet (receive_buffer d)) ≡ next r' sent
    → Fits n r
    → Fits n r'
receive-Fits file n r r' net sent d hf packets (inr bad) e v =
    let refused = packet_checks_refuses (decode_packet (receive_buffer d)) bad in
    rw e at (recv_packet_turn-KeepsRoom n r (decode_packet (receive_buffer d)) refused v)
receive-Fits file n r r' net sent d hf packets (inl among) e v =
    let (k, same, lt) = All-among (IsPacketBelow file n) d net packets among in
    let small : IsSmall n (decode_packet (receive_buffer d)) =
      rw same (packet-IsSmall file n k hf v.room lt) in
    let safe : Safe n (recv_packet_turn r (decode_packet (receive_buffer d))) =
      (recv_packet_turn-Safe n r (decode_packet (receive_buffer d)) small v).0 in
    rw e at safe

pub Step-HasRoom :
    (file : List ℕ) (n : ℕ) {t u : System}
    → IsBytes file
    → IsConsistent file t
    → Step file t u
    → HasRoom file n t
    → HasRoom file n u
Step-HasRoom file n hf v (send {t = t} w running arrives) h = send-HasRoom file n t w running v h
Step-HasRoom file n hf v (receive {t = t} d r sent arrives e) h = record {
  fits = receive-Fits file n t.receiver r t.data_net sent d hf h.packets arrives e h.fits;
  packets = h.packets;
  enough = h.enough;
}
