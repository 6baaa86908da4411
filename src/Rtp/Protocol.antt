-- ===== src/Rtp/Protocol.antt =====
-- Lab2/My Codes: `sendMessage` and `recvMessage` over a network. The network is no code of the
-- repository: it may lose, repeat, delay and reorder datagrams, and may deliver corrupted ones,
-- whose checksum is not the one of the bytes that the receiver computes it over. A turn of either
-- program is one step.
pub mod Behind
pub mod Safety
pub mod Room
pub mod Ending
pub mod Rounds
pub mod Liveness
pub mod Stale
pub mod Again
mod Examples
use computer_network_labs.Prelude.{
  ℕ, ◌≡◌, ◌⊎◌, Bool, true, false, List, [], ◌∷◌, ◌++◌, Option, none, some, leb, length, All,
}
use computer_network_labs.Rtp.Packet.{file_statics, receive_buffer, decode_packet}
use computer_network_labs.Rtp.Receiver.{
  Receiver, fresh_receiver, recv_packet_turn, Turn, next, finish,
}
use computer_network_labs.Rtp.Receiver.Caching.{HasChecksum}
use computer_network_labs.Rtp.Sender.{Sender, Poll, send_turn}
use computer_network_labs.Rtp.Sender.Window.{IsAck, headers}

-- Both programs, and all the datagrams that were ever sent each way.
pub record System : Type 0 where
  pub sender : Sender
  pub receiver : Receiver
  pub data_net : List (List ℕ)
  pub ack_net : List (List ℕ)

abbrev pub Among : List ℕ → List (List ℕ) → Type 0
Among d [] = ⊥
Among d (x ∷ xs) = (x ≡ d) ⊎ Among d xs

-- What can arrive at the receiver when `net` was sent: a datagram that was sent, or one whose
-- checksum is wrong.
abbrev pub DataArrives : List (List ℕ) → List ℕ → Type 0
DataArrives net d = Among d net ⊎ (¬ HasChecksum (decode_packet (receive_buffer d)))

-- What can arrive at the sender, if anything: a datagram that was sent, or one in which no header
-- is an acknowledgement with the right checksum.
abbrev pub AckArrives : List (List ℕ) → Option (List ℕ) → Type 0
AckArrives net none = Unit
AckArrives net (some d) = Among d net ⊎ All (λ h. ¬ IsAck h) (headers (length d) d)

pub data Step (file : List ℕ) : System → System → Type 0 where
  send :
      {t : System} (w : Poll)
      → leb (file_statics (length file)) t.sender.send_base ≡ false
      → AckArrives t.ack_net w.received
      → Step file t (record t {
        sender = (send_turn file t.sender w).0;
        data_net = (send_turn file t.sender w).1 ++ t.data_net;
      })
  receive :
      {t : System} (d : List ℕ) (r : Receiver) (sent : List (List ℕ))
      → DataArrives t.data_net d
      → recv_packet_turn t.receiver (decode_packet (receive_buffer d)) ≡ next r sent
      → Step file t (record t { receiver = r; ack_net = sent ++ t.ack_net })

pub data Reach (file : List ℕ) (s : System) : System → Type 0 where
  here : Reach file s s
  more : {t u : System} → Reach file s t → Step file t u → Reach file s u

-- Both programs behind the handshake, with no copy of its datagrams left in the network.
unfoldable pub initial : ℕ → ℕ → System
unfolding fresh_receiver
initial window window_recv = record {
  sender = record { send_base = 0; next_seq_num = 0; window = window };
  receiver = fresh_receiver window_recv 0;
  data_net = [];
  ack_net = [];
}
