-- ===== src/Rtp/ProtocolOpt.antt =====
-- Lab2/My Codes: `sendMessageOpt` and `recvMessageOpt` over the network of Rtp.Protocol. A turn of
-- either program that does not fault is one step.
pub mod Safety
mod Examples
use computer_network_labs.Prelude.{ℕ, ◌≡◌, false, List, [], ◌++◌, some, leb, length}
use computer_network_labs.Rtp.Packet.{file_statics, receive_buffer, decode_packet}
use computer_network_labs.Rtp.Receiver.{Receiver, fresh_receiver, recv_packet_turn_opt, next}
use computer_network_labs.Rtp.Sender.{Poll}
use computer_network_labs.Rtp.SenderOpt.{SenderOpt, clear_acked, send_turn_opt}
use computer_network_labs.Rtp.Protocol.{DataArrives, AckArrives}

-- Both programs, and all the datagrams that were ever sent each way.
pub record System : Type 0 where
  pub sender : SenderOpt
  pub receiver : Receiver
  pub data_net : List (List ℕ)
  pub ack_net : List (List ℕ)

pub data Step (file : List ℕ) : System → System → Type 0 where
  send :
      {t : System} (w : Poll) (s : SenderOpt) (sent : List (List ℕ))
      → leb (file_statics (length file)) t.sender.window.send_base ≡ false
      → AckArrives t.ack_net w.received
      → send_turn_opt file t.sender w ≡ some (s, sent)
      → Step file t (record t { sender = s; data_net = sent ++ t.data_net })
  receive :
      {t : System} (d : List ℕ) (r : Receiver) (sent : List (List ℕ))
      → DataArrives t.data_net d
      → recv_packet_turn_opt t.receiver (decode_packet (receive_buffer d)) ≡ next r sent
      → Step file t (record t { receiver = r; ack_net = sent ++ t.ack_net })

pub data Reach (file : List ℕ) (s : System) : System → Type 0 where
  here : Reach file s s
  more : {t u : System} → Reach file s t → Step file t u → Reach file s u

-- Both programs behind the handshake, with no copy of its datagrams left in the network.
unfoldable pub initial_opt : ℕ → ℕ → System
unfolding fresh_receiver
initial_opt window window_recv = record {
  sender = clear_acked (record {
    window = record { send_base = 0; next_seq_num = 0; window = window };
    acked = λ i. 0;
  });
  receiver = fresh_receiver window_recv 0;
  data_net = [];
  ack_net = [];
}
