-- ===== src/Rtp/Receiver/Versions.antt =====
-- Lab2/My Codes/receiver_def.c: `recvMessage` and `recvMessageOpt` differ only in what they send.
use computer_network_labs.Prelude.{
  ◌≡◌, refl, List, [], ◌∷◌, Option, none, some, Option-cases, inl, inr, ℕ, arith,
}
use computer_network_labs.Rtp.Packet.{Packet}
use computer_network_labs.Rtp.Receiver.{
  Receiver, Turn, next, finish, fault, flush, flush_and_ack, flush_only, recv_packet_turn,
  recv_packet_turn_opt, store, ack_datagram,
}

-- Two turns end alike, in the same state.
abbrev pub EndsLike : Turn → Turn → Type 0
EndsLike (next r sent) (next r' sent') = r ≡ r'
EndsLike (finish r sent) (finish r' sent') = (r ≡ r') × (sent ≡ sent')
EndsLike fault fault = Unit
EndsLike _ _ = ⊥

flush_and_ack-EndsLike :
    (sent : List (List ℕ)) (o : Option Receiver) → EndsLike (flush_and_ack o) (flush_only sent o)
unfolding flush_and_ack flush_only
flush_and_ack-EndsLike sent none = tt
flush_and_ack-EndsLike sent (some r) = elim (Option-cases (flush r)) [
  | inl e ↦ rw (e, flush_and_ack, flush_only) tt
  | inr (r', e) ↦ rw (e, flush_and_ack, flush_only) refl
]

-- On every packet and in every state a turn of `recvMessage` and one of `recvMessageOpt` both go
-- on, both end the loop or both fault, and in the same state of the cache and the file; the packet
-- that ends the loop is answered alike.
pub recv_packet_turn-EndsLike :
    (r : Receiver) (p : Packet) → EndsLike (recv_packet_turn r p) (recv_packet_turn_opt r p)
unfolding recv_packet_turn recv_packet_turn_opt
recv_packet_turn-EndsLike r p = ground (
  arith,
  flush_and_ack-EndsLike [] (some r),
  flush_and_ack-EndsLike (ack_datagram p.rtp.seq_num ∷ []) (store r p),
)
