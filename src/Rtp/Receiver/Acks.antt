-- ===== src/Rtp/Receiver/Acks.antt =====
-- Lab2/My Codes/receiver_def.c: the cumulative acknowledgements of `recvMessage`.
use computer_network_labs.Prelude.{◌≡◌, refl, List, [], ◌∷◌, some, Option-cases, inl, inr, ℕ, arith}
use computer_network_labs.Rtp.Packet.{Packet}
use computer_network_labs.Rtp.Receiver.{
  Receiver, ack_datagram, flush, store, Turn, next, finish, fault, flush_and_ack, recv_packet_turn,
}
use computer_network_labs.Rtp.Receiver.Caching.{
  IsData, EndsLoop, Caches, Faults, IsStored, same-IsStored, store-IsStored, flush-Caches,
  flush-Faults,
}
use computer_network_labs.Rtp.Receiver.Sort.{
  packet-Sort, long_data, good_data, bad_data, other, long_end, good_end, bad_end,
}

-- The turn that goes on from `r` to `r'` on `p` sends one acknowledgement. Its number is the new
-- `recv_base`, the first index from the old one on that is not cached.
pub record Acknowledges (r : Receiver) (p : Packet) (r' : Receiver) (sent : List (List ℕ))
    : Type 0 where
  pub one : sent ≡ ack_datagram r'.recv_base ∷ []
  pub caches : Caches r p r'
  pub goes_on : ¬ EndsLoop r p

abbrev pub AcksFrom : Receiver → Packet → Turn → Type 0
AcksFrom r p (next r' sent) = Acknowledges r p r' sent
AcksFrom r p (finish r' sent) = (r' ≡ r) × (sent ≡ ack_datagram r.recv_base ∷ []) × EndsLoop r p
AcksFrom r p fault = Faults r p

flush_and_ack-AcksFrom :
    (r : Receiver) (p : Packet) (q : Receiver)
    → IsStored r p q
    → ¬ EndsLoop r p
    → AcksFrom r p (flush_and_ack (some q))
unfolding flush_and_ack
flush_and_ack-AcksFrom r p q h on = elim (Option-cases (flush q)) [
  | inl e ↦ rw (e, flush_and_ack) (flush-Faults r p q h e)
  | inr (r', e) ↦
      rw (e, flush_and_ack)
        (record { one = refl; caches = flush-Caches r p q r' h e; goes_on = on })
]

store-AcksFrom : (r : Receiver) (p : Packet) → IsData p → AcksFrom r p (flush_and_ack (store r p))
unfolding flush_and_ack
store-AcksFrom r p d = elim (store-IsStored r p d) [
  | inl (e, taken, far) ↦ rw (e, flush_and_ack) (inr (inl (taken, far)))
  | inr (q, e, h) ↦ rw e (flush_and_ack-AcksFrom r p q h (λ ends. omega (arith, d.0, ends.0)))
]

-- A turn on a packet that is no genuine DATA packet.
other-AcksFrom :
    (r : Receiver) (p : Packet)
    → ¬ IsData p
    → ¬ EndsLoop r p
    → AcksFrom r p (flush_and_ack (some r))
other-AcksFrom r p no_data on =
    flush_and_ack-AcksFrom r p r (same-IsStored r p (λ t. no_data t.0)) on

-- Every packet on which `recvMessage` goes on, of whatever type, is answered by one
-- acknowledgement, whose number is the new `recv_base`: the first number, from the old one on, that
-- is not cached, once a DATA packet in the window that is not corrupted has been put into the
-- cache, and nothing else. The loop ends only on an END packet that is not corrupted and whose
-- number is not ahead of `recv_base`, and goes on after no such packet; it answers with
-- `recv_base`, and changes nothing. So a late START packet, and an END packet with a number below
-- `recv_base`, are answered with `recv_base`, not with the number that they carry. A turn faults
-- only on a packet that announces more than 1461 bytes, on one to be cached behind the arrays, or
-- if no index from `recv_base` on is free.
pub recv_packet_turn-AcksFrom : (r : Receiver) (p : Packet) → AcksFrom r p (recv_packet_turn r p)
unfolding recv_packet_turn
recv_packet_turn-AcksFrom r p = elim (packet-Sort r p) [
  | long_data t l ↦ rw (t, recv_packet_turn, l) (inl (ground arith))
  | good_data t l c d on ↦ rw (t, recv_packet_turn, l, c) (store-AcksFrom r p d)
  | bad_data t l c d on ↦ rw (t, recv_packet_turn, l, c) (other-AcksFrom r p d on)
  | other t e d on ↦ rw (t, recv_packet_turn, e) (other-AcksFrom r p d on)
  | long_end t e l ↦ rw (t, recv_packet_turn, e, l) (inl (ground arith))
  | good_end t e l c ends ↦ rw (t, recv_packet_turn, e, l, c) (refl, refl, ends)
  | bad_end t e l c d on ↦ rw (t, recv_packet_turn, e, l, c) (other-AcksFrom r p d on)
]
