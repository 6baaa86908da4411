-- ===== src/Rtp/Receiver/Selective.antt =====
-- Lab2/My Codes/receiver_def.c: the selective acknowledgements of `recvMessageOpt`.
use computer_network_labs.Prelude.{
  ℕ, zero, suc, ◌-◌, ◌+◌, ◌^◌, ◌≤◌, ◌<◌, ◌≡◌, refl, ◌≢◌, ◌⊎◌, true, List, [], ◌∷◌, some,
  Option-cases, inl, inr, arith,
}
use computer_network_labs.Rtp.Header.{rtp_data}
use computer_network_labs.Rtp.Packet.{Packet, packet_checks}
use computer_network_labs.Rtp.Receiver.{
  Receiver, cache_size, ack_datagram, flush, flush_rounds, store, in_window, Turn, next, finish,
  fault, flush_only, recv_packet_turn_opt,
}
use computer_network_labs.Rtp.Receiver.Flush.{flush_total}
use computer_network_labs.Rtp.Receiver.Caching.{
  IsData, EndsLoop, Caches, Faults, IsStored, same-IsStored, store-IsStored, flush-Caches,
  flush-Faults,
}
use computer_network_labs.Rtp.Receiver.Sort.{
  packet-Sort, long_data, good_data, bad_data, other, long_end, good_end, bad_end,
}

-- A DATA packet that is not corrupted is acknowledged with its own number; nothing else is sent.
abbrev pub Answers : Packet → List (List ℕ) → Type 0
Answers p sent =
    (IsData p × (sent ≡ ack_datagram p.rtp.seq_num ∷ [])) ⊎ ((¬ IsData p) × (sent ≡ []))

-- The turn that goes on from `r` to `r'` on the packet `p`.
pub record Selects (r : Receiver) (p : Packet) (r' : Receiver) (sent : List (List ℕ)) : Type 0 where
  pub caches : Caches r p r'
  pub answer : Answers p sent
  pub goes_on : ¬ EndsLoop r p

abbrev pub SelectsFrom : Receiver → Packet → Turn → Type 0
SelectsFrom r p (next r' sent) = Selects r p r' sent
SelectsFrom r p (finish r' sent) = (r' ≡ r) × (sent ≡ ack_datagram r.recv_base ∷ []) × EndsLoop r p
SelectsFrom r p fault = Faults r p

flush_only-SelectsFrom :
    (r : Receiver) (p : Packet) (q : Receiver) (sent : List (List ℕ))
    → IsStored r p q
    → Answers p sent
    → ¬ EndsLoop r p
    → SelectsFrom r p (flush_only sent (some q))
unfolding flush_only
flush_only-SelectsFrom r p q sent h a on = elim (Option-cases (flush q)) [
  | inl e ↦ rw (e, flush_only) (flush-Faults r p q h e)
  | inr (r', e) ↦
      rw (e, flush_only) (record { caches = flush-Caches r p q r' h e; answer = a; goes_on = on })
]

store-SelectsFrom :
    (r : Receiver) (p : Packet)
    → IsData p
    → ¬ EndsLoop r p
    → SelectsFrom r p (flush_only (ack_datagram p.rtp.seq_num ∷ []) (store r p))
unfolding flush_only
store-SelectsFrom r p d on = elim (store-IsStored r p d) [
  | inl (e, taken, far) ↦ rw (e, flush_only) (inr (inl (taken, far)))
  | inr (q, e, h) ↦
      rw e (flush_only-SelectsFrom r p q (ack_datagram p.rtp.seq_num ∷ []) h (inl (d, refl)) on)
]

-- A turn on a packet that is no genuine DATA packet.
other-SelectsFrom :
    (r : Receiver) (p : Packet)
    → ¬ IsData p
    → ¬ EndsLoop r p
    → SelectsFrom r p (flush_only [] (some r))
other-SelectsFrom r p no_data on =
    flush_only-SelectsFrom r p r [] (same-IsStored r p (λ t. no_data t.0)) (inr (no_data, refl)) on

-- A turn of `recvMessageOpt` that goes on puts a DATA packet that is not corrupted into the cache,
-- with its content, if its number is in the window, whose end is computed in 32 bits; every other
-- place of the cache stays as it was; and `recv_base` moves to the first index, from the old one
-- on, that is not cached. A DATA packet that is not corrupted is acknowledged with its own number,
-- in the window or not; nothing is sent on any other packet. The loop ends only on an END packet
-- that is not corrupted and whose number is not ahead of `recv_base`, and goes on after no such
-- packet; it answers with `recv_base`, and changes nothing. A turn faults only on a packet that
-- announces more than 1461 bytes, on one to be cached behind the arrays, or if no index from
-- `recv_base` on is free.
pub recv_packet_turn_opt-SelectsFrom :
    (r : Receiver) (p : Packet) → SelectsFrom r p (recv_packet_turn_opt r p)
unfolding recv_packet_turn_opt
recv_packet_turn_opt-SelectsFrom r p = elim (packet-Sort r p) [
  | long_data t l ↦ rw (t, recv_packet_turn_opt, l) (inl (ground arith))
  | good_data t l c d on ↦ rw (t, recv_packet_turn_opt, l, c) (store-SelectsFrom r p d on)
  | bad_data t l c d on ↦ rw (t, recv_packet_turn_opt, l, c) (other-SelectsFrom r p d on)
  | other t e d on ↦ rw (t, recv_packet_turn_opt, e) (other-SelectsFrom r p d on)
  | long_end t e l ↦ rw (t, recv_packet_turn_opt, e, l) (inl (ground arith))
  | good_end t e l c ends ↦ rw (t, recv_packet_turn_opt, e, l, c) (refl, refl, ends)
  | bad_end t e l c d on ↦ rw (t, recv_packet_turn_opt, e, l, c) (other-SelectsFrom r p d on)
]

flush-same : (r q : Receiver) → flush r ≡ some q → r.cached r.recv_base ≢ 1 → q ≡ r
unfolding flush flush_rounds
flush-same r q e stopped = same (cache_size - r.recv_base) e
  where
    same : (n : ℕ) → flush_rounds n r ≡ some q → q ≡ r
    same zero e = cc
    same (suc n) e = ground arith

-- A DATA packet with the right checksum whose number is behind the window is acknowledged, although
-- the turn leaves the state as it was: the packet is neither cached nor written.
pub recv_packet_turn_opt-beyond :
    (r : Receiver) (p : Packet)
    → p.rtp.type ≡ rtp_data
    → packet_checks p ≡ true
    → p.rtp.length ≤ 1461
    → r.recv_base + r.window_recv < 2 ^ 32
    → r.recv_base + r.window_recv ≤ p.rtp.seq_num
    → r.recv_base < cache_size
    → r.cached r.recv_base ≢ 1
    → recv_packet_turn_opt r p ≡ next r (ack_datagram p.rtp.seq_num ∷ [])
unfolding recv_packet_turn_opt store in_window flush_only
recv_packet_turn_opt-beyond r p t c small fits beyond inside stopped =
    let (q, e) = flush_total r r.recv_base (omega arith) inside stopped in
    let same : q ≡ r = flush-same r q e stopped in ground (arith, same, e)
