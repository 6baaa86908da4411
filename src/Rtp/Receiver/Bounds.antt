-- ===== src/Rtp/Receiver/Bounds.antt =====
-- Lab2/My Codes/receiver_def.c: accesses to `packet_cache`, `cached` and the received packet.
use computer_network_labs.Prelude.{
  ℕ, ◌≤◌, ◌<◌, ◌≡◌, ◌≢◌, true, false, List, [], ◌∷◌, Option, none, some, ==_iff, arith,
}
use computer_network_labs.Rtp.Header.{rtp_data, rtp_end}
use computer_network_labs.Rtp.Packet.{Packet, packet_checks}
use computer_network_labs.Rtp.Receiver.{
  Receiver, cache_size, ack_datagram, flush, store, stored, Turn, next, finish, fault,
  flush_and_ack, flush_only, recv_packet_turn, recv_packet_turn_opt,
}
use computer_network_labs.Rtp.Receiver.Flush.{flush-Flushed, flush_total}

-- Nothing from index `n` on is cached, and `n` is in the arrays.
pub record Fits (n : ℕ) (r : Receiver) : Type 0 where
  pub base : r.recv_base ≤ n
  pub room : n < cache_size
  pub clear : (i : ℕ) → n ≤ i → r.cached i ≢ 1

-- The lengths in DATA and END packets are at most 1461, and what passes the test of the checksum
-- is one of `n` segments.
pub record IsSmall (n : ℕ) (p : Packet) : Type 0 where
  pub data_length : p.rtp.type ≡ rtp_data → p.rtp.length ≤ 1461
  pub end_length : p.rtp.type ≡ rtp_end → p.rtp.length ≤ 1461
  pub number : p.rtp.type ≡ rtp_data → packet_checks p ≡ true → p.rtp.seq_num < n

-- A turn does not fault, and if the loop goes on the arrays keep room.
abbrev pub Safe : ℕ → Turn → Type 0
Safe n (next r sent) = Fits n r
Safe n (finish r sent) = Fits n r
Safe n fault = ⊥

FitsSome : ℕ → Option Receiver → Type 0
FitsSome n none = ⊥
FitsSome n (some r) = Fits n r

stored-Fits :
    (n : ℕ) (r : Receiver) (p : Packet) → p.rtp.seq_num < n → Fits n r → Fits n (stored r p)
unfolding stored
stored-Fits n r p h v = record {
  base = v.base;
  room = v.room;
  clear = λ i le. ground (arith, v.clear i le, ==_iff p.rtp.seq_num i);
}

store-Fits :
    (n : ℕ) (r : Receiver) (p : Packet) → p.rtp.seq_num < n → Fits n r → FitsSome n (store r p)
unfolding store FitsSome
store-Fits n r p h v = ground (arith, stored-Fits n r p h v)

flush-Fits : (n : ℕ) (r : Receiver) → Fits n r → (r' : Receiver) × (flush r ≡ some r') × Fits n r'
flush-Fits n r v =
    let (r', e) = flush_total r n v.base v.room (v.clear n (omega arith)) in
    let f = flush-Flushed r r' e in
    (
      r',
      e,
      record {
        base = grind (arith, f.forward, f.passed n, v.clear n, v.base);
        room = v.room;
        clear = λ i le. ground (arith, f.flags, v.clear i le);
      },
    )

flush_and_ack-Safe : (n : ℕ) (o : Option Receiver) → FitsSome n o → Safe n (flush_and_ack o)
unfolding flush_and_ack FitsSome
flush_and_ack-Safe n none h = h
flush_and_ack-Safe n (some r) h = let (r', e, v) = flush-Fits n r h in rw (e, flush_and_ack) v

flush_only-Safe :
    (n : ℕ) (sent : List (List ℕ)) (o : Option Receiver) → FitsSome n o → Safe n (flush_only sent o)
unfolding flush_only FitsSome
flush_only-Safe n sent none h = h
flush_only-Safe n sent (some r) h = let (r', e, v) = flush-Fits n r h in rw (e, flush_only) v

-- With room for `n` segments, on a packet whose length fits the buffer and whose number, if it
-- passes the test of the checksum, is below `n`, a turn of either loop stays inside the arrays and
-- inside the packet, and there is room for `n` segments after it.
pub recv_packet_turn-Safe :
    (n : ℕ) (r : Receiver) (p : Packet)
    → IsSmall n p
    → Fits n r
    → Safe n (recv_packet_turn r p) × Safe n (recv_packet_turn_opt r p)
unfolding recv_packet_turn recv_packet_turn_opt FitsSome
recv_packet_turn-Safe n r p g v = (
  ground (
    arith,
    flush_and_ack-Safe n (some r) v,
    flush_and_ack-Safe n (store r p),
    store-Fits n r p,
    g.data_length,
    g.end_length,
    g.number,
  ),
  ground (
    arith,
    flush_only-Safe n [] (some r) v,
    flush_only-Safe n (ack_datagram p.rtp.seq_num ∷ []) (store r p),
    store-Fits n r p,
    g.data_length,
    g.end_length,
    g.number,
  ),
)

-- A turn that goes on keeps room.
abbrev pub KeepsRoom : ℕ → Turn → Type 0
KeepsRoom n (next r sent) = Fits n r
KeepsRoom n (finish r sent) = Unit
KeepsRoom n fault = Unit

Safe-KeepsRoom : (n : ℕ) (t : Turn) → Safe n t → KeepsRoom n t
Safe-KeepsRoom n (next r sent) h = h
Safe-KeepsRoom n (finish r sent) h = tt
Safe-KeepsRoom n fault h = tt

-- A packet that fails the test of the checksum takes no room, whatever its length.
pub recv_packet_turn-KeepsRoom :
    (n : ℕ) (r : Receiver) (p : Packet)
    → packet_checks p ≡ false
    → Fits n r
    → KeepsRoom n (recv_packet_turn r p)
unfolding recv_packet_turn FitsSome
recv_packet_turn-KeepsRoom n r p bad v =
    ground (arith, Safe-KeepsRoom n (flush_and_ack (some r)) (flush_and_ack-Safe n (some r) v))

-- A DATA packet that announces more than 1461 bytes makes either loop compute the checksum over
-- bytes behind the packet, whatever the state.
pub recv_packet_turn_overread :
    (r : Receiver) (p : Packet)
    → p.rtp.type ≡ rtp_data
    → 1461 < p.rtp.length
    → (recv_packet_turn r p ≡ fault) × (recv_packet_turn_opt r p ≡ fault)
unfolding recv_packet_turn recv_packet_turn_opt
recv_packet_turn_overread r p t h = (ground arith, ground arith)
