-- ===== src/Rtp/Receiver/Caching.antt =====
-- Lab2/My Codes/receiver_def.c: what a turn of either loop does with the cache, against a
-- description of the packets that a receiver takes, from Lab2/Documents/Lab2.md.
use computer_network_labs.Prelude.{
  ℕ, zero, suc, ◌+◌, ◌-◌, ◌%◌, ◌^◌, ◌≤◌, ◌<◌, ◌≡◌, refl, sym, ◌≢◌, ◌⊎◌, ◌↔◌, inl, inr, true, false,
  ◌++◌, some, none, take, ◌==◌, ==_iff, leb, Bool-cases, arith,
}
use computer_network_labs.Rtp.Crc.{checksum}
use computer_network_labs.Rtp.Header.{encode}
use computer_network_labs.Rtp.Packet.{Packet, packet_checks, clear_checksum, encode_packet}
use computer_network_labs.Rtp.Receiver.{
  Receiver, cache_size, write_one, flush_rounds, flush, in_window, stored, store,
}
use computer_network_labs.Rtp.Receiver.Flush.{flush-Flushed}

-- The packet with 0 in the place of its checksum.
abbrev pub zeroed : Packet → Packet
zeroed p = record p { rtp = record p.rtp { checksum = 0 } }

-- The checksum is the one of the header, with 0 in its place, and of `length` bytes behind it.
abbrev pub HasChecksum : Packet → Type 0
HasChecksum p =
    p.rtp.checksum ≡ checksum (take (11 + p.rtp.length) (encode (zeroed p).rtp ++ p.payload))

-- A DATA packet that is not corrupted.
abbrev pub IsData : Packet → Type 0
IsData p = (p.rtp.type ≡ 2) × HasChecksum p

-- An END packet that is not corrupted and whose number is not ahead of `recv_base`.
abbrev pub EndsLoop : Receiver → Packet → Type 0
EndsLoop r p = (p.rtp.type ≡ 1) × (p.rtp.seq_num ≤ r.recv_base) × HasChecksum p

-- A DATA packet that is not corrupted and whose number is in the window. The end of the window is
-- computed in 32 bits.
abbrev pub IsTaken : Receiver → Packet → Type 0
IsTaken r p =
    IsData p
    × (r.recv_base ≤ p.rtp.seq_num)
    × (p.rtp.seq_num < (r.recv_base + r.window_recv) % 2 ^ 32)

-- The index holds a packet before the turn, or gets the one of the turn.
abbrev pub IsHeld : Receiver → Packet → ℕ → Type 0
IsHeld r p i = (r.cached i ≡ 1) ⊎ (IsTaken r p × (i ≡ p.rtp.seq_num))

-- A turn on `p` that goes on from `r` to `r'`. A packet that is to be taken is in the cache, with
-- its content; every other place of the cache is as before; and `recv_base` is the first index,
-- from the old one on, that holds no packet.
pub record Caches (r : Receiver) (p : Packet) (r' : Receiver) : Type 0 where
  pub kept : (i : ℕ) → r.cached i ≡ 1 → r'.cached i ≡ 1
  pub only : (i : ℕ) → r'.cached i ≡ 1 → IsHeld r p i
  pub taken : IsTaken r p → r'.cached p.rtp.seq_num ≡ 1
  pub content : IsTaken r p → r'.packet_cache p.rtp.seq_num ≡ zeroed p
  pub others : (i : ℕ) → (IsTaken r p → i ≢ p.rtp.seq_num) → r'.packet_cache i ≡ r.packet_cache i
  pub window : r'.window_recv ≡ r.window_recv
  pub forward : r.recv_base ≤ r'.recv_base
  pub passed : (i : ℕ) → r.recv_base ≤ i → i < r'.recv_base → r'.cached i ≡ 1
  pub stopped : r'.cached r'.recv_base ≢ 1

-- Why a turn faults: the checksum would be computed over more than the packet has, the packet would
-- be stored behind the arrays, or no index from `recv_base` on is free.
abbrev pub Faults : Receiver → Packet → Type 0
Faults r p =
    (1461 < p.rtp.length)
    ⊎ (IsTaken r p × (cache_size ≤ p.rtp.seq_num))
    ⊎ ((i : ℕ) → r.recv_base ≤ i → i < cache_size → IsHeld r p i)

pub packet_checks-HasChecksum : (p : Packet) → (packet_checks p ≡ true) ↔ HasChecksum p
unfolding packet_checks clear_checksum encode_packet
packet_checks-HasChecksum p = ground (
  arith,
  ==_iff p.rtp.checksum (checksum (take (11 + p.rtp.length) (encode (zeroed p).rtp ++ p.payload))),
)

-- The test of the code refuses every other packet.
pub packet_checks_refuses : (p : Packet) → ¬ HasChecksum p → packet_checks p ≡ false
packet_checks_refuses p wrong = elim (Bool-cases (packet_checks p)) [
  | inl c ↦ absurd (wrong ((packet_checks-HasChecksum p).0 c))
  | inr c ↦ c
]

-- The cache before the loop that writes, from `r`.
pub record IsStored (r : Receiver) (p : Packet) (q : Receiver) : Type 0 where
  pub base : q.recv_base ≡ r.recv_base
  pub window : q.window_recv ≡ r.window_recv
  pub kept : (i : ℕ) → r.cached i ≡ 1 → q.cached i ≡ 1
  pub only : (i : ℕ) → q.cached i ≡ 1 → IsHeld r p i
  pub taken : IsTaken r p → q.cached p.rtp.seq_num ≡ 1
  pub content : IsTaken r p → q.packet_cache p.rtp.seq_num ≡ zeroed p
  pub others : (i : ℕ) → (IsTaken r p → i ≢ p.rtp.seq_num) → q.packet_cache i ≡ r.packet_cache i

pub same-IsStored : (r : Receiver) (p : Packet) → ¬ IsTaken r p → IsStored r p r
same-IsStored r p out = record {
  base = refl;
  window = refl;
  kept = λ i h. h;
  only = λ i h. inl h;
  taken = λ t. absurd (out t);
  content = λ t. absurd (out t);
  others = λ i ne. refl;
}

stored-IsStored : (r : Receiver) (p : Packet) → IsTaken r p → IsStored r p (stored r p)
unfolding stored clear_checksum
stored-IsStored r p t = record {
  base = refl;
  window = refl;
  kept = λ i h. ground arith;
  only = λ i h. elim (Bool-cases (p.rtp.seq_num == i)) [
    | inl e ↦ inr (t, sym ((==_iff p.rtp.seq_num i).0 e))
    | inr e ↦ inl (rw e at h)
  ];
  taken = λ _. ground (arith, ==_iff p.rtp.seq_num p.rtp.seq_num);
  content = λ _. ground (arith, ==_iff p.rtp.seq_num p.rtp.seq_num);
  others = λ i ne. ground (arith, ==_iff p.rtp.seq_num i, ne t);
}

-- Storing a DATA packet that is not corrupted.
pub store-IsStored :
    (r : Receiver) (p : Packet)
    → IsData p
    → ((store r p ≡ none) × IsTaken r p × (cache_size ≤ p.rtp.seq_num))
      ⊎ ((q : Receiver) × (store r p ≡ some q) × IsStored r p q)
unfolding store in_window
store-IsStored r p d = elim (Bool-cases (in_window r p.rtp.seq_num)) [
  | inr out ↦ inr (r, rw (out, store), same-IsStored r p (λ t. ground arith))
  | inl inside ↦
      let t : IsTaken r p = (d, ground arith, ground arith) in
      elim (Bool-cases (leb cache_size p.rtp.seq_num)) [
        | inl far ↦ inl (ground arith, t, ground arith)
        | inr near ↦ inr (stored r p, ground arith, stored-IsStored r p t)
      ]
]

pub flush-Caches :
    (r : Receiver) (p : Packet) (q r' : Receiver)
    → IsStored r p q
    → flush q ≡ some r'
    → Caches r p r'
flush-Caches r p q r' h e =
    let f = flush-Flushed q r' e in
    record {
      kept = λ i c. ground (arith, f.flags, h.kept i);
      only = λ i c. h.only i (rw f.flags at c);
      taken = λ t. ground (arith, f.flags, h.taken t);
      content = λ t. rw f.cache (h.content t);
      others = λ i ne. rw f.cache (h.others i ne);
      window = ground (arith, f.window, h.window);
      forward = omega (arith, f.forward, h.base);
      passed = λ i lo hi. ground (arith, f.flags, f.passed i, h.base);
      stopped = λ s. f.stopped (rw f.flags at s);
    }

flush_rounds-none :
    (n : ℕ) (q : Receiver) (i : ℕ)
    → flush_rounds n q ≡ none
    → q.recv_base ≤ i
    → i < q.recv_base + n
    → q.cached i ≡ 1
unfolding flush_rounds write_one
flush_rounds-none zero q i e lo hi = absurd (omega arith)
flush_rounds-none (suc n) q i e lo hi =
    ground (arith, ==_iff q.recv_base i, flush_rounds-none n (write_one q) i)

pub flush-Faults :
    (r : Receiver) (p : Packet) (q : Receiver) → IsStored r p q → flush q ≡ none → Faults r p
unfolding flush
flush-Faults r p q h e = inr (
    inr (λ i lo hi. h.only i (
      flush_rounds-none (cache_size - q.recv_base) q i e (omega (arith, h.base))
        (omega (arith, h.base)))))
