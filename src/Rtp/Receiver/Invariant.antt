-- ===== src/Rtp/Receiver/Invariant.antt =====
-- Lab2/My Codes/receiver_def.c: what the receiver has written, on both versions of the loop.
use computer_network_labs.Prelude.{
  ℕ, ◌≤◌, ◌<◌, ◌≡◌, ◌∙◌, true, List, [], ◌∷◌, Option, none, some, ==_iff, Option-cases, inl, inr,
  take, length, arith,
}
use computer_network_labs.Rtp.Header.{rtp_data, rtp_end}
use computer_network_labs.Rtp.Packet.{Packet, packet_checks, fread, offset, file_statics}
use computer_network_labs.Rtp.Packet.Segments.{segments, segments-file_statics}
use computer_network_labs.Rtp.Receiver.{
  Receiver, cache_size, ack_datagram, flush, store, stored, Turn, next, finish, fault,
  flush_and_ack, flush_only, recv_packet_turn, recv_packet_turn_opt,
}
use computer_network_labs.Rtp.Receiver.Flush.{flush-Flushed, IsFaithful, flush-segments}

-- The receiver has written the segments before `recv_base`, and has cached nothing but segments.
pub record Holds (file : List ℕ) (r : Receiver) : Type 0 where
  pub faithful : IsFaithful file r
  pub prefix : r.written ≡ segments file r.recv_base
  pub inside : r.recv_base < cache_size

-- A packet that passes the test of its checksum carries what the sender of the file put into it: a
-- segment of the file, or, in an END packet, a number that is not below the number of segments.
pub record IsGenuine (file : List ℕ) (p : Packet) : Type 0 where
  pub segment :
      p.rtp.type ≡ rtp_data
      → packet_checks p ≡ true
      → take p.rtp.length p.payload ≡ fread file (offset p.rtp.seq_num)
  pub last :
      p.rtp.type ≡ rtp_end → packet_checks p ≡ true → file_statics (length file) ≤ p.rtp.seq_num

-- A turn ends in states with `P`, and ends the loop in states with `Q`.
abbrev pub After {ℓ} : (Receiver → Type ℓ) → (Receiver → Type ℓ) → Turn → Type ℓ
After P Q (next r sent) = P r
After P Q (finish r sent) = Q r
After P Q fault = Unit

abbrev pub Complete : List ℕ → Receiver → Type 0
Complete file r = r.written ≡ file

-- The state after an operation, if that does not fault, has `P`.
abbrev pub WhenSome {ℓ} : (Receiver → Type ℓ) → Option Receiver → Type ℓ
WhenSome P none = Unit
WhenSome P (some r) = P r

stored-Holds :
    (file : List ℕ) (r : Receiver) (p : Packet)
    → take p.rtp.length p.payload ≡ fread file (offset p.rtp.seq_num)
    → Holds file r
    → Holds file (stored r p)
unfolding stored
stored-Holds file r p h v = record {
  faithful = λ i e. ground (arith, v.faithful i, ==_iff p.rtp.seq_num i);
  prefix = v.prefix;
  inside = v.inside;
}

store-Holds :
    (file : List ℕ) (r : Receiver) (p : Packet)
    → take p.rtp.length p.payload ≡ fread file (offset p.rtp.seq_num)
    → Holds file r
    → WhenSome (Holds file) (store r p)
unfolding store
store-Holds file r p h v = ground (arith, stored-Holds file r p h v)

pub flush-Holds :
    (file : List ℕ) (r r' : Receiver) → flush r ≡ some r' → Holds file r → Holds file r'
flush-Holds file r r' e v =
    let f = flush-Flushed r r' e in
    record {
      faithful = λ i h. ground (arith, f.cache, f.flags, v.faithful i);
      prefix = flush-segments file r r' e v.faithful v.prefix;
      inside = f.inside;
    }

flush_and_ack-Holds :
    (file : List ℕ) (o : Option Receiver)
    → WhenSome (Holds file) o
    → After (Holds file) (Complete file) (flush_and_ack o)
unfolding flush_and_ack
flush_and_ack-Holds file none h = tt
flush_and_ack-Holds file (some r) h = elim (Option-cases (flush r)) [
  | inl e ↦ rw (e, flush_and_ack) tt
  | inr (r', e) ↦ rw (e, flush_and_ack) (flush-Holds file r r' e h)
]

flush_only-Holds :
    (file : List ℕ) (sent : List (List ℕ)) (o : Option Receiver)
    → WhenSome (Holds file) o
    → After (Holds file) (Complete file) (flush_only sent o)
unfolding flush_only
flush_only-Holds file sent none h = tt
flush_only-Holds file sent (some r) h = elim (Option-cases (flush r)) [
  | inl e ↦ rw (e, flush_only) tt
  | inr (r', e) ↦ rw (e, flush_only) (flush-Holds file r r' e h)
]

-- Past the last segment the whole file has been written.
complete :
    (file : List ℕ) (r : Receiver) (n : ℕ)
    → Holds file r
    → file_statics (length file) ≤ n
    → n ≤ r.recv_base
    → Complete file r
complete file r n v last le =
    v.prefix ∙ segments-file_statics file r.recv_base (omega (arith, v.inside)) (omega arith)

-- A genuine packet in `recvMessage`: a prefix of the file is kept written, and when an END packet
-- ends the loop the whole file is written.
pub recv_packet_turn-Holds :
    (file : List ℕ) (r : Receiver) (p : Packet)
    → IsGenuine file p
    → Holds file r
    → After (Holds file) (Complete file) (recv_packet_turn r p)
unfolding recv_packet_turn
recv_packet_turn-Holds file r p g v = ground (
  arith,
  flush_and_ack-Holds file (some r) v,
  flush_and_ack-Holds file (store r p),
  store-Holds file r p,
  complete file r p.rtp.seq_num v,
  g.segment,
  g.last,
)

-- The same in `recvMessageOpt`.
pub recv_packet_turn_opt-Holds :
    (file : List ℕ) (r : Receiver) (p : Packet)
    → IsGenuine file p
    → Holds file r
    → After (Holds file) (Complete file) (recv_packet_turn_opt r p)
unfolding recv_packet_turn_opt
recv_packet_turn_opt-Holds file r p g v = ground (
  arith,
  flush_only-Holds file [] (some r) v,
  flush_only-Holds file (ack_datagram p.rtp.seq_num ∷ []) (store r p),
  store-Holds file r p,
  complete file r p.rtp.seq_num v,
  g.segment,
  g.last,
)
