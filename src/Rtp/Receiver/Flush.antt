-- ===== src/Rtp/Receiver/Flush.antt =====
-- Lab2/My Codes/receiver_def.c: the loop `while(cached[recv_base] == 1)`.
use computer_network_labs.Prelude.{
  ℕ, zero, suc, ◌+◌, ◌-◌, ◌≤◌, ◌<◌, ◌≡◌, refl, ◌≢◌, List, some, leb, ◌==◌, Bool-cases, inl, inr,
  take, arith,
}
use native.Mathlib.Numerals.{add-one}
use computer_network_labs.Rtp.Packet.{fread, offset}
use computer_network_labs.Rtp.Packet.Segments.{segments}
use computer_network_labs.Rtp.Receiver.{Receiver, cache_size, write_one, flush_rounds, flush}

-- From `r` the loop ends in `r'`: the cache is as it was, and `recv_base` has passed the cached
-- indices from the old one on, up to the first that is not cached.
pub record Flushed (r r' : Receiver) : Type 0 where
  pub window : r'.window_recv ≡ r.window_recv
  pub cache : r'.packet_cache ≡ r.packet_cache
  pub flags : r'.cached ≡ r.cached
  pub forward : r.recv_base ≤ r'.recv_base
  pub inside : r'.recv_base < cache_size
  pub passed : (i : ℕ) → r.recv_base ≤ i → i < r'.recv_base → r.cached i ≡ 1
  pub stopped : r.cached r'.recv_base ≢ 1

Flushed-here : (r : Receiver) → r.recv_base < cache_size → r.cached r.recv_base ≢ 1 → Flushed r r
Flushed-here r h ne = record {
  window = refl;
  cache = refl;
  flags = refl;
  forward = omega arith;
  inside = h;
  passed = λ i lo hi. absurd (omega arith);
  stopped = ne;
}

Flushed-next :
    (r r' : Receiver) → r.cached r.recv_base ≡ 1 → Flushed (write_one r) r' → Flushed r r'
unfolding write_one
Flushed-next r r' h f = record {
  window = f.window;
  cache = f.cache;
  flags = f.flags;
  forward = omega arith;
  inside = f.inside;
  passed = λ i lo hi. ground (arith, f.passed i);
  stopped = f.stopped;
}

flush_rounds-Flushed :
    (n : ℕ) (r r' : Receiver)
    → r.recv_base + n ≤ cache_size
    → flush_rounds n r ≡ some r'
    → Flushed r r'
unfolding flush_rounds
flush_rounds-Flushed zero r r' h e = cc
flush_rounds-Flushed (suc n) r r' h e = elim (Bool-cases (r.cached r.recv_base == 1)) [
  | inl more ↦
      Flushed-next r r' (ground arith)
        (flush_rounds-Flushed n (write_one r) r' (unfold write_one in omega arith) (rw more at e))
  | inr done ↦ let same : some r ≡ some r' = rw done at e in ground (arith, Flushed-here r)
]

-- When the loop ends without a fault, `recv_base` has gone to the first index, from the old one on,
-- that is not cached; this index is inside the arrays, and the cache is as before.
pub flush-Flushed : (r r' : Receiver) → flush r ≡ some r' → Flushed r r'
unfolding flush
flush-Flushed r r' e = elim (Bool-cases (leb r.recv_base cache_size)) [
  | inl inside ↦ flush_rounds-Flushed (cache_size - r.recv_base) r r' (ground arith) e
  | inr outside ↦
      let none_left : cache_size - r.recv_base ≡ 0 = ground arith in
      absurd (none_ne_some (rw none_left at e))
]
  where
    none_ne_some : flush_rounds 0 r ≡ some r' → ⊥
    none_ne_some e = unfold flush_rounds in cc

flush_rounds_total :
    (n : ℕ) (r : Receiver) (j : ℕ)
    → r.recv_base ≤ j
    → j < r.recv_base + n
    → r.cached j ≢ 1
    → (r' : Receiver) × (flush_rounds n r ≡ some r')
unfolding flush_rounds
flush_rounds_total zero r j lo hi ne = absurd (omega arith)
flush_rounds_total (suc n) r j lo hi ne = elim (Bool-cases (r.cached r.recv_base == 1)) [
  | inl more ↦ rw more (
      flush_rounds_total n (write_one r) j (unfold write_one in ground arith)
        (unfold write_one in omega arith) (unfold write_one in ne))
  | inr done ↦ (r, rw done)
]

-- The loop ends without a fault if some index of the arrays, from `recv_base` on, is not cached.
pub flush_total :
    (r : Receiver) (j : ℕ)
    → r.recv_base ≤ j
    → j < cache_size
    → r.cached j ≢ 1
    → (r' : Receiver) × (flush r ≡ some r')
unfolding flush
flush_total r j lo hi ne = flush_rounds_total (cache_size - r.recv_base) r j lo (omega arith) ne

-- Every cached packet carries the segment of the file that belongs to its index.
abbrev pub IsFaithful : List ℕ → Receiver → Type 0
IsFaithful file r =
    (i : ℕ)
    → r.cached i ≡ 1
    → take (r.packet_cache i).rtp.length (r.packet_cache i).payload ≡ fread file (offset i)

write_one-segments :
    (file : List ℕ) (r : Receiver)
    → r.cached r.recv_base ≡ 1
    → IsFaithful file r
    → r.written ≡ segments file r.recv_base
    → (write_one r).written ≡ segments file (write_one r).recv_base
unfolding write_one segments
write_one-segments file r h faithful w = rw (add-one r.recv_base, w, faithful r.recv_base h) refl

flush_rounds-segments :
    (file : List ℕ) (n : ℕ) (r r' : Receiver)
    → flush_rounds n r ≡ some r'
    → IsFaithful file r
    → r.written ≡ segments file r.recv_base
    → r'.written ≡ segments file r'.recv_base
unfolding flush_rounds
flush_rounds-segments file zero r r' e faithful w = cc
flush_rounds-segments file (suc n) r r' e faithful w =
    elim (Bool-cases (r.cached r.recv_base == 1)) [
      | inl more ↦
          flush_rounds-segments file n (write_one r) r' (rw more at e)
            (unfold write_one in faithful) (write_one-segments file r (ground arith) faithful w)
      | inr done ↦ let same : some r ≡ some r' = rw done at e in ground arith
    ]

pub flush-segments :
    (file : List ℕ) (r r' : Receiver)
    → flush r ≡ some r'
    → IsFaithful file r
    → r.written ≡ segments file r.recv_base
    → r'.written ≡ segments file r'.recv_base
unfolding flush
flush-segments file r r' e = flush_rounds-segments file (cache_size - r.recv_base) r r' e
