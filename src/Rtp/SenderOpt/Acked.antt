-- ===== src/Rtp/SenderOpt/Acked.antt =====
-- Lab2/My Codes/sender_def.c: the loops of `sendMessageOpt` and `send_again`.
use computer_network_labs.Prelude.{
  ℕ, zero, suc, ◌+◌, ◌-◌, ◌≤◌, ◌<◌, ◌≡◌, ◌≢◌, ◌⊎◌, inl, inr, List, [], ◌∷◌, none, some, leb, drop,
  length, ◌==◌, ==_iff, arith, Bool-cases, Option-cases,
}
use computer_network_labs.Rtp.Header.{Header, decode}
use computer_network_labs.Rtp.Sender.Window.{IsAck, is_ack-IsAck, headers, Any}
use computer_network_labs.Rtp.SenderOpt.{acked_size, mark_ack, mark_acks, advance_rounds, advance}

-- The loop goes from `base` over the numbers that are acknowledged to `top`, the first that is not.
pub record IsFirstUnacked (acked : ℕ → ℕ) (base top : ℕ) : Type 0 where
  pub forward : base ≤ top
  pub inside : top < acked_size
  pub passed : (i : ℕ) → base ≤ i → i < top → acked i ≡ 1
  pub stopped : acked top ≢ 1

advance_rounds-IsFirstUnacked :
    (n : ℕ) (acked : ℕ → ℕ) (base top : ℕ)
    → base + n ≤ acked_size
    → advance_rounds n acked base ≡ some top
    → IsFirstUnacked acked base top
unfolding advance_rounds
advance_rounds-IsFirstUnacked zero acked base top h e = cc
advance_rounds-IsFirstUnacked (suc n) acked base top h e = elim (Bool-cases (acked base == 1)) [
  | inl more ↦
      let f = advance_rounds-IsFirstUnacked n acked (base + 1) top (omega arith) (rw more at e) in
      record {
        forward = omega (arith, f.forward);
        inside = f.inside;
        passed = λ i lo hi. ground (arith, f.passed i, ==_iff base i);
        stopped = f.stopped;
      }
  | inr done ↦
      let same : some base ≡ some top = rw done at e in
      record {
        forward = ground arith;
        inside = ground arith;
        passed = λ i lo hi. ground arith;
        stopped = ground arith;
      }
]

pub advance-IsFirstUnacked :
    (acked : ℕ → ℕ) (base top : ℕ) → advance acked base ≡ some top → IsFirstUnacked acked base top
unfolding advance
advance-IsFirstUnacked acked base top e = elim (Bool-cases (leb base acked_size)) [
  | inl inside ↦ advance_rounds-IsFirstUnacked (acked_size - base) acked base top (ground arith) e
  | inr outside ↦
      let none_left : acked_size - base ≡ 0 = ground arith in
      absurd (none_ne_some (rw none_left at e))
]
  where
    none_ne_some : advance_rounds 0 acked base ≡ some top → ⊥
    none_ne_some e = unfold advance_rounds in cc

-- `k` was acknowledged before, or is now.
abbrev pub AckedBy : (ℕ → ℕ) → List Header → ℕ → Type 0
AckedBy acked hs k = (acked k ≡ 1) ⊎ Any (λ h. IsAck h × (h.seq_num ≡ k)) hs

mark_ack-AckedBy :
    (ack : Header) (acked acked' : ℕ → ℕ) (hs : List Header) (k : ℕ)
    → mark_ack ack acked ≡ some acked'
    → AckedBy acked' hs k
    → AckedBy acked (ack ∷ hs) k
unfolding mark_ack
mark_ack-AckedBy ack acked acked' hs k e a = ground (arith, is_ack-IsAck ack, ==_iff ack.seq_num k)

-- What was acknowledged stays so, and an acknowledgement of `k` marks it.
mark_ack-marks :
    (ack : Header) (acked acked' : ℕ → ℕ) (hs : List Header) (k : ℕ)
    → mark_ack ack acked ≡ some acked'
    → AckedBy acked (ack ∷ hs) k
    → AckedBy acked' hs k
unfolding mark_ack
mark_ack-marks ack acked acked' hs k e a = ground (arith, is_ack-IsAck ack, ==_iff ack.seq_num k)

no_more-marks :
    (acked acked' : ℕ → ℕ) (k : ℕ) → some acked ≡ some acked' → AckedBy acked [] k → acked' k ≡ 1
no_more-marks acked acked' k e (inl h) = ground arith
no_more-marks acked acked' k e (inr h) = elim h [ ]

pub mark_acks-marks :
    (n : ℕ) (d : List ℕ) (acked acked' : ℕ → ℕ) (k : ℕ)
    → mark_acks n d acked ≡ some acked'
    → AckedBy acked (headers n d) k
    → acked' k ≡ 1
unfolding mark_acks headers
mark_acks-marks zero d acked acked' k e a = no_more-marks acked acked' k e a
mark_acks-marks (suc n) d acked acked' k e a = elim (Bool-cases (leb 11 (length d))) [
  | inr short ↦ no_more-marks acked acked' k (rw (short, mark_acks) at e) (rw (short, headers) at a)
  | inl long ↦ elim (Option-cases (mark_ack (decode d) acked)) [
    | inl m ↦ let no : none ≡ some acked' = rw (long, mark_acks, m) at e in cc
    | inr (next, m) ↦
        mark_acks-marks n (drop 11 d) next acked' k (rw (long, mark_acks, m) at e) (
          mark_ack-marks (decode d) acked next (headers n (drop 11 d)) k m
            (rw (long, headers) at a))
  ]
]

pub mark_acks-AckedBy :
    (n : ℕ) (d : List ℕ) (acked acked' : ℕ → ℕ) (k : ℕ)
    → mark_acks n d acked ≡ some acked'
    → acked' k ≡ 1
    → AckedBy acked (headers n d) k
unfolding mark_acks headers
mark_acks-AckedBy zero d acked acked' k e h = inl (ground arith)
mark_acks-AckedBy (suc n) d acked acked' k e h = elim (Bool-cases (leb 11 (length d))) [
  | inr short ↦
      let same : some acked ≡ some acked' = rw (short, mark_acks) at e in inl (ground arith)
  | inl long ↦ elim (Option-cases (mark_ack (decode d) acked)) [
    | inl m ↦ let no : none ≡ some acked' = rw (long, mark_acks, m) at e in cc
    | inr (next, m) ↦
        let later =
          mark_acks-AckedBy n (drop 11 d) next acked' k (rw (long, mark_acks, m) at e) h in
        rw (long, headers)
          (mark_ack-AckedBy (decode d) acked next (headers n (drop 11 d)) k m later)
  ]
]
