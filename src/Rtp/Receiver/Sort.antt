-- ===== src/Rtp/Receiver/Sort.antt =====
-- Lab2/My Codes/receiver_def.c: the tests by which a turn of either loop sorts its packets.
use computer_network_labs.Prelude.{◌≤◌, ◌≡◌, true, false, inl, inr, ltb, ◌==◌, Bool-cases, arith}
use computer_network_labs.Rtp.Header.{rtp_data}
use computer_network_labs.Rtp.Packet.{Packet, packet_checks}
use computer_network_labs.Rtp.Receiver.{Receiver, is_end}
use computer_network_labs.Rtp.Receiver.Caching.{IsData, EndsLoop, packet_checks-HasChecksum}

-- What a turn of either loop makes of a packet. The tests of the code are on the left.
pub data Sort (r : Receiver) (p : Packet) : Type 0 where
  long_data : (p.rtp.type == rtp_data) ≡ true → ltb 1461 p.rtp.length ≡ true → Sort r p
  good_data :
      (p.rtp.type == rtp_data) ≡ true
      → ltb 1461 p.rtp.length ≡ false
      → packet_checks p ≡ true
      → IsData p
      → ¬ EndsLoop r p
      → Sort r p
  bad_data :
      (p.rtp.type == rtp_data) ≡ true
      → ltb 1461 p.rtp.length ≡ false
      → packet_checks p ≡ false
      → ¬ IsData p
      → ¬ EndsLoop r p
      → Sort r p
  other :
      (p.rtp.type == rtp_data) ≡ false → is_end r p ≡ false → ¬ IsData p → ¬ EndsLoop r p → Sort r p
  long_end :
      (p.rtp.type == rtp_data) ≡ false → is_end r p ≡ true → ltb 1461 p.rtp.length ≡ true → Sort r p
  good_end :
      (p.rtp.type == rtp_data) ≡ false
      → is_end r p ≡ true
      → ltb 1461 p.rtp.length ≡ false
      → packet_checks p ≡ true
      → EndsLoop r p
      → Sort r p
  bad_end :
      (p.rtp.type == rtp_data) ≡ false
      → is_end r p ≡ true
      → ltb 1461 p.rtp.length ≡ false
      → packet_checks p ≡ false
      → ¬ IsData p
      → ¬ EndsLoop r p
      → Sort r p

data-Sort : (r : Receiver) (p : Packet) → (p.rtp.type == rtp_data) ≡ true → Sort r p
data-Sort r p t =
    let kind : p.rtp.type ≡ 2 = ground arith in
    elim (Bool-cases (ltb 1461 p.rtp.length)) [
      | inl l ↦ long_data t l
      | inr l ↦ elim (Bool-cases (packet_checks p)) [
        | inl c ↦
            good_data t l c (kind, (packet_checks-HasChecksum p).0 c) (λ e. omega (arith, e.0))
        | inr c ↦ bad_data t l c (unchecked c) (λ e. omega (arith, e.0))
      ]
    ]
  where
    unchecked : packet_checks p ≡ false → ¬ IsData p
    unchecked c d = let sound = (packet_checks-HasChecksum p).1 d.1 in cc

end-Sort :
    (r : Receiver) (p : Packet) → (p.rtp.type == rtp_data) ≡ false → is_end r p ≡ true → Sort r p
end-Sort r p t e =
    let kind : p.rtp.type ≡ 1 = ground arith in
    let reached : p.rtp.seq_num ≤ r.recv_base = ground arith in
    elim (Bool-cases (ltb 1461 p.rtp.length)) [
      | inl l ↦ long_end t e l
      | inr l ↦ elim (Bool-cases (packet_checks p)) [
        | inl c ↦ good_end t e l c (kind, reached, (packet_checks-HasChecksum p).0 c)
        | inr c ↦ bad_end t e l c (λ d. omega (arith, d.0)) (unchecked c)
      ]
    ]
  where
    unchecked : packet_checks p ≡ false → ¬ EndsLoop r p
    unchecked c d = let sound = (packet_checks-HasChecksum p).1 d.2 in cc

pub packet-Sort : (r : Receiver) (p : Packet) → Sort r p
packet-Sort r p = elim (Bool-cases (p.rtp.type == rtp_data)) [
  | inl t ↦ data-Sort r p t
  | inr t ↦ elim (Bool-cases (is_end r p)) [
    | inl e ↦ end-Sort r p t e
    | inr e ↦ other t e (λ d. ground (arith, d.0)) (λ d. ground (arith, d.0, d.1))
  ]
]
