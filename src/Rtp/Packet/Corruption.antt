-- ===== src/Rtp/Packet/Corruption.antt =====
-- Lab2/My Codes/receiver_def.c: the test of the checksum on a datagram in which one byte changed.
use mathlib.Core.List.{append_assoc}
use computer_network_labs.Prelude.{
  ℕ, zero, suc, ◌+◌, ◌-◌, ◌*◌, ◌≤◌, ◌<◌, ◌≡◌, ◌≢◌, ◌⊎◌, inl, inr, refl, ap, subst, sym, ◌∙◌, true,
  false, List, [], ◌∷◌, ◌++◌, ◌==◌, take, drop, replicate, length, All-append, take-append,
  take-append_add, take-append-replicate, take_all, length-append, length-replicate, arith,
}
use computer_network_labs.Rtp.Crc.{checksum}
use computer_network_labs.Rtp.Crc.Ieee.{IsBytes}
use computer_network_labs.Rtp.Crc.Detection.{checksum_one_byte}
use computer_network_labs.Rtp.Header.{encode, decode, byte_at}
use computer_network_labs.Rtp.Packet.{
  encode_packet, receive_buffer, decode_packet, clear_checksum, packet_checks,
}

-- The list with the element at an index replaced.
abbrev pub set {ℓ} : {A : Type ℓ} → List A → ℕ → A → List A
set [] i b = []
set (x ∷ xs) zero b = b ∷ xs
set (x ∷ xs) (suc i) b = x ∷ set xs i b

length-set : (xs : List ℕ) (i b : ℕ) → length (set xs i b) ≡ length xs
length-set [] i b = refl
length-set (x ∷ xs) zero b = refl
length-set (x ∷ xs) (suc i) b = ap suc (length-set xs i b)

set-IsBytes : (xs : List ℕ) (i b : ℕ) → IsBytes xs → b < 256 → IsBytes (set xs i b)
set-IsBytes [] i b h hb = tt
set-IsBytes (x ∷ xs) zero b h hb = (hb, h.1)
set-IsBytes (x ∷ xs) (suc i) b h hb = (h.0, set-IsBytes xs i b h.1 hb)

byte_at-set : (xs : List ℕ) (i b : ℕ) → i < length xs → byte_at (set xs i b) i ≡ b
byte_at-set [] i b h = absurd (omega arith)
byte_at-set (x ∷ xs) zero b h = refl
byte_at-set (x ∷ xs) (suc i) b h = byte_at-set xs i b (omega arith)

byte_at-set_other : (xs : List ℕ) (i j b : ℕ) → i ≢ j → byte_at (set xs i b) j ≡ byte_at xs j
byte_at-set_other [] i j b h = refl
byte_at-set_other (x ∷ xs) zero zero b h = absurd (h refl)
byte_at-set_other (x ∷ xs) zero (suc j) b h = refl
byte_at-set_other (x ∷ xs) (suc i) zero b h = refl
byte_at-set_other (x ∷ xs) (suc i) (suc j) b h = byte_at-set_other xs i j b (λ e. h (ap suc e))

byte_at-lt : (xs : List ℕ) (i : ℕ) → IsBytes xs → byte_at xs i < 256
byte_at-lt [] i h = omega arith
byte_at-lt (x ∷ xs) zero h = h.0
byte_at-lt (x ∷ xs) (suc i) h = byte_at-lt xs i h.1

-- One changed byte changes the checksum, behind any bytes.
checksum-set_behind :
    (before xs : List ℕ) (i b : ℕ)
    → IsBytes before
    → IsBytes xs
    → b < 256
    → i < length xs
    → byte_at xs i ≢ b
    → checksum (before ++ set xs i b) ≢ checksum (before ++ xs)
checksum-set_behind before [] i b hbefore h hb hi ne = absurd (omega arith)
checksum-set_behind before (x ∷ xs) zero b hbefore h hb hi ne =
    checksum_one_byte before xs b x hbefore h.1 hb h.0 (λ e. ne (sym e))
checksum-set_behind before (x ∷ xs) (suc i) b hbefore h hb hi ne =
    rw (← append_assoc before (x ∷ []) (set xs i b), ← append_assoc before (x ∷ []) xs)
      (checksum-set_behind (before ++ (x ∷ [])) xs i b
        (All-append (λ b. b < 256) before (x ∷ []) hbefore (h.0, tt)) h.1 hb (omega arith) ne)

-- The first `n` bytes, one by one.
abbrev bytes_of : ℕ → List ℕ → List ℕ
bytes_of zero xs = []
bytes_of (suc n) xs = byte_at xs 0 ∷ bytes_of n (drop 1 xs)

bytes_of-append : (n : ℕ) (xs : List ℕ) → n ≤ length xs → xs ≡ bytes_of n xs ++ drop n xs
bytes_of-append zero xs h = refl
bytes_of-append (suc n) [] h = absurd (omega arith)
bytes_of-append (suc n) (x ∷ xs) h = ap (λ t. x ∷ t) (bytes_of-append n xs (omega arith))

-- The field of the checksum, and the datagram with 0 in that field.
abbrev field : List ℕ → ℕ
field d = (decode d).checksum

abbrev zeroed : List ℕ → List ℕ
zeroed d = take 7 d ++ (0 ∷ 0 ∷ 0 ∷ 0 ∷ drop 11 d)

module _ (b0 b1 b2 b3 b4 b5 b6 b7 b8 b9 b10 : ℕ) (rest : List ℕ) where
  abbrev datagram : List ℕ
  datagram = b0 ∷ b1 ∷ b2 ∷ b3 ∷ b4 ∷ b5 ∷ b6 ∷ b7 ∷ b8 ∷ b9 ∷ b10 ∷ rest

  abbrev cleared : List ℕ
  cleared = b0 ∷ b1 ∷ b2 ∷ b3 ∷ b4 ∷ b5 ∷ b6 ∷ 0 ∷ 0 ∷ 0 ∷ 0 ∷ []

  -- The header without its checksum has the bytes that were received.
  encode-clear : IsBytes datagram → encode (record (decode datagram) { checksum = 0 }) ≡ cleared
  unfolding encode decode
  encode-clear h = ground arith

  received_datagram :
      length rest ≤ 1461 → receive_buffer datagram ≡ datagram ++ replicate (1461 - length rest) 0
  unfolding receive_buffer
  received_datagram small =
      take-append-replicate datagram 1472 (1461 - length rest) 1472 0 (omega arith) (omega arith)

  datagram_checks :
      IsBytes datagram
      → b1 + 256 * b2 ≡ length rest
      → length rest ≤ 1461
      → packet_checks (decode_packet (receive_buffer datagram))
        ≡ (field datagram == checksum (zeroed datagram))
  unfolding packet_checks clear_checksum encode_packet decode_packet decode
  datagram_checks h e small =
      let k = 1461 - length rest in
      let whole : take 1461 (rest ++ replicate k 0) ≡ rest ++ replicate k 0 =
        take_all 1461 (rest ++ replicate k 0)
          (omega (arith, length-append rest (replicate k 0), length-replicate {A = ℕ} k 0)) in
      let kept : take (11 + length rest) (cleared ++ (rest ++ replicate k 0)) ≡ cleared ++ rest =
        take-append_add cleared (rest ++ replicate k 0) (length rest)
        ∙ ap (λ t. cleared ++ t) (take-append rest (replicate k 0)) in
      rw (received_datagram small) (rw (encode-clear h, whole, e, kept) refl)

  sum_changes :
      (i b : ℕ)
      → IsBytes datagram
      → b < 256
      → i < 11 + length rest
      → byte_at (zeroed datagram) i ≢ b
      → checksum (set (zeroed datagram) i b) ≢ checksum (zeroed datagram)
  sum_changes i b bytes hb hi ne =
      checksum-set_behind [] (zeroed datagram) i b tt (ground arith) hb (omega arith) ne

  -- Outside the checksum a changed byte changes the sum but not the field, inside the field but not
  -- the sum.
  set_cases :
      (i b : ℕ)
      → IsBytes datagram
      → b < 256
      → i < 11 + length rest
      → byte_at datagram i ≢ b
      → ((field (set datagram i b) ≡ field datagram)
          × (checksum (zeroed (set datagram i b)) ≢ checksum (zeroed datagram)))
        ⊎ ((field (set datagram i b) ≢ field datagram)
            × (zeroed (set datagram i b) ≡ zeroed datagram))
  unfolding decode
  set_cases zero b bytes hb hi ne = inl (refl, sum_changes 0 b bytes hb (omega arith) ne)
  set_cases (suc zero) b bytes hb hi ne = inl (refl, sum_changes 1 b bytes hb (omega arith) ne)
  set_cases (suc (suc zero)) b bytes hb hi ne =
      inl (refl, sum_changes 2 b bytes hb (omega arith) ne)
  set_cases (suc (suc (suc zero))) b bytes hb hi ne =
      inl (refl, sum_changes 3 b bytes hb (omega arith) ne)
  set_cases (suc (suc (suc (suc zero)))) b bytes hb hi ne =
      inl (refl, sum_changes 4 b bytes hb (omega arith) ne)
  set_cases (suc (suc (suc (suc (suc zero))))) b bytes hb hi ne =
      inl (refl, sum_changes 5 b bytes hb (omega arith) ne)
  set_cases (suc (suc (suc (suc (suc (suc zero)))))) b bytes hb hi ne =
      inl (refl, sum_changes 6 b bytes hb (omega arith) ne)
  set_cases (suc (suc (suc (suc (suc (suc (suc zero))))))) b bytes hb hi ne =
      inr (λ e. ne (omega arith), refl)
  set_cases (suc (suc (suc (suc (suc (suc (suc (suc zero)))))))) b bytes hb hi ne =
      inr (λ e. ne (omega arith), refl)
  set_cases (suc (suc (suc (suc (suc (suc (suc (suc (suc zero))))))))) b bytes hb hi ne =
      inr (λ e. ne (omega arith), refl)
  set_cases (suc (suc (suc (suc (suc (suc (suc (suc (suc (suc zero)))))))))) b bytes hb hi ne =
      inr (λ e. ne (omega arith), refl)
  set_cases (suc (suc (suc (suc (suc (suc (suc (suc (suc (suc (suc i))))))))))) b bytes hb hi ne =
      inl (
        refl,
        sum_changes (suc (suc (suc (suc (suc (suc (suc (suc (suc (suc (suc i))))))))))) b bytes hb
            hi ne,
      )

-- Every datagram of 11 bytes or more has this form.
by_bytes :
    (P : List ℕ → Type 0)
    → ((b0 b1 b2 b3 b4 b5 b6 b7 b8 b9 b10 : ℕ) (rest : List ℕ)
        → P (datagram b0 b1 b2 b3 b4 b5 b6 b7 b8 b9 b10 rest))
    → (d : List ℕ) → 11 ≤ length d
    → P d
by_bytes P f d h = subst P (sym (bytes_of-append 11 d h)) (f _ _ _ _ _ _ _ _ _ _ _ (drop 11 d))

-- The datagram is as long as its header says, and fits the buffer.
pub record IsWhole (d : List ℕ) : Type 0 where
  pub bytes : IsBytes d
  pub header : 11 ≤ length d
  pub whole : 11 + (decode d).length ≡ length d
  pub fits : length d ≤ 1472

whole_checks :
    (d : List ℕ)
    → IsWhole d
    → packet_checks (decode_packet (receive_buffer d)) ≡ (field d == checksum (zeroed d))
whole_checks d w =
    by_bytes
      (λ (d : List ℕ).
        IsWhole d
        → packet_checks (decode_packet (receive_buffer d)) ≡ (field d == checksum (zeroed d)))
      (λ b0 b1 b2 b3 b4 b5 b6 b7 b8 b9 b10 rest w.
        unfold decode in
        datagram_checks b0 b1 b2 b3 b4 b5 b6 b7 b8 b9 b10 rest w.bytes (omega (arith, w.whole))
          (omega (arith, w.fits)))
      d w.header w

pub IsWhole-length : (d : List ℕ) → IsWhole d → (decode_packet (receive_buffer d)).rtp.length ≤ 1461
IsWhole-length d w =
    by_bytes (λ (d : List ℕ). IsWhole d → (decode_packet (receive_buffer d)).rtp.length ≤ 1461)
      (λ b0 b1 b2 b3 b4 b5 b6 b7 b8 b9 b10 rest w.
        unfold decode decode_packet in
        rw (received_datagram b0 b1 b2 b3 b4 b5 b6 b7 b8 b9 b10 rest (omega (arith, w.fits)))
          (omega (arith, w.whole, w.fits)))
      d w.header w

-- The bytes 1 and 2 hold the length, by which the checksum is cut off.
pub set-IsWhole : (d : List ℕ) (i b : ℕ) → IsWhole d → b < 256 → i ≢ 1 → i ≢ 2 → IsWhole (set d i b)
unfolding decode
set-IsWhole d i b w hb one two = record {
  bytes = set-IsBytes d i b w.bytes hb;
  header = omega (arith, length-set d i b, w.header);
  whole = omega (
    arith,
    length-set d i b,
    w.whole,
    byte_at-set_other d i 1 b one,
    byte_at-set_other d i 2 b two,
  );
  fits = omega (arith, length-set d i b, w.fits);
}

Changes : List ℕ → ℕ → ℕ → Type 0
Changes d i b =
    ((field (set d i b) ≡ field d) × (checksum (zeroed (set d i b)) ≢ checksum (zeroed d)))
    ⊎ ((field (set d i b) ≢ field d) × (zeroed (set d i b) ≡ zeroed d))

set-Changes :
    (d : List ℕ) (i b : ℕ) → IsWhole d → b < 256 → i < length d → byte_at d i ≢ b → Changes d i b
unfolding Changes
set-Changes d i b w hb hi ne =
    by_bytes (λ (d : List ℕ). IsWhole d → i < length d → byte_at d i ≢ b → Changes d i b)
      (λ b0 b1 b2 b3 b4 b5 b6 b7 b8 b9 b10 rest w hi ne.
        set_cases b0 b1 b2 b3 b4 b5 b6 b7 b8 b9 b10 rest i b w.bytes hb (omega arith) ne)
      d w.header w hi ne

-- A datagram that is as long as its header says, fits the buffer and passes the test of the
-- checksum passes it no more when one of its bytes is replaced by another, unless this byte belongs
-- to the length, at the indices 1 and 2.
pub corrupted-packet_checks :
    (d : List ℕ) (i b : ℕ)
    → IsWhole d
    → packet_checks (decode_packet (receive_buffer d)) ≡ true
    → b < 256
    → i < length d
    → i ≢ 1
    → i ≢ 2
    → byte_at d i ≢ b
    → packet_checks (decode_packet (receive_buffer (set d i b))) ≡ false
unfolding Changes
corrupted-packet_checks d i b w ok hb hi one two ne =
    let old = whole_checks d w in
    let new = whole_checks (set d i b) (set-IsWhole d i b w hb one two) in
    let changes = set-Changes d i b w hb hi ne in
    elim changes [
      | inl (same, other) ↦ rw (new, same) (ground arith)
      | inr (other, same) ↦ rw (new, same) (ground arith)
    ]
