-- ===== src/Rtp/Crc/Ieee.antt =====
-- Lab2/My Codes/util.c: the checksum against a description of CRC-32 of IEEE 802.3 bit by bit.
use Prim.Native.Nat.{bit_xor}
use computer_network_labs.Prelude.{
  ℕ, zero, suc, ◌+◌, ◌-◌, ◌*◌, ◌/◌, ◌%◌, ◌^◌, ◌≤◌, ◌<◌, ◌≡◌, refl, sym, ap, ◌∙◌, ◌⊎◌, inl, inr,
  Bool, true, ◌&&◌, List, [], ◌∷◌, ◌==◌, if◌then◌else◌, get_or, All, arith, min,
}
use mathlib.Core.Path.{ap₂}
use computer_network_labs.Rtp.Crc.{
  poly, crc32_for_byte, zero_table, fill_table, init_table, crc_step, crc_loop, compute_checksum,
  checksum,
}
use computer_network_labs.Rtp.Crc.Xor.{
  zero-xor, xor-zero, xor_comm, xor_assoc, xor-lt, xor-complement, xor-div, xor-mod, xor_half,
  xor_parity, xor_split, two_pow_suc-mul,
}

-- A string of bytes.
abbrev pub IsBytes : List ℕ → Type 0
IsBytes = All (λ b. b < 256)

-- The register of the standard takes in one bit: shift, and xor the polynomial if a 1 falls out.
unfoldable pub shift_bit : ℕ → ℕ
shift_bit r = if r % 2 == 1 then bit_xor (r / 2) 0xEDB88320 else r / 2

unfoldable pub shift_bits : ℕ → ℕ → ℕ
unfolding shift_bit
shift_bits zero r = r
shift_bits (suc n) r = shift_bits n (shift_bit r)

abbrev pub shift_byte : ℕ → ℕ
shift_byte r = shift_bits 8 r

pub shift_bytes : ℕ → List ℕ → ℕ
shift_bytes r [] = r
shift_bytes r (b ∷ bs) = shift_bytes (shift_byte (bit_xor r b)) bs

abbrev pub ones : ℕ
ones = 2 ^ 32 - 1

-- The register starts with ones, and the result is its complement.
unfoldable pub ieee_crc : List ℕ → ℕ
unfolding shift_bytes
ieee_crc bs = ones - shift_bytes ones bs

-- Agreement of two functions below a bound, by evaluation.
agree_below : (ℕ → ℕ) → (ℕ → ℕ) → ℕ → Bool
agree_below f g zero = true
agree_below f g (suc n) = f n == g n && agree_below f g n

agree_below→eq : (f g : ℕ → ℕ) (n i : ℕ) → agree_below f g n ≡ true → i < n → f i ≡ g i
unfolding agree_below
agree_below→eq f g zero i e h = absurd (omega arith)
agree_below→eq f g (suc n) i e h = ground (arith, agree_below→eq f g n i)

-- A table entry of the code, by the standard's register.
byte-shift : (i : ℕ) → i < 256 → crc32_for_byte i ≡ bit_xor (shift_byte (255 - i)) 0xFF000000
unfolding agree_below crc32_for_byte shift_bits
byte-shift i h =
    agree_below→eq crc32_for_byte (λ i. bit_xor (shift_byte (255 - i)) 0xFF000000) 256 i refl h

ltb_below : (f : ℕ → ℕ) (m n i : ℕ) → agree_below (λ i. min (f i) m) f n ≡ true → i < n → f i ≤ m
ltb_below f m n i e h = omega (arith, agree_below→eq (λ i. min (f i) m) f n i e h)

pub crc32_for_byte-lt : (i : ℕ) → i < 256 → crc32_for_byte i < 2 ^ 32
unfolding agree_below crc32_for_byte
crc32_for_byte-lt i h = omega (arith, ltb_below crc32_for_byte ones 256 i refl h)

shift_bit-xor : (x y : ℕ) → shift_bit (bit_xor x (2 * y)) ≡ bit_xor (shift_bit x) y
unfolding shift_bit
shift_bit-xor x y =
    let half : 2 * y / 2 ≡ y = omega arith in
    ground (
      arith,
      xor_parity x (2 * y),
      xor_half x (2 * y),
      half,
      xor_assoc (x / 2) poly y,
      xor_assoc (x / 2) y poly,
      xor_comm poly y,
    )

shift_bits-xor : (n x m : ℕ) → shift_bits n (bit_xor x (2 ^ n * m)) ≡ bit_xor (shift_bits n x) m
unfolding shift_bits
shift_bits-xor zero x m = ap (bit_xor x) (omega arith)
shift_bits-xor (suc n) x m =
    rw (two_pow_suc-mul n m, shift_bit-xor x (2 ^ n * m)) (shift_bits-xor n (shift_bit x) m)

-- Eight shifts act on the lowest byte alone, and move the others down.
shift_byte_split : (x : ℕ) → shift_byte x ≡ bit_xor (shift_byte (x % 2 ^ 8)) (x / 2 ^ 8)
shift_byte_split x = ap shift_byte (sym (xor_split 8 x)) ∙ shift_bits-xor 8 (x % 2 ^ 8) (x / 2 ^ 8)

get_or-fill_table : (n i j : ℕ) → j < n → get_or (fill_table n i) j 0 ≡ crc32_for_byte (i + j)
unfolding fill_table
get_or-fill_table zero i j h = absurd (omega arith)
get_or-fill_table (suc n) i zero h = ap crc32_for_byte (omega arith)
get_or-fill_table (suc n) i (suc j) h =
    get_or-fill_table n (i + 1) j (omega arith) ∙ ap crc32_for_byte (omega arith)

pub table_entry : (j : ℕ) → j < 256 → get_or (fill_table 0x100 0) j 0 ≡ crc32_for_byte j
table_entry j h = get_or-fill_table 0x100 0 j h ∙ ap crc32_for_byte (omega arith)

-- A static table that no call has filled, or that some call has.
abbrev pub IsTable : List ℕ → Type 0
IsTable table = (table ≡ zero_table) ⊎ (table ≡ fill_table 0x100 0)

pub init_table_lem : (table : List ℕ) → IsTable table → init_table table ≡ fill_table 0x100 0
unfolding init_table
init_table_lem table (inl e) = rw e refl
init_table_lem table (inr e) = rw e refl

-- Every call returns the value of the first one and leaves the table filled.
pub compute_checksum_stable :
    (table pkt : List ℕ)
    → IsTable table
    → compute_checksum table pkt ≡ (checksum pkt, fill_table 0x100 0)
unfolding compute_checksum checksum
compute_checksum_stable table pkt t =
    rw (init_table_lem table t, init_table_lem zero_table (inl refl))

pub crc_step_lem :
    (c b : ℕ)
    → b < 256
    → crc_step (fill_table 0x100 0) c b ≡ bit_xor (crc32_for_byte (bit_xor (c % 256) b)) (c / 2 ^ 8)
unfolding crc_step
crc_step_lem c b h =
    ap (λ t. bit_xor t (c / 2 ^ 8))
      (table_entry (bit_xor (c % 256) b) (xor-lt 8 (c % 256) b (omega arith) h))

pub crc_step-lt : (c b : ℕ) → c < 2 ^ 32 → b < 256 → crc_step (fill_table 0x100 0) c b < 2 ^ 32
crc_step-lt c b hc hb = rw (crc_step_lem c b hb) (
    xor-lt 32 (crc32_for_byte (bit_xor (c % 256) b)) (c / 2 ^ 8)
      (crc32_for_byte-lt (bit_xor (c % 256) b) (xor-lt 8 (c % 256) b (omega arith) hb))
      (omega arith))

-- The register of the standard after a byte, in parts.
shift_byte-parts :
    (c b : ℕ)
    → c < 2 ^ 32
    → b < 256
    → shift_byte (bit_xor (ones - c) b)
      ≡ bit_xor (shift_byte (255 - bit_xor (c % 256) b)) (bit_xor 0xFFFFFF (c / 2 ^ 8))
shift_byte-parts c b hc hb =
    let low : (ones - c) % 2 ^ 8 ≡ 2 ^ 8 - 1 - c % 256 = omega arith in
    let high : (ones - c) / 2 ^ 8 ≡ 2 ^ 24 - 1 - c / 2 ^ 8 = omega arith in
    let small : b % 2 ^ 8 ≡ b = omega arith in
    let none : b / 2 ^ 8 ≡ 0 = omega arith in
    let x = bit_xor (ones - c) b in
    let mod_part : x % 2 ^ 8 ≡ 255 - bit_xor (c % 256) b =
      xor-mod 8 (ones - c) b
      ∙ ap₂ bit_xor low small
      ∙ xor-complement 8 (c % 256) b (omega arith) hb in
    let div_part : x / 2 ^ 8 ≡ bit_xor 0xFFFFFF (c / 2 ^ 8) =
      xor-div 8 (ones - c) b
      ∙ ap₂ bit_xor high none
      ∙ xor-zero (2 ^ 24 - 1 - c / 2 ^ 8)
      ∙ omega (
        arith,
        xor-complement 24 0 (c / 2 ^ 8) (omega arith) (omega arith),
        zero-xor (c / 2 ^ 8),
      ) in
    shift_byte_split x ∙ ap₂ (λ (s t : ℕ). bit_xor (shift_byte s) t) mod_part div_part

xor_regroup :
    (t m : ℕ) → bit_xor ones (bit_xor (bit_xor t 0xFF000000) m) ≡ bit_xor t (bit_xor 0xFFFFFF m)
xor_regroup t m = ground (
  arith,
  xor_assoc t 0xFF000000 m,
  xor_assoc ones t (bit_xor 0xFF000000 m),
  xor_comm ones t,
  xor_assoc t ones (bit_xor 0xFF000000 m),
  xor_assoc ones 0xFF000000 m,
)

-- One byte: the registers of the code and of the standard stay complements.
step-complement :
    (c b : ℕ)
    → c < 2 ^ 32
    → b < 256
    → shift_byte (bit_xor (ones - c) b) ≡ ones - crc_step (fill_table 0x100 0) c b
step-complement c b hc hb =
    let i = bit_xor (c % 256) b in
    let next = crc_step (fill_table 0x100 0) c b in
    let parts : next ≡ bit_xor (bit_xor (shift_byte (255 - i)) 0xFF000000) (c / 2 ^ 8) =
      crc_step_lem c b hb
      ∙ ap (λ t. bit_xor t (c / 2 ^ 8)) (byte-shift i (xor-lt 8 (c % 256) b (omega arith) hb)) in
    shift_byte-parts c b hc hb
    ∙ sym (xor_regroup (shift_byte (255 - i)) (c / 2 ^ 8))
    ∙ ap (bit_xor ones) (sym parts)
    ∙ omega (arith, xor-complement 32 0 next (omega arith) (crc_step-lt c b hc hb), zero-xor next)

loop-complement :
    (bs : List ℕ) (c : ℕ)
    → c < 2 ^ 32
    → IsBytes bs
    → shift_bytes (ones - c) bs ≡ ones - crc_loop (fill_table 0x100 0) bs c
unfolding shift_bytes crc_loop
loop-complement [] c hc h = refl
loop-complement (b ∷ bs) c hc h =
    ap (λ r. shift_bytes r bs) (step-complement c b hc h.0)
    ∙ loop-complement bs (crc_step (fill_table 0x100 0) c b) (crc_step-lt c b hc h.0) h.1

pub crc_loop-lt :
    (bs : List ℕ) (c : ℕ) → c < 2 ^ 32 → IsBytes bs → crc_loop (fill_table 0x100 0) bs c < 2 ^ 32
unfolding crc_loop
crc_loop-lt [] c hc h = hc
crc_loop-lt (b ∷ bs) c hc h =
    crc_loop-lt bs (crc_step (fill_table 0x100 0) c b) (crc_step-lt c b hc h.0) h.1

pub checksum_lem : (bs : List ℕ) → checksum bs ≡ crc_loop (fill_table 0x100 0) bs 0
unfolding checksum
checksum_lem bs = rw (init_table_lem zero_table (inl refl))

-- On a string of bytes the checksum is the CRC-32 of IEEE 802.3.
pub checksum-ieee : (bs : List ℕ) → IsBytes bs → checksum bs ≡ ieee_crc bs
unfolding ieee_crc
checksum-ieee bs h =
    omega (
      arith,
      checksum_lem bs,
      crc_loop-lt bs 0 (omega arith) h,
      loop-complement bs 0 (omega arith) h,
    )
