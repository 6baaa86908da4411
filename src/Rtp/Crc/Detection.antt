-- ===== src/Rtp/Crc/Detection.antt =====
-- Lab2/My Codes/util.c: which corrupted packets the checksum tells from the packet that was sent.
use Prim.Native.Nat.{bit_xor}
use computer_network_labs.Prelude.{
  ℕ, zero, suc, ◌+◌, ◌/◌, ◌%◌, ◌^◌, ◌<◌, ◌≡◌, refl, sym, ap, ◌∙◌, ◌≢◌, Bool, true, ◌&&◌, List, [],
  ◌∷◌, ◌++◌, ◌==◌, if◌then◌else◌, arith, get_or, length, ==_iff,
}
use computer_network_labs.Rtp.Crc.{crc32_for_byte, fill_table, crc_step, crc_loop, checksum}
use computer_network_labs.Rtp.Crc.Xor.{xor_cancel, xor-div, xor_comm, xor-zero, xor-lt}
use computer_network_labs.Rtp.Crc.Ieee.{
  IsBytes, crc_step_lem, crc_step-lt, checksum_lem, crc_loop-lt, table_entry,
}

-- The index of the first number of a list whose highest byte is `t`.
find_top : ℕ → List ℕ → ℕ
find_top t [] = 0
find_top t (x ∷ xs) = if x / 2 ^ 24 == t then 0 else suc (find_top t xs)

tops_from : List ℕ → List ℕ → ℕ → Bool
unfolding find_top
tops_from all [] i = true
tops_from all (x ∷ xs) i = find_top (x / 2 ^ 24) all == i && tops_from all xs (i + 1)

tops_sound :
    (all xs : List ℕ) (i j : ℕ)
    → tops_from all xs i ≡ true
    → j < length xs
    → find_top (get_or xs j 0 / 2 ^ 24) all ≡ i + j
unfolding tops_from
tops_sound all [] i j h lt = absurd (omega arith)
tops_sound all (y ∷ xs) i zero h lt = ground (arith, ==_iff (find_top (y / 2 ^ 24) all) i)
tops_sound all (y ∷ xs) i (suc j) h lt = ground (arith, tops_sound all xs (i + 1) j)

length-fill_table : (n i : ℕ) → length (fill_table n i) ≡ n
unfolding fill_table
length-fill_table zero i = refl
length-fill_table (suc n) i = ap suc (length-fill_table n (i + 1))

-- The highest bytes of the table are all different.
top-index : (i : ℕ) → i < 256 → find_top (crc32_for_byte i / 2 ^ 24) (fill_table 0x100 0) ≡ i
top-index i h =
    ap (λ t. find_top (t / 2 ^ 24) (fill_table 0x100 0)) (sym (table_entry i h))
    ∙ tops_sound (fill_table 0x100 0) (fill_table 0x100 0) 0 i (unfold tops_from fill_table in refl)
        (omega (arith, length-fill_table 0x100 0))
    ∙ omega arith

-- The index into the table for a register and a byte.
abbrev index : ℕ → ℕ → ℕ
index c b = bit_xor (c % 256) b

-- The highest byte after a step is that of the table's entry.
step-top :
    (c b : ℕ)
    → c < 2 ^ 32
    → b < 256
    → crc_step (fill_table 0x100 0) c b / 2 ^ 24 ≡ crc32_for_byte (index c b) / 2 ^ 24
step-top c b hc hb =
    let none : c / 2 ^ 8 / 2 ^ 24 ≡ 0 = omega arith in
    let entry = crc32_for_byte (index c b) in
    ap (λ t. t / 2 ^ 24) (crc_step_lem c b hb)
    ∙ xor-div 24 entry (c / 2 ^ 8)
    ∙ ap (bit_xor (entry / 2 ^ 24)) none
    ∙ xor-zero (entry / 2 ^ 24)

step-index :
    (c d a b : ℕ)
    → c < 2 ^ 32
    → d < 2 ^ 32
    → a < 256
    → b < 256
    → crc_step (fill_table 0x100 0) c a ≡ crc_step (fill_table 0x100 0) d b
    → index c a ≡ index d b
step-index c d a b hc hd ha hb e =
    sym (top-index (index c a) (xor-lt 8 (c % 256) a (omega arith) ha))
    ∙ ap (λ t. find_top t (fill_table 0x100 0))
        (sym (step-top c a hc ha) ∙ ap (λ t. t / 2 ^ 24) e ∙ step-top d b hd hb)
    ∙ top-index (index d b) (xor-lt 8 (d % 256) b (omega arith) hb)

xor_injective : (a b c : ℕ) → bit_xor a b ≡ bit_xor a c → b ≡ c
xor_injective a b c e = sym (xor_cancel a b) ∙ ap (bit_xor a) e ∙ xor_cancel a c

xor_injective_left : (a b c : ℕ) → bit_xor a c ≡ bit_xor b c → a ≡ b
xor_injective_left a b c e = xor_injective c a b (xor_comm c a ∙ e ∙ xor_comm b c)

-- A step is injective in the byte, and in the register.
step_injective_byte :
    (c a b : ℕ)
    → c < 2 ^ 32
    → a < 256
    → b < 256
    → crc_step (fill_table 0x100 0) c a ≡ crc_step (fill_table 0x100 0) c b
    → a ≡ b
step_injective_byte c a b hc ha hb e =
    xor_injective (c % 256) a b (step-index c c a b hc hc ha hb e)

step_injective :
    (c d b : ℕ)
    → c < 2 ^ 32
    → d < 2 ^ 32
    → b < 256
    → crc_step (fill_table 0x100 0) c b ≡ crc_step (fill_table 0x100 0) d b
    → c ≡ d
step_injective c d b hc hd hb e =
    let same = step-index c d b b hc hd hb hb e in
    let low : c % 256 ≡ d % 256 = xor_injective_left (c % 256) (d % 256) b same in
    let high : c / 2 ^ 8 ≡ d / 2 ^ 8 =
      xor_injective (crc32_for_byte (index c b)) (c / 2 ^ 8) (d / 2 ^ 8) (
        sym (crc_step_lem c b hb)
        ∙ e
        ∙ crc_step_lem d b hb
        ∙ ap (λ t. bit_xor (crc32_for_byte t) (d / 2 ^ 8)) (sym same)) in
    omega arith

loop_injective :
    (bs : List ℕ) (c d : ℕ)
    → c < 2 ^ 32
    → d < 2 ^ 32
    → IsBytes bs
    → crc_loop (fill_table 0x100 0) bs c ≡ crc_loop (fill_table 0x100 0) bs d
    → c ≡ d
unfolding crc_loop
loop_injective [] c d hc hd h e = e
loop_injective (b ∷ bs) c d hc hd h e = step_injective c d b hc hd h.0 (
    loop_injective bs (crc_step (fill_table 0x100 0) c b) (crc_step (fill_table 0x100 0) d b)
      (crc_step-lt c b hc h.0) (crc_step-lt d b hd h.0) h.1 e)

loop-append :
    (xs bs : List ℕ) (c : ℕ)
    → crc_loop (fill_table 0x100 0) (xs ++ bs) c
      ≡ crc_loop (fill_table 0x100 0) bs (crc_loop (fill_table 0x100 0) xs c)
unfolding crc_loop
loop-append [] bs c = refl
loop-append (a ∷ xs) bs c = loop-append xs bs (crc_step (fill_table 0x100 0) c a)

-- Two strings of bytes that differ in exactly one place, by whatever bits and however long they
-- are, have different checksums.
pub checksum_one_byte :
    (before after : List ℕ) (a b : ℕ)
    → IsBytes before
    → IsBytes after
    → a < 256
    → b < 256
    → a ≢ b
    → checksum (before ++ a ∷ after) ≢ checksum (before ++ b ∷ after)
unfolding crc_loop
checksum_one_byte before after a b hbefore hafter ha hb ne e =
    let c = crc_loop (fill_table 0x100 0) before 0 in
    let hc = crc_loop-lt before 0 (omega arith) hbefore in
    ne (
      step_injective_byte c a b hc ha hb (
        loop_injective after (crc_step (fill_table 0x100 0) c a) (crc_step (fill_table 0x100 0) c b)
          (crc_step-lt c a hc ha) (crc_step-lt c b hc hb) hafter
          (sym (loop-append before (a ∷ after) 0)
            ∙ sym (checksum_lem (before ++ a ∷ after))
            ∙ e
            ∙ checksum_lem (before ++ b ∷ after)
            ∙ loop-append before (b ∷ after) 0)))
