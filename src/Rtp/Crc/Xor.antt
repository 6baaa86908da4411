-- ===== src/Rtp/Crc/Xor.antt =====
-- The operator `^` of C on numbers of any width: the digit step and the laws that follow from it.
use Prim.Native.Nat.{bit_xor, digits, differ, bit_xor-bitwise}
use mathlib.Core.Path.{ap₂}
use native.Mathlib.Nat.{pow-suc, pow-succ', one-le-pow, div-div-eq-div-mul, div-add-mod, mod-lt}
use computer_network_labs.Prelude.{
  ℕ, zero, suc, ◌+◌, ◌-◌, ◌*◌, ◌/◌, ◌%◌, ◌^◌, ◌≤◌, ◌<◌, ◌≡◌, refl, sym, ap, ◌∙◌, arith,
}

abbrev xor_digits : ℕ → ℕ → ℕ → ℕ
xor_digits n a b = digits (λ b. b) differ n a b

xor_digits_fuel : (n m a b : ℕ) → a ≤ n → a ≤ m → xor_digits n a b ≡ xor_digits m a b
xor_digits_fuel zero zero a b p q = refl
xor_digits_fuel zero (suc m) zero b p q = refl
xor_digits_fuel zero (suc m) (suc a) b p q = absurd (omega arith)
xor_digits_fuel (suc n) zero zero b p q = refl
xor_digits_fuel (suc n) zero (suc a) b p q = absurd (omega arith)
xor_digits_fuel (suc n) (suc m) zero b p q = refl
xor_digits_fuel (suc n) (suc m) (suc a) b p q =
    omega (arith, xor_digits_fuel n m (suc a / 2) (b / 2) (omega arith) (omega arith))

differ_bits : (x y : ℕ) → x < 2 → y < 2 → differ x y ≡ (x + y) % 2
differ_bits zero y h k = omega arith
differ_bits (suc zero) zero h k = refl
differ_bits (suc zero) (suc zero) h k = refl
differ_bits (suc zero) (suc (suc y)) h k = absurd (omega arith)
differ_bits (suc (suc x)) y h k = absurd (omega arith)

pub zero-xor : (b : ℕ) → bit_xor 0 b ≡ b
zero-xor b = bit_xor-bitwise 0 b

xor_step : (a b : ℕ) → bit_xor a b ≡ bit_xor (a / 2) (b / 2) * 2 + (a % 2 + b % 2) % 2
xor_step zero b = omega (arith, zero-xor b, zero-xor (b / 2))
xor_step (suc a) b = omega (
  arith,
  bit_xor-bitwise (suc a) b,
  bit_xor-bitwise (suc a / 2) (b / 2),
  xor_digits_fuel a (suc a / 2) (suc a / 2) (b / 2) (omega arith) (omega arith),
  differ_bits (suc a % 2) (b % 2) (omega arith) (omega arith),
)

pub xor_half : (a b : ℕ) → bit_xor a b / 2 ≡ bit_xor (a / 2) (b / 2)
xor_half a b = omega (arith, xor_step a b)

pub xor_parity : (a b : ℕ) → bit_xor a b % 2 ≡ (a + b) % 2
xor_parity a b = omega (arith, xor_step a b)

xor_comm_fuel : (n a b : ℕ) → a + b ≤ n → bit_xor a b ≡ bit_xor b a
xor_comm_fuel zero zero zero h = refl
xor_comm_fuel zero zero (suc b) h = absurd (omega arith)
xor_comm_fuel zero (suc a) b h = absurd (omega arith)
xor_comm_fuel (suc n) zero zero h = refl
xor_comm_fuel (suc n) zero (suc b) h =
    omega
      (arith, xor_step 0 (suc b), xor_step (suc b) 0, xor_comm_fuel n 0 (suc b / 2) (omega arith))
xor_comm_fuel (suc n) (suc a) b h = omega (
  arith,
  xor_step (suc a) b,
  xor_step b (suc a),
  xor_comm_fuel n (suc a / 2) (b / 2) (omega arith),
)

pub xor_comm : (a b : ℕ) → bit_xor a b ≡ bit_xor b a
xor_comm a b = xor_comm_fuel (a + b) a b (omega arith)

pub xor-zero : (a : ℕ) → bit_xor a 0 ≡ a
xor-zero a = xor_comm a 0 ∙ zero-xor a

xor_assoc_fuel : (n a b c : ℕ) → a + b + c ≤ n → bit_xor (bit_xor a b) c ≡ bit_xor a (bit_xor b c)
xor_assoc_fuel n zero b c h = rw (zero-xor b, zero-xor (bit_xor b c))
xor_assoc_fuel zero (suc a) b c h = absurd (omega arith)
xor_assoc_fuel (suc n) (suc a) b c h = ground (
  arith,
  xor_step (bit_xor (suc a) b) c,
  xor_step (suc a) (bit_xor b c),
  xor_half (suc a) b,
  xor_half b c,
  xor_parity (suc a) b,
  xor_parity b c,
  xor_assoc_fuel n (suc a / 2) (b / 2) (c / 2),
)

pub xor_assoc : (a b c : ℕ) → bit_xor (bit_xor a b) c ≡ bit_xor a (bit_xor b c)
xor_assoc a b c = xor_assoc_fuel (a + b + c) a b c (omega arith)

xor_self_fuel : (n a : ℕ) → a ≤ n → bit_xor a a ≡ 0
xor_self_fuel n zero h = refl
xor_self_fuel zero (suc a) h = absurd (omega arith)
xor_self_fuel (suc n) (suc a) h =
    omega (arith, xor_step (suc a) (suc a), xor_self_fuel n (suc a / 2) (omega arith))

pub xor_self : (a : ℕ) → bit_xor a a ≡ 0
xor_self a = xor_self_fuel a a (omega arith)

-- A number that is xored twice is gone.
pub xor_cancel : (a b : ℕ) → bit_xor a (bit_xor a b) ≡ b
xor_cancel a b = sym (xor_assoc a a b) ∙ ap (λ t. bit_xor t b) (xor_self a) ∙ zero-xor b

pub xor-lt : (k a b : ℕ) → a < 2 ^ k → b < 2 ^ k → bit_xor a b < 2 ^ k
xor-lt zero zero zero p q = omega arith
xor-lt zero zero (suc b) p q = absurd (omega arith)
xor-lt zero (suc a) b p q = absurd (omega arith)
xor-lt (suc k) a b p q = ground (arith, pow-suc 2 k, xor_step a b, xor-lt k (a / 2) (b / 2))

-- Below 2 ^ k the difference from 2 ^ k - 1 is the complement, and passes through `^`.
pub xor-complement :
    (k a b : ℕ) → a < 2 ^ k → b < 2 ^ k → bit_xor (2 ^ k - 1 - a) b ≡ 2 ^ k - 1 - bit_xor a b
xor-complement zero a b p q = ground (arith, zero-xor b, xor-zero a)
xor-complement (suc k) a b p q = ground (
  arith,
  pow-suc 2 k,
  one-le-pow k 2,
  xor_step (2 ^ suc k - 1 - a) b,
  xor_step a b,
  xor-lt k (a / 2) (b / 2),
  xor-complement k (a / 2) (b / 2),
)

div_half : (k a : ℕ) → a / 2 ^ suc k ≡ a / 2 / 2 ^ k
div_half k a = ap (λ t. a / t) (pow-succ' 2 k) ∙ sym (div-div-eq-div-mul a 2 (2 ^ k))

mod_half : (k a : ℕ) → a % 2 ^ suc k ≡ (a / 2) % 2 ^ k * 2 + a % 2
mod_half k a = omega (
  arith,
  div-add-mod a (2 ^ suc k),
  div-add-mod (a / 2) (2 ^ k),
  ap₂ (λ (s t : ℕ). s * t) (pow-succ' 2 k) (div_half k a),
)

-- `^` works on the high and on the low digits alone.
pub xor-div : (k a b : ℕ) → bit_xor a b / 2 ^ k ≡ bit_xor (a / 2 ^ k) (b / 2 ^ k)
xor-div zero a b = ground arith
xor-div (suc k) a b =
    rw (div_half k (bit_xor a b), div_half k a, div_half k b, xor_half a b)
      (xor-div k (a / 2) (b / 2))

pub xor-mod : (k a b : ℕ) → bit_xor a b % 2 ^ k ≡ bit_xor (a % 2 ^ k) (b % 2 ^ k)
xor-mod zero a b = ground arith
xor-mod (suc k) a b = ground (
  arith,
  mod_half k (bit_xor a b),
  mod_half k a,
  mod_half k b,
  xor_half a b,
  xor_parity a b,
  xor_step (a % 2 ^ suc k) (b % 2 ^ suc k),
  xor-mod k (a / 2) (b / 2),
)

pub two_pow_suc-mul : (k m : ℕ) → 2 ^ suc k * m ≡ 2 * (2 ^ k * m)
two_pow_suc-mul k m = ap (λ t. t * m) (pow-succ' 2 k) ∙ omega arith

-- `^` of numbers whose digits do not meet is their sum.
pub xor_fields : (k r m : ℕ) → r < 2 ^ k → bit_xor r (2 ^ k * m) ≡ r + 2 ^ k * m
xor_fields zero zero m h = zero-xor (2 ^ 0 * m) ∙ omega arith
xor_fields zero (suc r) m h = absurd (omega arith)
xor_fields (suc k) r m h =
    let double = two_pow_suc-mul k m in
    let half : 2 ^ suc k * m / 2 ≡ 2 ^ k * m = omega arith in
    ground (
      arith,
      pow-suc 2 k,
      double,
      half,
      xor_step r (2 ^ suc k * m),
      xor_fields k (r / 2) m (omega (arith, pow-suc 2 k)),
    )

-- A number without its last `k` digits, and with them.
pub xor_split : (k x : ℕ) → bit_xor (x % 2 ^ k) (2 ^ k * (x / 2 ^ k)) ≡ x
xor_split k x =
    xor_fields k (x % 2 ^ k) (x / 2 ^ k) (omega (arith, one-le-pow k 2, mod-lt x {m = 2 ^ k}))
    ∙ omega (arith, div-add-mod x (2 ^ k))
