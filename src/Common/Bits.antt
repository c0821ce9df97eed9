-- ===== src/Common/Bits.antt =====
-- Masks and disjoint unions of bits as arithmetic, at every width.
use Prim.Native.Nat.{ℕ, zero, suc, ◌+◌, ◌*◌, ◌/◌, ◌%◌, ◌^◌, ◌≤◌, ◌<◌, min, max}
use Prim.Native.Nat.{
  ◌-◌, differ, bit_xor, bit_xor-bitwise, bit_and, bit_or, digits, bit_and-bitwise, bit_or-bitwise,
}
use mathlib.Core.Bool.{Bool, true, ◌&&◌}
use mathlib.Core.Path.{◌≡◌, refl, ap, ◌∙◌}
use chaintopeslashrust_tapyr.Common.Tests.{◌==◌}
use native.Mathlib.Omega.{arith}
use native.Mathlib.Nat.{pow-suc, div-div-eq-div-mul}

module _ (z : ℕ → ℕ) (f : ℕ → ℕ → ℕ) where
  digits_enough : (n m a b : ℕ) → a ≤ n → a ≤ m → digits z f n a b ≡ digits z f m a b
  digits_enough zero zero a b p q = refl
  digits_enough zero (suc m) zero b p q = refl
  digits_enough zero (suc m) (suc a) b p q = absurd (omega arith)
  digits_enough (suc n) zero zero b p q = refl
  digits_enough (suc n) zero (suc a) b p q = absurd (omega arith)
  digits_enough (suc n) (suc m) zero b p q = refl
  digits_enough (suc n) (suc m) (suc a) b p q =
      rw (digits_enough n m (suc a / 2) (b / 2) (omega arith) (omega arith))

bit_or_digit : (a b : ℕ) → bit_or a b ≡ bit_or (a / 2) (b / 2) * 2 + max (a % 2) (b % 2)
bit_or_digit zero b = omega (arith, bit_or-bitwise 0 b, bit_or-bitwise 0 (b / 2))
bit_or_digit (suc a) b = omega (
  arith,
  bit_or-bitwise (suc a) b,
  bit_or-bitwise (suc a / 2) (b / 2),
  digits_enough (λ y. y) max a (suc a / 2) (suc a / 2) (b / 2) (omega arith) (omega arith),
)

bit_and_digit : (a b : ℕ) → bit_and a b ≡ bit_and (a / 2) (b / 2) * 2 + min (a % 2) (b % 2)
bit_and_digit zero b = omega (arith, bit_and-bitwise 0 b, bit_and-bitwise 0 (b / 2))
bit_and_digit (suc a) b = omega (
  arith,
  bit_and-bitwise (suc a) b,
  bit_and-bitwise (suc a / 2) (b / 2),
  digits_enough (λ y. 0) min a (suc a / 2) (suc a / 2) (b / 2) (omega arith) (omega arith),
)

half_shift : (k b : ℕ) → b * 2 ^ suc k / 2 ≡ b * 2 ^ k
half_shift k b = omega (arith, ap (λ (t : ℕ). b * t) (pow-suc 2 k))

half_below : (k a : ℕ) → a < 2 ^ suc k → a / 2 < 2 ^ k
half_below k a h = omega (arith, pow-suc 2 k)

-- The digits of `b`, moved above those of `a`, are added.
pub bit_or_above : (k a b : ℕ) → a < 2 ^ k → bit_or a (b * 2 ^ k) ≡ a + b * 2 ^ k
bit_or_above zero zero b h = omega (arith, bit_or-bitwise 0 (b * 1))
bit_or_above zero (suc a) b h = absurd (omega arith)
bit_or_above (suc k) a b h = omega (
  arith,
  pow-suc 2 k,
  ap (λ (t : ℕ). b * t) (pow-suc 2 k),
  bit_or_digit a (b * 2 ^ suc k),
  ap (bit_or (a / 2)) (half_shift k b),
  bit_or_above k (a / 2) b (half_below k a h),
)

and_zero : (n a : ℕ) → a ≤ n → bit_and a 0 ≡ 0
and_zero n zero h = refl
and_zero zero (suc a) h = absurd (omega arith)
and_zero (suc n) (suc a) h =
    omega (arith, bit_and_digit (suc a) 0, and_zero n (suc a / 2) (omega arith))

-- One more bit of a mask of ones.
mask_bit : (a m : ℕ) → bit_and a (m * 2 + 1) ≡ bit_and (a / 2) m * 2 + a % 2
mask_bit a m = omega (arith, bit_and_digit a (m * 2 + 1), ap (bit_and (a / 2)) (half_odd m))
  where
    half_odd : (m : ℕ) → (m * 2 + 1) / 2 ≡ m
    half_odd m = omega arith

mask_four : (a : ℕ) → bit_and a 15 ≡ a % 16
mask_four a = omega (
  arith,
  mask_bit a 7,
  mask_bit (a / 2) 3,
  mask_bit (a / 2 / 2) 1,
  mask_bit (a / 2 / 2 / 2) 0,
  and_zero (a / 2 / 2 / 2 / 2) (a / 2 / 2 / 2 / 2) (omega arith),
)

-- The mask of one byte.
pub bit_and_byte : (a : ℕ) → bit_and a 0xff ≡ a % 256
bit_and_byte a = omega (
  arith,
  mask_bit a 127,
  mask_bit (a / 2) 63,
  mask_bit (a / 2 / 2) 31,
  mask_bit (a / 2 / 2 / 2) 15,
  mask_four (a / 2 / 2 / 2 / 2),
)

-- The mask of seven bits.
pub bit_and_seven : (a : ℕ) → bit_and a 0x7f ≡ a % 128
bit_and_seven a =
    omega (
      arith,
      mask_bit a 63,
      mask_bit (a / 2) 31,
      mask_bit (a / 2 / 2) 15,
      mask_four (a / 2 / 2 / 2),
    )

mask_bit_of : (a m k : ℕ) → k ≡ m * 2 + 1 → bit_and a k ≡ bit_and (a / 2) m * 2 + a % 2
mask_bit_of a m k e = ap (bit_and a) e ∙ mask_bit a m

-- The lowest byte of a mask of ones.
pub bit_and_low_byte : (a m : ℕ) → bit_and a (m * 256 + 255) ≡ bit_and (a / 256) m * 256 + a % 256
bit_and_low_byte a m =
    let eighth : a / 2 / 2 / 2 / 2 / 2 / 2 / 2 / 2 ≡ a / 256 = omega arith in
    omega (
      arith,
      mask_bit_of a (m * 128 + 127) (m * 256 + 255) (omega arith),
      mask_bit_of (a / 2) (m * 64 + 63) (m * 128 + 127) (omega arith),
      mask_bit_of (a / 2 / 2) (m * 32 + 31) (m * 64 + 63) (omega arith),
      mask_bit_of (a / 2 / 2 / 2) (m * 16 + 15) (m * 32 + 31) (omega arith),
      mask_bit_of (a / 2 / 2 / 2 / 2) (m * 8 + 7) (m * 16 + 15) (omega arith),
      mask_bit_of (a / 2 / 2 / 2 / 2 / 2) (m * 4 + 3) (m * 8 + 7) (omega arith),
      mask_bit_of (a / 2 / 2 / 2 / 2 / 2 / 2) (m * 2 + 1) (m * 4 + 3) (omega arith),
      mask_bit (a / 2 / 2 / 2 / 2 / 2 / 2 / 2) m,
      ap (λ x. bit_and x m) eighth,
    )

-- Over a small range, a law of two functions is checked by evaluation.
unfoldable pub agree_below : ℕ → (ℕ → ℕ) → (ℕ → ℕ) → Bool
agree_below zero f g = true
agree_below (suc n) f g = (f n == g n) && agree_below n f g

pub agree_below_sound :
    (n : ℕ) (f g : ℕ → ℕ) → agree_below n f g ≡ true → (x : ℕ) → x < n → f x ≡ g x
unfolding agree_below
agree_below_sound zero f g h x lt = absurd (omega arith)
agree_below_sound (suc n) f g h x lt =
    ground (arith, λ (e : agree_below n f g ≡ true). agree_below_sound n f g e x)

-- One bit of a number.
pub bit_and_one : (k a : ℕ) → bit_and a (2 ^ k) ≡ a / 2 ^ k % 2 * 2 ^ k
bit_and_one zero a = omega (arith, bit_and_digit a 1, and_zero (a / 2) (a / 2) (omega arith))
bit_and_one (suc k) a =
    let halves : 2 ^ suc k ≡ 2 ^ k * 2 = omega (arith, pow-suc 2 k) in
    let half : 2 ^ suc k / 2 ≡ 2 ^ k = omega (arith, halves) in
    let quarter : a / 2 / 2 ^ k ≡ a / 2 ^ suc k =
      div-div-eq-div-mul a 2 (2 ^ k) ∙ ap (λ d. a / d) (omega (arith, halves)) in
    let upper : bit_and (a / 2) (2 ^ suc k / 2) ≡ a / 2 ^ suc k % 2 * 2 ^ k =
      ap (bit_and (a / 2)) half ∙ bit_and_one k (a / 2) ∙ ap (λ t. t % 2 * 2 ^ k) quarter in
    let doubled : a / 2 ^ suc k % 2 * 2 ^ suc k ≡ a / 2 ^ suc k % 2 * 2 ^ k * 2 =
      ap (λ d. a / 2 ^ suc k % 2 * d) halves ∙ omega arith in
    omega (arith, bit_and_digit a (2 ^ suc k), upper, halves, doubled)

bit_xor_digit : (a b : ℕ) → bit_xor a b ≡ bit_xor (a / 2) (b / 2) * 2 + differ (a % 2) (b % 2)
bit_xor_digit zero b = omega (arith, bit_xor-bitwise 0 b, bit_xor-bitwise 0 (b / 2))
bit_xor_digit (suc a) b = omega (
  arith,
  bit_xor-bitwise (suc a) b,
  bit_xor-bitwise (suc a / 2) (b / 2),
  digits_enough (λ y. y) differ a (suc a / 2) (suc a / 2) (b / 2) (omega arith) (omega arith),
)

differ_zero : (x : ℕ) → differ x 0 ≡ x
differ_zero zero = refl
differ_zero (suc x) = refl

-- The highest bit, taken off.
pub bit_xor_high : (k a : ℕ) → 2 ^ k ≤ a → a < 2 ^ suc k → bit_xor a (2 ^ k) ≡ a - 2 ^ k
bit_xor_high zero a low high =
    let one_only : a ≡ 1 = omega (arith, pow-suc 2 0) in
    ap (λ n. bit_xor n 1) one_only ∙ omega arith
bit_xor_high (suc k) a low high =
    let halves : 2 ^ suc k ≡ 2 ^ k * 2 = omega (arith, pow-suc 2 k) in
    let more : 2 ^ suc (suc k) ≡ 2 ^ suc k * 2 = omega (arith, pow-suc 2 (suc k)) in
    let upper : bit_xor (a / 2) (2 ^ suc k / 2) ≡ a / 2 - 2 ^ k =
      ap (bit_xor (a / 2)) (omega (arith, halves))
      ∙ bit_xor_high k (a / 2) (omega (arith, halves)) (omega (arith, halves, more)) in
    let lowest : differ (a % 2) (2 ^ suc k % 2) ≡ a % 2 =
      ap (differ (a % 2)) (omega (arith, halves)) ∙ differ_zero (a % 2) in
    omega (arith, bit_xor_digit a (2 ^ suc k), upper, lowest, halves)

bit_or_comm : (n a b : ℕ) → a ≤ n → b ≤ n → bit_or a b ≡ bit_or b a
bit_or_comm zero zero zero p q = refl
bit_or_comm zero zero (suc b) p q = absurd (omega arith)
bit_or_comm zero (suc a) b p q = absurd (omega arith)
bit_or_comm (suc n) a b p q = omega (
  arith,
  bit_or_digit a b,
  bit_or_digit b a,
  bit_or_comm n (a / 2) (b / 2) (omega arith) (omega arith),
)

-- The digits of `a` are added below those of `b`, moved.
pub bit_or_below : (k a b : ℕ) → a < 2 ^ k → bit_or (b * 2 ^ k) a ≡ b * 2 ^ k + a
bit_or_below k a b h =
    bit_or_comm (b * 2 ^ k + a) (b * 2 ^ k) a (omega arith) (omega arith)
    ∙ bit_or_above k a b h
    ∙ omega arith
