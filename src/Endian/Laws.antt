-- ===== src/Endian/Laws.antt =====
-- The little-endian arrays of util/endian.rs against the base-256 digits of a number.
use chaintopeslashrust_tapyr.Common.{ℕ, zero, suc, ◌+◌, ◌*◌, ◌/◌, ◌%◌, ◌^◌, ◌≤◌, ◌<◌, ◌≡◌}
use chaintopeslashrust_tapyr.Common.{refl, sym, ap, subst, ◌∙◌, [], ◌∷◌, arith, length, All}
use chaintopeslashrust_tapyr.Common.{eq→==, bit_and, bit_or}
use chaintopeslashrust_tapyr.Common.Bits.{bit_or_above, bit_and_byte}
use chaintopeslashrust_tapyr.Outcome.{Bytes, IsByte, ok}
use chaintopeslashrust_tapyr.Endian.{shift_in_le, slice_to_le, bytes_from_le, to_array_le}
use native.Mathlib.Nat.{pow-suc, pow-le-pow_right, div-div-eq-div-mul, mod-eq_of_lt}
use native.Mathlib.Nat.{mul-le-mul_right, one-le-pow}
use native.Mathlib.Numerals.{towards_suc}

-- The `n` lowest base-256 digits of `v`, lowest first, and the number that digits stand for.
pub digits_of : ℕ → ℕ → Bytes
digits_of zero v = []
digits_of (suc n) v = (v % 256) ∷ digits_of n (v / 256)

unfoldable pub value : Bytes → ℕ
value [] = 0
value (b ∷ bs) = b + 256 * value bs

pub next_byte : (i : ℕ) → 2 ^ (suc i * 8) ≡ 256 * 2 ^ (i * 8)
next_byte i =
    let e : suc i * 8 ≡ i * 8 + 8 = omega arith in
    let p : 2 ^ (i * 8 + 8) ≡ 256 * 2 ^ (i * 8) = simp towards_suc (omega arith) in
    ap (λ (t : ℕ). 2 ^ t) e ∙ p

pub length-digits_of : (n v : ℕ) → length (digits_of n v) ≡ n
unfolding digits_of
length-digits_of zero v = refl
length-digits_of (suc n) v = ap suc (length-digits_of n (v / 256))

pub digits_of-IsByte : (n v : ℕ) → All IsByte (digits_of n v)
unfolding digits_of
digits_of-IsByte zero v = tt
digits_of-IsByte (suc n) v = (omega arith, digits_of-IsByte n (v / 256))

pub value-digits_of : (n v : ℕ) → v < 256 ^ n → value (digits_of n v) ≡ v
unfolding value digits_of
value-digits_of zero v h = omega arith
value-digits_of (suc n) v h =
    omega (arith, pow-suc 256 n, value-digits_of n (v / 256) (omega (arith, pow-suc 256 n)))

pub digits_of-value : (bs : Bytes) → All IsByte bs → digits_of (length bs) (value bs) ≡ bs
unfolding value digits_of
digits_of-value [] h = refl
digits_of-value (b ∷ bs) (hb, hs) =
    let low : (b + 256 * value bs) % 256 ≡ b = omega arith in
    let high : (b + 256 * value bs) / 256 ≡ value bs = omega arith in
    rw (low, high, digits_of-value bs hs)

pub value-lt : (bs : Bytes) → All IsByte bs → value bs < 256 ^ length bs
unfolding value
value-lt [] h = omega arith
value-lt (b ∷ bs) (hb, hs) = omega (arith, pow-suc 256 (length bs), value-lt bs hs)

next_shift : (i v : ℕ) → v / 2 ^ (suc i * 8) ≡ v / 2 ^ (i * 8) / 256
next_shift i v =
    let e : 256 * 2 ^ (i * 8) ≡ 2 ^ (i * 8) * 256 = omega arith in
    ap (λ (t : ℕ). v / t) (next_byte i ∙ e) ∙ sym (div-div-eq-div-mul v (2 ^ (i * 8)) 256)

bytes_from_le-digits_of : (n i v : ℕ) → bytes_from_le n i v ≡ digits_of n (v / 2 ^ (i * 8))
unfolding bytes_from_le digits_of
bytes_from_le-digits_of zero i v = refl
bytes_from_le-digits_of (suc n) i v =
    let p = 2 ^ (i * 8) in
    let low : bit_and (v / p) 0xff % 256 ≡ v / p % 256 = omega (arith, bit_and_byte (v / p)) in
    rw (low, bytes_from_le-digits_of n (suc i) v, next_shift i v)

pub to_array_le-digits_of : (n v : ℕ) → to_array_le n v ≡ digits_of n v
unfolding to_array_le
to_array_le-digits_of n v = bytes_from_le-digits_of n 0 v ∙ ap (digits_of n) (omega arith)

-- A byte below the width is not cut, and lands above what is there.
shift_in_step :
    (size i res b : ℕ)
    → b < 256
    → i < size
    → res < 2 ^ (i * 8)
    → bit_or res (b * 2 ^ (i * 8) % 2 ^ (size * 8)) ≡ res + b * 2 ^ (i * 8)
shift_in_step size i res b hb hi hr =
    let p = 2 ^ (i * 8) in
    let room : 2 ^ (suc i * 8) ≤ 2 ^ (size * 8) =
      pow-le-pow_right {n = 2} (omega arith) {i = suc i * 8} {j = size * 8} (omega arith) in
    let fits : b * p < 2 ^ (size * 8) = omega (
      arith,
      room,
      next_byte i,
      mul-le-mul_right p (below b hb),
      one-le-pow (i * 8) 2 (omega arith),
    ) in
    rw (mod-eq_of_lt fits) (bit_or_above (i * 8) res b hr)
  where
    below : (b : ℕ) → b < 256 → b ≤ 255
    below b h = omega arith

shift_in_le-value :
    (size i res : ℕ) (bs : Bytes)
    → All IsByte bs
    → i + length bs ≤ size
    → res < 2 ^ (i * 8)
    → shift_in_le size i res bs ≡ res + value bs * 2 ^ (i * 8)
unfolding shift_in_le value
shift_in_le-value size i res [] h hi hr = omega arith
shift_in_le-value size i res (b ∷ bs) (hb, hs) hi hr =
    let p = 2 ^ (i * 8) in
    let b_le : b ≤ 255 = omega arith in
    let small : res + b * p < 2 ^ (suc i * 8) =
      omega (arith, next_byte i, mul-le-mul_right p b_le) in
    rw (shift_in_step size i res b hb (omega arith) hr) (
      shift_in_le-value size (suc i) (res + b * p) bs hs (omega arith) small
      ∙ omega (arith, ap (λ (t : ℕ). value bs * t) (next_byte i)))

pub slice_to_le-value :
    {E : Type 0} (bs : Bytes) → All IsByte bs → slice_to_le {E = E} (length bs) bs ≡ ok (value bs)
unfolding slice_to_le
slice_to_le-value bs h =
    rw (eq→== (length bs) (length bs) refl)
      (ap ok (shift_in_le-value (length bs) 0 0 bs h (omega arith) (omega arith) ∙ omega arith))

-- Reading back the array of a number of that width.
pub slice_to_le-to_array_le :
    {E : Type 0} (n v : ℕ) → v < 256 ^ n → slice_to_le {E = E} n (to_array_le n v) ≡ ok v
slice_to_le-to_array_le {E} n v h = rw to_array_le-digits_of (
    subst (λ m. slice_to_le {E = E} m (digits_of n v) ≡ ok v) (length-digits_of n v)
      (slice_to_le-value (digits_of n v) (digits_of-IsByte n v) ∙ ap ok (value-digits_of n v h)))

-- The array of the number that was read.
pub to_array_le-slice_to_le :
    {E : Type 0} (bs : Bytes) (v : ℕ)
    → All IsByte bs
    → slice_to_le {E = E} (length bs) bs ≡ ok v
    → (to_array_le (length bs) v ≡ bs) × (v < 256 ^ length bs)
to_array_le-slice_to_le {E} bs v h e =
    let same : value bs ≡ v = cc (slice_to_le-value {E = E} bs h) in
    rw (to_array_le-digits_of, ← same) (digits_of-value bs h, value-lt bs h)
