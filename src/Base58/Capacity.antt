-- ===== src/Base58/Capacity.antt =====
-- util/base58.rs: the decoder's buffer is large enough, and its loops compute a number.
use native.Mathlib.Nat.{pow-zero, pow-suc}
use chaintopeslashrust_tapyr.Common.{
  ℕ, zero, suc, ◌+◌, ◌-◌, ◌*◌, ◌/◌, ◌%◌, ◌^◌, ◌≤◌, ◌<◌, ◌≡◌, refl, ap, ◌∙◌, arith, true, List, [],
  ◌∷◌, map, length, All, eq→==,
}
use chaintopeslashrust_tapyr.Common.Bits.{agree_below, agree_below_sound}
use chaintopeslashrust_tapyr.Outcome.{Bytes, IsByte, Result, ok, err, panic}
use chaintopeslashrust_tapyr.Endian.Laws.{value}
use chaintopeslashrust_tapyr.Base58.Value.{IsDigit, number}
use chaintopeslashrust_tapyr.Base58.Encoder.{char_of}
use chaintopeslashrust_tapyr.Base58.Decoder.{Base58Error, multiply_in, digit_of, take_digits}

power_add : (b n m : ℕ) → b ^ (n + m) ≡ b ^ n * b ^ m
power_add b n zero =
    let e : n + 0 ≡ n = omega arith in
    ap (λ (k : ℕ). b ^ k) e ∙ omega (arith, ap (λ (k : ℕ). b ^ n * k) (pow-zero b))
power_add b n (suc m) =
    let e : n + suc m ≡ suc (n + m) = omega arith in
    ap (λ (k : ℕ). b ^ k) e
    ∙ pow-suc b (n + m)
    ∙ ap (λ (k : ℕ). k * b) (power_add b n m)
    ∙ grind (arith, ap (λ (k : ℕ). b ^ n * k) (pow-suc b m))

-- Fifteen digits fit in eleven bytes.
few_digits : agree_below 15 (λ r. 58 ^ r - 256 ^ (1 + r * 11 / 15)) (λ r. 0) ≡ true
unfolding agree_below
few_digits = refl

capacity_by : (q r : ℕ) → r < 15 → 58 ^ (15 * q + r) ≤ 256 ^ (1 + (15 * q + r) * 11 / 15)
capacity_by zero r h =
    let fits : 58 ^ r - 256 ^ (1 + r * 11 / 15) ≡ 0 =
      agree_below_sound 15 (λ r. 58 ^ r - 256 ^ (1 + r * 11 / 15)) (λ r. 0) few_digits r h in
    let e : 15 * 0 + r ≡ r = omega arith in rw e (omega (arith, fits))
capacity_by (suc q) r h =
    let n : ℕ = 15 * q + r in
    let more : 15 * suc q + r ≡ n + 15 = omega arith in
    let bytes : 1 + (n + 15) * 11 / 15 ≡ 1 + n * 11 / 15 + 11 = omega arith in
    let step : 58 ^ n * 58 ^ 15 ≤ 256 ^ (1 + n * 11 / 15) * 256 ^ 11 =
      mul_le (58 ^ n) (58 ^ 15) (256 ^ (1 + n * 11 / 15)) (256 ^ 11) (capacity_by q r h)
        (omega arith) in
    rw (more, bytes) (omega (arith, step, power_add 58 n 15, power_add 256 (1 + n * 11 / 15) 11))
  where
    mul_le : (x y m n : ℕ) → x ≤ m → y ≤ n → x * y ≤ m * n
    mul_le x y m n p q = grind arith

pub capacity : (n : ℕ) → 58 ^ n ≤ 256 ^ (1 + n * 11 / 15)
capacity n =
    let e : 15 * (n / 15) + n % 15 ≡ n = omega arith in
    ap_le e (capacity_by (n / 15) (n % 15) (omega arith))
  where
    ap_le : {m : ℕ} → m ≡ n → 58 ^ m ≤ 256 ^ (1 + m * 11 / 15) → 58 ^ n ≤ 256 ^ (1 + n * 11 / 15)
    ap_le e h = rw (← e) h

pub number-lt :
    (n : ℕ) (ds : List ℕ) → All IsDigit ds → number 58 n ds + 1 ≤ (n + 1) * 58 ^ length ds
unfolding number
number-lt n [] h = omega arith
number-lt n (d ∷ ds) (digit, digits) =
    let ih : number 58 (n * 58 + d) ds + 1 ≤ (n * 58 + d + 1) * 58 ^ length ds =
      number-lt (n * 58 + d) ds digits in
    grind (arith, ih, digit, ap (λ (k : ℕ). (n + 1) * k) (pow-suc 58 (length ds)))

number-ge : (n : ℕ) (ds : List ℕ) → n ≤ number 58 n ds
unfolding number
number-ge n [] = omega arith
number-ge n (d ∷ ds) = omega (arith, number-ge (n * 58 + d) ds)

multiply_in_lem :
    (bs : Bytes) (carry : ℕ)
    → (value (multiply_in bs carry).0 + 256 ^ length bs * (multiply_in bs carry).1
        ≡ value bs * 58 + carry)
      × All IsByte (multiply_in bs carry).0
      × (length (multiply_in bs carry).0 ≡ length bs)
unfolding multiply_in value
multiply_in_lem [] carry = (omega arith, tt, refl)
multiply_in_lem (b ∷ bs) carry =
    let next : ℕ = (carry + b * 58) / 256 in
    let (sum, bytes, same) = multiply_in_lem bs next in
    (
      omega (arith, sum, ap (λ (k : ℕ). k * (multiply_in bs next).1) (pow-suc 256 (length bs))),
      (omega arith, bytes),
      ap suc same,
    )

code_of : Result Base58Error ℕ → ℕ
code_of (ok d) = suc d
code_of (err e) = 0
code_of panic = 0

code_of_inv : (r : Result Base58Error ℕ) (d : ℕ) → code_of r ≡ suc d → r ≡ ok d
unfolding code_of
code_of_inv (ok e) d h = ap ok (omega (arith, h))
code_of_inv (err e) d h = absurd (omega (arith, h))
code_of_inv panic d h = absurd (omega (arith, h))

all_digits_found : agree_below 58 (λ d. code_of (digit_of (char_of d))) (λ d. suc d) ≡ true
unfolding agree_below code_of digit_of
all_digits_found = refl

pub digit_of-char_of : (d : ℕ) → d < 58 → digit_of (char_of d) ≡ ok d
digit_of-char_of d h =
    code_of_inv (digit_of (char_of d)) d
      (agree_below_sound 58 (λ d. code_of (digit_of (char_of d))) (λ d. suc d) all_digits_found d h)

-- The buffer after digits were taken: it holds their number.
pub take_digits_lem :
    (ds : List ℕ) (n : ℕ) (scratch : Bytes)
    → All IsDigit ds
    → All IsByte scratch
    → value scratch ≡ n
    → number 58 n ds < 256 ^ length scratch
    → (out : Bytes) × (take_digits (map char_of ds) scratch ≡ ok out)
      × (value out ≡ number 58 n ds)
      × All IsByte out
      × (length out ≡ length scratch)
unfolding take_digits number
take_digits_lem [] n scratch _ bytes e room = (scratch, refl, e, bytes, refl)
take_digits_lem (d ∷ ds) n scratch (digit, digits) bytes e room =
    let r : Bytes × ℕ = multiply_in scratch d in
    let (sum, next_bytes, same) = multiply_in_lem scratch d in
    let below : n * 58 + d < 256 ^ length scratch =
      omega (arith, number-ge (n * 58 + d) ds, room) in
    let none_out : r.1 ≡ 0 = grind (arith, sum, e, below) in
    let held : value r.0 ≡ n * 58 + d =
      omega (arith, sum, e, ap (λ (k : ℕ). 256 ^ length scratch * k) none_out) in
    let (out, result, number_out, out_bytes, same_out) =
      take_digits_lem ds (n * 58 + d) r.0 digits next_bytes held
        (rw (ap (λ (k : ℕ). 256 ^ k) same) room) in
    (
      out,
      rw (digit_of-char_of d digit, eq→== r.1 0 none_out) result,
      number_out,
      out_bytes,
      same_out ∙ same,
    )
