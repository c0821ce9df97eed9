-- ===== src/Uint/Multiplication.antt =====
-- util/uint.rs: the loop of `mul`.
use native.Mathlib.Nat.{mod-lt, mod-eq_of_lt, mod-add-div, add-mul-mod_self_left, add-mod}
use chaintopeslashrust_tapyr.Common.{
  ℕ, zero, suc, ◌+◌, ◌*◌, ◌/◌, ◌%◌, ◌^◌, ◌≤◌, ◌<◌, ◌≡◌, refl, sym, ap, ◌∙◌, arith, List, [], ◌∷◌,
  length, All, some,
}
use chaintopeslashrust_tapyr.Common.Powers.{pow_positive, pow_sum}
use chaintopeslashrust_tapyr.Uint.{word, words_zero, shl, shr, low_u32, mul_rounds, mul}
use chaintopeslashrust_tapyr.Uint.Sums.{IsWord, number_of, number_of-lt}
use chaintopeslashrust_tapyr.Uint.Addition.{Yields, add_number}
use chaintopeslashrust_tapyr.Uint.Products.{mul_u32_number, zero_lem}
use chaintopeslashrust_tapyr.Uint.Shifts.{shl_number, word_power}
use chaintopeslashrust_tapyr.Uint.Quotients.{shr_number}

low_u32_lem : (xs : List ℕ) → 1 ≤ length xs → low_u32 xs ≡ some (number_of xs % 2 ^ 32)
unfolding low_u32 number_of
low_u32_lem [] h = absurd (omega arith)
low_u32_lem (x ∷ xs) h = ap some (omega arith)

mod_times : (x p m : ℕ) → x % m * p % m ≡ x * p % m
mod_times x p m =
    let whole : x * p ≡ x % m * p + m * (x / m * p) =
      grind (arith, ap (λ (t : ℕ). t * p) (mod-add-div x m)) in
    sym (ap (λ t. t % m) whole ∙ add-mul-mod_self_left (x % m * p) m (x / m * p))

room_above : (p t d : ℕ) → t < d → p * t + p ≤ p * d
room_above p t d h = grind arith

-- The digits of a number below one more digit of 32 bits.
next_digit :
    (n i : ℕ) → n % 2 ^ (32 * suc i) ≡ n % 2 ^ (32 * i) + 2 ^ (32 * i) * (n / 2 ^ (32 * i) % 2 ^ 32)
next_digit n i =
    let p : ℕ = 2 ^ (32 * i) in
    let d : ℕ = 2 ^ 32 in
    let t : ℕ = n / p % d in
    let top : ℕ = n / p / d in
    let power : 2 ^ (32 * suc i) ≡ p * d = pow_sum (32 * suc i) (32 * i) 32 (omega arith) in
    let whole : n ≡ n % p + p * t + p * d * top =
      grind (arith, mod-add-div n p, ap (λ (s : ℕ). p * s) (mod-add-div (n / p) d)) in
    let low : n % p < p = mod-lt n (pow_positive (32 * i)) in
    let digit : p * t + p ≤ p * d = room_above p t d (mod-lt (n / p) (omega arith)) in
    let small : n % p + p * t < p * d = omega (arith, low, digit) in
    ap (λ s. n % s) power
    ∙ ap (λ s. s % (p * d)) whole
    ∙ add-mul-mod_self_left (n % p + p * t) (p * d) top
    ∙ mod-eq_of_lt small

-- One round, by the numbers.
round_number : (a l t p m : ℕ) → (a * l % m + t * a % m * p % m) % m ≡ a * (l + p * t) % m
round_number a l t p m =
    let spread : a * l + t * a * p ≡ a * (l + p * t) = grind arith in
    ap (λ s. (a * l % m + s) % m) (mod_times (t * a) p m)
    ∙ sym (add-mod (a * l) (t * a * p) m)
    ∙ ap (λ s. s % m) spread

mul_rounds_lem :
    (rounds i : ℕ) (acc this other : List ℕ)
    → All IsWord acc
    → All IsWord this
    → All IsWord other
    → length acc ≡ length this
    → length other ≡ length this
    → 1 ≤ length this
    → number_of acc ≡ number_of this * (number_of other % 2 ^ (32 * i)) % word ^ length this
    → Yields
        (mul_rounds rounds i acc this other)
        (length this)
        (number_of this * (number_of other % 2 ^ (32 * (i + rounds))) % word ^ length this)
unfolding mul_rounds
mul_rounds_lem zero i acc this other ha ht ho long other_long some_words number =
    let last : i ≡ i + 0 = omega arith in
    let m : ℕ = word ^ length this in
    (
      acc,
      refl,
      number ∙ ap (λ s. number_of this * (number_of other % 2 ^ (32 * s)) % m) last,
      ha,
      long,
    )
mul_rounds_lem (suc rounds) i acc this other ha ht ho long other_long some_words number =
    let m : ℕ = word ^ length this in
    let a : ℕ = number_of this in
    let l : ℕ = number_of other % 2 ^ (32 * i) in
    let p : ℕ = 2 ^ (32 * i) in
    let t : ℕ = number_of other / p % 2 ^ 32 in
    let (quotient, high_words, high_long) = shr_number other (32 * i) ho in
    let taken : low_u32 (shr other (32 * i)) ≡ some t =
      low_u32_lem (shr other (32 * i)) (omega (arith, high_long, other_long))
      ∙ ap (λ s. some (s % 2 ^ 32)) quotient in
    let (product, is_product, product_number, product_words, product_long) =
      mul_u32_number this t ht (omega arith) in
    let (moved, moved_words, moved_long) = shl_number product (32 * i) product_words in
    let (sum, is_sum, sum_number, sum_words, sum_long) =
      add_number acc (shl product (32 * i)) ha moved_words
        (long ∙ sym (moved_long ∙ product_long)) in
    let moved_number : number_of (shl product (32 * i)) ≡ t * a % m * p % m =
      moved
      ∙ ap (λ s. number_of product * p % word ^ s) product_long
      ∙ ap (λ s. s * p % m) product_number in
    let total : number_of sum ≡ a * (number_of other % 2 ^ (32 * suc i)) % m =
      sum_number
      ∙ ap (λ s. (number_of acc + number_of (shl product (32 * i))) % word ^ s) long
      ∙ ap (λ s. (s + number_of (shl product (32 * i))) % m) number
      ∙ ap (λ s. (a * l % m + s) % m) moved_number
      ∙ round_number a l t p m
      ∙ ap (λ s. a * s % m) (sym (next_digit (number_of other) i)) in
    let (r, result, r_number, r_words, r_long) =
      mul_rounds_lem rounds (suc i) sum this other sum_words ht ho (sum_long ∙ long) other_long
        some_words total in
    let count : suc i + rounds ≡ i + suc rounds = omega arith in
    (
      r,
      rw (taken, is_product, is_sum) result,
      r_number ∙ ap (λ s. a * (number_of other % 2 ^ (32 * s)) % m) count,
      r_words,
      r_long,
    )

-- Two integers of one width, at least one word, are multiplied to the product of their numbers modulo the width.
pub mul_number :
    (this other : List ℕ)
    → All IsWord this
    → All IsWord other
    → 1 ≤ length this
    → length other ≡ length this
    → Yields (mul this other) (length this) (number_of this * number_of other % word ^ length this)
unfolding mul
mul_number this other ht ho some_words same =
    let n : ℕ = length this in
    let m : ℕ = word ^ n in
    let (none_yet, words, long) = zero_lem n in
    let no_digit : number_of other % 2 ^ (32 * 0) ≡ 0 = omega arith in
    let nothing : number_of this * 0 ≡ 0 = omega arith in
    let start : number_of (words_zero n) ≡ number_of this * (number_of other % 2 ^ (32 * 0)) % m =
      none_yet
      ∙ sym (
          ap (λ s. number_of this * s % m) no_digit
          ∙ ap (λ s. s % m) nothing
          ∙ mod-eq_of_lt (omega (arith, word_power n, pow_positive (64 * n)))) in
    let (r, result, number, r_words, r_long) =
      mul_rounds_lem (2 * n) 0 (words_zero n) this other words ht ho long same some_words start in
    let widths : word ^ length other ≡ 2 ^ (32 * (0 + 2 * n)) =
      ap (λ (k : ℕ). word ^ k) same ∙ word_power n ∙ ap (λ (k : ℕ). 2 ^ k) (omega arith) in
    let all : number_of other % 2 ^ (32 * (0 + 2 * n)) ≡ number_of other =
      mod-eq_of_lt (omega (arith, number_of-lt other ho, widths)) in
    (r, result, number ∙ ap (λ s. number_of this * s % m) all, r_words, r_long)
