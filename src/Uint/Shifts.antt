-- ===== src/Uint/Shifts.antt =====
-- util/uint.rs: shifts to the left.
use native.Mathlib.Nat.{
  pow-suc, mod-lt, mod-eq_of_lt, mod-add-div, add-mul-mod_self_left, mul-div-mul_right,
  div-lt_iff_lt-mul, div-eq_of_lt,
}
use chaintopeslashrust_tapyr.Common.{
  ℕ, zero, suc, ◌+◌, ◌-◌, ◌*◌, ◌/◌, ◌%◌, ◌^◌, ◌≤◌, ◌<◌, ◌≡◌, refl, sym, ap, ◌∙◌, arith, List, [],
  ◌∷◌, ◌++◌, length, All, Bool-cases, inl, inr, ◌==◌, ==→eq, take,
}
use chaintopeslashrust_tapyr.Common.Powers.{pow_positive, pow_sum, mod_scale}
use chaintopeslashrust_tapyr.Uint.{word, words_zero, carried_bits, shifted_words, shl}
use chaintopeslashrust_tapyr.Uint.Sums.{IsWord, number_of}

-- A word that moves by `b` bits: what it carries, and what is left of it with room for the bits that come in.
word_shifted :
    (b x carried : ℕ)
    → b < 64
    → IsWord x
    → carried < 2 ^ b
    → (x * 2 ^ b % word + word * carried_bits b x ≡ x * 2 ^ b)
      × (carried_bits b x < 2 ^ b)
      × IsWord (x * 2 ^ b % word + carried)
word_shifted b x carried hb hx hc =
    let p : ℕ = 2 ^ b in
    let q : ℕ = 2 ^ (64 - b) in
    let both : 2 ^ 64 ≡ q * p = pow_sum 64 (64 - b) b (omega arith) in
    let some_p : 0 < p = pow_positive b in
    let some_q : 0 < q = pow_positive (64 - b) in
    let out : carried_bits b x ≡ x / q = elim (Bool-cases (b == 0)) [
      | inl e ↦
          rw e (sym (div-eq_of_lt (omega (arith, hx, ap (λ (n : ℕ). 2 ^ (64 - n)) (==→eq b 0 e)))))
      | inr e ↦ rw e refl
    ] in
    let high : x * p / word ≡ x / q =
      ap (λ (n : ℕ). x * p / n) both ∙ mul-div-mul_right x q some_p in
    let low : x * p % word ≡ x % q * p =
      ap (λ (n : ℕ). x * p % n) both ∙ mod_scale x q p some_q some_p in
    let swap : q * p ≡ p * q = omega arith in
    let below : x / q < p = (div-lt_iff_lt-mul some_q).1 (omega (arith, hx, both, swap)) in
    let room : x % q * p + p ≤ q * p = grind (arith, mod-lt x some_q) in
    (
      omega (arith, mod-add-div (x * p) word, out, high),
      omega (arith, out, below),
      omega (arith, low, hc, both, room),
    )

shifted_lem :
    (b carried : ℕ) (xs : List ℕ)
    → b < 64
    → carried < 2 ^ b
    → All IsWord xs
    → (lost : ℕ) × (number_of (shifted_words b carried xs) + lost * word ^ length xs
        ≡ number_of xs * 2 ^ b + carried)
      × All IsWord (shifted_words b carried xs)
      × (length (shifted_words b carried xs) ≡ length xs)
unfolding number_of shifted_words
shifted_lem b carried [] hb hc h = (carried, omega arith, tt, refl)
shifted_lem b carried (x ∷ xs) hb hc (hx, hs) =
    let (one, less, fits) = word_shifted b x carried hb hx hc in
    let (lost, sum, words, long) = shifted_lem b (carried_bits b x) xs hb less hs in
    let spread : (x + word * number_of xs) * 2 ^ b ≡ x * 2 ^ b + word * (number_of xs * 2 ^ b) =
      grind arith in
    (
      lost,
      omega (arith, one, sum, spread, ap (λ (n : ℕ). lost * n) (pow-suc word (length xs))),
      (fits, words),
      ap suc long,
    )

zeros_lem :
    (n : ℕ) (ys : List ℕ)
    → All IsWord ys
    → (number_of (words_zero n ++ ys) ≡ word ^ n * number_of ys)
      × All IsWord (words_zero n ++ ys)
      × (length (words_zero n ++ ys) ≡ n + length ys)
unfolding number_of words_zero
zeros_lem zero ys h = (omega arith, h, omega arith)
zeros_lem (suc n) ys h =
    let (sum, words, long) = zeros_lem n ys h in
    (
      omega (arith, sum, ap (λ (p : ℕ). p * number_of ys) (pow-suc word n)),
      (omega arith, words),
      omega (arith, long),
    )

-- The powers of the base of the words.
pub word_power : (n : ℕ) → word ^ n ≡ 2 ^ (64 * n)
word_power zero = refl
word_power (suc n) =
    pow-suc word n
    ∙ ap (λ t. t * word) (word_power n)
    ∙ sym (pow_sum (64 * suc n) (64 * n) 64 (omega arith))

take_lem :
    (n : ℕ) (ys : List ℕ)
    → n ≤ length ys
    → All IsWord ys
    → (number_of (take n ys) ≡ number_of ys % word ^ n)
      × All IsWord (take n ys)
      × (length (take n ys) ≡ n)
unfolding number_of
take_lem zero ys some h = (omega arith, tt, refl)
take_lem (suc n) [] some h = absurd (omega arith)
take_lem (suc n) (y ∷ ys) some (hy, hs) =
    let (sum, words, long) = take_lem n ys (omega arith) hs in
    let m : ℕ = word ^ n in
    let r : ℕ = number_of ys % m in
    let q : ℕ = number_of ys / m in
    let some_m : 0 < m = omega (arith, word_power n, pow_positive (64 * n)) in
    let width : word ^ suc n ≡ word * m = pow-suc word n ∙ omega arith in
    let less : r < m = mod-lt (number_of ys) some_m in
    let small : y + word * r < word * m = omega (arith, less, hy) in
    let whole : y + word * number_of ys ≡ y + word * r + word * m * q =
      grind (arith, mod-add-div (number_of ys) m) in
    (
      ap (λ t. y + word * t) sum
          ∙ sym (
              ap (λ t. (y + word * number_of ys) % t) width
              ∙ ap (λ t. t % (word * m)) whole
              ∙ add-mul-mod_self_left (y + word * r) (word * m) q
              ∙ mod-eq_of_lt small),
      (hy, words),
      ap suc long,
    )

scaled :
    (n moved lost m k p : ℕ) → moved + lost * m ≡ n * p → n * (k * p) ≡ k * moved + m * (lost * k)
scaled n moved lost m k p e = grind (arith, ap (λ (t : ℕ). k * t) e)

-- An integer that is shifted to the left by any number of bits is the product of its number and the power of two,
-- modulo the width; its words are words, so no addition in the loop overflows.
pub shl_number :
    (me : List ℕ) (shift : ℕ)
    → All IsWord me
    → (number_of (shl me shift) ≡ number_of me * 2 ^ shift % word ^ length me)
      × All IsWord (shl me shift)
      × (length (shl me shift) ≡ length me)
unfolding shl
shl_number me shift h =
    let b : ℕ = shift % 64 in
    let k : ℕ = shift / 64 in
    let m : ℕ = word ^ length me in
    let (lost, sum, words, long) = shifted_lem b 0 me (omega arith) (pow_positive b) h in
    let moved : List ℕ = shifted_words b 0 me in
    let (number, all_words, all_long) = zeros_lem k moved words in
    let (cut, cut_words, cut_long) =
      take_lem (length me) (words_zero k ++ moved) (omega (arith, all_long, long)) all_words in
    let power : 2 ^ shift ≡ word ^ k * 2 ^ b =
      pow_sum shift (64 * k) b (omega arith) ∙ ap (λ t. t * 2 ^ b) (sym (word_power k)) in
    let whole : number_of me * 2 ^ shift ≡ word ^ k * number_of moved + m * (lost * word ^ k) =
      ap (λ (t : ℕ). number_of me * t) power
      ∙ scaled (number_of me) (number_of moved) lost m (word ^ k) (2 ^ b) (omega (arith, sum)) in
    (
      cut
          ∙ ap (λ n. n % m) number
          ∙ sym (add-mul-mod_self_left (word ^ k * number_of moved) m (lost * word ^ k))
          ∙ ap (λ n. n % m) (sym whole),
      cut_words,
      cut_long,
    )
