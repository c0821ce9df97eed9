-- ===== src/Uint/Quotients.antt =====
-- util/uint.rs: shifts to the right.
use native.Mathlib.Nat.{
  pow-suc, mod-lt, mod-add-div, add-mul-mod_self_left, add-mul-div_left, div-div-eq-div-mul,
  div-eq_of_lt, div-lt_iff_lt-mul,
}
use chaintopeslashrust_tapyr.Common.{
  ℕ, zero, suc, ◌+◌, ◌-◌, ◌*◌, ◌/◌, ◌%◌, ◌^◌, ◌≤◌, ◌<◌, ◌≡◌, refl, sym, ap, ◌∙◌, arith, List, [],
  ◌∷◌, ◌++◌, length, length-append, All, Bool-cases, inl, inr, ◌==◌, ==→eq, drop, length-drop,
}
use chaintopeslashrust_tapyr.Common.Powers.{pow_positive, pow_sum, mod_scale}
use chaintopeslashrust_tapyr.Uint.{word, words_zero, brought_bits, lowered_words, shr}
use chaintopeslashrust_tapyr.Uint.Sums.{IsWord, number_of}
use chaintopeslashrust_tapyr.Uint.Shifts.{word_power}

drop_lem :
    (n : ℕ) (ys : List ℕ)
    → All IsWord ys
    → (number_of (drop n ys) ≡ number_of ys / word ^ n) × All IsWord (drop n ys)
unfolding number_of
drop_lem zero ys h = (omega arith, h)
drop_lem (suc n) [] h =
    (sym (div-eq_of_lt (omega (arith, word_power (suc n), pow_positive (64 * suc n)))), tt)
drop_lem (suc n) (y ∷ ys) (hy, hs) =
    let (number, words) = drop_lem n ys hs in
    let width : word ^ suc n ≡ word * word ^ n = pow-suc word n ∙ omega arith in
    let top : (y + word * number_of ys) / word ≡ number_of ys = omega arith in
    (
      number
          ∙ ap (λ (t : ℕ). t / word ^ n) (sym top)
          ∙ div-div-eq-div-mul (y + word * number_of ys) word (word ^ n)
          ∙ ap (λ (t : ℕ). (y + word * number_of ys) / t) (sym width),
      words,
    )

module _ (b : ℕ) (hb : b < 64) where
  width : 2 ^ 64 ≡ 2 ^ b * 2 ^ (64 - b)
  width = pow_sum 64 b (64 - b) (omega arith)

  whole_word : (y : ℕ) → b ≡ 0 → y % 2 ^ b * 2 ^ (64 - b) ≡ 0
  whole_word y e = ap (λ (n : ℕ). y % 2 ^ n * 2 ^ (64 - n)) e ∙ omega arith

  split : (y rest : ℕ) → y + word * rest ≡ y + 2 ^ b * (2 ^ (64 - b) * rest)
  split y rest = grind (arith, ap (λ (n : ℕ). n * rest) width)

  brought_lem : (y : ℕ) → IsWord y → brought_bits b y ≡ y % 2 ^ b * 2 ^ (64 - b)
  brought_lem y hy = elim (Bool-cases (b == 0)) [
    | inl e ↦ rw e (sym (whole_word y (==→eq b 0 e)))
    | inr e ↦ rw e (
        ap (λ (n : ℕ). y * 2 ^ (64 - b) % n) width
        ∙ mod_scale y (2 ^ b) (2 ^ (64 - b)) (pow_positive b) (pow_positive (64 - b)))
  ]

  glue : (bits r p q d n : ℕ) → bits ≡ r * q → n ≡ r + p * d → bits + p * q * d ≡ q * n
  glue bits r p q d n e f = grind (arith, ap (λ (t : ℕ). q * t) f)

  -- The bits of a word and those of the words above it.
  above :
      (y rest : ℕ)
      → IsWord y
      → brought_bits b y + word * ((y + word * rest) / 2 ^ b) ≡ 2 ^ (64 - b) * (y + word * rest)
  above y rest hy =
      let p : ℕ = 2 ^ b in
      let q : ℕ = 2 ^ (64 - b) in
      let n : ℕ = y + word * rest in
      let low : n % p ≡ y % p =
        ap (λ t. t % p) (split y rest) ∙ add-mul-mod_self_left y p (q * rest) in
      ap (λ (t : ℕ). brought_bits b y + t * (n / p)) width
      ∙ glue (brought_bits b y) (y % p) p q (n / p) n (brought_lem y hy)
          (sym (mod-add-div n p) ∙ ap (λ (t : ℕ). t + p * (n / p)) low)

  single : (x : ℕ) → x + word * 0 ≡ x
  single x = omega arith

  lowered_fits : (x y : ℕ) → IsWord x → IsWord y → IsWord (x / 2 ^ b + y % 2 ^ b * 2 ^ (64 - b))
  lowered_fits x y hx hy =
      let p : ℕ = 2 ^ b in
      let q : ℕ = 2 ^ (64 - b) in
      let swap : p * q ≡ q * p = omega arith in
      let high : x / p < q =
        (div-lt_iff_lt-mul (pow_positive b)).1 (omega (arith, hx, width, swap)) in
      let room : y % p * q + q ≤ p * q = grind (arith, mod-lt y (pow_positive b)) in
      omega (arith, high, room, width)

  lowered_lem :
      (xs : List ℕ)
      → All IsWord xs
      → (number_of (lowered_words b xs) ≡ number_of xs / 2 ^ b)
        × All IsWord (lowered_words b xs)
        × (length (lowered_words b xs) ≡ length xs)
  unfolding number_of lowered_words
  lowered_lem [] h = (sym (div-eq_of_lt (pow_positive b)), tt, refl)
  lowered_lem (x ∷ []) (hx, h) = (
    omega (arith, ap (λ (t : ℕ). t / 2 ^ b) (single x)),
    (omega (arith, lowered_fits x 0 hx (omega arith)), tt),
    refl,
  )
  lowered_lem (x ∷ y ∷ xs) (hx, (hy, hs)) =
      let (number, words, long) = lowered_lem (y ∷ xs) (hy, hs) in
      let rest : ℕ = number_of (y ∷ xs) in
      let shifted : (x + word * rest) / 2 ^ b ≡ x / 2 ^ b + 2 ^ (64 - b) * rest =
        ap (λ t. t / 2 ^ b) (split x rest)
        ∙ add-mul-div_left x (2 ^ (64 - b) * rest) (pow_positive b) in
      (
        omega (arith, ap (λ (t : ℕ). word * t) number, above y (number_of xs) hy, shifted),
        (omega (arith, lowered_fits x y hx hy, brought_lem y hy), words),
        ap suc long,
      )

length-words_zero : (n : ℕ) → length (words_zero n) ≡ n
unfolding words_zero
length-words_zero zero = refl
length-words_zero (suc n) = ap suc (length-words_zero n)

zeros_behind :
    (ys : List ℕ) (n : ℕ)
    → All IsWord ys
    → (number_of (ys ++ words_zero n) ≡ number_of ys) × All IsWord (ys ++ words_zero n)
unfolding number_of words_zero
zeros_behind [] zero h = (refl, tt)
zeros_behind [] (suc n) h =
    let (number, words) = zeros_behind [] n h in (omega (arith, number), (omega arith, words))
zeros_behind (y ∷ ys) n (hy, hs) =
    let (number, words) = zeros_behind ys n hs in
    (omega (arith, ap (λ (t : ℕ). word * t) number), (hy, words))

-- An integer that is shifted to the right by any number of bits is the quotient of its number by the power of two,
-- in as many words; its words are words, so no addition in the loop overflows.
pub shr_number :
    (me : List ℕ) (shift : ℕ)
    → All IsWord me
    → (number_of (shr me shift) ≡ number_of me / 2 ^ shift)
      × All IsWord (shr me shift)
      × (length (shr me shift) ≡ length me)
unfolding shr
shr_number me shift h =
    let b : ℕ = shift % 64 in
    let k : ℕ = shift / 64 in
    let moved : List ℕ = drop k me in
    let (dropped, dropped_words) = drop_lem k me h in
    let (number, words, long) = lowered_lem b (omega arith) moved dropped_words in
    let (all, all_words) = zeros_behind (lowered_words b moved) (length me - length moved) words in
    let power : word ^ k * 2 ^ b ≡ 2 ^ shift =
      ap (λ (t : ℕ). t * 2 ^ b) (word_power k) ∙ sym (pow_sum shift (64 * k) b (omega arith)) in
    (
      all
          ∙ number
          ∙ ap (λ t. t / 2 ^ b) dropped
          ∙ div-div-eq-div-mul (number_of me) (word ^ k) (2 ^ b)
          ∙ ap (λ t. number_of me / t) power,
      all_words,
      omega (
        arith,
        length-append (lowered_words b moved) (words_zero (length me - length moved)),
        long,
        length-words_zero (length me - length moved),
        length-drop k me,
      ),
    )
