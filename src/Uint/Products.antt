-- ===== src/Uint/Products.antt =====
-- util/uint.rs: differences, and products by 32 bits.
use native.Mathlib.Nat.{pow-suc, add-mul-mod_self_left, mod-add-mod}
use chaintopeslashrust_tapyr.Common.{
  ℕ, zero, suc, ◌+◌, ◌-◌, ◌*◌, ◌/◌, ◌%◌, ◌^◌, ◌≤◌, ◌<◌, ◌≡◌, refl, sym, ap, ◌∙◌, arith, List, [],
  ◌∷◌, length, All, Bool-cases, inl, inr, ltb, ltb→lt, ltb→le,
}
use chaintopeslashrust_tapyr.Uint.{
  word, complement, words_zero, words_one, add_some, sub, low_products, carry_of_product,
  product_carries, mul_u32,
}
use chaintopeslashrust_tapyr.Uint.Sums.{IsWord, number_of}
use chaintopeslashrust_tapyr.Uint.Addition.{Yields, add_number}

complement_lem :
    (xs : List ℕ)
    → All IsWord xs
    → (number_of (complement xs) + number_of xs + 1 ≡ word ^ length xs)
      × All IsWord (complement xs)
      × (length (complement xs) ≡ length xs)
unfolding complement number_of
complement_lem [] h = (omega arith, tt, refl)
complement_lem (x ∷ xs) (hx, hs) =
    let (sum, words, same) = complement_lem xs hs in
    (omega (arith, hx, sum, pow-suc word (length xs)), (omega arith, words), ap suc same)

pub zero_lem :
    (n : ℕ)
    → (number_of (words_zero n) ≡ 0) × All IsWord (words_zero n) × (length (words_zero n) ≡ n)
unfolding words_zero number_of
zero_lem zero = (refl, tt, refl)
zero_lem (suc n) =
    let (sum, words, same) = zero_lem n in (omega (arith, sum), (omega arith, words), ap suc same)

one_lem :
    (n : ℕ)
    → 1 ≤ n
    → (number_of (words_one n) ≡ 1) × All IsWord (words_one n) × (length (words_one n) ≡ n)
unfolding words_one number_of
one_lem zero h = absurd (omega arith)
one_lem (suc n) h =
    let (sum, words, same) = zero_lem n in (omega (arith, sum), (omega arith, words), ap suc same)

-- The difference of two integers of one width, at least one word, is that of their numbers, wrapped around below zero.
pub sub_number :
    (me you : List ℕ)
    → All IsWord me
    → All IsWord you
    → 1 ≤ length me
    → length me ≡ length you
    → Yields
        (sub me you)
        (length me)
        ((number_of me + word ^ length me - number_of you) % word ^ length me)
unfolding sub
sub_number me you hm hy some_words same =
    let m : ℕ = word ^ length me in
    let (negated, other_words, other_long) = complement_lem you hy in
    let (first, added, number, words, long) =
      add_number me (complement you) hm other_words (same ∙ sym other_long) in
    let (one, one_words, one_long) = one_lem (length me) some_words in
    let (r, result, total, r_words, r_long) =
      add_number first (words_one (length me)) words one_words (long ∙ sym one_long) in
    let width : word ^ length first ≡ m = ap (λ (n : ℕ). word ^ n) long in
    let other_width : word ^ length you ≡ m = ap (λ (n : ℕ). word ^ n) (sym same) in
    let sum : number_of first + number_of (words_one (length me))
        ≡ (number_of me + number_of (complement you)) % m + 1 =
      omega (arith, number, one) in
    let whole : number_of me + number_of (complement you) + 1 ≡ number_of me + m - number_of you =
      omega (arith, negated, other_width) in
    (
      r,
      ap (λ o. add_some o (words_one (length me))) added ∙ result,
      total
          ∙ ap (λ n. (number_of first + number_of (words_one (length me))) % n) width
          ∙ ap (λ n. n % m) sum
          ∙ mod-add-mod (number_of me + number_of (complement you)) m 1
          ∙ ap (λ n. n % m) whole,
      r_words,
      r_long ∙ long,
    )

product_le : (x y m n : ℕ) → x ≤ m → y ≤ n → x * y ≤ m * n
product_le x y m n p q = grind arith

-- One word of a product: the word and the carry.
word_product :
    (other x : ℕ)
    → other < 2 ^ 32
    → IsWord x
    → ((other * (x % 2 ^ 32) + other * (x / 2 ^ 32) * 2 ^ 32 % word) % word
          + word * carry_of_product other x
        ≡ other * x)
      × IsWord (carry_of_product other x)
word_product other x small hx =
    let u : ℕ = other * (x / 2 ^ 32) in
    let l : ℕ = other * (x % 2 ^ 32) in
    let most : ℕ = 2 ^ 32 - 1 in
    let whole : x ≡ x / 2 ^ 32 * 2 ^ 32 + x % 2 ^ 32 = omega arith in
    let split : other * x ≡ u * 2 ^ 32 + l = ap (λ (n : ℕ). other * n) whole ∙ grind arith in
    let upper : u ≤ most * most =
      product_le other (x / 2 ^ 32) most most (omega arith) (omega arith) in
    let lower : l ≤ most * most =
      product_le other (x % 2 ^ 32) most most (omega arith) (omega arith) in
    elim (Bool-cases (ltb (l + u * 2 ^ 32 % word) word)) [
      | inl fits ↦
          rw fits
            (omega (arith, split, ltb→lt (l + u * 2 ^ 32 % word) word fits), omega (arith, upper))
      | inr over ↦ rw over (
        omega (arith, split, lower, ltb→le (l + u * 2 ^ 32 % word) word over),
        omega (arith, upper),
      )
    ]

-- What the last word of a product loses.
unfoldable lost : ℕ → ℕ → List ℕ → ℕ
lost other carry [] = carry
lost other carry (x ∷ xs) = lost other (carry_of_product other x) xs

products_lem :
    (other carry : ℕ) (xs : List ℕ)
    → other < 2 ^ 32
    → IsWord carry
    → All IsWord xs
    → (number_of (low_products other xs)
          + number_of (product_carries other carry xs)
          + lost other carry xs * word ^ length xs
        ≡ other * number_of xs + carry)
      × All IsWord (low_products other xs)
      × All IsWord (product_carries other carry xs)
      × (length (low_products other xs) ≡ length xs)
      × (length (product_carries other carry xs) ≡ length xs)
unfolding number_of low_products product_carries lost
products_lem other carry [] small hc hs = (omega arith, tt, tt, refl, refl)
products_lem other carry (x ∷ xs) small hc (hx, hs) =
    let next : ℕ = carry_of_product other x in
    let (one, next_word) = word_product other x small hx in
    let (sum, words, carry_words, long, carry_long) =
      products_lem other next xs small next_word hs in
    let spread : other * (x + word * number_of xs) ≡ other * x + word * (other * number_of xs) =
      grind arith in
    (
      omega (
        arith,
        one,
        sum,
        spread,
        ap (λ (n : ℕ). lost other next xs * n) (pow-suc word (length xs)),
      ),
      (omega arith, words),
      (hc, carry_words),
      ap suc long,
      ap suc carry_long,
    )

-- An integer is multiplied by 32 bits to the product of the numbers, modulo the width.
pub mul_u32_number :
    (me : List ℕ) (other : ℕ)
    → All IsWord me
    → other < 2 ^ 32
    → Yields (mul_u32 me other) (length me) (other * number_of me % word ^ length me)
unfolding mul_u32
mul_u32_number me other hm small =
    let m : ℕ = word ^ length me in
    let low : List ℕ = low_products other me in
    let carry : List ℕ = product_carries other 0 me in
    let (sum, words, carry_words, long, carry_long) =
      products_lem other 0 me small (omega arith) hm in
    let (r, result, number, r_words, r_long) =
      add_number low carry words carry_words (long ∙ sym carry_long) in
    let wrapped : other * number_of me % m ≡ (number_of low + number_of carry) % m =
      ap (λ n. n % m) (omega (arith, sum))
      ∙ add-mul-mod_self_left (number_of low + number_of carry) m (lost other 0 me) in
    (
      r,
      result,
      number ∙ ap (λ n. (number_of low + number_of carry) % word ^ n) long ∙ sym wrapped,
      r_words,
      r_long ∙ long,
    )
