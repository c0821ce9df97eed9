-- ===== src/Uint/Addition.antt =====
-- util/uint.rs: sums, by the numbers of the lists.
use native.Mathlib.Nat.{mod-eq_of_lt, add-mul-mod_self_left}
use chaintopeslashrust_tapyr.Common.{
  ℕ, zero, suc, ◌+◌, ◌*◌, ◌%◌, ◌^◌, ◌≤◌, ◌<◌, ◌≡◌, refl, sym, ap, ◌∙◌, arith, List, [], ◌∷◌, length,
  All, Bool, Bool-cases, true, false, inl, inr, ltb, ltb→lt, ltb→le, le→ltb, ◌==◌, ==→eq, eq→==,
  Option, some,
}
use chaintopeslashrust_tapyr.Uint.{word, flag, sums, carries, any_carry, add_rounds, add}
use chaintopeslashrust_tapyr.Uint.Sums.{
  IsWord, number_of, number_of-lt, overflow, sums_lem, sums-IsWord,
}

-- The first `k` words are zero.
abbrev LeadsWithZeros : ℕ → List ℕ → Type 0
LeadsWithZeros zero xs = Unit
LeadsWithZeros (suc k) [] = Unit
LeadsWithZeros (suc k) (x ∷ xs) = (x ≡ 0) × LeadsWithZeros k xs

-- Each round sets one more carry to zero.
carries_lead :
    (carry k : ℕ) (xs ys : List ℕ)
    → carry ≡ 0
    → All IsWord xs
    → LeadsWithZeros k ys
    → LeadsWithZeros (suc k) (carries carry xs ys)
unfolding carries
carries_lead carry k [] ys e hx h = tt
carries_lead carry k (x ∷ xs) [] e hx h = tt
carries_lead carry zero (x ∷ xs) (y ∷ ys) e hx h = (e, tt)
carries_lead carry (suc k) (x ∷ xs) (y ∷ ys) e (hx, hxs) (hy, h) =
    let kept : (x + y) % word ≡ x = omega (arith, hy) in
    let none_out : flag (ltb ((x + y) % word) x) ≡ 0 =
      ap flag (le→ltb ((x + y) % word) x (omega (arith, kept))) in
    (e, carries_lead (flag (ltb ((x + y) % word) x)) k xs ys none_out hxs h)

no_carry : (k : ℕ) (xs : List ℕ) → length xs ≤ k → LeadsWithZeros k xs → any_carry xs ≡ false
unfolding any_carry
no_carry k [] short h = refl
no_carry zero (x ∷ xs) short h = absurd (omega arith)
no_carry (suc k) (x ∷ xs) short (hx, h) = rw (eq→== x 0 hx, no_carry k xs (omega arith) h) refl

no_carry_number : (xs : List ℕ) → any_carry xs ≡ false → number_of xs ≡ 0
unfolding any_carry number_of
no_carry_number [] h = refl
no_carry_number (x ∷ xs) h = elim (Bool-cases (x == 0)) [
  | inl e ↦ omega (arith, ==→eq x 0 e, no_carry_number xs (rw e at h))
  | inr e ↦ absurd (differ (rw e at h))
]
  where
    differ : true ≡ false → ⊥
    differ e = cc

-- What a call returns whose result has this number, in `n` words.
abbrev pub Yields : Option (List ℕ) → ℕ → ℕ → Type 0
Yields result n value =
    (r : List ℕ) × (result ≡ some r) × (number_of r ≡ value) × All IsWord r × (length r ≡ n)

add_rounds_lem :
    (rounds k : ℕ) (me you : List ℕ)
    → All IsWord me
    → All IsWord you
    → length me ≡ length you
    → LeadsWithZeros k you
    → k ≤ length me
    → length me + 1 ≤ rounds + k
    → Yields
        (add_rounds rounds me you)
        (length me)
        ((number_of me + number_of you) % word ^ length me)
unfolding add_rounds
add_rounds_lem zero k me you hm hy same lead few enough = absurd (omega arith)
add_rounds_lem (suc rounds) k me you hm hy same lead few enough =
    let ret : List ℕ = sums me you in
    let carry : List ℕ = carries 0 me you in
    let m : ℕ = word ^ length me in
    let (words, carry_words, long, carry_long) = sums-IsWord 0 me you (omega arith) same in
    let sum : number_of ret + number_of carry + overflow 0 me you * m
        ≡ number_of me + number_of you + 0 =
      sums_lem 0 me you hm hy same in
    let wrapped : (number_of me + number_of you) % m ≡ (number_of ret + number_of carry) % m =
      ap (λ t. t % m) (omega (arith, sum))
      ∙ add-mul-mod_self_left (number_of ret + number_of carry) m (overflow 0 me you) in
    let next_lead = carries_lead 0 k me you refl hm lead in
    elim (Bool-cases (any_carry carry)) [
      | inl more ↦
          let left : k < length me = elim (Bool-cases (ltb k (length me))) [
            | inl e ↦ ltb→lt k (length me) e
            | inr e ↦ absurd (
                clash more (
                  no_carry (suc k) carry (omega (arith, carry_long, ltb→le k (length me) e))
                    next_lead))
          ] in
          let (r, result, number, r_words, r_long) =
            add_rounds_lem rounds (suc k) ret carry words carry_words (long ∙ sym carry_long)
              next_lead (omega (arith, left, long)) (omega (arith, long)) in
          (
            r,
            rw more result,
            number ∙ ap (λ n. (number_of ret + number_of carry) % word ^ n) long ∙ sym wrapped,
            r_words,
            r_long ∙ long,
          )
      | inr done ↦
          let small : number_of ret < m =
            omega (arith, number_of-lt ret words, ap (λ (n : ℕ). word ^ n) long) in
          let all : number_of ret + number_of carry ≡ number_of ret =
            omega (arith, no_carry_number carry done) in
          (ret, rw done refl, sym (wrapped ∙ ap (λ t. t % m) all ∙ mod-eq_of_lt small), words, long)
    ]
  where
    clash : {b : Bool} → b ≡ true → b ≡ false → ⊥
    clash p q = cc

-- Two integers of one width are added, within as many calls as they have words and one more, to the sum of their
-- numbers modulo the width.
pub add_number :
    (me you : List ℕ)
    → All IsWord me
    → All IsWord you
    → length me ≡ length you
    → Yields (add me you) (length me) ((number_of me + number_of you) % word ^ length me)
unfolding add
add_number me you hm hy same =
    add_rounds_lem (suc (length me)) 0 me you hm hy same tt (omega arith) (omega arith)
