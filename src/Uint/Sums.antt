-- ===== src/Uint/Sums.antt =====
-- util/uint.rs: the number of a sum.
use native.Mathlib.Nat.{pow-suc}
use chaintopeslashrust_tapyr.Common.{
  ℕ, suc, ◌+◌, ◌*◌, ◌%◌, ◌^◌, ◌<◌, ◌≡◌, refl, ap, arith, List, [], ◌∷◌, length, All, Bool,
  Bool-cases, true, false, inl, inr, ltb, ltb→lt, ltb→le,
}
use chaintopeslashrust_tapyr.Uint.{word, flag, sums, carries}

abbrev pub IsWord : ℕ → Type 0
IsWord x = x < word

-- The number of words, the lowest first.
unfoldable pub number_of : List ℕ → ℕ
number_of [] = 0
number_of (x ∷ xs) = x + word * number_of xs

pub number_of-lt : (xs : List ℕ) → All IsWord xs → number_of xs < word ^ length xs
unfolding number_of
number_of-lt [] h = omega arith
number_of-lt (x ∷ xs) (hx, hs) = omega (arith, number_of-lt xs hs, pow-suc word (length xs))

-- What the last word of a sum loses, behind a carry that came in.
unfoldable pub overflow : ℕ → List ℕ → List ℕ → ℕ
overflow carry (x ∷ xs) (y ∷ ys) = overflow (flag (ltb ((x + y) % word) x)) xs ys
overflow carry xs ys = carry

flag_lem :
    (x y : ℕ) → IsWord x → IsWord y → (x + y) % word + word * flag (ltb ((x + y) % word) x) ≡ x + y
flag_lem x y hx hy = elim (Bool-cases (ltb ((x + y) % word) x)) [
  | inl over ↦ rw over (omega (arith, ltb→lt ((x + y) % word) x over))
  | inr fits ↦ rw fits (omega (arith, ltb→le ((x + y) % word) x fits))
]

pub sums_lem :
    (carry : ℕ) (xs ys : List ℕ)
    → All IsWord xs
    → All IsWord ys
    → length xs ≡ length ys
    → number_of (sums xs ys)
        + number_of (carries carry xs ys)
        + overflow carry xs ys * word ^ length xs
      ≡ number_of xs + number_of ys + carry
unfolding number_of sums carries overflow
sums_lem carry [] [] hx hy same = omega arith
sums_lem carry [] (y ∷ ys) hx hy same = absurd (omega arith)
sums_lem carry (x ∷ xs) [] hx hy same = absurd (omega arith)
sums_lem carry (x ∷ xs) (y ∷ ys) (hx, hxs) (hy, hys) same =
    let next : ℕ = flag (ltb ((x + y) % word) x) in
    omega (
      arith,
      flag_lem x y hx hy,
      sums_lem next xs ys hxs hys (omega arith),
      ap (λ (n : ℕ). overflow next xs ys * n) (pow-suc word (length xs)),
    )

flag_small : (b : Bool) → flag b < word
flag_small true = omega arith
flag_small false = omega arith

pub sums-IsWord :
    (carry : ℕ) (xs ys : List ℕ)
    → IsWord carry
    → length xs ≡ length ys
    → All IsWord (sums xs ys)
      × All IsWord (carries carry xs ys)
      × (length (sums xs ys) ≡ length xs)
      × (length (carries carry xs ys) ≡ length xs)
unfolding sums carries
sums-IsWord carry [] [] h same = (tt, tt, refl, refl)
sums-IsWord carry [] (y ∷ ys) h same = absurd (omega arith)
sums-IsWord carry (x ∷ xs) [] h same = absurd (omega arith)
sums-IsWord carry (x ∷ xs) (y ∷ ys) h same =
    let (a, b, c, d) =
      sums-IsWord (flag (ltb ((x + y) % word) x)) xs ys (flag_small (ltb ((x + y) % word) x))
        (omega arith) in
    ((omega arith, a), (h, b), ap suc c, ap suc d)
