-- ===== src/Common/Powers.antt =====
-- Powers of two under division and remainder, and the binary digits of a number, the highest first.
use Prim.Native.Nat.{ℕ, zero, suc, ◌+◌, ◌*◌, ◌/◌, ◌%◌, ◌^◌, ◌≤◌, ◌<◌}
use mathlib.Core.Path.{◌≡◌, refl, sym, ap, ◌∙◌}
use mathlib.Core.List.{List, [], ◌∷◌, ◌++◌}
use chaintopeslashrust_tapyr.Common.Lists.{length}
use native.Mathlib.Omega.{arith}
use native.Mathlib.Nat.{
  pow-suc, mod-eq_of_lt, mod-lt, mod-add-div, add-mul-div_left, add-mul-mod_self_left,
  div-lt_iff_lt-mul, div-div-eq-div-mul, div-eq_of_lt,
}

pub pow_positive : (n : ℕ) → 1 ≤ 2 ^ n
pow_positive zero = omega arith
pow_positive (suc n) = omega (arith, pow_positive n, pow-suc 2 n)

pub pow_add : (a b : ℕ) → 2 ^ (a + b) ≡ 2 ^ a * 2 ^ b
pow_add zero b = let e : 0 + b ≡ b = omega arith in ap (λ (n : ℕ). 2 ^ n) e ∙ omega arith
pow_add (suc a) b =
    let e : suc a + b ≡ suc (a + b) = omega arith in
    ap (λ (n : ℕ). 2 ^ n) e
    ∙ pow-suc 2 (a + b)
    ∙ ap (λ (n : ℕ). n * 2) (pow_add a b)
    ∙ grind (arith, ap (λ (n : ℕ). n * 2 ^ b) (pow-suc 2 a))

pub pow_sum : (c a b : ℕ) → c ≡ a + b → 2 ^ c ≡ 2 ^ a * 2 ^ b
pow_sum c a b e = ap (λ (n : ℕ). 2 ^ n) e ∙ pow_add a b

module _ (x a b : ℕ) (ha : 0 < a) (hb : 0 < b) where
  -- The quotient and the remainder of what is left of `x` below `a * b`.
  pub mod_div : x % (a * b) / b ≡ x / b % a
  mod_div =
      let r : ℕ = x % (a * b) in
      let q : ℕ = x / (a * b) in
      let small : r < a * b = mod-lt x (grind arith) in
      let below : r / b < a = (div-lt_iff_lt-mul hb).1 small in
      let whole : x ≡ r + b * (a * q) = grind (arith, mod-add-div x (a * b)) in
      let high : x / b ≡ r / b + a * q = ap (λ n. n / b) whole ∙ add-mul-div_left r (a * q) hb in
      sym (ap (λ n. n % a) high ∙ add-mul-mod_self_left (r / b) a q ∙ mod-eq_of_lt below)

  -- A shift that loses what is above.
  pub mod_scale : x * b % (a * b) ≡ x % a * b
  mod_scale =
      let r : ℕ = x % a in
      let q : ℕ = x / a in
      let small : r * b < a * b = grind (arith, mod-lt x ha) in
      let whole : x * b ≡ r * b + a * b * q =
        grind (arith, ap (λ (n : ℕ). n * b) (mod-add-div x a)) in
      ap (λ n. n % (a * b)) whole ∙ add-mul-mod_self_left (r * b) (a * b) q ∙ mod-eq_of_lt small

-- The `n` lowest binary digits of a number, the highest first.
unfoldable pub digits_of : ℕ → ℕ → List ℕ
digits_of zero v = []
digits_of (suc n) v = v / 2 ^ n % 2 ∷ digits_of n v

pub digits_of-append : (a b v : ℕ) → digits_of (a + b) v ≡ digits_of a (v / 2 ^ b) ++ digits_of b v
unfolding digits_of
digits_of-append zero b v = let e : 0 + b ≡ b = omega arith in ap (λ n. digits_of n v) e
digits_of-append (suc a) b v =
    let e : suc a + b ≡ suc (a + b) = omega arith in
    let swapped : 2 ^ (a + b) ≡ 2 ^ b * 2 ^ a = pow_add a b ∙ omega arith in
    let top : v / 2 ^ (a + b) ≡ v / 2 ^ b / 2 ^ a =
      ap (λ n. v / n) swapped ∙ sym (div-div-eq-div-mul v (2 ^ b) (2 ^ a)) in
    rw (e, top, digits_of-append a b v) refl

-- Digits do not depend on what is above them.
pub digits_of_mod : (n k v : ℕ) → digits_of n (v % (2 ^ k * 2 ^ n)) ≡ digits_of n v
unfolding digits_of
digits_of_mod zero k v = refl
digits_of_mod (suc n) k v =
    let wide : 2 ^ k * 2 ^ suc n ≡ 2 ^ suc k * 2 ^ n =
      grind
        (arith, ap (λ (t : ℕ). 2 ^ k * t) (pow-suc 2 n), ap (λ (t : ℕ). t * 2 ^ n) (pow-suc 2 k)) in
    let top : v % (2 ^ suc k * 2 ^ n) / 2 ^ n % 2 ≡ v / 2 ^ n % 2 =
      ap (λ t. t % 2) (mod_div v (2 ^ suc k) (2 ^ n) (pow_positive (suc k)) (pow_positive n))
      ∙ even k (v / 2 ^ n) in
    rw (wide, top, digits_of_mod n (suc k) v) refl
  where
    even : (k x : ℕ) → x % 2 ^ suc k % 2 ≡ x % 2
    even k x =
        let q : ℕ = x / 2 ^ suc k in
        let whole : x ≡ x % 2 ^ suc k + 2 * (2 ^ k * q) =
          grind (arith, mod-add-div x (2 ^ suc k), ap (λ (t : ℕ). t * q) (pow-suc 2 k)) in
        omega (arith, whole)

pub digits_of_low : (n t c : ℕ) → c < 2 ^ n → digits_of n (t * 2 ^ n + c) ≡ digits_of n c
digits_of_low n t c h =
    let one : 2 ^ 0 * 2 ^ n ≡ 2 ^ n = omega arith in
    let low : (t * 2 ^ n + c) % (2 ^ 0 * 2 ^ n) ≡ c =
      ap (λ d. (t * 2 ^ n + c) % d) one
      ∙ ap (λ x. x % 2 ^ n) (grind arith)
      ∙ add-mul-mod_self_left c (2 ^ n) t
      ∙ mod-eq_of_lt h in
    sym (digits_of_mod n 0 (t * 2 ^ n + c)) ∙ ap (digits_of n) low

-- Digits behind others.
pub digits_of-join :
    (a b t c : ℕ) → c < 2 ^ b → digits_of (a + b) (t * 2 ^ b + c) ≡ digits_of a t ++ digits_of b c
digits_of-join a b t c h =
    let high : (t * 2 ^ b + c) / 2 ^ b ≡ t =
      ap (λ n. n / 2 ^ b) (grind arith)
      ∙ add-mul-div_left c t (pow_positive b)
      ∙ ap (λ n. n + t) (div-eq_of_lt h)
      ∙ omega arith in
    digits_of-append a b (t * 2 ^ b + c)
    ∙ ap (λ x. digits_of a x ++ digits_of b (t * 2 ^ b + c)) high
    ∙ ap (λ l. digits_of a t ++ l) (digits_of_low b t c h)

pub digits_of_low_mod : (n v : ℕ) → digits_of n (v % 2 ^ n) ≡ digits_of n v
digits_of_low_mod n v =
    let one : 2 ^ 0 * 2 ^ n ≡ 2 ^ n = omega arith in
    ap (λ d. digits_of n (v % d)) (sym one) ∙ digits_of_mod n 0 v

-- A remainder, split at a digit.
pub mod_split : (x a b : ℕ) → 0 < a → 0 < b → x % (a * b) ≡ x / b % a * b + x % b
mod_split x a b ha hb =
    let q : ℕ = x / b / a in
    let small : x / b % a * b + x % b < a * b = grind (arith, mod-lt (x / b) ha, mod-lt x hb) in
    let whole : x ≡ x / b % a * b + x % b + a * b * q =
      grind (arith, mod-add-div x b, ap (λ (n : ℕ). n * b) (mod-add-div (x / b) a)) in
    ap (λ n. n % (a * b)) whole
    ∙ add-mul-mod_self_left (x / b % a * b + x % b) (a * b) q
    ∙ mod-eq_of_lt small

pub length-digits_of : (n v : ℕ) → length (digits_of n v) ≡ n
unfolding digits_of
length-digits_of zero v = refl
length-digits_of (suc n) v = ap suc (length-digits_of n v)

-- The digits of a number determine it.
pub digits_of_inj : (n x y : ℕ) → digits_of n x ≡ digits_of n y → x % 2 ^ n ≡ y % 2 ^ n
unfolding digits_of
digits_of_inj zero x y e = omega arith
digits_of_inj (suc n) x y e =
    let top : x / 2 ^ n % 2 ≡ y / 2 ^ n % 2 = cc e in
    let low : x % 2 ^ n ≡ y % 2 ^ n = digits_of_inj n x y (cc e) in
    let two : 2 ^ suc n ≡ 2 * 2 ^ n = omega (arith, pow-suc 2 n) in
    ap (λ t. x % t) two
    ∙ mod_split x 2 (2 ^ n) (omega arith) (pow_positive n)
    ∙ ap (λ (t : ℕ). t * 2 ^ n + x % 2 ^ n) top
    ∙ ap (λ t. y / 2 ^ n % 2 * 2 ^ n + t) low
    ∙ sym (mod_split y 2 (2 ^ n) (omega arith) (pow_positive n))
    ∙ sym (ap (λ t. y % t) two)
