-- ===== src/Filter/Golomb/Range.antt =====
-- util/bip158.rs: the map from hashes to a range.
use native.Mathlib.Nat.{div-div-eq-div-mul, add-mul-div_left}
use chaintopeslashrust_tapyr.Common.{
  ℕ, ◌+◌, ◌-◌, ◌*◌, ◌/◌, ◌%◌, ◌^◌, ◌<◌, ◌≤◌, ◌≡◌, sym, ap, ◌∙◌, arith, lt→ltb,
}
use chaintopeslashrust_tapyr.Outcome.{ok}
use chaintopeslashrust_tapyr.Filter.Golomb.{map_to_range}

-- In two halves, `a * 2 ^ 32 + b` times `c * 2 ^ 32 + d`.
halves :
    (a b c d : ℕ)
    → (a * 2 ^ 32 + b) * (c * 2 ^ 32 + d) / 2 ^ 64
      ≡ a * c + (a * d + c * b + b * d / 2 ^ 32) / 2 ^ 32
halves a b c d =
    let h : ℕ = 2 ^ 32 in
    let middle : ℕ = a * d + c * b in
    let whole : (a * h + b) * (c * h + d) ≡ b * d + h * (middle + h * (a * c)) = grind arith in
    ap (λ n. n / 2 ^ 64) whole
    ∙ sym (div-div-eq-div-mul (b * d + h * (middle + h * (a * c))) h h)
    ∙ ap (λ n. n / h) (add-mul-div_left (b * d) (middle + h * (a * c)) {y = h} (omega arith))
    ∙ ap (λ n. n / h) (omega arith)
    ∙ add-mul-div_left (middle + b * d / h) (a * c) {y = h} (omega arith)
    ∙ omega arith

mul_le : (x y m n : ℕ) → x ≤ m → y ≤ n → x * y ≤ m * n
mul_le x y m n p q = grind arith

-- Up to 2 ^ 33 values no sum overflows, and the hash is scaled to the range.
pub map_to_range_exact :
    (hash nm : ℕ)
    → hash < 2 ^ 64
    → nm < 2 ^ 33
    → (map_to_range hash nm ≡ ok (hash * nm / 2 ^ 64)) × (hash * nm / 2 ^ 64 ≤ nm)
unfolding map_to_range
map_to_range_exact hash nm hashed small =
    let a : ℕ = hash / 2 ^ 32 in
    let b : ℕ = hash % 2 ^ 32 in
    let c : ℕ = nm / 2 ^ 32 in
    let d : ℕ = nm % 2 ^ 32 in
    let ha : a ≤ 2 ^ 32 - 1 = omega arith in
    let hb : b ≤ 2 ^ 32 - 1 = omega arith in
    let hc : c ≤ 1 = omega arith in
    let hd : d ≤ 2 ^ 32 - 1 = omega arith in
    let most : ℕ = 2 ^ 32 - 1 in
    let ac : a * c ≤ most * 1 = mul_le a c most 1 ha hc in
    let ad : a * d ≤ most * most = mul_le a d most most ha hd in
    let cb : c * b ≤ 1 * most = mul_le c b 1 most hc hb in
    let bd : b * d ≤ most * most = mul_le b d most most hb hd in
    let all : ℕ = a * d + c * b + b * d / 2 ^ 32 in
    let low : hash ≡ a * 2 ^ 32 + b = omega arith in
    let low_range : nm ≡ c * 2 ^ 32 + d = omega arith in
    let scaled : hash * nm / 2 ^ 64 ≡ a * c + all / 2 ^ 32 =
      ap (λ (x : ℕ). x * nm / 2 ^ 64) low
      ∙ ap (λ (x : ℕ). (a * 2 ^ 32 + b) * x / 2 ^ 64) low_range
      ∙ halves a b c d in
    (
      rw
          (
            lt→ltb (a * c) (2 ^ 64) (omega arith),
            lt→ltb (a * d) (2 ^ 64) (omega arith),
            lt→ltb (c * b) (2 ^ 64) (omega arith),
            lt→ltb (b * d) (2 ^ 64) (omega arith),
            lt→ltb (a * d + c * b) (2 ^ 64) (omega arith),
            lt→ltb all (2 ^ 64) (omega arith),
            lt→ltb (a * c + all / 2 ^ 32) (2 ^ 64) (omega arith),
          )
          (ap ok (sym scaled)),
      omega (arith, mul_le hash nm (2 ^ 64) nm (omega arith) (omega arith)),
    )
