-- ===== src/Base58/Buffer.antt =====
-- util/base58.rs: the bytes of the decoder's buffer.
use native.Mathlib.Nat.{pow-suc, pow-le-pow_right}
use chaintopeslashrust_tapyr.Common.{
  ℕ, zero, suc, ◌+◌, ◌-◌, ◌*◌, ◌^◌, ◌≤◌, ◌<◌, ◌≡◌, ◌≢◌, refl, sym, ap, ◌∙◌, arith, Bool-cases, inl,
  inr, [], ◌∷◌, ◌++◌, append-nil, length, length-append, All, All-append, ltb, ltb→lt, ltb→le,
  ne→==,
}
use chaintopeslashrust_tapyr.Outcome.{Bytes, IsByte}
use chaintopeslashrust_tapyr.Endian.Laws.{value, value-lt, digits_of, digits_of-value}
use chaintopeslashrust_tapyr.Base58.{onto}
use chaintopeslashrust_tapyr.Base58.Value.{number}
use chaintopeslashrust_tapyr.Base58.Encoder.{IsUnpadded}
use chaintopeslashrust_tapyr.Base58.Decoder.{blank, skip_zeroes}

value-onto : (bs acc : Bytes) → value (onto bs acc) ≡ number 256 (value acc) bs
unfolding value onto number
value-onto [] acc = refl
value-onto (b ∷ bs) acc =
    let step : b + 256 * value acc ≡ value acc * 256 + b = omega arith in
    value-onto bs (b ∷ acc) ∙ ap (λ n. number 256 n bs) step

pub value-blank : (bs : Bytes) (k : ℕ) → value (bs ++ blank k) ≡ value bs
unfolding value blank
value-blank [] zero = refl
value-blank [] (suc k) = omega (arith, value-blank [] k)
value-blank (b ∷ bs) k = omega (arith, value-blank bs k)

pub blank-IsByte : (k : ℕ) → All IsByte (blank k) × (length (blank k) ≡ k)
unfolding blank
blank-IsByte zero = (tt, refl)
blank-IsByte (suc k) = let (bytes, same) = blank-IsByte k in ((omega arith, bytes), ap suc same)

onto-append : (xs ys acc : Bytes) → onto (xs ++ ys) acc ≡ onto ys (onto xs acc)
unfolding onto
onto-append [] ys acc = refl
onto-append (x ∷ xs) ys acc = onto-append xs ys (x ∷ acc)

onto-onto : (xs ys acc : Bytes) → onto (onto xs ys) acc ≡ onto ys (xs ++ acc)
unfolding onto
onto-onto [] ys acc = refl
onto-onto (x ∷ xs) ys acc = onto-onto xs (x ∷ ys) acc

length-onto : (xs acc : Bytes) → length (onto xs acc) ≡ length xs + length acc
unfolding onto
length-onto [] acc = omega arith
length-onto (x ∷ xs) acc = omega (arith, length-onto xs (x ∷ acc))

onto-IsByte : (xs acc : Bytes) → All IsByte xs → All IsByte acc → All IsByte (onto xs acc)
unfolding onto
onto-IsByte [] acc _ h = h
onto-IsByte (x ∷ xs) acc (hx, hs) h = onto-IsByte xs (x ∷ acc) hs (hx, h)

skip_blank : (k : ℕ) (bs : Bytes) → skip_zeroes (onto (blank k) bs) ≡ skip_zeroes bs
unfolding onto blank skip_zeroes
skip_blank zero bs = refl
skip_blank (suc k) bs = skip_blank k (0 ∷ bs)

skip_unpadded : (bs : Bytes) → IsUnpadded bs → skip_zeroes bs ≡ bs
unfolding skip_zeroes
skip_unpadded [] h = refl
skip_unpadded (b ∷ bs) h = rw (ne→== b 0 h) refl

number-at_least : (n : ℕ) (bs : Bytes) → n * 256 ^ length bs ≤ number 256 n bs
unfolding number
number-at_least n [] = omega arith
number-at_least n (b ∷ bs) =
    grind (arith, number-at_least (n * 256 + b) bs, ap (λ (k : ℕ). n * k) (pow-suc 256 (length bs)))

-- A number below 256 ^ k has k bytes at most, the first of them not zero.
length-le : (bs : Bytes) (k : ℕ) → IsUnpadded bs → number 256 0 bs < 256 ^ k → length bs ≤ k
unfolding number
length-le [] k h small = omega arith
length-le (b ∷ bs) k h small = elim (Bool-cases (ltb (length bs) k)) [
  | inl short ↦ omega (arith, ltb→lt (length bs) k short)
  | inr long ↦
      let high : 256 ^ k ≤ 256 ^ length bs =
        pow-le-pow_right {n = 256} (omega arith) {i = k} {j = length bs}
          (ltb→le (length bs) k long) in
      let low : 256 ^ length bs ≤ b * 256 ^ length bs = grind (arith, positive b h) in
      absurd (omega (arith, small, low, high, number-at_least (0 * 256 + b) bs, same b))
]
  where
    positive : (b : ℕ) → b ≢ 0 → 1 ≤ b
    positive zero h = absurd (h refl)
    positive (suc b) h = omega arith

    same : (b : ℕ) → (0 * 256 + b) * 256 ^ length bs ≡ b * 256 ^ length bs
    same b = ap (λ (n : ℕ). n * 256 ^ length bs) (omega arith)

pub value_nil : value [] ≡ 0
unfolding value
value_nil = refl

onto_nil : (bs : Bytes) → onto [] bs ≡ bs
unfolding onto
onto_nil bs = refl

-- The buffer, turned around and without its leading zeros, is the bytes of its number.
pub buffer_bytes :
    (out bs : Bytes)
    → All IsByte out
    → All IsByte bs
    → IsUnpadded bs
    → value out ≡ number 256 0 bs
    → skip_zeroes (onto out []) ≡ bs
buffer_bytes out bs out_bytes bytes unpadded e =
    let short : length bs ≤ length out =
      length-le bs (length out) unpadded (omega (arith, e, value-lt out out_bytes)) in
    let k : ℕ = length out - length bs in
    let turned : Bytes = onto bs [] in
    let (zeros_bytes, zeros_length) = blank-IsByte k in
    let wide : length (turned ++ blank k) ≡ length out =
      omega (arith, length-append turned (blank k), zeros_length, length-onto bs [], short) in
    let same_value : value (turned ++ blank k) ≡ value out =
      value-blank turned k ∙ value-onto bs [] ∙ zero_value bs ∙ sym e in
    let same : out ≡ turned ++ blank k =
      sym (digits_of-value out out_bytes)
      ∙ ap (λ n. digits_of n (value out)) (sym wide)
      ∙ ap (digits_of (length (turned ++ blank k))) (sym same_value)
      ∙ digits_of-value (turned ++ blank k)
          (All-append IsByte turned (blank k) (onto-IsByte bs [] bytes tt) zeros_bytes) in
    ap (λ l. skip_zeroes (onto l [])) same
    ∙ ap skip_zeroes (onto-append turned (blank k) [] ∙ ap (onto (blank k)) (twice bs))
    ∙ skip_blank k bs
    ∙ skip_unpadded bs unpadded
  where
    zero_value : (bs : Bytes) → number 256 (value []) bs ≡ number 256 0 bs
    zero_value bs = ap (λ n. number 256 n bs) value_nil

    twice : (bs : Bytes) → onto (onto bs []) [] ≡ bs
    twice bs = onto-onto bs [] [] ∙ onto_nil (bs ++ []) ∙ append-nil bs
