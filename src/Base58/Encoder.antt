-- ===== src/Base58/Encoder.antt =====
-- util/base58.rs: the text that the encoder writes.
use chaintopeslashrust_tapyr.Common.{
  ℕ, zero, suc, ◌+◌, ◌*◌, ◌<◌, ◌≡◌, ◌≢◌, refl, ap, ◌∙◌, arith, true, false, List, [], ◌∷◌, ◌++◌,
  All, map, ne→==, some, length, get_elem?, get_or, All-append,
}
use chaintopeslashrust_tapyr.Outcome.{Bytes, IsByte}
use chaintopeslashrust_tapyr.Base58.{
  base58_chars, onto, carry_into, push_carry, write_reversed, encode_slice,
}
use chaintopeslashrust_tapyr.Base58.Plain.{
  Plain, plain_digits, plain_byte, plain_bytes, plain_zeroes, plain_encode,
}
use chaintopeslashrust_tapyr.Base58.Stacked.{encode_slice-plain_encode}
use chaintopeslashrust_tapyr.Base58.Value.{
  IsDigit, low_first, number, IsTrimmed, plain_bytes-Holds, nothing, plain_bytes-leading_zero_count,
}

-- The character of a digit.
abbrev pub char_of : ℕ → ℕ
char_of d = get_or base58_chars d 0

-- `count` times `x` in front.
abbrev pub padded : ℕ → ℕ → List ℕ → List ℕ
padded zero x xs = xs
padded (suc count) x xs = padded count x (x ∷ xs)

abbrev pub IsUnpadded : List ℕ → Type 0
IsUnpadded [] = Unit
IsUnpadded (x ∷ xs) = x ≢ 0

pub get_elem?-get_or : (xs : List ℕ) (i : ℕ) → i < length xs → get_elem? xs i ≡ some (get_or xs i 0)
get_elem?-get_or [] i h = absurd (omega arith)
get_elem?-get_or (x ∷ xs) zero h = refl
get_elem?-get_or (x ∷ xs) (suc i) h = get_elem?-get_or xs i (omega arith)

write_reversed-onto :
    (ds acc : List ℕ)
    → All IsDigit ds
    → write_reversed ds (map char_of acc) ≡ some (map char_of (onto ds acc))
unfolding write_reversed onto
write_reversed-onto [] acc h = refl
write_reversed-onto (d ∷ ds) acc (digit, digits) =
    rw (get_elem?-get_or base58_chars d digit) (write_reversed-onto ds (d ∷ acc) digits)

number-onto : (ds acc : List ℕ) → number 58 0 (onto ds acc) ≡ number 58 (low_first ds) acc
unfolding number onto low_first
number-onto [] acc = refl
number-onto (d ∷ ds) acc =
    let step : low_first ds * 58 + d ≡ d + 58 * low_first ds = omega arith in
    number-onto ds (d ∷ acc) ∙ ap (λ n. number 58 n acc) step

onto-IsDigit : (ds acc : List ℕ) → All IsDigit ds → All IsDigit acc → All IsDigit (onto ds acc)
unfolding onto
onto-IsDigit [] acc _ h = h
onto-IsDigit (d ∷ ds) acc (digit, digits) h = onto-IsDigit ds (d ∷ acc) digits (digit, h)

onto-IsUnpadded : (d : ℕ) (ds acc : List ℕ) → IsTrimmed (d ∷ ds) → IsUnpadded (onto (d ∷ ds) acc)
unfolding onto IsTrimmed low_first
onto-IsUnpadded d [] acc h = λ e. absurd (omega (arith, h.0, e))
onto-IsUnpadded d (e ∷ ds) acc h = onto-IsUnpadded e ds (d ∷ acc) h.1

trimmed-IsUnpadded : (ds : List ℕ) → IsTrimmed ds → IsUnpadded (onto ds [])
unfolding onto
trimmed-IsUnpadded [] h = tt
trimmed-IsUnpadded (d ∷ ds) h = onto-IsUnpadded d ds [] h

onto-append : (ds acc : List ℕ) → onto (ds ++ (0 ∷ [])) acc ≡ 0 ∷ onto ds acc
unfolding onto
onto-append [] acc = refl
onto-append (d ∷ ds) acc = onto-append ds (d ∷ acc)

plain_zeroes-IsDigit :
    (count : ℕ) (ret : List ℕ) → All IsDigit ret → All IsDigit (plain_zeroes count ret)
unfolding plain_zeroes
plain_zeroes-IsDigit zero ret h = h
plain_zeroes-IsDigit (suc count) ret h =
    plain_zeroes-IsDigit count (ret ++ (0 ∷ []))
      (All-append IsDigit ret (0 ∷ []) h (omega arith, tt))

onto-plain_zeroes :
    (count : ℕ) (ret : List ℕ) → onto (plain_zeroes count ret) [] ≡ padded count 0 (onto ret [])
unfolding plain_zeroes
onto-plain_zeroes zero ret = refl
onto-plain_zeroes (suc count) ret =
    onto-plain_zeroes count (ret ++ (0 ∷ [])) ∙ ap (λ ds. padded count 0 ds) (onto-append ret [])

pub map-padded :
    (count : ℕ) (ds : List ℕ) → map char_of (padded count 0 ds) ≡ padded count b'1' (map char_of ds)
map-padded zero ds = refl
map-padded (suc count) ds = map-padded count (0 ∷ ds)

-- Before the first byte that is not zero.
abbrev start : ℕ → Plain
start count = record { ret = []; leading_zero_count = count; leading_zeroes = true }

plain_bytes-padded :
    (count seen : ℕ) (bs : Bytes)
    → plain_bytes (start seen) (padded count 0 bs) ≡ plain_bytes (start (count + seen)) bs
unfolding plain_bytes plain_byte carry_into push_carry
plain_bytes-padded zero seen bs = ap (λ n. plain_bytes (start n) bs) (omega arith)
plain_bytes-padded (suc count) seen bs =
    plain_bytes-padded count seen (0 ∷ bs) ∙ ap (λ n. plain_bytes (start n) bs) (omega arith)

abbrev counted : ℕ → ℕ → Plain
counted seen b = record {
  ret = plain_digits [] b;
  leading_zero_count = seen;
  leading_zeroes = false;
}

plain_byte-counted : (seen b : ℕ) → b ≢ 0 → plain_byte (start seen) b ≡ counted seen b
unfolding plain_byte
plain_byte-counted seen b h = rw (ne→== b 0 h) refl

plain_bytes-unpadded :
    (seen : ℕ) (bs : Bytes)
    → IsUnpadded bs
    → (plain_bytes (start seen) bs).leading_zero_count ≡ seen
unfolding plain_bytes
plain_bytes-unpadded seen [] h = refl
plain_bytes-unpadded seen (b ∷ bs) h =
    ap (λ (p : Plain). (plain_bytes p bs).leading_zero_count) (plain_byte-counted seen b h)
    ∙ plain_bytes-leading_zero_count (counted seen b) bs refl

plain_encode-number :
    (count : ℕ) (bs : Bytes)
    → All IsByte bs
    → IsUnpadded bs
    → (digits : List ℕ) × (plain_encode (padded count 0 bs)
        ≡ some (padded count b'1' (map char_of digits)))
      × All IsDigit digits
      × IsUnpadded digits
      × (number 58 0 digits ≡ number 256 0 bs)
unfolding plain_encode number
plain_encode-number count bs bytes unpadded =
    let p : Plain = plain_bytes (start count) bs in
    let (value, digits, trimmed) = plain_bytes-Holds (start count) 0 bs nothing bytes in
    let zeroes : count + 0 ≡ count = omega arith in
    (
      onto p.ret [],
      rw (plain_bytes-padded count 0 bs, zeroes, plain_bytes-unpadded count bs unpadded)
          (write_reversed-onto (plain_zeroes count p.ret) []
              (plain_zeroes-IsDigit count p.ret digits)
            ∙ ap (λ ds. some (map char_of ds)) (onto-plain_zeroes count p.ret)
            ∙ ap some (map-padded count (onto p.ret []))),
      onto-IsDigit p.ret [] digits tt,
      trimmed-IsUnpadded p.ret trimmed,
      number-onto p.ret [] ∙ ap (λ n. number 58 n []) value,
    )

-- Bytes that do not start with zero, behind `count` zero bytes, are encoded as `count` characters `1` and the base-58
-- digits of the number that the bytes stand for: digits below 58, the first of them not zero. No index into the table
-- of characters or into the buffer is out of range.
pub encode_slice-number :
    (count : ℕ) (bs : Bytes)
    → All IsByte bs
    → IsUnpadded bs
    → (digits : List ℕ) × (encode_slice (padded count 0 bs)
        ≡ some (padded count b'1' (map char_of digits)))
      × All IsDigit digits
      × IsUnpadded digits
      × (number 58 0 digits ≡ number 256 0 bs)
encode_slice-number count bs bytes unpadded =
    let (digits, encoded, below, unpadded_digits, same) =
      plain_encode-number count bs bytes unpadded in
    (digits, encode_slice-plain_encode (padded count 0 bs) ∙ encoded, below, unpadded_digits, same)
