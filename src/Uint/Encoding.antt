-- ===== src/Uint/Encoding.antt =====
-- util/uint.rs: the encoding, by the number of the bytes.
use native.Mathlib.Nat.{pow-suc}
use chaintopeslashrust_tapyr.Common.{
  ℕ, ◌+◌, ◌*◌, ◌^◌, ◌≡◌, ◌↔◌, refl, sym, ap, subst, ◌∙◌, arith, List, [], ◌∷◌, ◌++◌, length,
  length-append, All,
}
use chaintopeslashrust_tapyr.Outcome.{Bytes, IsByte, ok}
use chaintopeslashrust_tapyr.Endian.Laws.{
  value, digits_of, to_array_le-digits_of, length-digits_of, value-digits_of, digits_of-value,
}
use chaintopeslashrust_tapyr.Consensus.Reader.{serialize}
use chaintopeslashrust_tapyr.Consensus.Codec.{IsLawful}
use chaintopeslashrust_tapyr.Consensus.Integers.{u64, emit_uint}
use chaintopeslashrust_tapyr.Consensus.Integers.Laws.{uint-IsLawful}
use chaintopeslashrust_tapyr.Consensus.Vectors.{encode_each, decode_times}
use chaintopeslashrust_tapyr.Consensus.Vectors.Elements.{
  encode_each_reports, encode_each_writes, decode_times-encode_each, decode_times_sound,
  decode_times-ne-panic,
}
use chaintopeslashrust_tapyr.Consensus.Deserialize.{deserialize}
use chaintopeslashrust_tapyr.Consensus.Contract.{inverse}
use chaintopeslashrust_tapyr.Uint.{wide_int}
use chaintopeslashrust_tapyr.Uint.Sums.{IsWord, number_of}

-- An integer of `n` words.
abbrev pub IsWide : ℕ → List ℕ → Type 0
IsWide n words = (length words ≡ n) × All IsWord words

u64-IsLawful : IsLawful u64 IsWord
u64-IsLawful = uint-IsLawful 8

pub wide_int-IsLawful : (n : ℕ) → IsLawful (wide_int n) (IsWide n)
wide_int-IsLawful n = record {
  reports = encode_each_reports u64-IsLawful;
  writes = λ v h. encode_each_writes u64-IsLawful v h.1;
  round_trip = λ v rest h.
      subst (λ m. decode_times u64 m (serialize (wide_int n) v ++ rest) ≡ ok (v, rest)) h.0
        (decode_times-encode_each u64-IsLawful v rest h.1);
  canonical = λ bs rest v h e.
      let (image, long, valid) = decode_times_sound u64-IsLawful n bs rest v h e in
      (image, (long, valid));
  total = λ bs h. decode_times-ne-panic u64-IsLawful n bs h;
}

value-append : (xs ys : Bytes) → value (xs ++ ys) ≡ value xs + 256 ^ length xs * value ys
unfolding value
value-append [] ys = omega arith
value-append (x ∷ xs) ys =
    omega (arith, value-append xs ys, ap (λ (p : ℕ). p * value ys) (pow-suc 256 (length xs)))

word_bytes : (x : ℕ) → IsWord x → (value (emit_uint 8 x) ≡ x) × (length (emit_uint 8 x) ≡ 8)
unfolding emit_uint
word_bytes x h = rw (to_array_le-digits_of 8 x) (value-digits_of 8 x h, length-digits_of 8 x)

-- The bytes that are written stand for the number.
wide_bytes :
    (words : List ℕ)
    → All IsWord words
    → (value (encode_each u64 words).0 ≡ number_of words)
      × (length (encode_each u64 words).0 ≡ 8 * length words)
unfolding encode_each value number_of
wide_bytes [] h = (refl, refl)
wide_bytes (x ∷ words) (hx, hs) =
    let rest : Bytes = (encode_each u64 words).0 in
    let (one, size) = word_bytes x hx in
    let (number, long) = wide_bytes words hs in
    (
      value-append (emit_uint 8 x) rest
          ∙ ap (λ (n : ℕ). value (emit_uint 8 x) + 256 ^ n * value rest) size
          ∙ omega (arith, one, number),
      omega (arith, size, long, length-append (emit_uint 8 x) rest),
    )

same_value :
    (xs ys : Bytes)
    → All IsByte xs
    → All IsByte ys
    → length xs ≡ length ys
    → value xs ≡ value ys
    → xs ≡ ys
same_value xs ys hx hy long same =
    sym (digits_of-value xs hx)
    ∙ ap (λ n. digits_of n (value xs)) long
    ∙ ap (digits_of (length ys)) same
    ∙ digits_of-value ys hy

-- A byte string is read as an integer of `n` words exactly when it has eight bytes for each word and stands, its
-- lowest byte first, for the same number.
pub deserialize-wide_int_iff :
    (n : ℕ) (bs : Bytes) (words : List ℕ)
    → All IsByte bs
    → (deserialize (wide_int n) bs ≡ ok words)
      ↔ (IsWide n words × (length bs ≡ 8 * n) × (value bs ≡ number_of words))
deserialize-wide_int_iff n bs words h =
    let (there, back) = inverse (wide_int-IsLawful n) bs words h in
    (
      (λ e.
          let (image, shape) = there e in
          let (long, valid) = shape in
          let (number, size) = wide_bytes words valid in
          (shape, omega (arith, ap length image, size, long), ap value image ∙ number)),
      (λ p.
          let (shape, size, number) = p in
          let (long, valid) = shape in
          let (written, written_size) = wide_bytes words valid in
          back (
            same_value bs (serialize (wide_int n) words) h
                (encode_each_writes u64-IsLawful words valid)
                (omega (arith, size, written_size, long)) (number ∙ sym written),
            shape,
          )),
    )
