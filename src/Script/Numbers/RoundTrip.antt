-- ===== src/Script/Numbers/RoundTrip.antt =====
-- blockdata/script.rs: which numbers `read_scriptint` reads back from `build_scriptint`.
use chaintopeslashrust_tapyr.Common.{
  ℕ, zero, suc, ◌/◌, ◌%◌, ◌^◌, ◌<◌, ◌≤◌, ◌≡◌, refl, ap, ◌∙◌, arith, Bool, false, [], ◌∷◌, length,
  length-append, if◌then◌else◌, ne→==, ==→ne, ==→eq, ◌==◌, lt→ltb, le→ltb, not, ◌&&◌, Option, some,
  none, ltb, ltb→lt, ltb→le, Bool-cases, inl, inr,
}
use chaintopeslashrust_tapyr.Common.Int.{ℤ, pos, negsuc, abs}
use chaintopeslashrust_tapyr.Outcome.{Bytes, Result, ok, err}
use chaintopeslashrust_tapyr.Script.Instructions.{ScriptError, numeric_overflow}
use chaintopeslashrust_tapyr.Script.Numbers.{
  IsI64, is_negative, low_bytes, sign_bytes, build_scriptint, read_scriptint,
}
use chaintopeslashrust_tapyr.Script.Numbers.Laws.{
  with_sign, sign_free, sign_taken, read_1, read_2, read_3, read_4,
}
use chaintopeslashrust_tapyr.Script.Numbers.Magnitude.{
  magnitude, low_more, low_least, low_2, low_3, low_4, assembled,
}

short_reads :
    (neg : Bool) (m : ℕ) → m < 0x8000 → read_scriptint (magnitude neg m) ≡ ok (with_sign neg m)
short_reads neg m h = elim (Bool-cases (ltb m 0x80)) [
  | inl free ↦
      let small : m < 0x80 = ltb→lt m 0x80 free in
      ap read_scriptint (assembled neg m _ _ (low_least 7 m (omega arith)) (sign_free neg m small))
      ∙ read_1 neg m small
  | inr taken ↦ elim (Bool-cases (ltb m 0x100)) [
    | inl small ↦
        let top : m < 0x100 = ltb→lt m 0x100 small in
        ap read_scriptint
          (assembled neg m _ _ (low_least 7 m top) (sign_taken neg m (ltb→le m 0x80 taken) top))
        ∙ ap (λ t. read_scriptint (m ∷ t ∷ [])) (omega arith)
        ∙ read_2 neg m 0 top (omega arith)
        ∙ ap (λ n. ok (with_sign neg n)) (omega arith)
    | inr large ↦
        let least : 0x100 ≤ m = ltb→le m 0x100 large in
        ap read_scriptint (
          assembled neg m _ _ (low_2 m least (omega arith)) (sign_free neg (m / 256) (omega arith)))
        ∙ read_2 neg (m % 256) (m / 256) (omega arith) (omega arith)
        ∙ ap (λ n. ok (with_sign neg n)) (omega arith)
  ]
]

middle_reads :
    (neg : Bool) (m : ℕ)
    → 0x8000 ≤ m
    → m < 0x800000
    → read_scriptint (magnitude neg m) ≡ ok (with_sign neg m)
middle_reads neg m h l = elim (Bool-cases (ltb m 0x10000)) [
  | inl small ↦
      let most : m < 0x10000 = ltb→lt m 0x10000 small in
      ap read_scriptint (
        assembled neg m _ _ (low_2 m (omega arith) most)
          (sign_taken neg (m / 256) (omega arith) (omega arith)))
      ∙ ap (λ t. read_scriptint (m % 256 ∷ (m / 256) ∷ t ∷ [])) (omega arith)
      ∙ read_3 neg (m % 256) (m / 256) 0 (omega arith) (omega arith) (omega arith)
      ∙ ap (λ n. ok (with_sign neg n)) (omega arith)
  | inr large ↦
      let least : 0x10000 ≤ m = ltb→le m 0x10000 large in
      ap read_scriptint (
        assembled neg m _ _ (low_3 m least (omega arith))
          (sign_free neg (m / 256 / 256) (omega arith)))
      ∙ read_3 neg (m % 256) (m / 256 % 256) (m / 256 / 256) (omega arith) (omega arith)
          (omega arith)
      ∙ ap (λ n. ok (with_sign neg n)) (omega arith)
]

long_reads :
    (neg : Bool) (m : ℕ)
    → 0x800000 ≤ m
    → m < 0x80000000
    → read_scriptint (magnitude neg m) ≡ ok (with_sign neg m)
long_reads neg m h l = elim (Bool-cases (ltb m 0x1000000)) [
  | inl small ↦
      let most : m < 0x1000000 = ltb→lt m 0x1000000 small in
      ap read_scriptint (
        assembled neg m _ _ (low_3 m (omega arith) most)
          (sign_taken neg (m / 256 / 256) (omega arith) (omega arith)))
      ∙ ap (λ t. read_scriptint (m % 256 ∷ (m / 256 % 256) ∷ (m / 256 / 256) ∷ t ∷ []))
          (omega arith)
      ∙ read_4 neg (m % 256) (m / 256 % 256) (m / 256 / 256) 0 (omega arith) (omega arith)
          (omega arith) (omega arith)
      ∙ ap (λ n. ok (with_sign neg n)) (omega arith)
  | inr large ↦
      let least : 0x1000000 ≤ m = ltb→le m 0x1000000 large in
      ap read_scriptint (
        assembled neg m _ _ (low_4 m least (omega arith))
          (sign_free neg (m / 256 / 256 / 256) (omega arith)))
      ∙ read_4 neg (m % 256) (m / 256 % 256) (m / 256 / 256 % 256) (m / 256 / 256 / 256)
          (omega arith) (omega arith) (omega arith) (omega arith)
      ∙ ap (λ n. ok (with_sign neg n)) (omega arith)
]

-- Larger magnitudes take more than four bytes.
sign_positive : (neg : Bool) (b : ℕ) → 1 ≤ length (sign_bytes neg b)
unfolding sign_bytes
sign_positive neg b = ground arith

low_5 :
    (m : ℕ)
    → 0x100000000 ≤ m
    → (low_bytes 7 m).0
      ≡ m % 256
        ∷ (m / 256 % 256)
        ∷ (m / 256 / 256 % 256)
        ∷ (m / 256 / 256 / 256 % 256)
        ∷ (low_bytes 3 (m / 256 / 256 / 256 / 256)).0
low_5 m h =
    ap (λ p. p.0) (low_more 6 m (omega arith))
    ∙ ap (λ p. m % 256 ∷ p.0) (low_more 5 (m / 256) (omega arith))
    ∙ ap (λ p. m % 256 ∷ (m / 256 % 256) ∷ p.0) (low_more 4 (m / 256 / 256) (omega arith))
    ∙ ap (λ p. m % 256 ∷ (m / 256 % 256) ∷ (m / 256 / 256 % 256) ∷ p.0)
        (low_more 3 (m / 256 / 256 / 256) (omega arith))

length-magnitude : (neg : Bool) (m : ℕ) → 0x80000000 ≤ m → 4 < length (magnitude neg m)
length-magnitude neg m h = elim (Bool-cases (ltb m 0x100000000)) [
  | inl small ↦
      let image = assembled neg m _ _ (low_4 m (omega arith) (ltb→lt m 0x100000000 small)) (
        sign_taken neg (m / 256 / 256 / 256) (omega arith)
          (omega (arith, ltb→lt m 0x100000000 small))) in
      omega (arith, ap length image)
  | inr large ↦
      let image = low_5 m (ltb→le m 0x100000000 large) in
      omega (
        arith,
        ap length image,
        length-append (low_bytes 7 m).0 (sign_bytes neg (low_bytes 7 m).1),
        sign_positive neg (low_bytes 7 m).1,
      )
]

overflows : (v : Bytes) → 4 < length v → read_scriptint v ≡ err numeric_overflow
unfolding read_scriptint
overflows v h = ground arith

magnitude_reads :
    (neg : Bool) (m : ℕ)
    → read_scriptint (magnitude neg m)
      ≡ (if ltb m 0x80000000 then ok (with_sign neg m) else err numeric_overflow)
magnitude_reads neg m = elim (Bool-cases (ltb m 0x80000000)) [
  | inr large ↦
      rw large (overflows (magnitude neg m) (length-magnitude neg m (ltb→le m 0x80000000 large)))
  | inl fits ↦ elim (Bool-cases (ltb m 0x8000)) [
    | inl short ↦ rw fits (short_reads neg m (ltb→lt m 0x8000 short))
    | inr wide ↦ elim (Bool-cases (ltb m 0x800000)) [
      | inl middle ↦ rw fits (middle_reads neg m (ltb→le m 0x8000 wide) (ltb→lt m 0x800000 middle))
      | inr long ↦ rw fits (long_reads neg m (ltb→le m 0x800000 long) (ltb→lt m 0x80000000 fits))
    ]
  ]
]

pub build_magnitude :
    (n : ℤ)
    → 0 < abs n
    → (is_negative n && not (ltb (abs n) (2 ^ 63))) ≡ false
    → build_scriptint n ≡ some (magnitude (is_negative n) (abs n))
unfolding build_scriptint
build_magnitude n h fits = rw (ne→== (abs n) 0 (λ e. absurd (omega arith)), fits) refl

build_least : (n : ℕ) → suc n ≡ 2 ^ 63 → build_scriptint (negsuc n) ≡ none
unfolding build_scriptint
build_least n e =
    rw (ne→== (suc n) 0 (λ z. absurd (omega arith)), le→ltb (suc n) (2 ^ 63) (omega (arith, e)))
      refl

-- What is read from the bytes, where there are any.
abbrev pub read_built : Option Bytes → Option (Result ScriptError ℤ)
read_built none = none
read_built (some v) = some (read_scriptint v)

built_reads :
    (n : ℤ)
    → 0 < abs n
    → (is_negative n && not (ltb (abs n) (2 ^ 63))) ≡ false
    → read_built (build_scriptint n)
      ≡ some (
          if ltb (abs n) 0x80000000
          then ok (with_sign (is_negative n) (abs n))
          else err numeric_overflow)
built_reads n h fits =
    ap read_built (build_magnitude n h fits) ∙ ap some (magnitude_reads (is_negative n) (abs n))

-- The least `i64` is not written as a script number: the code panics where overflow is checked. Any other `i64` is
-- written, and its bytes read back as the integer itself if its magnitude is below 2 ^ 31, and are refused as too
-- long for a number otherwise.
pub read_scriptint-build_scriptint :
    (n : ℤ)
    → IsI64 n
    → read_built (build_scriptint n) ≡ (
        if abs n == 2 ^ 63
        then none
        else some (if ltb (abs n) 0x80000000 then ok n else err numeric_overflow))
read_scriptint-build_scriptint (pos zero) h = unfold build_scriptint read_scriptint in refl
read_scriptint-build_scriptint (pos (suc n)) h =
    rw (ne→== (suc n) (2 ^ 63) (λ e. absurd (omega (arith, e, h))))
      (built_reads (pos (suc n)) (omega arith) refl)
read_scriptint-build_scriptint (negsuc n) h = elim (Bool-cases (suc n == 2 ^ 63)) [
  | inl least ↦ rw least (ap read_built (build_least n (==→eq (suc n) (2 ^ 63) least)))
  | inr other ↦ rw other (
      built_reads (negsuc n) (omega arith)
        (ap not (lt→ltb (suc n) (2 ^ 63) (omega (arith, h, ==→ne (suc n) (2 ^ 63) other)))))
]
