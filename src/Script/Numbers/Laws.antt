-- ===== src/Script/Numbers/Laws.antt =====
-- blockdata/script.rs: numbers on the stack read back.
use chaintopeslashrust_tapyr.Common.{
  ℕ, ◌+◌, ◌*◌, ◌/◌, ◌<◌, ◌≤◌, ◌≡◌, refl, arith, bit_and, bit_or, Bool, [], ◌∷◌, if◌then◌else◌, ltb,
}
use chaintopeslashrust_tapyr.Common.Bits.{
  agree_below, agree_below_sound, bit_and_seven, bit_and_low_byte,
}
use chaintopeslashrust_tapyr.Common.Int.{ℤ, pos}
use chaintopeslashrust_tapyr.Outcome.{ok}
use chaintopeslashrust_tapyr.Script.Numbers.{
  sign_bytes, fold_shifted, negate, signed_value, read_scriptint,
}

-- The sign bit of a byte.
sign_bit : (b : ℕ) → b < 256 → bit_and b 0x80 ≡ (if ltb b 128 then 0 else 128)
unfolding agree_below
sign_bit b h =
    agree_below_sound 256 (λ b. bit_and b 0x80) (λ b. if ltb b 128 then 0 else 128) refl b h

set_sign : (b : ℕ) → b < 128 → bit_or b 0x80 ≡ b + 128
unfolding agree_below
set_sign b h = agree_below_sound 128 (λ b. bit_or b 0x80) (λ b. b + 128) refl b h

no_sign : (b : ℕ) → b < 128 → bit_or b 0 ≡ b
unfolding agree_below
no_sign b h = agree_below_sound 128 (λ b. bit_or b 0) (λ b. b) refl b h

abbrev pub sign : Bool → ℕ
sign neg = if neg then 0x80 else 0

pub sign_free : (neg : Bool) (b : ℕ) → b < 128 → sign_bytes neg b ≡ (b + sign neg) ∷ []
unfolding sign_bytes
sign_free neg b h = ground (arith, sign_bit b, set_sign b, no_sign b)

pub sign_taken : (neg : Bool) (b : ℕ) → 128 ≤ b → b < 256 → sign_bytes neg b ≡ b ∷ sign neg ∷ []
unfolding sign_bytes
sign_taken neg b h l = ground (arith, sign_bit b)

-- A number with its sign.
abbrev pub with_sign : Bool → ℕ → ℤ
with_sign neg n = if neg then negate n else pos n

pub read_1 :
    (neg : Bool) (b : ℕ) → b < 128 → read_scriptint ((b + sign neg) ∷ []) ≡ ok (with_sign neg b)
unfolding read_scriptint fold_shifted signed_value
read_1 neg b h = ground (arith, sign_bit (b + sign neg), bit_and_seven (b + sign neg))

pub read_2 :
    (neg : Bool) (a b : ℕ)
    → a < 256
    → b < 128
    → read_scriptint (a ∷ (b + sign neg) ∷ []) ≡ ok (with_sign neg (a + b * 256))
unfolding read_scriptint fold_shifted signed_value
read_2 neg a b ha h =
    let sum = a + (b + sign neg) * 256 in
    ground (arith, sign_bit (b + sign neg), bit_and_low_byte sum 0x7f, bit_and_seven (sum / 256))

pub read_3 :
    (neg : Bool) (a b c : ℕ)
    → a < 256
    → b < 256
    → c < 128
    → read_scriptint (a ∷ b ∷ (c + sign neg) ∷ []) ≡ ok (with_sign neg (a + b * 256 + c * 65536))
unfolding read_scriptint fold_shifted signed_value
read_3 neg a b c ha hb h =
    let sum = a + b * 256 + (c + sign neg) * 65536 in
    ground (
      arith,
      sign_bit (c + sign neg),
      bit_and_low_byte sum 0x7fff,
      bit_and_low_byte (sum / 256) 0x7f,
      bit_and_seven (sum / 256 / 256),
    )

pub read_4 :
    (neg : Bool) (a b c d : ℕ)
    → a < 256
    → b < 256
    → c < 256
    → d < 128
    → read_scriptint (a ∷ b ∷ c ∷ (d + sign neg) ∷ [])
      ≡ ok (with_sign neg (a + b * 256 + c * 65536 + d * 16777216))
unfolding read_scriptint fold_shifted signed_value
read_4 neg a b c d ha hb hc h =
    let sum = a + b * 256 + c * 65536 + (d + sign neg) * 16777216 in
    ground (
      arith,
      sign_bit (d + sign neg),
      bit_and_low_byte sum 0x7fffff,
      bit_and_low_byte (sum / 256) 0x7fff,
      bit_and_low_byte (sum / 256 / 256) 0x7f,
      bit_and_seven (sum / 256 / 256 / 256),
    )
