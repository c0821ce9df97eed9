-- ===== src/Script/Numbers/Magnitude.antt =====
-- blockdata/script.rs: the bytes of the magnitude of a script number.
use chaintopeslashrust_tapyr.Common.{
  ℕ, zero, suc, ◌/◌, ◌%◌, ◌^◌, ◌<◌, ◌≤◌, ◌≡◌, refl, ap, ◌∙◌, arith, Bool, [], ◌∷◌, ◌++◌,
}
use chaintopeslashrust_tapyr.Common.Bits.{bit_and_byte}
use chaintopeslashrust_tapyr.Outcome.{Bytes}
use chaintopeslashrust_tapyr.Script.Numbers.{low_bytes, sign_bytes}
use native.Mathlib.Nat.{pow-suc}

-- The rounds of the loop are enough: what is left fits a byte.
low_bytes_enough : (fuel left : ℕ) → left < 256 ^ suc fuel → (low_bytes fuel left).1 < 256
unfolding low_bytes
low_bytes_enough zero left h = h
low_bytes_enough (suc fuel) left h =
    ground (arith, low_bytes_enough fuel (left / 256), pow-suc 256 (suc fuel))

pub low_more :
    (fuel m : ℕ)
    → 0x100 ≤ m
    → low_bytes (suc fuel) m
      ≡ (m % 256 ∷ (low_bytes fuel (m / 256)).0, (low_bytes fuel (m / 256)).1)
unfolding low_bytes
low_more fuel m h = ground (arith, bit_and_byte m)

pub low_least : (fuel m : ℕ) → m < 0x100 → low_bytes fuel m ≡ ([], m)
unfolding low_bytes
low_least zero m h = refl
low_least (suc fuel) m h = ground arith

abbrev pub magnitude : Bool → ℕ → Bytes
magnitude neg m = (low_bytes 7 m).0 ++ sign_bytes neg (low_bytes 7 m).1

-- The first bytes of the magnitude.
pub low_2 : (m : ℕ) → 0x100 ≤ m → m < 0x10000 → low_bytes 7 m ≡ (m % 256 ∷ [], m / 256)
low_2 m h l = low_more 6 m h ∙ ap (λ p. (m % 256 ∷ p.0, p.1)) (low_least 6 (m / 256) (omega arith))

pub low_3 :
    (m : ℕ)
    → 0x10000 ≤ m
    → m < 0x1000000
    → low_bytes 7 m ≡ (m % 256 ∷ (m / 256 % 256) ∷ [], m / 256 / 256)
low_3 m h l =
    low_more 6 m (omega arith)
    ∙ ap (λ p. (m % 256 ∷ p.0, p.1))
        (low_more 5 (m / 256) (omega arith)
          ∙ ap (λ p. ((m / 256 % 256) ∷ p.0, p.1)) (low_least 5 (m / 256 / 256) (omega arith)))

pub low_4 :
    (m : ℕ)
    → 0x1000000 ≤ m
    → m < 0x100000000
    → low_bytes 7 m ≡ (m % 256 ∷ (m / 256 % 256) ∷ (m / 256 / 256 % 256) ∷ [], m / 256 / 256 / 256)
low_4 m h l =
    low_more 6 m (omega arith)
    ∙ ap (λ p. (m % 256 ∷ p.0, p.1))
        (low_more 5 (m / 256) (omega arith)
          ∙ ap (λ p. ((m / 256 % 256) ∷ p.0, p.1))
              (low_more 4 (m / 256 / 256) (omega arith)
                ∙ ap (λ p. ((m / 256 / 256 % 256) ∷ p.0, p.1))
                    (low_least 4 (m / 256 / 256 / 256) (omega arith))))

-- The bytes of a magnitude from its low bytes and those of the sign.
pub assembled :
    (neg : Bool) (m : ℕ) (p : Bytes × ℕ) (bs : Bytes)
    → low_bytes 7 m ≡ p
    → sign_bytes neg p.1 ≡ bs
    → magnitude neg m ≡ p.0 ++ bs
assembled neg m p bs e k = ap (λ q. q.0 ++ sign_bytes neg q.1) e ∙ ap (λ t. p.0 ++ t) k
