-- ===== src/Base58/Value.antt =====
-- util/base58.rs: the number that the encoder writes.
use chaintopeslashrust_tapyr.Common.{
  ℕ, zero, suc, ◌+◌, ◌*◌, ◌/◌, ◌^◌, ◌<◌, ◌≡◌, refl, sym, arith, Bool-cases, false, inl, inr, List,
  [], ◌∷◌, All, ◌&&◌, ◌==◌, ==→eq, ==→ne,
}
use chaintopeslashrust_tapyr.Outcome.{Bytes, IsByte}
use chaintopeslashrust_tapyr.Base58.{carry_into, push_carry}
use chaintopeslashrust_tapyr.Base58.Plain.{Plain, plain_digits, plain_byte, plain_bytes}
use native.Mathlib.Nat.{pow-suc}

abbrev pub IsDigit : ℕ → Type 0
IsDigit d = d < 58

-- The number of base-58 digits, the lowest first.
unfoldable pub low_first : List ℕ → ℕ
low_first [] = 0
low_first (d ∷ ds) = d + 58 * low_first ds

-- The number of digits behind `n`, the highest first.
unfoldable pub number : ℕ → ℕ → List ℕ → ℕ
number base n [] = n
number base n (d ∷ ds) = number base (n * base + d) ds

push_carry-low_first :
    (rounds carry : ℕ) → carry < 58 ^ rounds → low_first (push_carry rounds carry) ≡ carry
unfolding low_first push_carry
push_carry-low_first zero carry h = omega arith
push_carry-low_first (suc k) carry h = elim (Bool-cases (carry == 0)) [
  | inl none_left ↦ rw none_left (sym (==→eq carry 0 none_left))
  | inr some_left ↦
      rw (some_left, push_carry-low_first k (carry / 58) (omega (arith, pow-suc 58 k)))
        (omega arith)
]

push_carry-IsDigit : (rounds carry : ℕ) → All IsDigit (push_carry rounds carry)
unfolding push_carry
push_carry-IsDigit zero carry = tt
push_carry-IsDigit (suc k) carry = elim (Bool-cases (carry == 0)) [
  | inl none_left ↦ rw none_left tt
  | inr some_left ↦ rw some_left (omega arith, push_carry-IsDigit k (carry / 58))
]

plain_digits-low_first :
    (ret : List ℕ) (d256 : ℕ)
    → All IsDigit ret
    → d256 < 256
    → (low_first (plain_digits ret d256) ≡ low_first ret * 256 + d256)
      × All IsDigit (plain_digits ret d256)
unfolding low_first carry_into
plain_digits-low_first [] carry _ h =
    (omega (arith, push_carry-low_first 11 carry (omega arith)), push_carry-IsDigit 11 carry)
plain_digits-low_first (ch ∷ ret) carry (digit, digits) h =
    let (rest, below) = plain_digits-low_first ret ((ch * 256 + carry) / 58) digits (omega arith) in
    (omega (arith, rest), (omega arith, below))

-- No suffix of the digits stands for zero, so that the highest digit is not zero.
unfoldable pub IsTrimmed : List ℕ → Type 0
IsTrimmed [] = Unit
IsTrimmed (d ∷ ds) = (0 < low_first (d ∷ ds)) × IsTrimmed ds

push_carry-IsTrimmed :
    (rounds carry : ℕ) → carry < 58 ^ rounds → IsTrimmed (push_carry rounds carry)
unfolding IsTrimmed push_carry low_first
push_carry-IsTrimmed zero carry h = tt
push_carry-IsTrimmed (suc k) carry h = elim (Bool-cases (carry == 0)) [
  | inl none_left ↦ rw none_left tt
  | inr some_left ↦
      let less : carry / 58 < 58 ^ k = omega (arith, pow-suc 58 k) in
      rw some_left (
        omega (arith, ==→ne carry 0 some_left, push_carry-low_first k (carry / 58) less),
        push_carry-IsTrimmed k (carry / 58) less,
      )
]

plain_digits-IsTrimmed :
    (ret : List ℕ) (d256 : ℕ)
    → All IsDigit ret
    → IsTrimmed ret
    → d256 < 256
    → IsTrimmed (plain_digits ret d256)
unfolding IsTrimmed low_first carry_into
plain_digits-IsTrimmed [] carry _ _ h = push_carry-IsTrimmed 11 carry (omega arith)
plain_digits-IsTrimmed (ch ∷ ret) carry (digit, digits) (top, trimmed) h = (
  omega (arith, top, (plain_digits-low_first (ch ∷ ret) carry (digit, digits) h).0),
  plain_digits-IsTrimmed ret ((ch * 256 + carry) / 58) digits trimmed (omega arith),
)

-- What the buffer holds after bytes are added to it.
abbrev pub Holds : ℕ → List ℕ → Type 0
Holds n ret = (low_first ret ≡ n) × All IsDigit ret × IsTrimmed ret

pub nothing : Holds 0 []
unfolding low_first IsTrimmed
nothing = (refl, tt, tt)

plain_byte-Holds :
    (p : Plain) (b n : ℕ) → Holds n p.ret → b < 256 → Holds (n * 256 + b) (plain_byte p b).ret
unfolding plain_byte
plain_byte-Holds p b n (now, digits, trimmed) h =
    let (next, below) = plain_digits-low_first p.ret b digits h in
    let held : Holds (n * 256 + b) (plain_digits p.ret b) =
      (omega (arith, now, next), below, plain_digits-IsTrimmed p.ret b digits trimmed h) in
    elim (Bool-cases (p.leading_zeroes && (b == 0))) [ inl e ↦ rw e held | inr e ↦ rw e held ]

pub plain_bytes-Holds :
    (p : Plain) (n : ℕ) (bs : Bytes)
    → Holds n p.ret
    → All IsByte bs
    → Holds (number 256 n bs) (plain_bytes p bs).ret
unfolding plain_bytes number
plain_bytes-Holds p n [] held h = held
plain_bytes-Holds p n (b ∷ bs) held (hb, hs) =
    plain_bytes-Holds (plain_byte p b) (n * 256 + b) bs (plain_byte-Holds p b n held hb) hs

pub plain_bytes-leading_zero_count :
    (p : Plain) (bs : Bytes)
    → p.leading_zeroes ≡ false
    → (plain_bytes p bs).leading_zero_count ≡ p.leading_zero_count
unfolding plain_bytes plain_byte
plain_bytes-leading_zero_count p [] e = refl
plain_bytes-leading_zero_count p (b ∷ bs) e = rw e (
    plain_bytes-leading_zero_count
      (record {
        ret = plain_digits p.ret b;
        leading_zero_count = p.leading_zero_count;
        leading_zeroes = false;
      })
      bs refl)
