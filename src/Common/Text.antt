-- ===== src/Common/Text.antt =====
-- Texts as lists of code points, and the decimal digits that `{}` prints for a number.
use Prim.Native.Nat.{ℕ, zero, suc, ◌+◌, ◌-◌, ◌*◌, ◌/◌, ◌%◌, ◌^◌, ◌≤◌, ◌<◌}
use Prim.Native.Char.{code}
use Prim.Native.String.{String}
use mathlib.Core.Path.{◌≡◌, refl, ap, ◌∙◌}
use mathlib.Core.Bool.{Bool, ◌&&◌}
use mathlib.Core.List.{List, [], ◌∷◌, ◌++◌}
use mathlib.Core.Logic.{inl, inr}
use native.Mathlib.Omega.{arith}
use native.Mathlib.Nat.{pow-suc}
use chaintopeslashrust_tapyr.Common.Tests.{ltb, leb, ltb→lt, Bool-cases, if◌then◌else◌}
use chaintopeslashrust_tapyr.Common.Lists.{length, length-append, All, All-append}

abbrev pub Text : Type 0
Text = List ℕ

-- The code points of a literal.
abbrev pub codes : String → Text
codes String.[] = []
codes (String.◌∷◌ c s) = code c ∷ codes s

-- The bytes that a code point takes in UTF-8, and `str::len`.
abbrev pub utf8_len : ℕ → ℕ
utf8_len c = if ltb c 0x80 then 1 else if ltb c 0x800 then 2 else if ltb c 0x10000 then 3 else 4

unfoldable pub byte_len : Text → ℕ
byte_len [] = 0
byte_len (c ∷ s) = utf8_len c + byte_len s

abbrev pub is_digit : ℕ → Bool
is_digit c = leb b'0' c && leb c b'9'

abbrev pub IsDigit : ℕ → Type 0
IsDigit c = (b'0' ≤ c) × (c ≤ b'9')

-- The number that digits spell behind `n`.
abbrev pub spelled : ℕ → Text → ℕ
spelled n [] = n
spelled n (c ∷ s) = spelled (n * 10 + (c - b'0')) s

pub spelled-append : (s t : Text) (n : ℕ) → spelled n (s ++ t) ≡ spelled (spelled n s) t
spelled-append [] t n = refl
spelled-append (c ∷ s) t n = spelled-append s t (n * 10 + (c - b'0'))

pub le-spelled : (s : Text) (n : ℕ) → n ≤ spelled n s
le-spelled [] n = omega arith
le-spelled (c ∷ s) n = omega (arith, le-spelled s (n * 10 + (c - b'0')))

-- The digits of a number of at most `fuel + 1` digits.
unfoldable pub digits : ℕ → ℕ → Text
digits zero n = (b'0' + n) ∷ []
digits (suc fuel) n =
    let rest = digits fuel (n / 10) ++ ((b'0' + n % 10) ∷ []) in
    if ltb n 10 then (b'0' + n) ∷ [] else rest

-- `{}` of a `u64`, which has at most 20 digits.
unfoldable pub decimal : ℕ → Text
unfolding digits
decimal n = digits 19 n

digits_shape :
    (fuel n : ℕ)
    → n < 10 ^ suc fuel
    → All IsDigit (digits fuel n)
      × (spelled 0 (digits fuel n) ≡ n)
      × (1 ≤ length (digits fuel n))
      × (length (digits fuel n) ≤ suc fuel)
unfolding digits
digits_shape zero n h = (((omega arith, omega arith), tt), omega arith, omega arith, omega arith)
digits_shape (suc fuel) n h = elim (Bool-cases (ltb n 10)) [
  | inl small ↦
      rw small (
        ((omega arith, omega (arith, ltb→lt n 10 small)), tt),
        omega arith,
        omega arith,
        omega arith,
      )
  | inr large ↦
      let (all_digits, value, positive, short) =
        digits_shape fuel (n / 10) (omega (arith, pow-suc 10 (suc fuel))) in
      let front : Text = digits fuel (n / 10) in
      let last : Text = (b'0' + n % 10) ∷ [] in
      rw large (
        All-append IsDigit front last all_digits ((omega arith, omega arith), tt),
        spelled-append front last 0 ∙ ap (λ m. spelled m last) value ∙ omega arith,
        omega (arith, length-append front last),
        omega (arith, length-append front last),
      )
]

-- What `{}` prints for a `u64`: digits that spell it, at most 20 of them.
pub record IsDecimal (s : Text) (n : ℕ) : Type 0 where
  pub all_digits : All IsDigit s
  pub value : spelled 0 s ≡ n
  pub positive : 1 ≤ length s
  pub short : length s ≤ 20

pub decimal-IsDecimal : (n : ℕ) → n < 2 ^ 64 → IsDecimal (decimal n) n
unfolding decimal
decimal-IsDecimal n h =
    let (all_digits, value, positive, short) = digits_shape 19 n (omega arith) in
    record { all_digits = all_digits; value = value; positive = positive; short = short }

-- A text of ASCII characters has as many bytes as characters.
pub byte_len-ascii : (s : Text) → All (λ c. c < 0x80) s → byte_len s ≡ length s
unfolding byte_len
byte_len-ascii [] h = refl
byte_len-ascii (c ∷ s) h = ground (arith, byte_len-ascii s)

pub length-le-byte_len : (s : Text) → length s ≤ byte_len s
unfolding byte_len
length-le-byte_len [] = omega arith
length-le-byte_len (c ∷ s) = ground (arith, length-le-byte_len s)
