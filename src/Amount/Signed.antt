-- ===== src/Amount/Signed.antt =====
-- util/amount.rs: `SignedAmount`, which is its number of satoshi. The build has overflow checks, so
-- that the absolute value of the least `i64` is a panic.
use chaintopeslashrust_tapyr.Common.{
  ℕ, ◌^◌, Bool, true, false, ◌||◌, ◌++◌, ◌∷◌, if◌then◌else◌, ◌==◌, ltb, Option, none, some,
}
use chaintopeslashrust_tapyr.Common.Int.{
  ℤ, pos, negsuc, abs, below_zero, with_sign, ◌+ℤ◌, ◌-ℤ◌, ◌*ℤ◌, quotient, remainder,
}
use chaintopeslashrust_tapyr.Common.Text.{Text}
use chaintopeslashrust_tapyr.Outcome.{Result, ok, err, panic, bind}
use chaintopeslashrust_tapyr.Amount.{
  Denomination, denomination_name, ParseAmountError, negative, too_big, parse_denomination,
  parse_signed_to_satoshi, fmt_satoshi_in,
}
use chaintopeslashrust_tapyr.Amount.Unsigned.{Amount, i64_max, two_parts}

abbrev pub SignedAmount : Type 0
SignedAmount = ℤ

-- The values of an `i64`.
abbrev pub is_i64 : ℤ → Bool
is_i64 (pos n) = ltb n (2 ^ 63)
is_i64 (negsuc n) = ltb n (2 ^ 63)

abbrev pub fitting : ℤ → Option ℤ
fitting z = if is_i64 z then some z else none

unfoldable pub from_str_in : Text → Denomination → Result ParseAmountError SignedAmount
from_str_in s denom =
    bind (parse_signed_to_satoshi s denom)
      (λ p. if ltb i64_max (p.1) then err too_big else ok (with_sign (p.0) (p.1)))

unfoldable pub from_str_with_denomination : Text → Result ParseAmountError SignedAmount
from_str_with_denomination s =
    bind (two_parts s) (λ p. bind (parse_denomination (p.1)) (λ denom. from_str_in (p.0) denom))

unfoldable pub abs_i64 : SignedAmount → Result ParseAmountError ℕ
abs_i64 z = if is_i64 (pos (abs z)) then ok (abs z) else panic

unfoldable pub to_string_in : SignedAmount → Denomination → Result ParseAmountError Text
to_string_in z denom = bind (abs_i64 z) (λ n. ok (fmt_satoshi_in n (below_zero z) denom))

unfoldable pub to_string_with_denomination :
    SignedAmount → Denomination → Result ParseAmountError Text
to_string_with_denomination z denom =
    bind (to_string_in z denom) (λ s. ok (s ++ (b' ' ∷ denomination_name denom)))

unfoldable pub checked_add : SignedAmount → SignedAmount → Option SignedAmount
checked_add a b = fitting (a +ℤ b)

unfoldable pub checked_sub : SignedAmount → SignedAmount → Option SignedAmount
checked_sub a b = fitting (a -ℤ b)

unfoldable pub checked_mul : SignedAmount → ℤ → Option SignedAmount
checked_mul a b = fitting (a *ℤ b)

-- `i64::checked_div`, and `checked_rem`, whose quotient must fit too.
unfoldable pub checked_div : SignedAmount → ℤ → Option SignedAmount
checked_div a b = if abs b == 0 then none else fitting (quotient a b)

unfoldable pub checked_rem : SignedAmount → ℤ → Option SignedAmount
checked_rem a b =
    if abs b == 0 then none else if is_i64 (quotient a b) then some (remainder a b) else none

unfoldable pub exceeds : ℤ → ℤ → Bool
exceeds (pos a) (pos b) = ltb b a
exceeds (pos a) (negsuc b) = true
exceeds (negsuc a) (pos b) = false
exceeds (negsuc a) (negsuc b) = ltb a b

unfoldable pub positive_sub : SignedAmount → SignedAmount → Option SignedAmount
unfolding exceeds checked_sub
positive_sub a b = if below_zero a || below_zero b || exceeds b a then none else checked_sub a b

unfoldable pub to_unsigned : SignedAmount → Result ParseAmountError Amount
to_unsigned z = if below_zero z then err negative else ok (abs z)
