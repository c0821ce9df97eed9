-- ===== src/Amount/Unsigned.antt =====
-- util/amount.rs: `Amount`, which is its number of satoshi. Operators with `expect` panic where the
-- checked operation has no result.
use chaintopeslashrust_tapyr.Common.{
  ℕ, ◌-◌, ◌/◌, ◌%◌, ◌^◌, Bool, true, false, List, [], ◌∷◌, ◌++◌, if◌then◌else◌, ◌==◌, ltb, Option,
  none, some,
}
use chaintopeslashrust_tapyr.Common.Int.{ℤ, pos}
use chaintopeslashrust_tapyr.Common.Text.{Text}
use chaintopeslashrust_tapyr.Outcome.{Result, ok, err, panic, bind}
use chaintopeslashrust_tapyr.Amount.{
  Denomination, denomination_name, ParseAmountError, negative, too_big, invalid_format,
  parse_denomination, mul_u64, add_u64, parse_signed_to_satoshi, fmt_satoshi_in,
}

abbrev pub Amount : Type 0
Amount = ℕ

-- `i64::max_value()`
abbrev pub i64_max : ℕ
i64_max = 2 ^ 63 - 1

-- What stands before and behind the first space.
unfoldable pub split_space : Text → Option (Text × Text)
split_space [] = none
split_space (c ∷ s) =
    let rest = split_space s in
    if c == b' ' then some ([], s) else elim rest [ none ↦ none | some p ↦ some (c ∷ p.0, p.1) ]

abbrev pub ok_or {ℓ} : {E : Type 0} {A : Type ℓ} → E → Option A → Result E A
ok_or e none = err e
ok_or e (some a) = ok a

abbrev pub is_some {ℓ} : {A : Type ℓ} → Option A → Bool
is_some none = false
is_some (some a) = true

-- The two parts that `splitn(3, " ")` may have: no part but the first, or a third one, is an error.
unfoldable pub two_parts : Text → Result ParseAmountError (Text × Text)
unfolding split_space
two_parts s =
    bind (ok_or invalid_format (split_space s))
      (λ p. if is_some (split_space (p.1)) then err invalid_format else ok p)

unfoldable pub from_str_in : Text → Denomination → Result ParseAmountError Amount
from_str_in s denom =
    bind (parse_signed_to_satoshi s denom)
      (λ p. if p.0 then err negative else if ltb i64_max (p.1) then err too_big else ok (p.1))

unfoldable pub from_str_with_denomination : Text → Result ParseAmountError Amount
unfolding two_parts
from_str_with_denomination s =
    bind (two_parts s) (λ p. bind (parse_denomination (p.1)) (λ denom. from_str_in (p.0) denom))

unfoldable pub to_string_in : Amount → Denomination → Text
to_string_in n denom = fmt_satoshi_in n false denom

unfoldable pub to_string_with_denomination : Amount → Denomination → Text
unfolding to_string_in
to_string_with_denomination n denom = to_string_in n denom ++ (b' ' ∷ denomination_name denom)

unfoldable pub checked_add : Amount → Amount → Option Amount
checked_add a b = add_u64 a b

unfoldable pub checked_sub : Amount → Amount → Option Amount
checked_sub a b = if ltb a b then none else some (a - b)

unfoldable pub checked_mul : Amount → ℕ → Option Amount
checked_mul a b = mul_u64 a b

unfoldable pub checked_div : Amount → ℕ → Option Amount
checked_div a b = if b == 0 then none else some (a / b)

unfoldable pub checked_rem : Amount → ℕ → Option Amount
checked_rem a b = if b == 0 then none else some (a % b)

unfoldable pub to_signed : Amount → Result ParseAmountError ℤ
to_signed n = if ltb i64_max n then err too_big else ok (pos n)

-- The operators, and the assignments by them.
pub data Arithmetic : Type 0 where
  plus minus times over modulo : ℕ → Arithmetic

unfoldable pub checked : Arithmetic → Amount → Option Amount
unfolding checked_add checked_sub checked_mul checked_div checked_rem
checked (plus b) a = checked_add a b
checked (minus b) a = checked_sub a b
checked (times b) a = checked_mul a b
checked (over b) a = checked_div a b
checked (modulo b) a = checked_rem a b

abbrev pub expect {ℓ} : {E : Type 0} {A : Type ℓ} → Option A → Result E A
expect none = panic
expect (some a) = ok a

unfoldable pub operate : Arithmetic → Amount → Result ParseAmountError Amount
unfolding checked
operate op a = expect (checked op a)

-- Assignments in a row.
unfoldable pub assign_all : List Arithmetic → Amount → Result ParseAmountError Amount
unfolding operate
assign_all [] a = ok a
assign_all (op ∷ ops) a = bind (operate op a) (assign_all ops)
