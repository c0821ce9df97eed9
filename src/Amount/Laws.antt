-- ===== src/Amount/Laws.antt =====
-- util/amount.rs: amounts with their denomination as text, conversions, and checked subtraction.
use mathlib.Core.Option.{none-ne-some}
use chaintopeslashrust_tapyr.Common.{
  ℕ, zero, suc, ◌+◌, ◌-◌, ◌^◌, ◌<◌, ◌≤◌, ◌≡◌, ◌↔◌, refl, sym, subst, ap, ◌∙◌, arith, Bool, true,
  false, [], ◌∷◌, ◌++◌, if◌then◌else◌, ne→==, ltb, lt→ltb, ltb→lt, ltb→le, le→ltb, Bool-cases, inl,
  inr, none, some,
}
use chaintopeslashrust_tapyr.Common.Int.{ℤ, pos, negsuc, abs, below_zero, with_sign, ◌-ℤ◌}
use chaintopeslashrust_tapyr.Common.Text.{Text}
use chaintopeslashrust_tapyr.Outcome.{ok, err, bind}
use chaintopeslashrust_tapyr.Amount.{
  Denomination, bitcoin, milli_bitcoin, micro_bitcoin, bit, satoshi, milli_satoshi,
  denomination_name, too_big, parse_denomination, fmt_satoshi_in,
}
use chaintopeslashrust_tapyr.Amount.RoundTrip.{
  IsNumeral, fmt_satoshi-IsNumeral, parse_signed-fmt_satoshi,
}
use chaintopeslashrust_tapyr.Amount.Unsigned
use chaintopeslashrust_tapyr.Amount.Unsigned.{Amount, i64_max, split_space, two_parts, to_signed}
use chaintopeslashrust_tapyr.Amount.Signed
use chaintopeslashrust_tapyr.Amount.Signed.{
  is_i64, SignedAmount, abs_i64, exceeds, positive_sub, to_unsigned,
}

split_space-numeral : (s t : Text) → IsNumeral s → split_space (s ++ (b' ' ∷ t)) ≡ some (s, t)
unfolding split_space
split_space-numeral [] t h = refl
split_space-numeral (c ∷ s) t h =
    rw (ne→== c b' ' (λ e. absurd (omega (arith, h.0))), split_space-numeral s t h.1) refl

name_unspaced : (denom : Denomination) → split_space (denomination_name denom) ≡ none
unfolding split_space denomination_name
name_unspaced bitcoin = refl
name_unspaced milli_bitcoin = refl
name_unspaced micro_bitcoin = refl
name_unspaced bit = refl
name_unspaced satoshi = refl
name_unspaced milli_satoshi = refl

two_parts-numeral :
    (s : Text) (denom : Denomination)
    → IsNumeral s
    → two_parts (s ++ (b' ' ∷ denomination_name denom)) ≡ ok (s, denomination_name denom)
unfolding two_parts
two_parts-numeral s denom h =
    rw (split_space-numeral s (denomination_name denom) h, name_unspaced denom) refl

name_parses : (denom : Denomination) → parse_denomination (denomination_name denom) ≡ ok denom
unfolding parse_denomination denomination_name
name_parses bitcoin = refl
name_parses milli_bitcoin = refl
name_parses micro_bitcoin = refl
name_parses bit = refl
name_parses satoshi = refl
name_parses milli_satoshi = refl

-- An amount of less than 2 ^ 64 satoshi that is printed with a denomination, in any denomination, is read back
-- as itself if it is within the positive range of an `i64`, and refused as too big otherwise.
pub amount_reads :
    (n : ℕ) (denom : Denomination)
    → n < 2 ^ 64
    → Unsigned.from_str_with_denomination (Unsigned.to_string_with_denomination n denom)
      ≡ (if ltb i64_max n then err too_big else ok n)
unfolding Unsigned.from_str_with_denomination Unsigned.to_string_with_denomination
    Unsigned.from_str_in Unsigned.to_string_in
amount_reads n denom h =
    rw
      (
        two_parts-numeral (fmt_satoshi_in n false denom) denom
            (fmt_satoshi-IsNumeral n false denom h),
        name_parses denom,
        parse_signed-fmt_satoshi n false denom h,
      )
      refl

signed_abs : (z : ℤ) → with_sign (below_zero z) (abs z) ≡ z
signed_abs (pos n) = refl
signed_abs (negsuc n) = refl

-- A signed amount but the least one that is printed with a denomination, in any denomination, is read back as itself.
pub signed_amount_reads :
    (z : SignedAmount) (denom : Denomination)
    → abs z < 2 ^ 63
    → bind (Signed.to_string_with_denomination z denom) Signed.from_str_with_denomination ≡ ok z
unfolding Signed.from_str_with_denomination Signed.to_string_with_denomination Signed.from_str_in
    Signed.to_string_in abs_i64
signed_amount_reads z denom h =
    let n : ℕ = abs z in
    let neg : Bool = below_zero z in
    let wide : n < 2 ^ 64 = omega arith in
    rw
      (
        lt→ltb n (2 ^ 63) h,
        two_parts-numeral (fmt_satoshi_in n neg denom) denom
            (fmt_satoshi-IsNumeral n neg denom wide),
        name_parses denom,
        parse_signed-fmt_satoshi n neg denom wide,
        le→ltb i64_max n (omega arith),
      )
      (ap ok (signed_abs z))

-- For an amount and a signed amount, each in its range, the one converts to the other in one direction exactly
-- when it does in the other direction.
pub conversions_agree :
    (n : Amount) (z : SignedAmount)
    → n < 2 ^ 64
    → is_i64 z ≡ true
    → (to_signed n ≡ ok z) ↔ (to_unsigned z ≡ ok n)
unfolding to_signed to_unsigned
conversions_agree n (pos m) h i = elim (Bool-cases (ltb i64_max n)) [
  | inl big ↦ rw big (
    λ e. cc,
    λ e. absurd (let same : m ≡ n = cc in omega (arith, ltb→lt i64_max n big, ltb→lt m (2 ^ 63) i)),
  )
  | inr small ↦ rw small (λ e. cc, λ e. cc)
]
conversions_agree n (negsuc m) h i = elim (Bool-cases (ltb i64_max n)) [
  | inl big ↦ rw big (λ e. cc, λ e. cc)
  | inr small ↦ rw small (λ e. cc, λ e. cc)
]

sub_natural : (a b : ℕ) → b ≤ a → pos a -ℤ pos b ≡ pos (a - b)
sub_natural a zero h = ap pos (omega arith)
sub_natural a (suc b) h = rw (le→ltb a (suc b) h) refl

positive_natural :
    (a b : ℕ)
    → a < 2 ^ 63
    → positive_sub (pos a) (pos b) ≡ (if ltb a b then none else some (pos (a - b)))
unfolding positive_sub exceeds Signed.checked_sub
positive_natural a b h = elim (Bool-cases (ltb a b)) [
  | inl less ↦ rw less refl
  | inr enough ↦
      rw (enough, sub_natural a b (ltb→le a b enough), lt→ltb (a - b) (2 ^ 63) (omega arith)) refl
]

unwrapped : {y z : ℤ} → some y ≡ some z → y ≡ z
unwrapped e = cc

-- The difference of two signed amounts by `positive_sub` is `c` exactly when the second amount and `c` are at least
-- zero and add up to the first amount, which is within the range of an `i64`.
pub positive_sub_iff :
    (a b c : SignedAmount)
    → is_i64 a ≡ true
    → (positive_sub a b ≡ some c)
      ↔ ((m : ℕ) × (n : ℕ) × (b ≡ pos m) × (c ≡ pos n) × (a ≡ pos (m + n)))
unfolding positive_sub exceeds Signed.checked_sub
positive_sub_iff a b c h = (forth a b c h, back a b c h)
  where
    forth :
        (a b c : SignedAmount)
        → is_i64 a ≡ true
        → positive_sub a b ≡ some c
        → (m : ℕ) × (n : ℕ) × (b ≡ pos m) × (c ≡ pos n) × (a ≡ pos (m + n))
    forth (pos a) (pos b) c h e =
        let computed = sym (positive_natural a b (ltb→lt a (2 ^ 63) h)) ∙ e in
        elim (Bool-cases (ltb a b)) [
          | inl less ↦ absurd (
              none-ne-some c
                (ap (λ t. if t then none else some (pos (a - b))) (sym less) ∙ computed))
          | inr enough ↦
              let value : pos (a - b) ≡ c =
                unwrapped
                  (ap (λ t. if t then none else some (pos (a - b))) (sym enough) ∙ computed) in
              (b, a - b, refl, sym value, ap pos (omega (arith, ltb→le a b enough)))
        ]
    forth (pos a) (negsuc b) c h e = cc
    forth (negsuc a) (pos b) c h e = cc
    forth (negsuc a) (negsuc b) c h e = cc

    back :
        (a b c : SignedAmount)
        → is_i64 a ≡ true
        → (m : ℕ) × (n : ℕ) × (b ≡ pos m) × (c ≡ pos n) × (a ≡ pos (m + n))
        → positive_sub a b ≡ some c
    back a b c h (m, n, eb, ec, ea) =
        let small : m + n < 2 ^ 63 = ltb→lt (m + n) (2 ^ 63) (subst (λ z. is_i64 z ≡ true) ea h) in
        rw (ea, eb, ec, positive_natural (m + n) m small, le→ltb (m + n) m (omega arith))
          (ap (λ k. some (pos k)) (omega arith))
