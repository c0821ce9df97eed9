-- ===== src/Amount/RoundTrip.antt =====
-- util/amount.rs: printed amounts are read back.
use chaintopeslashrust_tapyr.Common.{
  ℕ, suc, ◌+◌, ◌-◌, ◌^◌, ◌<◌, ◌≤◌, ◌≡◌, refl, sym, subst, ap, ◌∙◌, arith, Bool, true, false, [],
  ◌∷◌, ◌++◌, append-nil, length, length-append, length-take, length-drop, take, drop, All,
  All-append, if◌then◌else◌, ◌==◌, ==→ne, ne→==, le→ltb, Bool-cases, inl, inr,
}
use chaintopeslashrust_tapyr.Common.Int.{pos, negsuc}
use chaintopeslashrust_tapyr.Common.Text.{
  Text, codes, byte_len, byte_len-ascii, length-le-byte_len, IsDigit, decimal, decimal-IsDecimal,
}
use chaintopeslashrust_tapyr.Outcome.{ok}
use chaintopeslashrust_tapyr.Amount.{
  Denomination, bitcoin, milli_bitcoin, micro_bitcoin, bit, satoshi, milli_satoshi, precision,
  parse_unsigned, parse_sign, parse_signed_to_satoshi, zeros, pad, fmt_unsigned, fmt_satoshi_in,
}
use chaintopeslashrust_tapyr.Amount.Scan.{parse_whole}
use chaintopeslashrust_tapyr.Amount.Printed.{
  length-zeros, zeros-IsDigit, zero_padded, parts, IsPadded, pad-IsPadded, fraction_parses,
  zeros_parse,
}

-- Digits, points and signs.
abbrev pub IsNumeral : Text → Type 0
IsNumeral s = All (λ c. (44 < c) × (c < 58)) s

digits-IsNumeral : (s : Text) → All IsDigit s → IsNumeral s
digits-IsNumeral [] h = tt
digits-IsNumeral (c ∷ s) h = ((omega (arith, h.0), omega (arith, h.0)), digits-IsNumeral s h.1)

byte_len-numeral : (s : Text) → IsNumeral s → byte_len s ≡ length s
byte_len-numeral s h = byte_len-ascii s (small s h)
  where
    small : (s : Text) → IsNumeral s → All (λ c. c < 0x80) s
    small [] h = tt
    small (c ∷ s) h = (omega (arith, h.0), small s h.1)

-- A text that begins with a digit.
abbrev Begins : Text → Type 0
Begins s = (c : ℕ) × (rest : Text) × (s ≡ c ∷ rest) × IsDigit c

begins : (s t : Text) → All IsDigit s → 1 ≤ length s → Begins (s ++ t)
begins [] t h l = absurd (omega arith)
begins (c ∷ s) t h l = (c, s ++ t, refl, h.0)

-- What is printed for a number without its sign.
record IsPrinted (s : Text) : Type 0 where
  starts : Begins s
  numeral : IsNumeral s
  short : length s ≤ 49

decimals_shape : (n m : ℕ) → n < 2 ^ 64 → m < 8 → IsPrinted (fmt_unsigned n (negsuc m))
unfolding fmt_unsigned
decimals_shape n m h small =
    let real : Text = pad (suc m) (decimal n) in
    let p : IsPadded (suc m) n real = pad-IsPadded (suc m) n h in
    let k : ℕ = length real - suc m in
    let (front, back) = parts k real p.all_digits in
    let size_front : length (take k real) ≡ k = length-take k real (omega arith) in
    let size_back : length (drop k real) ≡ suc m = omega (arith, length-drop k real, p.wide) in
    elim (Bool-cases (length real == suc m)) [
      | inl narrow ↦ rw narrow (record {
        starts = (b'0', b'.' ∷ drop k real, refl, (omega arith, omega arith));
        numeral = (
          (omega arith, omega arith),
          ((omega arith, omega arith), digits-IsNumeral (drop k real) back),
        );
        short = omega (arith, size_back);
      })
      | inr wider ↦ rw wider (record {
        starts =
            begins (take k real) (b'.' ∷ drop k real) front
              (omega (arith, size_front, p.wide, ==→ne (length real) (suc m) wider));
        numeral =
            All-append (λ c. (44 < c) × (c < 58)) (take k real) (b'.' ∷ drop k real)
              (digits-IsNumeral (take k real) front)
              ((omega arith, omega arith), digits-IsNumeral (drop k real) back);
        short = omega (
          arith,
          length-append (take k real) (b'.' ∷ drop k real),
          size_front,
          size_back,
          p.short,
        );
      })
    ]

trailing_shape : (n w : ℕ) → n < 2 ^ 64 → w < 8 → IsPrinted (fmt_unsigned n (pos (suc w)))
unfolding fmt_unsigned
trailing_shape n w h small =
    let d = decimal-IsDecimal n h in
    rw (zero_padded w) (record {
      starts = begins (decimal n) (zeros (suc w)) d.all_digits d.positive;
      numeral =
          digits-IsNumeral (decimal n ++ zeros (suc w))
            (All-append IsDigit (decimal n) (zeros (suc w)) d.all_digits (zeros-IsDigit (suc w)));
      short =
          omega (arith, length-append (decimal n) (zeros (suc w)), length-zeros (suc w), d.short);
    })

integral_shape : (n : ℕ) → n < 2 ^ 64 → IsPrinted (fmt_unsigned n (pos 0))
unfolding fmt_unsigned
integral_shape n h =
    let d = decimal-IsDecimal n h in
    record {
      starts =
          subst Begins (append-nil (decimal n)) (begins (decimal n) [] d.all_digits d.positive);
      numeral = digits-IsNumeral (decimal n) d.all_digits;
      short = omega (arith, d.short);
    }

printed : (n : ℕ) (denom : Denomination) → n < 2 ^ 64 → IsPrinted (fmt_unsigned n (precision denom))
unfolding precision
printed n bitcoin h = decimals_shape n 7 h (omega arith)
printed n milli_bitcoin h = decimals_shape n 4 h (omega arith)
printed n micro_bitcoin h = decimals_shape n 1 h (omega arith)
printed n bit h = decimals_shape n 1 h (omega arith)
printed n satoshi h = integral_shape n h
printed n milli_satoshi h = trailing_shape n 2 h (omega arith)

whole_parses :
    (neg : Bool) (n : ℕ)
    → n < 2 ^ 64
    → parse_unsigned neg (fmt_unsigned n (pos 0)) (pos 0) ≡ ok (neg, n)
unfolding parse_unsigned fmt_unsigned
whole_parses neg n h =
    let d = decimal-IsDecimal n h in
    parse_whole neg (decimal n) d.all_digits (omega (arith, d.value))
    ∙ ap (λ v. ok (neg, v)) d.value

unsigned_parses :
    (neg : Bool) (n : ℕ) (denom : Denomination)
    → n < 2 ^ 64
    → parse_unsigned neg (fmt_unsigned n (precision denom)) (precision denom) ≡ ok (neg, n)
unfolding precision
unsigned_parses neg n bitcoin h = fraction_parses neg n 7 h
unsigned_parses neg n milli_bitcoin h = fraction_parses neg n 4 h
unsigned_parses neg n micro_bitcoin h = fraction_parses neg n 1 h
unsigned_parses neg n bit h = fraction_parses neg n 1 h
unsigned_parses neg n satoshi h = whole_parses neg n h
unsigned_parses neg n milli_satoshi h = zeros_parse neg n 2 h

minus_parses :
    (s : Text) (denom : Denomination)
    → 1 ≤ length s
    → parse_sign denom (b'-' ∷ s) ≡ parse_unsigned true s (precision denom)
unfolding parse_sign byte_len
minus_parses s denom h =
    rw (ne→== (1 + byte_len s) 1 (λ e. absurd (omega (arith, length-le-byte_len s)))) refl

digit_parses :
    (c : ℕ) (s : Text) (denom : Denomination)
    → IsDigit c
    → parse_sign denom (c ∷ s) ≡ parse_unsigned false (c ∷ s) (precision denom)
unfolding parse_sign
digit_parses c s denom h = rw (ne→== c b'-' (λ e. absurd (omega arith))) refl

sign_parses :
    (neg : Bool) (s : Text) (denom : Denomination)
    → IsPrinted s
    → parse_sign denom ((if neg then codes "-" else []) ++ s)
      ≡ parse_unsigned neg s (precision denom)
sign_parses true s denom p =
    let (c, rest, e, d) = p.starts in
    minus_parses s denom (subst (λ t. 1 ≤ length t) (sym e) (omega arith))
sign_parses false s denom p = let (c, rest, e, d) = p.starts in rw e (digit_parses c rest denom d)

-- The length of the text is within what the parser accepts.
signed_length :
    (neg : Bool) (s : Text)
    → IsPrinted s
    → (1 ≤ byte_len ((if neg then codes "-" else []) ++ s))
      × (byte_len ((if neg then codes "-" else []) ++ s) ≤ 50)
unfolding byte_len
signed_length true s p = (omega arith, omega (arith, byte_len-numeral s p.numeral, p.short))
signed_length false s p =
    let (c, rest, e, d) = p.starts in
    let nonempty : 1 ≤ length s = subst (λ t. 1 ≤ length t) (sym e) (omega arith) in
    (
      omega (arith, nonempty, byte_len-numeral s p.numeral),
      omega (arith, byte_len-numeral s p.numeral, p.short),
    )

-- An amount of less than 2 ^ 64 satoshi that is printed with or without a sign, in any denomination,
-- is read back in that denomination with its sign and its value.
pub parse_signed-fmt_satoshi :
    (n : ℕ) (neg : Bool) (denom : Denomination)
    → n < 2 ^ 64
    → parse_signed_to_satoshi (fmt_satoshi_in n neg denom) denom ≡ ok (neg, n)
unfolding parse_signed_to_satoshi fmt_satoshi_in
parse_signed-fmt_satoshi n neg denom h =
    let s : Text = fmt_unsigned n (precision denom) in
    let p : IsPrinted s = printed n denom h in
    let text : Text = (if neg then codes "-" else []) ++ s in
    let (nonempty, short) = signed_length neg s p in
    rw
      (
        ne→== (byte_len text) 0 (λ e. absurd (omega (arith, nonempty))),
        le→ltb 50 (byte_len text) short,
      )
      (sign_parses neg s denom p ∙ unsigned_parses neg n denom h)

pub fmt_satoshi-IsNumeral :
    (n : ℕ) (neg : Bool) (denom : Denomination)
    → n < 2 ^ 64
    → IsNumeral (fmt_satoshi_in n neg denom)
unfolding fmt_satoshi_in
fmt_satoshi-IsNumeral n true denom h = ((omega arith, omega arith), (printed n denom h).numeral)
fmt_satoshi-IsNumeral n false denom h = (printed n denom h).numeral
