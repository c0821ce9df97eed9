-- ===== src/Amount/Printed.antt =====
-- util/amount.rs: the shape of what `fmt_satoshi_in` writes, and how the parser reads it.
use chaintopeslashrust_tapyr.Common.{
  ℕ, zero, suc, ◌+◌, ◌-◌, ◌^◌, ◌<◌, ◌≤◌, ◌≡◌, refl, sym, subst, ap, ◌∙◌, arith, Bool, false, [],
  ◌∷◌, ◌++◌, length, length-append, length-drop, take, drop, take-append, drop-append,
  take-append-drop, All, All-append, All-append_left, All-append_right, ◌==◌, ==→eq, leb, lt→leb,
  Bool-cases, inl, inr,
}
use chaintopeslashrust_tapyr.Common.Int.{pos, negsuc}
use chaintopeslashrust_tapyr.Common.Text.{
  Text, byte_len, length-le-byte_len, IsDigit, spelled, digits, decimal, decimal-IsDecimal,
}
use chaintopeslashrust_tapyr.Outcome.{ok}
use chaintopeslashrust_tapyr.Amount.Slices.{without_last-take}
use chaintopeslashrust_tapyr.Amount.{
  contains, any_but, is_too_precise, parse_unsigned, zeros, pad, fmt_unsigned,
}
use chaintopeslashrust_tapyr.Amount.Scan.{parse_point, parse_whole}

pub length-zeros : (k : ℕ) → length (zeros k) ≡ k
length-zeros zero = refl
length-zeros (suc k) = ap suc (length-zeros k)

pub zeros-IsDigit : (k : ℕ) → All IsDigit (zeros k)
zeros-IsDigit zero = tt
zeros-IsDigit (suc k) = ((omega arith, omega arith), zeros-IsDigit k)

spelled-zeros : (k : ℕ) (s : Text) → spelled 0 (zeros k ++ s) ≡ spelled 0 s
spelled-zeros zero s = refl
spelled-zeros (suc k) s = spelled-zeros k s

zeros_snoc : (k : ℕ) → zeros k ++ (b'0' ∷ []) ≡ zeros (suc k)
zeros_snoc zero = refl
zeros_snoc (suc k) = ap (λ s. b'0' ∷ s) (zeros_snoc k)

-- A number of digits that is padded.
pub record IsPadded (width n : ℕ) (s : Text) : Type 0 where
  pub all_digits : All IsDigit s
  pub value : spelled 0 s ≡ n
  pub wide : width ≤ length s
  pub short : length s ≤ width + 20

pub pad-IsPadded : (width n : ℕ) → n < 2 ^ 64 → IsPadded width n (pad width (decimal n))
unfolding pad
pad-IsPadded width n h =
    let d = decimal-IsDecimal n h in
    let front : Text = zeros (width - length (decimal n)) in
    let count : length (front ++ decimal n) ≡ width - length (decimal n) + length (decimal n) =
      omega (arith, length-append front (decimal n), length-zeros (width - length (decimal n))) in
    record {
      all_digits =
          All-append IsDigit front (decimal n) (zeros-IsDigit (width - length (decimal n)))
            d.all_digits;
      value = spelled-zeros (width - length (decimal n)) (decimal n) ∙ d.value;
      wide = omega (arith, count);
      short = omega (arith, count, d.short);
    }

-- The parts of a number around the point.
pub parts : (k : ℕ) (s : Text) → All IsDigit s → All IsDigit (take k s) × All IsDigit (drop k s)
parts k s h =
    let both : All IsDigit (take k s ++ drop k s) =
      subst (All IsDigit) (sym (take-append-drop k s)) h in
    (
      All-append_left IsDigit (take k s) (drop k s) both,
      All-append_right IsDigit (take k s) (drop k s) both,
    )

pub fraction_parses :
    (neg : Bool) (n m : ℕ)
    → n < 2 ^ 64
    → parse_unsigned neg (fmt_unsigned n (negsuc m)) (negsuc m) ≡ ok (neg, n)
unfolding parse_unsigned fmt_unsigned
fraction_parses neg n m h =
    let real : Text = pad (suc m) (decimal n) in
    let p : IsPadded (suc m) n real = pad-IsPadded (suc m) n h in
    let k : ℕ = length real - suc m in
    let (digits_front, digits_back) = parts k real p.all_digits in
    let back : length (drop k real) ≡ suc m = omega (arith, length-drop k real, p.wide) in
    elim (Bool-cases (length real == suc m)) [
      | inl narrow ↦
          let all_of : k ≡ 0 = omega (arith, ==→eq (length real) (suc m) narrow) in
          let value : spelled 0 (drop k real) ≡ n =
            ap (λ j. spelled 0 (drop j real)) all_of ∙ p.value in
          rw narrow (
            parse_point neg (suc m) (b'0' ∷ []) (drop k real) ((omega arith, omega arith), tt)
              digits_back (omega (arith, value)) back
            ∙ ap (λ v. ok (neg, v)) value)
      | inr wider ↦
          let value : spelled 0 (take k real ++ drop k real) ≡ n =
            ap (spelled 0) (take-append-drop k real) ∙ p.value in
          rw wider (
            parse_point neg (suc m) (take k real) (drop k real) digits_front digits_back
              (omega (arith, value)) back
            ∙ ap (λ v. ok (neg, v)) value)
    ]

no_point : (s : Text) → All IsDigit s → contains b'.' s ≡ false
unfolding contains
no_point [] h = refl
no_point (c ∷ s) h = ground (arith, no_point s)

only_zeros : (k : ℕ) → any_but b'0' (zeros k) ≡ false
unfolding any_but
only_zeros zero = refl
only_zeros (suc k) = only_zeros k

-- `{:0width$}` of zero.
pub zero_padded : (w : ℕ) → pad (suc w) (decimal 0) ≡ zeros (suc w)
unfolding pad decimal digits
zero_padded w =
    let one_less : suc w - 1 ≡ w = omega arith in
    ap (λ k. zeros k ++ (b'0' ∷ [])) one_less ∙ zeros_snoc w

front_of : (s : Text) (k : ℕ) → length (s ++ zeros k) - k ≡ length s
front_of s k = omega (arith, length-append s (zeros k), length-zeros k)

zeros_precise :
    (s : Text) (k : ℕ) → All IsDigit s → 1 ≤ length s → is_too_precise (s ++ zeros k) k ≡ false
unfolding is_too_precise
zeros_precise s k digits_only some_digits =
    let long : leb (byte_len (s ++ zeros k)) k ≡ false = lt→leb (byte_len (s ++ zeros k)) k (
      omega (
        arith,
        some_digits,
        length-append s (zeros k),
        length-zeros k,
        length-le-byte_len (s ++ zeros k),
      )) in
    rw
      (
        no_point (s ++ zeros k) (All-append IsDigit s (zeros k) digits_only (zeros-IsDigit k)),
        long,
        front_of s k,
        drop-append s (zeros k),
        only_zeros k,
      )
      refl

pub zeros_parse :
    (neg : Bool) (n w : ℕ)
    → n < 2 ^ 64
    → parse_unsigned neg (fmt_unsigned n (pos (suc w))) (pos (suc w)) ≡ ok (neg, n)
unfolding parse_unsigned fmt_unsigned
zeros_parse neg n w h =
    let d = decimal-IsDecimal n h in
    let s : Text = decimal n in
    let precise = zeros_precise s (suc w) d.all_digits d.positive in
    rw
      (
        zero_padded w,
        precise,
        without_last-take (suc w) (s ++ zeros (suc w)) precise,
        front_of s (suc w),
        take-append s (zeros (suc w)),
      )
      (parse_whole neg s d.all_digits (omega (arith, d.value)) ∙ ap (λ v. ok (neg, v)) d.value)
