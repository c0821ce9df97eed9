-- ===== src/Amount.antt =====
-- util/amount.rs: denominations, and amounts as text. A text is its code points.
pub mod Slices
pub mod Scan
pub mod Printed
pub mod RoundTrip
pub mod Unsigned
pub mod Signed
pub mod Laws
pub mod Bounds
pub mod Checked
use chaintopeslashrust_tapyr.Common.{
  ℕ, zero, suc, ◌+◌, ◌-◌, ◌*◌, ◌^◌, Bool, true, false, not, ◌&&◌, ◌||◌, List, [], ◌∷◌, ◌++◌, length,
  take, drop, if◌then◌else◌, ◌==◌, ltb, leb, bytes_eq, Option, none, some,
}
use chaintopeslashrust_tapyr.Common.Int.{ℤ, pos, negsuc, abs}
use chaintopeslashrust_tapyr.Common.Text.{Text, codes, utf8_len, byte_len, is_digit, decimal}
use chaintopeslashrust_tapyr.Outcome.{Result, ok, err, panic, bind}

pub data Denomination : Type 0 where
  bitcoin milli_bitcoin micro_bitcoin bit satoshi milli_satoshi : Denomination

unfoldable pub precision : Denomination → ℤ
precision bitcoin = negsuc 7
precision milli_bitcoin = negsuc 4
precision micro_bitcoin = negsuc 1
precision bit = negsuc 1
precision satoshi = pos 0
precision milli_satoshi = pos 3

-- `Display`.
unfoldable pub denomination_name : Denomination → Text
denomination_name bitcoin = codes "BTC"
denomination_name milli_bitcoin = codes "mBTC"
denomination_name micro_bitcoin = codes "uBTC"
denomination_name bit = codes "bits"
denomination_name satoshi = codes "satoshi"
denomination_name milli_satoshi = codes "msat"

pub data ParseAmountError : Type 0 where
  negative too_big too_precise invalid_format input_too_large : ParseAmountError
  invalid_character : ℕ → ParseAmountError
  unknown_denomination : Text → ParseAmountError

-- `FromStr`.
unfoldable pub parse_denomination : Text → Result ParseAmountError Denomination
parse_denomination s =
    if bytes_eq s (codes "BTC")
    then ok bitcoin
    else if bytes_eq s (codes "mBTC")
    then ok milli_bitcoin
    else if bytes_eq s (codes "uBTC")
    then ok micro_bitcoin
    else if bytes_eq s (codes "bits")
    then ok bit
    else if bytes_eq s (codes "satoshi")
    then ok satoshi
    else if bytes_eq s (codes "sat")
    then ok satoshi
    else if bytes_eq s (codes "msat")
    then ok milli_satoshi
    else err (unknown_denomination s)

unfoldable pub contains : ℕ → Text → Bool
contains c [] = false
contains c (d ∷ s) = c == d || contains c s

unfoldable pub any_but : ℕ → Text → Bool
any_but c [] = false
any_but c (d ∷ s) = not (d == c) || any_but c s

-- `s.chars().rev().take(n)`, in the order of the text.
abbrev pub last_chars : ℕ → Text → Text
last_chars n s = drop (length s - n) s

unfoldable pub is_too_precise : Text → ℕ → Bool
unfolding contains any_but
is_too_precise s n = contains b'.' s || leb (byte_len s) n || any_but b'0' (last_chars n s)

-- `u64::checked_mul` and `u64::checked_add`.
unfoldable pub mul_u64 : ℕ → ℕ → Option ℕ
mul_u64 a b = if ltb (a * b) (2 ^ 64) then some (a * b) else none

unfoldable pub add_u64 : ℕ → ℕ → Option ℕ
add_u64 a b = if ltb (a + b) (2 ^ 64) then some (a + b) else none

-- `10 * value + digit`, with overflows caught.
unfoldable pub push_digit : ℕ → ℕ → Option ℕ
unfolding mul_u64 add_u64
push_digit v digit = elim (mul_u64 10 v) [ none ↦ none | some tens ↦ add_u64 tens digit ]

-- The counter of decimal digits.
unfoldable pub count_decimal : ℕ → Option ℕ → Result ParseAmountError (Option ℕ)
count_decimal max_decimals none = ok none
count_decimal max_decimals (some d) =
    if ltb d max_decimals then ok (some (d + 1)) else err too_precise

-- The `.` case.
unfoldable pub start_decimals : Option ℕ → Result ParseAmountError (Option ℕ)
start_decimals none = ok (some 0)
start_decimals (some d) = err invalid_format

-- One round of the loop over the characters, on the counter and the value.
unfoldable pub scan_char : ℕ → Option ℕ → ℕ → ℕ → Result ParseAmountError (Option ℕ × ℕ)
unfolding push_digit count_decimal start_decimals
scan_char max_decimals decimals v c =
    if is_digit c
    then elim (push_digit v (c - b'0')) [
      | none ↦ err too_big
      | some w ↦ bind (count_decimal max_decimals decimals) (λ d. ok (d, w))
    ]
    else if c == b'.'
    then bind (start_decimals decimals) (λ d. ok (d, v))
    else err (invalid_character c)

unfoldable pub scan : ℕ → Option ℕ → ℕ → Text → Result ParseAmountError (Option ℕ × ℕ)
scan max_decimals decimals v [] = ok (decimals, v)
scan max_decimals decimals v (c ∷ s) =
    bind (scan_char max_decimals decimals v c) (λ p. scan max_decimals p.0 p.1 s)

-- `for _ in 0..scale_factor`
unfoldable pub scale : ℕ → ℕ → Result ParseAmountError ℕ
scale zero v = ok v
scale (suc n) v = elim (mul_u64 10 v) [ none ↦ err too_big | some w ↦ scale n w ]

abbrev pub unwrap_or : Option ℕ → ℕ → ℕ
unwrap_or none d = d
unwrap_or (some n) d = n

-- The loops, and the result with the sign.
unfoldable pub parse_decimals : Bool → ℕ → Text → Result ParseAmountError (Bool × ℕ)
parse_decimals is_negative max_decimals s =
    bind (scan max_decimals none 0 s)
      (λ p. bind (scale (max_decimals - unwrap_or p.0 0) p.1) (λ v. ok (is_negative, v)))

-- `&s[0..end]`; `none` is the panic of an end that is out of range or inside a character.
unfoldable pub slice_to : ℕ → Text → Option Text
slice_to end [] = if end == 0 then some [] else none
slice_to end (c ∷ s) =
    let rest : Option Text = slice_to (end - utf8_len c) s in
    if end == 0
    then some []
    else if ltb end (utf8_len c)
    then none
    else elim rest [ none ↦ none | some t ↦ some (c ∷ t) ]

-- `&s[0..s.len() - last_n]`, with a difference that does not go below zero.
unfoldable pub without_last : ℕ → Text → Result ParseAmountError Text
without_last last_n s =
    if ltb (byte_len s) last_n
    then panic
    else elim (slice_to (byte_len s - last_n) s) [ none ↦ panic | some t ↦ ok t ]

-- What `-denom.precision()` decides.
unfoldable pub parse_unsigned : Bool → Text → ℤ → Result ParseAmountError (Bool × ℕ)
parse_unsigned is_negative s (pos zero) = parse_decimals is_negative 0 s
parse_unsigned is_negative s (negsuc n) = parse_decimals is_negative (suc n) s
parse_unsigned is_negative s (pos (suc n)) =
    if is_too_precise s (suc n)
    then err too_precise
    else bind (without_last (suc n) s) (parse_decimals is_negative 0)

-- The sign.
unfoldable pub parse_sign : Denomination → Text → Result ParseAmountError (Bool × ℕ)
parse_sign denom [] = panic
parse_sign denom (c ∷ s) =
    if c == b'-'
    then (if byte_len (c ∷ s) == 1
        then err invalid_format
        else parse_unsigned true s (precision denom))
    else parse_unsigned false (c ∷ s) (precision denom)

unfoldable pub parse_signed_to_satoshi : Text → Denomination → Result ParseAmountError (Bool × ℕ)
parse_signed_to_satoshi s denom =
    if byte_len s == 0
    then err invalid_format
    else if ltb 50 (byte_len s)
    then err input_too_large
    else parse_sign denom s

abbrev pub zeros : ℕ → Text
zeros zero = []
zeros (suc n) = b'0' ∷ zeros n

-- `{:0width$}`
unfoldable pub pad : ℕ → Text → Text
pad width s = zeros (width - length s) ++ s

unfoldable pub fmt_unsigned : ℕ → ℤ → Text
fmt_unsigned n (pos zero) = decimal n
fmt_unsigned n (pos (suc width)) = decimal n ++ pad (suc width) (decimal 0)
fmt_unsigned n (negsuc m) =
    let real = pad (suc m) (decimal n) in
    if length real == suc m
    then codes "0." ++ drop (length real - suc m) real
    else take (length real - suc m) real ++ (b'.' ∷ drop (length real - suc m) real)

unfoldable pub fmt_satoshi_in : ℕ → Bool → Denomination → Text
fmt_satoshi_in n is_negative denom =
    (if is_negative then codes "-" else []) ++ fmt_unsigned n (precision denom)
