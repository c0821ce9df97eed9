-- ===== src/Runs/Amounts.antt =====
-- util/amount.rs at concrete inputs.
use chaintopeslashrust_tapyr.Common.{
  ◌≡◌, ◌↔◌, refl, arith, true, false, [], ◌∷◌, if◌then◌else◌, ltb,
}
use chaintopeslashrust_tapyr.Common.Int.{negsuc}
use chaintopeslashrust_tapyr.Common.Text.{codes, byte_len, decimal}
use chaintopeslashrust_tapyr.Outcome.{ok, err, panic, bind}
use chaintopeslashrust_tapyr.Amount.{
  bitcoin, milli_satoshi, micro_bitcoin, too_big, too_precise, invalid_format, invalid_character,
  parse_signed_to_satoshi, fmt_satoshi_in, parse_sign, parse_unsigned, is_too_precise, without_last,
  slice_to, milli_satoshi, precision, parse_decimals, scan, scan_char, scale, fmt_unsigned, pad,
  denomination_name,
}
use chaintopeslashrust_tapyr.Amount.Unsigned
use chaintopeslashrust_tapyr.Amount.Unsigned.{i64_max, plus, minus, over, assign_all, to_signed}
use chaintopeslashrust_tapyr.Amount.Signed
use chaintopeslashrust_tapyr.Amount.Signed.{positive_sub, to_unsigned}
use chaintopeslashrust_tapyr.Amount.Laws.{amount_reads, signed_amount_reads}
use chaintopeslashrust_tapyr.Amount.Bounds.{Yields, Parsed, parse_signed-Yields}
use chaintopeslashrust_tapyr.Amount.Checked.{Reaches, assign_all_iff}

-- Texts that are read, and texts that are refused.
read_decimals : parse_signed_to_satoshi (codes "-0.5") bitcoin ≡ ok (true, 50000000)
unfolding parse_signed_to_satoshi byte_len parse_sign parse_unsigned precision parse_decimals scan
    scan_char scale
read_decimals = refl

read_point : parse_signed_to_satoshi (codes ".5") micro_bitcoin ≡ ok (false, 50)
unfolding parse_signed_to_satoshi byte_len parse_sign parse_unsigned precision parse_decimals scan
    scan_char scale
read_point = refl

-- Zeros that a less precise amount has no room for are cut off.
read_cut : parse_signed_to_satoshi (codes "7000") milli_satoshi ≡ ok (false, 7)
unfolding parse_signed_to_satoshi byte_len parse_sign parse_unsigned precision parse_decimals scan
    scan_char scale is_too_precise without_last slice_to
read_cut = refl

read_precise : parse_signed_to_satoshi (codes "1.234") micro_bitcoin ≡ err too_precise
unfolding parse_signed_to_satoshi byte_len parse_sign parse_unsigned precision parse_decimals scan
    scan_char scale
read_precise = refl

read_sign : parse_signed_to_satoshi (codes "-") bitcoin ≡ err invalid_format
unfolding parse_signed_to_satoshi byte_len parse_sign parse_unsigned precision parse_decimals scan
    scan_char scale
read_sign = refl

read_letter : parse_signed_to_satoshi (codes "1x") bitcoin ≡ err (invalid_character b'x')
unfolding parse_signed_to_satoshi byte_len parse_sign parse_unsigned precision parse_decimals scan
    scan_char scale
read_letter = refl

print_whole : fmt_satoshi_in 123456789 true bitcoin ≡ codes "-1.23456789"
unfolding fmt_satoshi_in fmt_unsigned precision pad decimal
print_whole = refl

print_zeros : fmt_satoshi_in 12 false milli_satoshi ≡ codes "12000"
unfolding fmt_satoshi_in fmt_unsigned precision pad decimal
print_zeros = refl

print_unit : Unsigned.to_string_with_denomination 1 bitcoin ≡ codes "0.00000001 BTC"
unfolding Unsigned.to_string_with_denomination fmt_satoshi_in fmt_unsigned precision pad decimal
    denomination_name
print_unit = refl

least_signed : Signed.to_string_in (negsuc i64_max) bitcoin ≡ panic
unfolding Signed.to_string_in Signed.abs_i64
least_signed = refl

amount_reads_example :
    Unsigned.from_str_with_denomination (Unsigned.to_string_with_denomination 12345 milli_satoshi)
    ≡ (if ltb i64_max 12345 then err too_big else ok 12345)
amount_reads_example = amount_reads 12345 milli_satoshi (omega arith)

signed_amount_reads_example :
    bind (Signed.to_string_with_denomination (negsuc 41) bitcoin) Signed.from_str_with_denomination
    ≡ ok (negsuc 41)
signed_amount_reads_example = signed_amount_reads (negsuc 41) bitcoin (omega arith)

parse_signed-Yields_example :
    Yields Parsed (parse_signed_to_satoshi (codes "18446744073709551616") bitcoin)
parse_signed-Yields_example = parse_signed-Yields (codes "18446744073709551616") bitcoin

assign_all_iff_example :
    (assign_all (plus 5 ∷ minus 3 ∷ over 2 ∷ []) 8 ≡ ok 5)
    ↔ Reaches (plus 5 ∷ minus 3 ∷ over 2 ∷ []) 8 5
assign_all_iff_example = assign_all_iff (plus 5 ∷ minus 3 ∷ over 2 ∷ []) 8 5
