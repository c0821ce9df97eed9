-- ===== src/Runs/Bases.antt =====
-- Concrete runs of util/base58.rs.
use chaintopeslashrust_tapyr.Common.{ℕ, ◌≡◌, refl, arith, List, [], ◌∷◌, All, map, some}
use chaintopeslashrust_tapyr.Common.Text.{codes}
use chaintopeslashrust_tapyr.Outcome.{Bytes}
use chaintopeslashrust_tapyr.Base58.{encode_slice, add_bytes, push_zeroes, write_reversed}
use chaintopeslashrust_tapyr.Base58.{carry_into, push_carry, add_byte}
use chaintopeslashrust_tapyr.Base58.{add_digits, carry_through, push_each}
use chaintopeslashrust_tapyr.Base58.Small.{
  SmallVec, new, defaults, push, stack_set, stack_range, iter,
}
use chaintopeslashrust_tapyr.Outcome.{ok, err, panic}
use chaintopeslashrust_tapyr.Base58.Decoder.{
  bad_byte, from, digit_of, multiply_in, blank, from_check, check_encode_slice,
}
use chaintopeslashrust_tapyr.Base58.{onto}
use chaintopeslashrust_tapyr.Base58.RoundTrip.{from-encode_slice}
use chaintopeslashrust_tapyr.Base58.Checksum.{from_check-check_encode_slice}
use chaintopeslashrust_tapyr.Runs.Values.{toy}
use chaintopeslashrust_tapyr.Common.Text.{Text}
use chaintopeslashrust_tapyr.Base58.Value.{IsDigit, number}
use chaintopeslashrust_tapyr.Base58.Encoder.{padded, char_of, IsUnpadded, encode_slice-number}

abbrev thousands : Bytes
thousands = 13 ∷ 36 ∷ []

encoded_zeroes : encode_slice (0 ∷ 0 ∷ thousands) ≡ some (codes "11211")
unfolding encode_slice add_bytes push_zeroes write_reversed carry_into push_carry add_byte
    add_digits carry_through push_each new defaults push stack_set stack_range iter
encoded_zeroes = refl

-- The 101st element goes to the heap.
abbrev full_stack : SmallVec
full_stack = record { len = 100; stack = defaults 100; heap = [] }

pushed_behind : push full_stack 7 ≡ some (record { len = 100; stack = defaults 100; heap = 7 ∷ [] })
unfolding push defaults
pushed_behind = refl

encode_slice-number_example :
    (digits : List ℕ) × (encode_slice (padded 2 0 thousands)
      ≡ some (padded 2 b'1' (map char_of digits)))
    × All IsDigit digits
    × IsUnpadded digits
    × (number 58 0 digits ≡ number 256 0 thousands)
encode_slice-number_example =
    encode_slice-number 2 thousands (omega arith, (omega arith, tt))
      (λ e. absurd (omega (arith, e)))

decoded_zeroes : from (codes "111211") ≡ ok (0 ∷ 0 ∷ 0 ∷ thousands)
unfolding from multiply_in digit_of onto blank
decoded_zeroes = refl

refused_byte : from (codes "1l") ≡ err (bad_byte b'l')
unfolding from multiply_in digit_of onto blank
refused_byte = refl

-- The first byte of a character in two bytes that the guard lets pass.
byte_128_panics : from (128 ∷ []) ≡ panic
unfolding from multiply_in digit_of onto blank
byte_128_panics = refl

from-encode_slice_example :
    (text : Text) × (encode_slice (0 ∷ thousands) ≡ some text) × (from text ≡ ok (0 ∷ thousands))
from-encode_slice_example =
    from-encode_slice (0 ∷ thousands) (omega arith, (omega arith, (omega arith, tt)))

from_check-check_encode_slice_example :
    (text : Text) × (check_encode_slice toy (0 ∷ thousands) ≡ some text)
    × (from_check toy text ≡ ok (0 ∷ thousands))
from_check-check_encode_slice_example =
    from_check-check_encode_slice toy (0 ∷ thousands)
      (omega arith, (omega arith, (omega arith, tt)))
