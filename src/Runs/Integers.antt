-- ===== src/Runs/Integers.antt =====
-- Concrete runs of util/uint.rs.
use chaintopeslashrust_tapyr.Common.{
  ℕ, ◌+◌, ◌-◌, ◌*◌, ◌%◌, ◌^◌, ◌≡◌, refl, arith, List, [], ◌∷◌, some,
}
use chaintopeslashrust_tapyr.Common.{◌↔◌, ◌++◌, true, length}
use chaintopeslashrust_tapyr.Outcome.{Bytes, ok}
use chaintopeslashrust_tapyr.Endian.Laws.{value}
use chaintopeslashrust_tapyr.Consensus.Deserialize.{deserialize}
use chaintopeslashrust_tapyr.Uint.Encoding.{IsWide, deserialize-wide_int_iff}
use chaintopeslashrust_tapyr.Runs.Values.{all_bytes, all_bytes_sound, zeros}
use chaintopeslashrust_tapyr.Uint.{wide_int, shl, shr, shifted_words, lowered_words, mul}
use chaintopeslashrust_tapyr.Uint.Multiplication.{mul_number}
use chaintopeslashrust_tapyr.Uint.{
  word, add, add_rounds, sums, carries, any_carry, sub, complement, words_one, words_zero, mul_u32,
  low_products, product_carries,
}
use chaintopeslashrust_tapyr.Uint.Sums.{number_of}
use chaintopeslashrust_tapyr.Uint.Addition.{Yields, add_number}
use chaintopeslashrust_tapyr.Uint.Products.{sub_number}

abbrev full : ℕ
full = 2 ^ 64 - 1

abbrev small : List ℕ
small = full ∷ 5 ∷ []

abbrev unit : List ℕ
unit = 1 ∷ 0 ∷ []

-- A carry that runs through two words.
carried_twice : add (full ∷ full ∷ 7 ∷ 0 ∷ []) (1 ∷ 0 ∷ 0 ∷ 0 ∷ []) ≡ some (0 ∷ 0 ∷ 8 ∷ 0 ∷ [])
unfolding add add_rounds sums carries any_carry
carried_twice = refl

wrapped_below_zero : sub (0 ∷ 0 ∷ []) unit ≡ some (full ∷ full ∷ [])
unfolding sub complement words_one words_zero add add_rounds sums carries any_carry
wrapped_below_zero = refl

doubled : mul_u32 small 2 ≡ some ((full - 1) ∷ 11 ∷ [])
unfolding mul_u32 low_products product_carries add add_rounds sums carries any_carry
doubled = refl

-- The first word is `1`, the second `256`.
abbrev two_words : Bytes
two_words = 1 ∷ (zeros 8 ++ (1 ∷ zeros 6))

abbrev read_words : List ℕ
read_words = 1 ∷ 256 ∷ []

two_words-all : all_bytes two_words ≡ true
unfolding zeros
two_words-all = refl

deserialize-wide_int_iff_example :
    (deserialize (wide_int 2) two_words ≡ ok read_words)
    ↔ (IsWide 2 read_words × (length two_words ≡ 8 * 2) × (value two_words ≡ number_of read_words))
deserialize-wide_int_iff_example =
    deserialize-wide_int_iff 2 two_words read_words (all_bytes_sound two_words two_words-all)

two_words_read : deserialize (wide_int 2) two_words ≡ ok read_words
unfolding zeros value number_of
two_words_read =
    let (there, back) =
      deserialize-wide_int_iff 2 two_words read_words (all_bytes_sound two_words two_words-all) in
    back ((refl, (omega arith, (omega arith, tt))), refl, refl)

add_number_example : Yields (add small unit) 2 ((number_of small + number_of unit) % word ^ 2)
add_number_example =
    add_number small unit (omega arith, (omega arith, tt)) (omega arith, (omega arith, tt)) refl

sub_number_example :
    Yields (sub unit small) 2 ((number_of unit + word ^ 2 - number_of small) % word ^ 2)
sub_number_example =
    sub_number unit small (omega arith, (omega arith, tt)) (omega arith, (omega arith, tt))
      (omega arith) refl

-- Across the words, and the whole of the last word out of range.
shifted_up : shl (full ∷ 5 ∷ 1 ∷ 9 ∷ []) 68 ≡ 0 ∷ (full - 15) ∷ 95 ∷ 16 ∷ []
unfolding shl words_zero shifted_words
shifted_up = refl

shifted_down : shr (full ∷ 5 ∷ 1 ∷ 9 ∷ []) 65 ≡ (2 ^ 63 + 2) ∷ 2 ^ 63 ∷ 4 ∷ 0 ∷ []
unfolding shr words_zero lowered_words
shifted_down = refl

mul_number_example :
    Yields (mul small (7 ∷ 9 ∷ [])) 2 (number_of small * number_of (7 ∷ 9 ∷ []) % word ^ 2)
mul_number_example =
    mul_number small (7 ∷ 9 ∷ []) (omega arith, (omega arith, tt)) (omega arith, (omega arith, tt))
      (omega arith) refl
