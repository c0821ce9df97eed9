-- ===== src/Base58/RoundTrip.antt =====
-- util/base58.rs: the decoder reads back what the encoder writes, with and without the checksum.
use chaintopeslashrust_tapyr.Common.{
  ℕ, zero, suc, ◌+◌, ◌*◌, ◌/◌, ◌^◌, ◌<◌, ◌≡◌, ◌≢◌, refl, sym, ap, ◌∙◌, arith, false, List, [], ◌∷◌,
  ◌++◌, map, length, All, ◌==◌, ne→==, some,
}
use chaintopeslashrust_tapyr.Common.Text.{Text}
use chaintopeslashrust_tapyr.Outcome.{Bytes, IsByte, Result, ok}
use chaintopeslashrust_tapyr.Base58.{onto, encode_slice}
use chaintopeslashrust_tapyr.Base58.Value.{IsDigit, number}
use chaintopeslashrust_tapyr.Base58.Encoder.{
  char_of, padded, IsUnpadded, map-padded, encode_slice-number,
}
use chaintopeslashrust_tapyr.Base58.Decoder.{
  Base58Error, blank, take_digits, digit_of, leading_zeroes, skip_zeroes, from,
}
use chaintopeslashrust_tapyr.Base58.Capacity.{
  capacity, number-lt, digit_of-char_of, take_digits_lem,
}
use chaintopeslashrust_tapyr.Base58.Buffer.{buffer_bytes, blank-IsByte, value-blank, value_nil}

padded_front : (count x : ℕ) (xs : List ℕ) → padded (suc count) x xs ≡ x ∷ padded count x xs
padded_front zero x xs = refl
padded_front (suc count) x xs = padded_front count x (x ∷ xs)

-- Bytes, as zeros and what is behind them.
split_zeroes :
    (bs : Bytes)
    → All IsByte bs
    → (count : ℕ) × (rest : Bytes) × (bs ≡ padded count 0 rest) × All IsByte rest × IsUnpadded rest
split_zeroes [] h = (0, [], refl, tt, tt)
split_zeroes (zero ∷ bs) (hb, hs) =
    let (count, rest, e, bytes, unpadded) = split_zeroes bs hs in
    (suc count, rest, ap (λ l. 0 ∷ l) e ∙ sym (padded_front count 0 rest), bytes, unpadded)
split_zeroes (suc b ∷ bs) (hb, hs) = (0, suc b ∷ bs, refl, (hb, hs), λ e. absurd (omega (arith, e)))

number-padded :
    (base count : ℕ) (ds : List ℕ) → number base 0 (padded count 0 ds) ≡ number base 0 ds
unfolding number
number-padded base zero ds = refl
number-padded base (suc count) ds =
    number-padded base count (0 ∷ ds) ∙ ap (λ n. number base n ds) (omega arith)

padded-IsDigit : (count : ℕ) (ds : List ℕ) → All IsDigit ds → All IsDigit (padded count 0 ds)
padded-IsDigit zero ds h = h
padded-IsDigit (suc count) ds h = padded-IsDigit count (0 ∷ ds) (omega arith, h)

-- Only the digit 0 is written as `1`.
char_ne_one : (d : ℕ) → d < 58 → d ≢ 0 → (char_of d == b'1') ≡ false
char_ne_one d small nonzero = ne→== (char_of d) b'1' (λ e.
    nonzero
      (same (sym (digit_of-char_of d small) ∙ ap digit_of e ∙ digit_of-char_of 0 (omega arith))))
  where
    same : ◌≡◌ {A = Result Base58Error ℕ} (ok d) (ok 0) → d ≡ 0
    same e = cc

leading-padded :
    (count : ℕ) (ds : List ℕ)
    → leading_zeroes (padded count b'1' ds) ≡ padded count 0 (leading_zeroes ds)
unfolding leading_zeroes
leading-padded zero ds = refl
leading-padded (suc count) ds = leading-padded count (b'1' ∷ ds)

leading_none : (ds : List ℕ) → All IsDigit ds → IsUnpadded ds → leading_zeroes (map char_of ds) ≡ []
unfolding leading_zeroes
leading_none [] _ h = refl
leading_none (d ∷ ds) (digit, digits) h = rw (char_ne_one d digit h) refl

padded-append : (count : ℕ) (xs ys : Bytes) → padded count 0 xs ++ ys ≡ padded count 0 (xs ++ ys)
padded-append zero xs ys = refl
padded-append (suc count) xs ys = padded-append count (0 ∷ xs) ys

length-map : (ds : List ℕ) → length (map char_of ds) ≡ length ds
length-map [] = refl
length-map (d ∷ ds) = ap suc (length-map ds)

-- Every byte string is encoded, and the text decodes to it.
pub from-encode_slice :
    (bs : Bytes)
    → All IsByte bs
    → (text : Text) × (encode_slice bs ≡ some text) × (from text ≡ ok bs)
unfolding from
from-encode_slice bs bytes =
    let (count, rest, parts, rest_bytes, unpadded) = split_zeroes bs bytes in
    let (digits, encoded, small, trimmed, same) =
      encode_slice-number count rest rest_bytes unpadded in
    let all : List ℕ = padded count 0 digits in
    let text : Text = padded count b'1' (map char_of digits) in
    let spelled : map char_of all ≡ text = map-padded count digits in
    let room : ℕ = 1 + length text * 11 / 15 in
    let long : length all ≡ length text = sym (length-map all) ∙ ap (λ l. length l) spelled in
    let number_all : number 58 0 all ≡ number 256 0 rest = number-padded 58 count digits ∙ same in
    let all_small : All IsDigit all = padded-IsDigit count digits small in
    let (zeros_bytes, zeros_length) = blank-IsByte room in
    let fits : number 58 0 all < 256 ^ length (blank room) = omega (
      arith,
      number-lt 0 all all_small,
      capacity (length all),
      ap (λ (n : ℕ). 256 ^ (1 + n * 11 / 15)) long,
      ap (λ (n : ℕ). 256 ^ n) zeros_length,
    ) in
    let (out, decoded, held, out_bytes, _) =
      take_digits_lem all 0 (blank room) all_small zeros_bytes (value-blank [] room ∙ value_nil)
        fits in
    let decoded_text : take_digits text (blank room) ≡ ok out =
      ap (λ t. take_digits t (blank room)) (sym spelled) ∙ decoded in
    let tail : skip_zeroes (onto out []) ≡ rest =
      buffer_bytes out rest out_bytes rest_bytes unpadded (held ∙ number_all) in
    let front : leading_zeroes text ≡ padded count 0 [] =
      leading-padded count (map char_of digits)
      ∙ ap (padded count 0) (leading_none digits small trimmed) in
    (
      text,
      ap encode_slice parts ∙ encoded,
      rw decoded_text (
          ap ok (
            ap (λ l. l ++ skip_zeroes (onto out [])) front
            ∙ ap (λ l. padded count 0 [] ++ l) tail
            ∙ padded-append count [] rest
            ∙ sym parts)),
    )
