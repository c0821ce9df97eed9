-- ===== src/Base58/Decoder.antt =====
-- util/base58.rs: the decoder, and the checksum. A text is the list of its bytes.
use chaintopeslashrust_tapyr.Common.{
  ℕ, zero, suc, ◌+◌, ◌-◌, ◌*◌, ◌/◌, ◌%◌, List, [], ◌∷◌, ◌++◌, length, take, drop, get_elem?, Option,
  none, some, ltb, ◌==◌, if◌then◌else◌, not,
}
use chaintopeslashrust_tapyr.Common.Text.{Text}
use chaintopeslashrust_tapyr.Outcome.{Bytes, Result, ok, err, panic, bind}
use chaintopeslashrust_tapyr.Endian.{slice_to_le}
use chaintopeslashrust_tapyr.Hashes.{HashFunction}
use chaintopeslashrust_tapyr.Base58.{onto, encode_slice}

pub data Base58Error : Type 0 where
  bad_byte : ℕ → Base58Error
  bad_checksum : ℕ → ℕ → Base58Error
  invalid_length : ℕ → Base58Error
  invalid_version : Bytes → Base58Error
  too_short : ℕ → Base58Error
  other : Text → Base58Error

unfoldable pub base58_digits : List (Option ℕ)
base58_digits =
    none
    ∷ none
    ∷ none
    ∷ none
    ∷ none
    ∷ none
    ∷ none
    ∷ none
    ∷ none
    ∷ none
    ∷ none
    ∷ none
    ∷ none
    ∷ none
    ∷ none
    ∷ none
    ∷ none
    ∷ none
    ∷ none
    ∷ none
    ∷ none
    ∷ none
    ∷ none
    ∷ none
    ∷ none
    ∷ none
    ∷ none
    ∷ none
    ∷ none
    ∷ none
    ∷ none
    ∷ none
    ∷ none
    ∷ none
    ∷ none
    ∷ none
    ∷ none
    ∷ none
    ∷ none
    ∷ none
    ∷ none
    ∷ none
    ∷ none
    ∷ none
    ∷ none
    ∷ none
    ∷ none
    ∷ none
    ∷ none
    ∷ some 0
    ∷ some 1
    ∷ some 2
    ∷ some 3
    ∷ some 4
    ∷ some 5
    ∷ some 6
    ∷ some 7
    ∷ some 8
    ∷ none
    ∷ none
    ∷ none
    ∷ none
    ∷ none
    ∷ none
    ∷ none
    ∷ some 9
    ∷ some 10
    ∷ some 11
    ∷ some 12
    ∷ some 13
    ∷ some 14
    ∷ some 15
    ∷ some 16
    ∷ none
    ∷ some 17
    ∷ some 18
    ∷ some 19
    ∷ some 20
    ∷ some 21
    ∷ none
    ∷ some 22
    ∷ some 23
    ∷ some 24
    ∷ some 25
    ∷ some 26
    ∷ some 27
    ∷ some 28
    ∷ some 29
    ∷ some 30
    ∷ some 31
    ∷ some 32
    ∷ none
    ∷ none
    ∷ none
    ∷ none
    ∷ none
    ∷ none
    ∷ some 33
    ∷ some 34
    ∷ some 35
    ∷ some 36
    ∷ some 37
    ∷ some 38
    ∷ some 39
    ∷ some 40
    ∷ some 41
    ∷ some 42
    ∷ some 43
    ∷ none
    ∷ some 44
    ∷ some 45
    ∷ some 46
    ∷ some 47
    ∷ some 48
    ∷ some 49
    ∷ some 50
    ∷ some 51
    ∷ some 52
    ∷ some 53
    ∷ some 54
    ∷ some 55
    ∷ some 56
    ∷ some 57
    ∷ none
    ∷ none
    ∷ none
    ∷ none
    ∷ none
    ∷ []

-- `vec![0u8; n]`
unfoldable pub blank : ℕ → Bytes
blank zero = []
blank (suc n) = 0 ∷ blank n

-- `for d256 in scratch.iter_mut().rev()`: the bytes stand in the order of this loop, the last first.
unfoldable pub multiply_in : Bytes → ℕ → Bytes × ℕ
multiply_in [] carry = ([], carry)
multiply_in (d256 ∷ bytes) carry =
    let sum : ℕ = carry + d256 * 58 in
    let rest : Bytes × ℕ = multiply_in bytes (sum / 256) in (sum % 256 ∷ rest.0, rest.1)

-- The assertion that nothing is carried out.
abbrev pub without_carry : Bytes × ℕ → Result Base58Error Bytes
without_carry p = if p.1 == 0 then ok (p.0) else panic

-- An entry of the table; `none` is an index out of its range.
abbrev pub digit_or : ℕ → Option (Option ℕ) → Result Base58Error ℕ
digit_or d58 none = panic
digit_or d58 (some none) = err (bad_byte d58)
digit_or d58 (some (some digit)) = ok digit

-- The guard compares by `>`.
unfoldable pub digit_of : ℕ → Result Base58Error ℕ
unfolding base58_digits
digit_of d58 =
    if ltb (length base58_digits) d58
    then err (bad_byte d58)
    else digit_or d58 (get_elem? base58_digits d58)

unfoldable pub take_digits : Text → Bytes → Result Base58Error Bytes
take_digits [] scratch = ok scratch
take_digits (c ∷ cs) scratch =
    bind (digit_of c) (λ digit. bind (without_carry (multiply_in scratch digit)) (take_digits cs))

-- `take_while(|&x| x == BASE58_CHARS[0]).map(|_| 0)`
unfoldable pub leading_zeroes : Text → Bytes
leading_zeroes [] = []
leading_zeroes (c ∷ cs) = if c == b'1' then 0 ∷ leading_zeroes cs else []

-- `skip_while(|&x| x == 0)`
unfoldable pub skip_zeroes : Bytes → Bytes
skip_zeroes [] = []
skip_zeroes (b ∷ bs) = if b == 0 then skip_zeroes bs else b ∷ bs

-- `base58::from`
unfoldable pub from : Text → Result Base58Error Bytes
unfolding take_digits leading_zeroes skip_zeroes
from text =
    bind (take_digits text (blank (1 + length text * 11 / 15)))
      (λ scratch. ok (leading_zeroes text ++ skip_zeroes (onto scratch [])))

module _ (sha256d : HashFunction 32) where
  -- The comparison of the checksums, and `truncate`.
  abbrev pub compare_checksums : Bytes → ℕ → ℕ → Result Base58Error Bytes
  compare_checksums content expected actual =
      if not (expected == actual) then err (bad_checksum expected actual) else ok content

  unfoldable pub from_check : Text → Result Base58Error Bytes
  from_check text = bind (from text) (λ ret.
      let ck_start : ℕ = length ret - 4 in
      if ltb (length ret) 4
      then err (too_short (length ret))
      else bind (slice_to_le 4 (take 4 (sha256d.hash (take ck_start ret)))) (λ expected.
        bind (slice_to_le 4 (take 4 (drop ck_start ret)))
          (λ actual. compare_checksums (take ck_start ret) expected actual)))

  unfoldable pub check_encode_slice : Bytes → Option Text
  check_encode_slice bs = encode_slice (bs ++ take 4 (sha256d.hash bs))
