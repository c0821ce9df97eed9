-- ===== src/Base58/Checksum.antt =====
-- util/base58.rs: texts with a checksum.
use chaintopeslashrust_tapyr.Common.{
  ℕ, ◌+◌, ◌-◌, ◌≡◌, refl, sym, ap, ◌∙◌, subst, arith, Bool, true, [], ◌++◌, append-nil, length,
  length-append, length-take, take, drop, take-append, drop-append, take-append-drop, All,
  All-append, All-append_left, le→ltb, ◌==◌, eq→==, if◌then◌else◌, some,
}
use chaintopeslashrust_tapyr.Common.Text.{Text}
use chaintopeslashrust_tapyr.Outcome.{Bytes, IsByte, Result, ok, panic}
use chaintopeslashrust_tapyr.Hashes.{HashFunction}
use chaintopeslashrust_tapyr.Endian.{slice_to_le}
use chaintopeslashrust_tapyr.Base58.Decoder.{Base58Error, from_check, check_encode_slice}
use chaintopeslashrust_tapyr.Base58.RoundTrip.{from-encode_slice}

if_ok :
    (b : Bool) (v : ℕ)
    → b ≡ true
    → (k : ℕ) × (◌≡◌ {A = Result Base58Error ℕ} (if b then ok v else panic) (ok k))
if_ok b v e = (v, rw e refl)

checksum_read : (bs : Bytes) → length bs ≡ 4 → (k : ℕ) × (slice_to_le {E = Base58Error} 4 bs ≡ ok k)
unfolding slice_to_le
checksum_read bs h = if_ok (length bs == 4) _ (eq→== (length bs) 4 h)

take_self : (bs : Bytes) → take (length bs) bs ≡ bs
take_self bs = ap (take (length bs)) (sym (append-nil bs)) ∙ take-append bs []

module _ (sha256d : HashFunction 32) where
  -- Every byte string is encoded with its checksum, and the text decodes to it: the checksum is found to be right.
  pub from_check-check_encode_slice :
      (bs : Bytes)
      → All IsByte bs
      → (text : Text) × (check_encode_slice sha256d bs ≡ some text)
        × (from_check sha256d text ≡ ok bs)
  unfolding check_encode_slice from_check
  from_check-check_encode_slice bs bytes =
      let digest : Bytes = sha256d.hash bs in
      let sum : Bytes = take 4 digest in
      let sum_length : length sum ≡ 4 =
        length-take 4 digest (omega (arith, sha256d.length-hash bs)) in
      let sum_bytes : All IsByte sum =
        All-append_left IsByte sum (drop 4 digest)
          (subst (All IsByte) (sym (take-append-drop 4 digest)) (sha256d.hash-IsByte bs)) in
      let ret : Bytes = bs ++ sum in
      let (text, encoded, decoded) =
        from-encode_slice ret (All-append IsByte bs sum bytes sum_bytes) in
      let wide : length ret ≡ length bs + 4 = length-append bs sum ∙ omega (arith, sum_length) in
      let start : length ret - 4 ≡ length bs = omega (arith, wide) in
      let kept : take (length ret - 4) ret ≡ bs = ap (λ n. take n ret) start ∙ take-append bs sum in
      let cut : take 4 (drop (length ret - 4) ret) ≡ sum =
        ap (λ n. take 4 (drop n ret)) start
        ∙ ap (take 4) (drop-append bs sum)
        ∙ ap (λ n. take n sum) (sym sum_length)
        ∙ take_self sum in
      let (k, read) = checksum_read sum sum_length in
      let expected : slice_to_le {E = Base58Error} 4
            (take 4 (sha256d.hash (take (length ret - 4) ret)))
          ≡ ok k =
        ap (λ l. slice_to_le {E = Base58Error} 4 (take 4 (sha256d.hash l))) kept ∙ read in
      let actual : slice_to_le {E = Base58Error} 4 (take 4 (drop (length ret - 4) ret)) ≡ ok k =
        ap (slice_to_le {E = Base58Error} 4) cut ∙ read in
      (
        text,
        encoded,
        rw (decoded, le→ltb (length ret) 4 (omega (arith, wide)), expected, actual, eq→== k k refl)
            (ap ok kept),
      )
