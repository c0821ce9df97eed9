-- ===== src/Consensus/Vectors/Checked.antt =====
-- The contract of `CheckedData` of consensus/encode.rs, for any double SHA-256.
use chaintopeslashrust_tapyr.Common.{
  ℕ, zero, suc, ◌%◌, ◌^◌, ◌≤◌, ◌≡◌, ◌≢◌, refl, sym, ◌∙◌, subst, arith, [], ◌∷◌, ◌++◌, append_assoc,
  length, length-append, All, All-append, ltb, ltb→le, le→ltb, take, Bool-cases, inl, inr, bytes_eq,
  bytes_eq_refl, bytes_eq_sound, length-take,
}
use chaintopeslashrust_tapyr.Outcome.{Bytes, IsByte, ok, panic}
use chaintopeslashrust_tapyr.Hashes.{HashFunction}
use chaintopeslashrust_tapyr.Consensus.Reader.{◌>>=◌, serialize, read_exact}
use chaintopeslashrust_tapyr.Consensus.Codec.{IsLawful, was_read, no_panic, read_back, joined}
use chaintopeslashrust_tapyr.Consensus.Integers.{u32}
use chaintopeslashrust_tapyr.Consensus.Integers.Laws.{byte_array-IsLawful, uint-IsLawful, IsArray}
use chaintopeslashrust_tapyr.Consensus.Vectors.{
  max_vec_size, with_capacity_lem, sha2_checksum, encode_checked, verify_checksum,
  decode_checked_body, decode_checked, checked_data,
}
use chaintopeslashrust_tapyr.Consensus.Vectors.ByteVec.{IsVec}

All-take : (n : ℕ) (xs : Bytes) → All IsByte xs → All IsByte (take n xs)
All-take zero xs h = tt
All-take (suc n) [] h = tt
All-take (suc n) (x ∷ xs) (hx, hs) = (hx, All-take n xs hs)

module _ (sha256d : HashFunction 32) where
  checksum-IsArray : (v : Bytes) → IsArray 4 (sha2_checksum sha256d v)
  unfolding sha2_checksum
  checksum-IsArray v = (
    length-take 4 (sha256d.hash v) (omega (arith, sha256d.length-hash v)),
    All-take 4 (sha256d.hash v) (sha256d.hash-IsByte v),
  )

  length_fits : (v : Bytes) → IsVec v → length v % 2 ^ 32 ≡ length v
  length_fits v h = omega (arith, h.0)

  body_reads :
      (v rest : Bytes)
      → IsVec v
      → decode_checked_body sha256d (length v) (sha2_checksum sha256d v ++ (v ++ rest))
        ≡ ok (v, rest)
  unfolding decode_checked_body verify_checksum
  body_reads v rest h = rw (
    le→ltb max_vec_size (length v) h.0,
    with_capacity_lem 1 (length v) (read_exact (length v)) (omega (arith, h.0)),
    (byte_array-IsLawful 4).round_trip (sha2_checksum sha256d v) (v ++ rest) (checksum-IsArray v),
    (byte_array-IsLawful (length v)).round_trip v rest (refl, h.1),
    bytes_eq_refl (sha2_checksum sha256d v),
  )

  verify_sound :
      (checksum ret r rest v : Bytes)
      → verify_checksum sha256d checksum ret r ≡ ok (v, rest)
      → (checksum ≡ sha2_checksum sha256d v) × (ret ≡ v) × (r ≡ rest)
  unfolding verify_checksum
  verify_sound checksum ret r rest v e =
      elim (Bool-cases (bytes_eq (sha2_checksum sha256d ret) checksum)) [
        | inr other ↦ absurd (ground arith)
        | inl same ↦
            let sum = bytes_eq_sound (sha2_checksum sha256d ret) checksum same in ground arith
      ]

  body_sound :
      (n : ℕ) (bs rest v : Bytes)
      → All IsByte bs
      → decode_checked_body sha256d n bs ≡ ok (v, rest)
      → (bs ≡ (sha2_checksum sha256d v ++ v) ++ rest) × (length v ≡ n) × IsVec v
  unfolding decode_checked_body
  body_sound n bs rest v h e = elim (Bool-cases (ltb max_vec_size n)) [
    | inl big ↦ absurd (ground arith)
    | inr small ↦
        let room =
          with_capacity_lem 1 n (read_exact n) (omega (arith, ltb→le max_vec_size n small)) in
        let (sum, r, same, _, hr, k) =
          was_read (byte_array-IsLawful 4)
            (λ sum. read_exact n >>= λ ret. verify_checksum sha256d sum ret) bs rest v h
            (rw (small, room) at e) in
        let (ret, r', image, (counted, bytes), hr', l) =
          was_read (byte_array-IsLawful n) (λ ret. verify_checksum sha256d sum ret) r rest v hr k in
        let (ok_sum, ok_ret, ok_rest) = verify_sound sum ret r' rest v l in
        let whole : bs ≡ (sum ++ ret) ++ r' = joined sum ret r' same image in
        let fits : length ret ≤ max_vec_size = omega (arith, ltb→le max_vec_size n small) in
        (cc (whole, ok_sum, ok_ret, ok_rest), cc, subst IsVec ok_ret (fits, bytes))
  ]

  body-ne-panic : (n : ℕ) (bs : Bytes) → All IsByte bs → decode_checked_body sha256d n bs ≢ panic
  unfolding decode_checked_body
  body-ne-panic n bs h = elim (Bool-cases (ltb max_vec_size n)) [
    | inl big ↦ rw big (λ e. cc)
    | inr small ↦
        rw
          (small, with_capacity_lem 1 n (read_exact n) (omega (arith, ltb→le max_vec_size n small)))
          (no_panic (byte_array-IsLawful 4)
            (λ sum. read_exact n >>= λ ret. verify_checksum sha256d sum ret) bs h
            (λ sum r _ hr.
              no_panic (byte_array-IsLawful n) (λ ret. verify_checksum sha256d sum ret) r hr
                (λ ret r' _ _. verify-ne-panic sum ret r')))
  ]
    where
      verify-ne-panic : (sum ret r : Bytes) → verify_checksum sha256d sum ret r ≢ panic
      verify-ne-panic sum ret r e = unfold verify_checksum in ground arith

  -- `CheckedData` with a payload of at most `max_vec_size` bytes.
  pub checked_data-IsLawful : IsLawful (checked_data sha256d) IsVec
  unfolding encode_checked decode_checked
  checked_data-IsLawful = record {
    reports = λ v. omega (
      arith,
      (uint-IsLawful 4).reports (length v % 2 ^ 32),
      (checksum-IsArray v).0,
      length-append {0} (serialize u32 (length v % 2 ^ 32)) (sha2_checksum sha256d v ++ v),
      length-append {0} (sha2_checksum sha256d v) v,
    );
    writes = λ v h.
        All-append IsByte (serialize u32 (length v % 2 ^ 32)) _
          ((uint-IsLawful 4).writes (length v % 2 ^ 32) (omega arith))
          (All-append IsByte (sha2_checksum sha256d v) v (checksum-IsArray v).1 h.1);
    round_trip = λ v rest h.
        rw
          (
            length_fits v h,
            append_assoc,
            read_back (uint-IsLawful 4) (decode_checked_body sha256d) (length v)
                ((sha2_checksum sha256d v ++ v) ++ rest) (omega (arith, h.0)),
            append_assoc,
          )
          (body_reads v rest h);
    canonical = λ bs rest v h e.
        let (n, r, same, _, hr, k) =
          was_read (uint-IsLawful 4) (decode_checked_body sha256d) bs rest v h e in
        let (image, counted, valid) = body_sound n r rest v hr k in
        let front : bs ≡ serialize u32 (length v % 2 ^ 32) ++ r =
          subst (λ m. bs ≡ serialize u32 m ++ r) (sym counted ∙ sym (length_fits v valid)) same in
        (
          joined (serialize u32 (length v % 2 ^ 32)) (sha2_checksum sha256d v ++ v) rest front
              image,
          valid,
        );
    total = λ bs h.
        no_panic (uint-IsLawful 4) (decode_checked_body sha256d) bs h
          (λ n r _ hr. body-ne-panic n r hr);
  }
