-- ===== src/Consensus/Vectors/Refusals.antt =====
-- What the decoders of consensus/encode.rs refuse before and after they read a payload.
use chaintopeslashrust_tapyr.Common.{
  ℕ, ◌*◌, ◌^◌, ◌<◌, ◌≡◌, ◌≢◌, ◌∙◌, arith, ◌++◌, length, ltb, le→ltb, bytes_eq, bytes_eq_sound,
  Bool-cases, inl, inr, if◌then◌else◌, refl,
}
use chaintopeslashrust_tapyr.Outcome.{Bytes, err}
use chaintopeslashrust_tapyr.Hashes.{HashFunction}
use chaintopeslashrust_tapyr.Consensus.Reader.{
  Consensus, serialize, read_exact, oversized_vector_allocation, parse_failed, invalid_checksum,
}
use chaintopeslashrust_tapyr.Consensus.Codec.{read_back}
use chaintopeslashrust_tapyr.Consensus.Integers.{u32}
use chaintopeslashrust_tapyr.Consensus.Integers.Laws.{uint-IsLawful, byte_array-IsLawful, IsArray}
use chaintopeslashrust_tapyr.Consensus.VarInt.{var_int}
use chaintopeslashrust_tapyr.Consensus.VarInt.Laws.{var_int-IsLawful, IsU64}
use chaintopeslashrust_tapyr.Consensus.Vectors.{
  max_vec_size, with_capacity_lem, decode_vec, checked_mul, decode_elements, sha2_checksum,
  decode_checked, decode_checked_body, verify_checksum,
}
use chaintopeslashrust_tapyr.Consensus.Vectors.ByteVec.{IsVec}

elements_oversized :
    {A : Type 0} (c : Consensus A) (size_of n : ℕ) (rest : Bytes)
    → max_vec_size < n * size_of
    → decode_elements c size_of n rest ≡ (
        if ltb (n * size_of) (2 ^ 64)
        then err (oversized_vector_allocation (n * size_of) max_vec_size)
        else err (parse_failed "Invalid length"))
unfolding decode_elements checked_mul
elements_oversized c size_of n rest big = ground arith

-- A vector whose announced count takes more than `max_vec_size` bytes in memory is refused whatever
-- follows the count: as oversized, or as invalid where the size overflows a `usize`.
pub vec_oversized :
    {A : Type 0} (c : Consensus A) (size_of n : ℕ) (rest : Bytes)
    → IsU64 n
    → max_vec_size < n * size_of
    → decode_vec c size_of (serialize var_int n ++ rest) ≡ (
        if ltb (n * size_of) (2 ^ 64)
        then err (oversized_vector_allocation (n * size_of) max_vec_size)
        else err (parse_failed "Invalid length"))
unfolding decode_vec
vec_oversized c size_of n rest h big =
    read_back var_int-IsLawful (decode_elements c size_of) n rest h
    ∙ elements_oversized c size_of n rest big

module _ (sha256d : HashFunction 32) where
  wrong_sum :
      (sum v rest : Bytes)
      → sum ≢ sha2_checksum sha256d v
      → verify_checksum sha256d sum v rest ≡ err (invalid_checksum (sha2_checksum sha256d v) sum)
  unfolding verify_checksum
  wrong_sum sum v rest ne = elim (Bool-cases (bytes_eq (sha2_checksum sha256d v) sum)) [
    | inl same ↦ absurd (ne (cc (bytes_eq_sound (sha2_checksum sha256d v) sum same)))
    | inr other ↦ rw other
  ]

  -- A checked payload within the limit whose four checksum bytes are not the first four of its hash
  -- is refused, and the error names the expected and the actual checksum.
  pub checked_data_rejects :
      (sum v rest : Bytes)
      → IsArray 4 sum
      → IsVec v
      → sum ≢ sha2_checksum sha256d v
      → decode_checked sha256d (serialize u32 (length v) ++ (sum ++ (v ++ rest)))
        ≡ err (invalid_checksum (sha2_checksum sha256d v) sum)
  unfolding decode_checked decode_checked_body
  checked_data_rejects sum v rest hs hv ne =
      read_back (uint-IsLawful 4) (decode_checked_body sha256d) (length v) _ (omega (arith, hv.0))
      ∙ rw
          (
            le→ltb max_vec_size (length v) hv.0,
            with_capacity_lem 1 (length v) (read_exact (length v)) (omega (arith, hv.0)),
          )
          (read_back (byte_array-IsLawful 4) _ sum (v ++ rest) hs
            ∙ read_back (byte_array-IsLawful (length v)) _ v rest (refl, hv.1)
            ∙ wrong_sum sum v rest ne)
