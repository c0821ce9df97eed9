-- ===== src/Runs/Codec.antt =====
-- Runs of consensus/encode.rs and of blockdata/opcodes.rs.
use chaintopeslashrust_tapyr.Common.{◌^◌, ◌<◌, ◌≡◌, ◌↔◌, refl, arith, [], ◌∷◌, ◌++◌}
use chaintopeslashrust_tapyr.Outcome.{Bytes, ok, err}
use chaintopeslashrust_tapyr.Endian.{slice_to_le}
use chaintopeslashrust_tapyr.Consensus.Reader.{
  read_exact, serialize, oversized_vector_allocation, invalid_checksum, non_minimal_var_int,
}
use chaintopeslashrust_tapyr.Consensus.Integers.{read_u8, read_uint, u32}
use chaintopeslashrust_tapyr.Consensus.Integers.Laws.{uint-IsLawful}
use chaintopeslashrust_tapyr.Consensus.VarInt
use chaintopeslashrust_tapyr.Consensus.VarInt.{var_int}
use chaintopeslashrust_tapyr.Consensus.VarInt.Laws.{IsU64}
use chaintopeslashrust_tapyr.Consensus.Vectors.{
  with_capacity, vec, checked_data, decode_vec, decode_checked, sha2_checksum,
}
use chaintopeslashrust_tapyr.Consensus.Vectors.ByteVec.{IsVec}
use chaintopeslashrust_tapyr.Consensus.Vectors.Elements.{IsVecOf}
use chaintopeslashrust_tapyr.Consensus.Vectors.Refusals.{vec_oversized, checked_data_rejects}
use chaintopeslashrust_tapyr.Consensus.Deserialize.{deserialize}
use chaintopeslashrust_tapyr.Consensus.Contract.{var_int_iff, vec_iff, checked_data_iff}
use chaintopeslashrust_tapyr.Runs.Values.{all_bytes_sound, toy, toy_hash, sum_bytes, zeros}

-- A padded form is refused.
var_int_padded : VarInt.decode (0xfd ∷ 7 ∷ 0 ∷ []) ≡ err non_minimal_var_int
unfolding VarInt.decode read_u8 read_exact read_uint slice_to_le
var_int_padded = refl

var_int_iff_example :
    (deserialize var_int (0xfd ∷ 0x2c ∷ 1 ∷ []) ≡ ok 300)
    ↔ ((0xfd ∷ 0x2c ∷ 1 ∷ [] ≡ serialize var_int 300) × IsU64 300)
var_int_iff_example =
    var_int_iff (0xfd ∷ 0x2c ∷ 1 ∷ []) 300 (all_bytes_sound (0xfd ∷ 0x2c ∷ 1 ∷ []) refl)

vec_iff_example : (deserialize (vec 4 u32) (1 ∷ 7 ∷ 0 ∷ 0 ∷ 0 ∷ []) ≡ ok (7 ∷ [])) ↔ (
    (1 ∷ 7 ∷ 0 ∷ 0 ∷ 0 ∷ [] ≡ serialize (vec 4 u32) (7 ∷ []))
    × IsVecOf 4 (λ v. v < 256 ^ 4) (7 ∷ []))
vec_iff_example =
    vec_iff (uint-IsLawful 4) 4 (1 ∷ 7 ∷ 0 ∷ 0 ∷ 0 ∷ []) (7 ∷ [])
      (all_bytes_sound (1 ∷ 7 ∷ 0 ∷ 0 ∷ 0 ∷ []) refl)

vec_oversized_example :
    decode_vec u32 4 (serialize var_int 2_000_000 ++ (1 ∷ []))
    ≡ err (oversized_vector_allocation 8_000_000 4_000_000)
vec_oversized_example = vec_oversized u32 4 2_000_000 (1 ∷ []) (omega arith) (omega arith)

abbrev sealed : Bytes
sealed = 2 ∷ 0 ∷ 0 ∷ 0 ∷ 8 ∷ 2 ∷ 0 ∷ 0 ∷ 5 ∷ 1 ∷ []

checked_data_runs : decode_checked toy sealed ≡ ok (5 ∷ 1 ∷ [], [])
unfolding decode_checked with_capacity read_exact read_uint slice_to_le sha2_checksum toy_hash
    sum_bytes zeros
checked_data_runs = refl

checked_data_iff_example :
    (deserialize (checked_data toy) sealed ≡ ok (5 ∷ 1 ∷ []))
    ↔ ((sealed ≡ serialize (checked_data toy) (5 ∷ 1 ∷ [])) × IsVec (5 ∷ 1 ∷ []))
checked_data_iff_example = checked_data_iff toy sealed (5 ∷ 1 ∷ []) (all_bytes_sound sealed refl)

checked_data_rejects_example :
    decode_checked toy (serialize u32 2 ++ ((1 ∷ 2 ∷ 3 ∷ 4 ∷ []) ++ ((5 ∷ 1 ∷ []) ++ (9 ∷ []))))
    ≡ err (invalid_checksum (8 ∷ 2 ∷ 0 ∷ 0 ∷ []) (1 ∷ 2 ∷ 3 ∷ 4 ∷ []))
unfolding sha2_checksum toy_hash sum_bytes zeros
checked_data_rejects_example =
    checked_data_rejects toy (1 ∷ 2 ∷ 3 ∷ 4 ∷ []) (5 ∷ 1 ∷ []) (9 ∷ [])
      (refl, all_bytes_sound (1 ∷ 2 ∷ 3 ∷ 4 ∷ []) refl)
      (omega arith, all_bytes_sound (5 ∷ 1 ∷ []) refl) (λ e. absurd (cc e))
