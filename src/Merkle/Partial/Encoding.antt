-- ===== src/Merkle/Partial/Encoding.antt =====
-- util/merkleblock.rs: the encoding of a partial merkle tree.
use chaintopeslashrust_tapyr.Common.{
  ℕ, ◌+◌, ◌-◌, ◌*◌, ◌/◌, ◌%◌, ◌≤◌, ◌≡◌, refl, arith, List, ◌++◌, append_assoc, length,
}
use chaintopeslashrust_tapyr.Outcome.{Bytes, ok}
use chaintopeslashrust_tapyr.Consensus.Reader.{Decoder, ◌>>=◌, pure, Encoded, ◌<+>◌, Consensus}
use chaintopeslashrust_tapyr.Consensus.Integers.{u32, byte_array}
use chaintopeslashrust_tapyr.Consensus.Integers.Laws.{uint-IsLawful, byte_array-IsLawful, IsArray}
use chaintopeslashrust_tapyr.Consensus.Vectors.{byte_vec, vec, max_vec_size}
use chaintopeslashrust_tapyr.Consensus.Vectors.ByteVec.{byte_vec-IsLawful}
use chaintopeslashrust_tapyr.Consensus.Vectors.Elements.{vec-IsLawful, IsVecOf}
use chaintopeslashrust_tapyr.Transaction.{Sizes}
use chaintopeslashrust_tapyr.Transaction.Fields.{IsU32}
use chaintopeslashrust_tapyr.Merkle.Partial.{PartialMerkleTree}
use chaintopeslashrust_tapyr.Merkle.Partial.Extract.{with_padding}
use chaintopeslashrust_tapyr.Merkle.Partial.Packing.{pack_bits, unpack_bits, pack_bits-IsByte}
use chaintopeslashrust_tapyr.Merkle.Partial.Unpacking.{no_bits, unpack-pack_bits}

module _ (sizes : Sizes) where
  abbrev pub hashes_codec : Consensus (List Bytes)
  hashes_codec = vec sizes.hash (byte_array 32)

  unfoldable pub encode_tree : PartialMerkleTree → Encoded
  encode_tree t =
      u32.consensus_encode t.num_transactions
      <+> hashes_codec.consensus_encode t.hashes
      <+> Consensus.consensus_encode byte_vec (pack_bits t.bits)

  unfoldable pub decode_tree : Decoder PartialMerkleTree
  decode_tree = do
    num_transactions ← u32.consensus_decode
    hashes ← hashes_codec.consensus_decode
    bytes ← Consensus.consensus_decode byte_vec
    pure (record { num_transactions = num_transactions; bits = unpack_bits bytes; hashes = hashes })

  pub record IsTree (t : PartialMerkleTree) : Type 0 where
    pub number_fits : IsU32 t.num_transactions
    pub hashes_fit : IsVecOf sizes.hash (IsArray 32) t.hashes
    pub bits_fit : length t.bits ≤ max_vec_size * 8

  -- A partial tree whose parts fit their encodings is read back in front of any bytes, which are left, with as many false
  -- bits behind its bits as fill their last byte.
  pub decode_tree-encode_tree :
      (t : PartialMerkleTree) (rest : Bytes)
      → IsTree t
      → decode_tree ((encode_tree t).0 ++ rest)
        ≡ ok (with_padding t (no_bits (7 - (length t.bits + 7) % 8)), rest)
  unfolding decode_tree encode_tree
  decode_tree-encode_tree t rest v =
      let k : ℕ = (length t.bits + 7) / 8 * 8 - length t.bits in
      let count : k ≡ 7 - (length t.bits + 7) % 8 = omega arith in
      let (size, all_bytes) = pack_bits-IsByte t.bits in
      simp append_assoc (
        rw
          (
            (uint-IsLawful 4).round_trip t.num_transactions _ v.number_fits,
            (vec-IsLawful (byte_array-IsLawful 32) sizes.hash).round_trip t.hashes _ v.hashes_fit,
            byte_vec-IsLawful.round_trip (pack_bits t.bits) rest
                (omega (arith, size, v.bits_fit), all_bytes),
            unpack-pack_bits t.bits,
            count,
          )
          refl)
