-- ===== src/Block/Proofs.antt =====
-- blockdata/block.rs and util/merkleblock.rs: blocks read back, and merkle blocks, which prove that transactions
-- are in a block.
use chaintopeslashrust_tapyr.Common.{
  ℕ, suc, ◌+◌, ◌*◌, ◌/◌, ◌^◌, ◌<◌, ◌≤◌, ◌≡◌, ◌≢◌, refl, sym, ap, ◌∙◌, arith, List, [], ◌∷◌, ◌++◌,
  append_assoc, append-nil, map, Bool, length, bytes_eq, if◌then◌else◌, some,
}
use chaintopeslashrust_tapyr.Outcome.{Bytes, Result, ok, err, bind}
use chaintopeslashrust_tapyr.Hashes.{HashFunction}
use chaintopeslashrust_tapyr.Keys.{Curve}
use chaintopeslashrust_tapyr.Consensus.Vectors.Elements.{vec-IsLawful, IsVecOf}
use chaintopeslashrust_tapyr.Transaction.{Sizes}
use chaintopeslashrust_tapyr.Transaction.Segwit.{IsTransaction}
use chaintopeslashrust_tapyr.Transaction.Codec.{transaction-IsLawful}
use chaintopeslashrust_tapyr.Transaction.Ids.{txid}
use chaintopeslashrust_tapyr.Merkle.Partial.{
  MerkleBlockError, merkle_root_mismatch, PartialMerkleTree, max_transactions, calc_hash,
  from_txids, extract_matches,
}
use chaintopeslashrust_tapyr.Merkle.Partial.Selection.{selected, positions}
use chaintopeslashrust_tapyr.Merkle.Partial.Build.{from_txids_cases}
use chaintopeslashrust_tapyr.Merkle.Partial.Extract.{extract_matches-from_txids, with_padding}
use chaintopeslashrust_tapyr.Block.{BlockHeader, Block, encode_block, decode_block, block_root}
use chaintopeslashrust_tapyr.Block.Header.{IsHeader, decode_header-encode_header}

module _ (curve : Curve) where
  pub record MerkleBlock : Type 0 where
    pub header_of : BlockHeader curve
    pub txn : PartialMerkleTree

  module _ (sizes : Sizes) (sha256d : HashFunction 32) where
    abbrev pub IsBlock : Block curve → Type 0
    IsBlock b =
        IsHeader curve b.header_of × IsVecOf sizes.transaction (IsTransaction sizes) b.txdata

    -- A block whose header and transactions are valid is read back from its encoding in front of any bytes, which are left.
    pub decode_block-encode_block :
        (b : Block curve) (rest : Bytes)
        → IsBlock b
        → decode_block curve sizes sha256d ((encode_block curve sizes sha256d b).0 ++ rest)
          ≡ ok (b, rest)
    unfolding decode_block encode_block
    decode_block-encode_block b rest v =
        rw
          (
            append_assoc,
            (decode_header-encode_header curve b.header_of _ v.0).0,
            (vec-IsLawful (transaction-IsLawful sizes) sizes.transaction).round_trip b.txdata rest
                v.1,
          )
          refl

    -- `match_txids` is a set of ids, by its test.
    unfoldable pub from_block : Block curve → (Bytes → Bool) → Result MerkleBlockError MerkleBlock
    from_block b match_txids =
        let hashes = map (txid sizes sha256d) b.txdata in
        bind (from_txids sha256d hashes (map match_txids hashes))
          (λ pmt. ok (record { header_of = b.header_of; txn = pmt }))

    unfoldable pub extract_block_matches :
        MerkleBlock → Result MerkleBlockError (List Bytes × List ℕ)
    extract_block_matches mb = bind (extract_matches sha256d mb.txn) (λ p.
        if bytes_eq (p.0) mb.header_of.merkle_root then ok (p.1, p.2) else err merkle_root_mismatch)

    length-map : {A B : Type 0} (f : A → B) (xs : List A) → length (map f xs) ≡ length xs
    length-map f [] = refl
    length-map f (x ∷ xs) = ap suc (length-map f xs)

    -- The merkle block that is made for a set of ids from a block with one transaction at least, and with as many as fit in a block at
    -- most, gives back the ids of the set that are in the block, with their positions, if the header has the merkle root of the transactions,
    -- and the error of a mismatch otherwise; no node of the tree is to have two children with one hash.
    pub extract_block_matches-from_block :
        (zero_hash : Bytes) (b : Block curve) (match_txids : Bytes → Bool)
        → 1 ≤ length b.txdata
        → length b.txdata ≤ max_transactions
        → ((height pos : ℕ)
            → (pos * 2 + 1) * 2 ^ height < length (map (txid sizes sha256d) b.txdata)
            → calc_hash sha256d
                (length (map (txid sizes sha256d) b.txdata))
                (map (txid sizes sha256d) b.txdata)
                height
                (pos * 2 + 1)
              ≢ calc_hash sha256d
                  (length (map (txid sizes sha256d) b.txdata))
                  (map (txid sizes sha256d) b.txdata)
                  height
                  (pos * 2))
        → (mb : MerkleBlock) × (root : Bytes) × (from_block b match_txids ≡ ok mb)
          × (block_root curve sizes sha256d zero_hash b.txdata ≡ some root)
          × (extract_block_matches mb ≡ (
              if bytes_eq root b.header_of.merkle_root
              then ok (
                selected
                    (map (txid sizes sha256d) b.txdata)
                    (map match_txids (map (txid sizes sha256d) b.txdata)),
                positions 0 (map match_txids (map (txid sizes sha256d) b.txdata)),
              )
              else err merkle_root_mismatch))
    unfolding from_block extract_block_matches block_root
    extract_block_matches-from_block zero_hash b match_txids full limit distinct =
        let hashes : List Bytes = map (txid sizes sha256d) b.txdata in
        let matched : List Bool = map match_txids hashes in
        let count : length hashes ≡ length b.txdata = length-map (txid sizes sha256d) b.txdata in
        let (t, made) =
          (from_txids_cases sha256d hashes matched (omega (arith, count))).0 (omega (arith, count))
            (sym (length-map match_txids hashes)) in
        let unpadded : t ≡ with_padding t [] =
          ap (λ bs. record t { bits = bs }) (sym (append-nil t.bits)) in
        let (root, top, found) =
          extract_matches-from_txids sha256d zero_hash hashes matched [] t made
            (omega (arith, count)) distinct (ap (λ bs. (length bs + 7) / 8) (append-nil t.bits)) in
        (
          record { header_of = b.header_of; txn = t },
          root,
          ap (λ r. bind r (λ pmt. ok (record { header_of = b.header_of; txn = pmt }))) made,
          top,
          ap
              (λ r. bind r (λ p.
                if bytes_eq (p.0) b.header_of.merkle_root
                then ok (p.1, p.2)
                else err merkle_root_mismatch))
              (ap (extract_matches sha256d) unpadded ∙ found),
        )
