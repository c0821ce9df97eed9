-- ===== src/Merkle/Partial/Extract.antt =====
-- util/merkleblock.rs: what a partial tree is built from is extracted from it.
use native.Mathlib.Nat.{pow-suc}
use chaintopeslashrust_tapyr.Common.{
  ℕ, zero, suc, ◌+◌, ◌*◌, ◌/◌, ◌%◌, ◌^◌, ◌≡◌, ◌≢◌, ◌≤◌, ◌<◌, refl, sym, ap, ◌∙◌, arith, subst, Bool,
  List, [], ◌++◌, append-nil, length, length-append, eq→==, ne→==, le→ltb, some,
}
use chaintopeslashrust_tapyr.Outcome.{Bytes, Result, ok, bind}
use chaintopeslashrust_tapyr.Hashes.{HashFunction}
use chaintopeslashrust_tapyr.Merkle.{bitcoin_merkle_root}
use chaintopeslashrust_tapyr.Merkle.Partial.{
  MerkleBlockError, PartialMerkleTree, max_transactions, find_height, calc_hash, from_txids,
  traverse_and_extract, finish, extract_matches,
}
use chaintopeslashrust_tapyr.Merkle.Partial.Nodes.{picked, node_bits, node_hashes}
use chaintopeslashrust_tapyr.Merkle.Partial.Widths.{
  width_lt_iff, pow_positive, pow_le, IsHeight, find-IsHeight,
}
use chaintopeslashrust_tapyr.Merkle.Partial.Reading.{Distinct, node-Reads}
use chaintopeslashrust_tapyr.Merkle.Partial.Counts.{IsBounded, node-IsBounded}
use chaintopeslashrust_tapyr.Merkle.Partial.Levels.{top-merkle_root}
use chaintopeslashrust_tapyr.Merkle.Partial.Selection.{
  selected, positions, all_positions, map-positions,
}
use chaintopeslashrust_tapyr.Merkle.Partial.Build.{built, same_tree, made_full}

-- A tree with bits behind those that it has.
abbrev pub with_padding : PartialMerkleTree → List Bool → PartialMerkleTree
with_padding t padding = record {
  num_transactions = t.num_transactions;
  bits = t.bits ++ padding;
  hashes = t.hashes;
}

module _ (hash : HashFunction 32) where
  checks_pass :
      (t : PartialMerkleTree) (height : ℕ)
      {r : Result MerkleBlockError (Bytes × List Bytes × List ℕ)}
      → 1 ≤ t.num_transactions
      → t.num_transactions ≤ max_transactions
      → length t.hashes ≤ t.num_transactions
      → length t.hashes ≤ length t.bits
      → find_height 32 t.num_transactions 0 ≡ some height
      → bind
          (traverse_and_extract hash t height 0
            (record { bits_used = 0; hash_used = 0; matches = []; indexes = [] }))
          (finish hash t)
        ≡ r
      → extract_matches hash t ≡ r
  unfolding extract_matches
  checks_pass t height full limit few enough e result =
      let count : length t.hashes % 2 ^ 32 ≡ length t.hashes = omega arith in
      rw
        (
          ne→== t.num_transactions 0 (λ k. absurd (omega arith)),
          le→ltb max_transactions t.num_transactions limit,
          count,
          le→ltb t.num_transactions (length t.hashes) few,
          le→ltb (length t.bits) (length t.hashes) enough,
          e,
        )
        result

  height_small : (num height : ℕ) → IsHeight num height → 1 ≤ num → 2 ^ height ≤ 2 * num
  height_small num zero h full = omega arith
  height_small num (suc k) h full = omega (arith, h.least k refl, pow-suc 2 k)

  extract_built :
      (txids : List Bytes) (matched : List Bool) (height : ℕ) (padding : List Bool)
      → 1 ≤ length txids
      → length txids ≡ length matched
      → length txids ≤ max_transactions
      → IsHeight (length txids) height
      → find_height 32 (length txids) 0 ≡ some height
      → ((below : ℕ) → below < height → Distinct hash (length txids) txids matched below)
      → (length (node_bits hash (length txids) txids matched height 0 ++ padding) + 7) / 8
        ≡ (length (node_bits hash (length txids) txids matched height 0) + 7) / 8
      → extract_matches hash (
          with_padding
            (record {
              num_transactions = length txids;
              bits = node_bits hash (length txids) txids matched height 0;
              hashes = node_hashes hash (length txids) txids matched height 0;
            })
            padding)
        ≡ ok (
          calc_hash hash (length txids) txids height 0,
          selected txids matched,
          positions 0 matched,
        )
  unfolding finish
  extract_built txids matched height padding full same limit h e distinct padded =
      let num : ℕ = length txids in
      let bits : List Bool = node_bits hash num txids matched height 0 in
      let hashes : List Bytes = node_hashes hash num txids matched height 0 in
      let bounded : IsBounded num height (0 * 2 ^ height) bits hashes =
        node-IsBounded hash num txids matched height 0 (omega arith) h.low (omega arith) in
      let read =
        node-Reads hash num txids matched height (omega arith) (omega (arith, pow_le height h.low))
          distinct 0 [] padding (bits ++ padding) [] [] hashes [] refl (sym (append-nil hashes)) in
      let positions_found : picked (2 ^ height) (0 * 2 ^ height) num matched ≡ positions 0 matched =
        ap (λ p. picked (2 ^ height) p num matched) (omega arith)
        ∙ ap (λ k. picked (2 ^ height) 0 k matched) same
        ∙ all_positions (2 ^ height) matched (omega (arith, h.wide)) in
      let short : length (bits ++ padding) % 2 ^ 32 ≡ length (bits ++ padding) =
        omega (arith, padded, bounded.few, height_small num height h full) in
      let count : length hashes % 2 ^ 32 ≡ length hashes = omega (arith, bounded.inside) in
      checks_pass
        (with_padding (record { num_transactions = num; bits = bits; hashes = hashes }) padding)
        height full limit (omega (arith, bounded.inside))
        (omega (arith, bounded.fewer, length-append bits padding)) e
        (rw
          (
            read,
            positions_found,
            short,
            count,
            eq→== ((length bits + 7) / 8) ((length (bits ++ padding) + 7) / 8) (sym padded),
            eq→== (length hashes) (length hashes) refl,
            map-positions txids matched (sym same),
          )
          refl)

  -- The tree that `from_txids` builds for at most as many transactions as fit in a block, with its bits padded to the end of
  -- their last byte or not, gives back the matched transactions, their positions and the merkle root of all transactions,
  -- if no node of the tree has two children with one hash.
  pub extract_matches-from_txids :
      (zero_hash : Bytes) (txids : List Bytes) (matched padding : List Bool) (t : PartialMerkleTree)
      → from_txids hash txids matched ≡ ok t
      → length txids ≤ max_transactions
      → ((height pos : ℕ)
          → (pos * 2 + 1) * 2 ^ height < length txids
          → calc_hash hash (length txids) txids height (pos * 2 + 1)
            ≢ calc_hash hash (length txids) txids height (pos * 2))
      → (length (t.bits ++ padding) + 7) / 8 ≡ (length t.bits + 7) / 8
      → (root : Bytes) × (bitcoin_merkle_root hash zero_hash txids ≡ some root)
        × (extract_matches hash (with_padding t padding)
            ≡ ok (root, selected txids matched, positions 0 matched))
  extract_matches-from_txids zero_hash txids matched padding t made limit distinct padded =
      let num : ℕ = length txids in
      let (full, same) = made_full hash txids matched t (omega arith) made in
      let (height, e, h) = find-IsHeight num (omega arith) in
      let which =
        same_tree hash (sym (built hash txids matched height full same (omega arith) e) ∙ made) in
      (
        calc_hash hash num txids height 0,
        top-merkle_root hash zero_hash height txids full (omega arith) h,
        subst
            (λ u.
              (length (u.bits ++ padding) + 7) / 8 ≡ (length u.bits + 7) / 8
              → extract_matches hash (with_padding u padding)
                ≡ ok (
                  calc_hash hash num txids height 0,
                  selected txids matched,
                  positions 0 matched,
                ))
            which
            (extract_built txids matched height padding full same limit h e (λ below low pos inside.
              distinct below pos
                ((width_lt_iff num below (pos * 2 + 1) (pow_positive below)).0 inside)))
            padded,
      )
