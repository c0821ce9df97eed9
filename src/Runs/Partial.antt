-- ===== src/Runs/Partial.antt =====
-- Runs of util/merkleblock.rs.
use native.Mathlib.Nat.{pow-suc}
use chaintopeslashrust_tapyr.Common.{
  ℕ, zero, suc, ◌+◌, ◌*◌, ◌^◌, ◌≡◌, ◌≢◌, ◌<◌, refl, ap, arith, Bool, true, false, List, [], ◌∷◌,
  ◌++◌, length, get_or, some,
}
use chaintopeslashrust_tapyr.Outcome.{Bytes, ok}
use chaintopeslashrust_tapyr.Merkle.{bitcoin_merkle_root}
use chaintopeslashrust_tapyr.Merkle.Partial.{
  PartialMerkleTree, calc_hash, calc_tree_width, level_width, from_txids, extract_matches,
  parent_hash, find_height, traverse_and_build, any_match,
}
use chaintopeslashrust_tapyr.Merkle.Partial.Widths.{pow_positive}
use chaintopeslashrust_tapyr.Merkle.Partial.Selection.{selected, positions}
use chaintopeslashrust_tapyr.Common.{◌<◌, ◌-◌, ◌%◌, ◌^◌}
use chaintopeslashrust_tapyr.Merkle.Partial.Unpacking.{no_bits}
use chaintopeslashrust_tapyr.Merkle.Partial.Extract.{with_padding, extract_matches-from_txids}
use chaintopeslashrust_tapyr.Merkle.Partial.Encoding.{
  encode_tree, decode_tree, IsTree, decode_tree-encode_tree,
}
use chaintopeslashrust_tapyr.Runs.Values.{
  sizes, length-zeros, zeros-IsByte, all_bytes_sound, toy, toy_hash, sum_bytes, zeros,
}

abbrev three_txids : List Bytes
three_txids = zeros 32 ∷ (1 ∷ zeros 31) ∷ (2 ∷ zeros 31) ∷ []

abbrev second_matched : List Bool
second_matched = false ∷ true ∷ false ∷ []

-- The first and the third hash stand beside the path to the second transaction.
abbrev three_tree : PartialMerkleTree
three_tree = record {
  num_transactions = 3;
  bits = true ∷ true ∷ false ∷ true ∷ false ∷ [];
  hashes = zeros 32 ∷ (1 ∷ zeros 31) ∷ toy_hash ((2 ∷ zeros 31) ++ (2 ∷ zeros 31)) ∷ [];
}

three_built : from_txids toy three_txids second_matched ≡ ok three_tree
unfolding from_txids find_height calc_tree_width level_width traverse_and_build any_match zeros
    calc_hash toy_hash parent_hash
three_built = refl

distinct_three :
    (height pos : ℕ)
    → (pos * 2 + 1) * 2 ^ height < length three_txids
    → calc_hash toy (length three_txids) three_txids height (pos * 2 + 1)
      ≢ calc_hash toy (length three_txids) three_txids height (pos * 2)
unfolding calc_hash parent_hash toy_hash sum_bytes zeros level_width
distinct_three zero zero h e = absurd (omega (arith, ap (λ bs. get_or bs 0 0) e))
distinct_three zero (suc pos) h e = absurd (omega arith)
distinct_three (suc zero) zero h e = absurd (omega (arith, ap (λ bs. get_or bs 0 0) e))
distinct_three (suc zero) (suc pos) h e = absurd (omega arith)
distinct_three (suc (suc height)) pos h e =
    absurd (omega (arith, pow_positive height, pow-suc 2 height, pow-suc 2 (suc height)))

extract_matches-from_txids_example :
    (root : Bytes) × (bitcoin_merkle_root toy (zeros 32) three_txids ≡ some root)
    × (extract_matches toy (with_padding three_tree (false ∷ false ∷ false ∷ []))
        ≡ ok (root, selected three_txids second_matched, positions 0 second_matched))
extract_matches-from_txids_example =
    extract_matches-from_txids toy (zeros 32) three_txids second_matched
      (false ∷ false ∷ false ∷ []) three_tree three_built (omega arith) distinct_three refl

three_tree-IsTree : IsTree sizes three_tree
unfolding zeros
three_tree-IsTree = record {
  number_fits = omega arith;
  hashes_fit = record {
    counted = omega arith;
    within = omega arith;
    each = (
      (length-zeros 32, zeros-IsByte 32),
      (
        (refl, all_bytes_sound (1 ∷ zeros 31) refl),
        (
          (
            toy.length-hash ((2 ∷ zeros 31) ++ (2 ∷ zeros 31)),
            toy.hash-IsByte ((2 ∷ zeros 31) ++ (2 ∷ zeros 31)),
          ),
          tt,
        ),
      ),
    );
  };
  bits_fit = omega arith;
}

decode_tree-encode_tree_example :
    decode_tree sizes ((encode_tree sizes three_tree).0 ++ (7 ∷ []))
    ≡ ok (with_padding three_tree (no_bits (7 - (length three_tree.bits + 7) % 8)), 7 ∷ [])
decode_tree-encode_tree_example =
    decode_tree-encode_tree sizes three_tree (7 ∷ []) three_tree-IsTree
