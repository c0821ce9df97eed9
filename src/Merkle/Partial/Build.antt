-- ===== src/Merkle/Partial/Build.antt =====
-- util/merkleblock.rs: when a partial tree is built, and which tree it is.
use chaintopeslashrust_tapyr.Common.{
  ℕ, ◌%◌, ◌^◌, ◌≡◌, ◌≢◌, ◌≤◌, ◌<◌, refl, sym, ◌∙◌, arith, subst, Bool, Bool-cases, inl, inr, List,
  [], length, ◌==◌, eq→==, ne→==, ==→eq, ==→ne, some,
}
use chaintopeslashrust_tapyr.Outcome.{Bytes, Result, ok, err, panic}
use chaintopeslashrust_tapyr.Hashes.{HashFunction}
use chaintopeslashrust_tapyr.Merkle.Partial.{
  MerkleBlockError, PartialMerkleTree, find_height, from_txids,
}
use chaintopeslashrust_tapyr.Merkle.Partial.Nodes.{node_bits, node_hashes, build_appends}
use chaintopeslashrust_tapyr.Merkle.Partial.Widths.{find-IsHeight}

module _ (hash : HashFunction 32) where
  -- The tree that is built, with its height.
  pub built :
      (txids : List Bytes) (matched : List Bool) (height : ℕ)
      → 1 ≤ length txids
      → length txids ≡ length matched
      → length txids < 2 ^ 31
      → find_height 32 (length txids) 0 ≡ some height
      → from_txids hash txids matched
        ≡ ok (record {
          num_transactions = length txids;
          bits = node_bits hash (length txids) txids matched height 0;
          hashes = node_hashes hash (length txids) txids matched height 0;
        })
  unfolding from_txids
  built txids matched height full same small e =
      let num : length txids % 2 ^ 32 ≡ length txids = omega arith in
      rw
        (
          ne→== (length txids) 0 (λ k. absurd (omega arith)),
          eq→== (length txids) (length matched) same,
          num,
          e,
          num,
          build_appends hash (length txids) txids matched height 0 ([], []),
        )
        refl

  pub from_txids_cases :
      (txids : List Bytes) (matched : List Bool)
      → length txids < 2 ^ 31
      → ((1 ≤ length txids)
          → (length txids ≡ length matched)
          → (t : PartialMerkleTree) × (from_txids hash txids matched ≡ ok t))
        × (length txids ≡ 0 → from_txids hash txids matched ≡ panic)
        × (length txids ≢ length matched → from_txids hash txids matched ≡ panic)
  unfolding from_txids
  from_txids_cases txids matched small = (
    λ full same.
        let (height, e, h) = find-IsHeight (length txids) small in
        (
          record {
            num_transactions = length txids;
            bits = node_bits hash (length txids) txids matched height 0;
            hashes = node_hashes hash (length txids) txids matched height 0;
          },
          built txids matched height full same small e,
        ),
    λ empty. rw (eq→== (length txids) 0 empty) refl,
    λ differ. elim (Bool-cases (length txids == 0)) [
      | inl empty ↦ rw empty refl
      | inr full ↦ rw (full, ne→== (length txids) (length matched) differ) refl
    ],
  )

  pub same_tree :
      {t u : PartialMerkleTree}
      → ◌≡◌ {A = Result MerkleBlockError PartialMerkleTree} (ok t) (ok u)
      → t ≡ u
  same_tree e = cc

  abbrev Returns : Result MerkleBlockError PartialMerkleTree → Type 0
  Returns (ok t) = Unit
  Returns (err e) = ⊥
  Returns panic = ⊥

  pub made_full :
      (txids : List Bytes) (matched : List Bool) (t : PartialMerkleTree)
      → length txids < 2 ^ 31
      → from_txids hash txids matched ≡ ok t
      → (1 ≤ length txids) × (length txids ≡ length matched)
  made_full txids matched t small made =
      let (builds, none_left, unmatched) = from_txids_cases txids matched small in
      (
        elim (Bool-cases (length txids == 0)) [
          | inl empty ↦
              absurd (subst Returns (sym made ∙ none_left (==→eq (length txids) 0 empty)) tt)
          | inr some_left ↦ omega (arith, ==→ne (length txids) 0 some_left)
        ],
        elim (Bool-cases (length txids == length matched)) [
          | inl same ↦ ==→eq (length txids) (length matched) same
          | inr differ ↦ absurd (
              subst Returns (sym made ∙ unmatched (==→ne (length txids) (length matched) differ))
                tt)
        ],
      )
