-- ===== src/Merkle/Root.antt =====
-- util/hash.rs: the merkle root in place and from an iterator.
use chaintopeslashrust_tapyr.Common.{
  ℕ, zero, suc, ◌+◌, ◌/◌, ◌%◌, ◌≡◌, ◌≤◌, refl, sym, ap, ◌∙◌, arith, List, [], ◌∷◌, length, take,
  some,
}
use chaintopeslashrust_tapyr.Outcome.{Bytes}
use chaintopeslashrust_tapyr.Hashes.{HashFunction}
use chaintopeslashrust_tapyr.Merkle.{
  combine_in_place, half_len, root_inline, bitcoin_merkle_root_inline, combine_pairs,
  bitcoin_merkle_root,
}
use chaintopeslashrust_tapyr.Merkle.Inline.{in_place}

module _ (hash : HashFunction 32) (zero_hash : Bytes) where
  one_level :
      (xs : List Bytes)
      → take
          (half_len hash zero_hash (length xs))
          (combine_in_place hash zero_hash ((length xs + 1) / 2) 0 xs)
        ≡ combine_pairs hash zero_hash xs
  unfolding half_len
  one_level xs =
      let half : length xs / 2 + length xs % 2 ≡ 0 + (length xs + 1) / 2 = omega arith in
      ap (λ k. take k (combine_in_place hash zero_hash ((length xs + 1) / 2) 0 xs)) half
      ∙ in_place hash zero_hash ((length xs + 1) / 2) [] [] xs refl refl

  pub length-combine_pairs :
      (xs : List Bytes) → length (combine_pairs hash zero_hash xs) ≡ (length xs + 1) / 2
  unfolding combine_pairs
  length-combine_pairs [] = refl
  length-combine_pairs (x ∷ []) = refl
  length-combine_pairs (x ∷ (y ∷ xs)) = omega (arith, length-combine_pairs xs)

  root_none : (fuel : ℕ) → root_inline hash zero_hash fuel [] ≡ some zero_hash
  unfolding root_inline
  root_none zero = refl
  root_none (suc fuel) = refl

  pub root_one : (fuel : ℕ) (x : Bytes) → root_inline hash zero_hash fuel (x ∷ []) ≡ some x
  unfolding root_inline
  root_one zero x = refl
  root_one (suc fuel) x = refl

  pub root_step :
      (fuel : ℕ) (x y : Bytes) (xs : List Bytes)
      → root_inline hash zero_hash (suc fuel) (x ∷ y ∷ xs)
        ≡ root_inline hash zero_hash fuel (combine_pairs hash zero_hash (x ∷ y ∷ xs))
  unfolding root_inline
  root_step fuel x y xs = ap (root_inline hash zero_hash fuel) (one_level (x ∷ y ∷ xs))

  -- Any fuel that is not below the number of hashes gives one root.
  abbrev HasRoot : List Bytes → Type 0
  HasRoot xs =
      (r : Bytes) × ((fuel : ℕ) → length xs ≤ fuel → root_inline hash zero_hash fuel xs ≡ some r)

  two_or_more :
      (x y : Bytes) (xs : List Bytes)
      → HasRoot (combine_pairs hash zero_hash (x ∷ y ∷ xs))
      → HasRoot (x ∷ y ∷ xs)
  two_or_more x y xs (r, unique) = (r, all)
    where
      all :
          (fuel : ℕ)
          → length (x ∷ y ∷ xs) ≤ fuel
          → root_inline hash zero_hash fuel (x ∷ y ∷ xs) ≡ some r
      all zero h = absurd (omega arith)
      all (suc fuel) h =
          root_step fuel x y xs ∙ unique fuel (omega (arith, length-combine_pairs (x ∷ y ∷ xs)))

  has_root : (n : ℕ) (xs : List Bytes) → length xs ≤ n → HasRoot xs
  has_root n [] h = (zero_hash, λ fuel k. root_none fuel)
  has_root n (x ∷ []) h = (x, λ fuel k. root_one fuel x)
  has_root zero (x ∷ (y ∷ xs)) h = absurd (omega arith)
  has_root (suc n) (x ∷ (y ∷ xs)) h = two_or_more x y xs (
      has_root n (combine_pairs hash zero_hash (x ∷ y ∷ xs))
        (omega (arith, length-combine_pairs (x ∷ y ∷ xs))))

  pub same_root :
      (xs : List Bytes)
      → bitcoin_merkle_root hash zero_hash xs ≡ bitcoin_merkle_root_inline hash zero_hash xs
  unfolding bitcoin_merkle_root bitcoin_merkle_root_inline
  same_root [] = sym (root_none 0)
  same_root (x ∷ []) = sym (root_one 1 x)
  same_root (x ∷ (y ∷ xs)) =
      let pairs = combine_pairs hash zero_hash (x ∷ y ∷ xs) in
      let (r, unique) = has_root (length pairs) pairs (omega arith) in
      unique (length pairs) (omega arith)
      ∙ sym (unique (suc (length xs)) (omega (arith, length-combine_pairs (x ∷ y ∷ xs))))
      ∙ sym (root_step (suc (length xs)) x y xs)

  -- The merkle root of every list of hashes is found, within as many recursive calls as there are
  -- hashes, and the computation that overwrites the list gives the root that the one from an iterator
  -- gives.
  pub merkle_roots_agree :
      (xs : List Bytes)
      → (r : Bytes) × (bitcoin_merkle_root_inline hash zero_hash xs ≡ some r)
        × (bitcoin_merkle_root hash zero_hash xs ≡ some r)
  unfolding bitcoin_merkle_root_inline
  merkle_roots_agree xs =
      let (r, unique) = has_root (length xs) xs (omega arith) in
      let found = unique (length xs) (omega arith) in (r, found, same_root xs ∙ found)
