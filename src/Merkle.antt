-- ===== src/Merkle.antt =====
-- util/hash.rs: the merkle root of a list of hashes, from an iterator and in place.
pub mod Inline
pub mod Root
pub mod Partial
use chaintopeslashrust_tapyr.Common.{
  ℕ, zero, suc, ◌+◌, ◌-◌, ◌*◌, ◌/◌, ◌%◌, min, List, [], ◌∷◌, ◌++◌, length, take, get_or,
  if◌then◌else◌, ltb, ◌==◌, Option, none, some,
}
use chaintopeslashrust_tapyr.Outcome.{Bytes}
use chaintopeslashrust_tapyr.Hashes.{HashFunction}

-- `data[i] = v`; every index of the loop is in range, for reading as for writing.
unfoldable pub set_at : List Bytes → ℕ → Bytes → List Bytes
set_at [] i v = []
set_at (x ∷ xs) zero v = v ∷ xs
set_at (x ∷ xs) (suc i) v = x ∷ set_at xs i v

-- `zero_hash` is `Default::default()` of the hash type.
module _ (hash : HashFunction 32) (zero_hash : Bytes) where
  -- Two hashes written to one engine.
  abbrev pub combine : Bytes → Bytes → Bytes
  combine a b = hash.hash (a ++ b)

  -- `for idx in 0..((data.len() + 1) / 2)`; the first argument counts the rounds left.
  unfoldable pub combine_in_place : ℕ → ℕ → List Bytes → List Bytes
  combine_in_place zero idx xs = xs
  combine_in_place (suc rounds) idx xs =
      let idx1 = 2 * idx in
      let idx2 = min (idx1 + 1) (length xs - 1) in
      combine_in_place rounds (suc idx)
        (set_at xs idx (combine (get_or xs idx1 zero_hash) (get_or xs idx2 zero_hash)))

  unfoldable pub half_len : ℕ → ℕ
  half_len n = n / 2 + n % 2

  -- `bitcoin_merkle_root_inline` with at most `fuel` recursive calls; `none` where they do not suffice.
  unfoldable pub root_inline : ℕ → List Bytes → Option Bytes
  root_inline fuel [] = some zero_hash
  root_inline fuel (x ∷ []) = some x
  root_inline zero (x ∷ (y ∷ xs)) = none
  root_inline (suc fuel) (x ∷ (y ∷ xs)) = root_inline fuel (
      take (half_len (length (x ∷ y ∷ xs)))
        (combine_in_place ((length (x ∷ y ∷ xs) + 1) / 2) 0 (x ∷ y ∷ xs)))

  -- As many calls as there are hashes.
  unfoldable pub bitcoin_merkle_root_inline : List Bytes → Option Bytes
  bitcoin_merkle_root_inline xs = root_inline (length xs) xs

  -- `while let Some(hash1) = iter.next()`.
  unfoldable pub combine_pairs : List Bytes → List Bytes
  combine_pairs [] = []
  combine_pairs (hash1 ∷ []) = combine hash1 hash1 ∷ []
  combine_pairs (hash1 ∷ (hash2 ∷ rest)) = combine hash1 hash2 ∷ combine_pairs rest

  unfoldable pub bitcoin_merkle_root : List Bytes → Option Bytes
  bitcoin_merkle_root [] = some zero_hash
  bitcoin_merkle_root (x ∷ []) = some x
  bitcoin_merkle_root (x ∷ (y ∷ xs)) = bitcoin_merkle_root_inline (combine_pairs (x ∷ y ∷ xs))
