-- ===== src/Hashes.antt =====
-- The crate `bitcoin_hashes`, which the library calls: a hash function is a parameter.
use chaintopeslashrust_tapyr.Common.{ℕ, ◌≡◌, length, All}
use chaintopeslashrust_tapyr.Outcome.{Bytes, IsByte}

-- `Hash::hash` of a type with `size` bytes. Of the documented behaviour only the shape of the
-- result is used.
pub record HashFunction (size : ℕ) : Type 0 where
  pub hash : Bytes → Bytes
  pub length-hash : (bs : Bytes) → length (hash bs) ≡ size
  pub hash-IsByte : (bs : Bytes) → All IsByte (hash bs)
