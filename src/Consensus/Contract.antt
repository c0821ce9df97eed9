-- ===== src/Consensus/Contract.antt =====
-- What the implementations of consensus/encode.rs promise to their callers.
use chaintopeslashrust_tapyr.Common.{ℕ, ◌≡◌, ◌↔◌, ◌∙◌, ap, List, ◌++◌, length, All}
use chaintopeslashrust_tapyr.Outcome.{Bytes, IsByte, ok}
use chaintopeslashrust_tapyr.Hashes.{HashFunction}
use chaintopeslashrust_tapyr.Consensus.Reader.{Consensus, serialize}
use chaintopeslashrust_tapyr.Consensus.Codec.{IsLawful}
use chaintopeslashrust_tapyr.Consensus.VarInt
use chaintopeslashrust_tapyr.Consensus.VarInt.{var_int}
use chaintopeslashrust_tapyr.Consensus.VarInt.Laws.{var_int-IsLawful, IsU64, len-encode}
use chaintopeslashrust_tapyr.Consensus.Vectors.{byte_vec, vec, checked_data}
use chaintopeslashrust_tapyr.Consensus.Vectors.ByteVec.{byte_vec-IsLawful, IsVec}
use chaintopeslashrust_tapyr.Consensus.Vectors.Elements.{vec-IsLawful, IsVecOf}
use chaintopeslashrust_tapyr.Consensus.Vectors.Checked.{checked_data-IsLawful}
use chaintopeslashrust_tapyr.Consensus.Deserialize.{
  deserialize, deserialize-serialize, deserialize_sound,
}

-- A contract that is kept makes `deserialize` the partial inverse of `serialize`.
pub inverse :
    {A : Type 0} {c : Consensus A} {IsValid : A → Type 0} (law : IsLawful c IsValid) (bs : Bytes)
    (a : A)
    → All IsByte bs
    → (deserialize c bs ≡ ok a) ↔ ((bs ≡ serialize c a) × IsValid a)
inverse {c = c} law bs a h = (
  (λ e. deserialize_sound law bs a h e),
  (λ p. ap (deserialize c) p.0 ∙ deserialize-serialize law a p.1),
)

-- A byte string is read as the variable-length integer `v` exactly when it is the encoding of `v`,
-- and `v` is a 64-bit number: no other form, longer ones included, is accepted.
pub var_int_iff :
    (bs : Bytes) (v : ℕ)
    → All IsByte bs
    → (deserialize var_int bs ≡ ok v) ↔ ((bs ≡ serialize var_int v) × IsU64 v)
var_int_iff = inverse var_int-IsLawful

-- The encoding of a 64-bit number as `VarInt` reads back in front of any bytes, which are left, and
-- its size is what `VarInt::len` says and what the encoder returns.
pub var_int_reads :
    (v : ℕ) (rest : Bytes)
    → IsU64 v
    → (VarInt.decode (serialize var_int v ++ rest) ≡ ok (v, rest))
      × (VarInt.len v ≡ length (serialize var_int v))
      × ((VarInt.encode v).1 ≡ length (serialize var_int v))
var_int_reads v rest h =
    (var_int-IsLawful.round_trip v rest h, len-encode v, var_int-IsLawful.reports v)

-- A byte string is read as the byte vector `v` exactly when it is its encoding, and `v` holds bytes,
-- at most `max_vec_size` of them.
byte_vec_iff :
    (bs v : Bytes)
    → All IsByte bs
    → (deserialize byte_vec bs ≡ ok v) ↔ ((bs ≡ serialize byte_vec v) × IsVec v)
byte_vec_iff = inverse byte_vec-IsLawful

-- For elements whose implementation keeps the contract, a byte string is read as the vector `v`
-- exactly when it is its encoding, every element is valid, and the count and the size in memory are
-- within their limits.
pub vec_iff :
    {A : Type 0} {c : Consensus A} {IsValid : A → Type 0} (law : IsLawful c IsValid) (size_of : ℕ)
    (bs : Bytes) (v : List A)
    → All IsByte bs
    → (deserialize (vec size_of c) bs ≡ ok v)
      ↔ ((bs ≡ serialize (vec size_of c) v) × IsVecOf size_of IsValid v)
vec_iff law size_of = inverse (vec-IsLawful law size_of)

-- For any hash function, a byte string is read as the checked payload `v` exactly when it is its
-- encoding, and `v` is a byte vector within the limit.
pub checked_data_iff :
    (sha256d : HashFunction 32) (bs v : Bytes)
    → All IsByte bs
    → (deserialize (checked_data sha256d) bs ≡ ok v)
      ↔ ((bs ≡ serialize (checked_data sha256d) v) × IsVec v)
checked_data_iff sha256d = inverse (checked_data-IsLawful sha256d)
