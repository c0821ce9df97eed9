-- ===== src/Consensus/Vectors.antt =====
-- consensus/encode.rs: byte vectors, vectors of encodable elements, and `CheckedData`.
pub mod ByteVec
pub mod Elements
pub mod Checked
pub mod Refusals
use chaintopeslashrust_tapyr.Common.{ℕ, zero, suc, ◌*◌, ◌^◌, ◌%◌, ◌+◌, List, [], ◌∷◌, length}
use chaintopeslashrust_tapyr.Common.{
  ltb, lt→ltb, bytes_eq, if◌then◌else◌, take, Option, none, some, ◌≤◌, ◌≡◌, ap, arith,
}
use chaintopeslashrust_tapyr.Outcome.{Bytes, ok, panic}
use chaintopeslashrust_tapyr.Hashes.{HashFunction}
use chaintopeslashrust_tapyr.Consensus.Reader.{
  Decoder, ◌>>=◌, pure, fail, read_exact, Encoded, ◌<+>◌, emit_slice, nothing, Consensus,
  parse_failed, oversized_vector_allocation, invalid_checksum, serialize,
}
use chaintopeslashrust_tapyr.Consensus.Integers.{u32, read_uint, emit_uint, byte_array}
use chaintopeslashrust_tapyr.Consensus.VarInt

-- `MAX_VEC_SIZE`.
abbrev pub max_vec_size : ℕ
max_vec_size = 4_000_000

-- `Vec<u8>` and `Box<[u8]>`.
unfoldable pub encode_bytes : Bytes → Encoded
encode_bytes v = VarInt.encode (length v) <+> emit_slice v

-- `Vec::with_capacity(len)`, for elements of `size_of` bytes, and what follows it: more than `isize::MAX` bytes are a
-- panic. An allocation that fails below that aborts the process and is not an outcome here.
unfoldable pub with_capacity : {A : Type 0} → ℕ → ℕ → Decoder A → Decoder A
with_capacity size_of len rest bs = if ltb (len * size_of) (2 ^ 63) then rest bs else panic

-- What follows the length.
read_sized : ℕ → Decoder Bytes
read_sized len =
    if ltb max_vec_size len
    then fail (oversized_vector_allocation len max_vec_size)
    else with_capacity 1 len (read_exact len)

unfoldable pub decode_bytes : Decoder Bytes
unfolding read_sized
decode_bytes = do len ← VarInt.decode; read_sized len

abbrev pub byte_vec : Consensus Bytes
byte_vec = record { consensus_encode = encode_bytes; consensus_decode = decode_bytes }

-- `usize::checked_mul`.
unfoldable pub checked_mul : ℕ → ℕ → Option ℕ
checked_mul a b = if ltb (a * b) (2 ^ 64) then some (a * b) else none

-- A length that passed the limit has room.
pub with_capacity_lem :
    {A : Type 0} (size_of len : ℕ) (rest : Decoder A)
    → len * size_of ≤ max_vec_size
    → with_capacity size_of len rest ≡ rest
unfolding with_capacity
with_capacity_lem size_of len rest h =
    ap (λ b bs. if b then rest bs else panic) (lt→ltb (len * size_of) (2 ^ 63) (omega arith))

module _ {A : Type 0} (c : Consensus A) where
  -- `for c in self.iter() { len += c.consensus_encode(&mut s)? }`
  unfoldable pub encode_each : List A → Encoded
  encode_each [] = nothing
  encode_each (a ∷ rest) = c.consensus_encode a <+> encode_each rest

  -- `for _ in 0..len { ret.push(Decodable::consensus_decode(&mut d)?) }`
  pub decode_times : ℕ → Decoder (List A)
  decode_times zero = pure []
  decode_times (suc n) = do a ← c.consensus_decode; rest ← decode_times n; pure (a ∷ rest)

  -- `impl_vec`, for elements of `size_of` bytes in memory.
  unfoldable pub encode_vec : List A → Encoded
  unfolding encode_each
  encode_vec v = VarInt.encode (length v) <+> encode_each v

  -- What follows the length.
  decode_elements : ℕ → ℕ → Decoder (List A)
  unfolding decode_times checked_mul with_capacity
  decode_elements size_of len = elim (checked_mul len size_of) [
    | none ↦ fail (parse_failed "Invalid length")
    | some byte_size ↦
        if ltb max_vec_size byte_size
        then fail (oversized_vector_allocation byte_size max_vec_size)
        else with_capacity size_of len (decode_times len)
  ]

  unfoldable pub decode_vec : ℕ → Decoder (List A)
  unfolding decode_elements
  decode_vec size_of = do len ← VarInt.decode; decode_elements size_of len

abbrev pub vec : {A : Type 0} → ℕ → Consensus A → Consensus (List A)
vec size_of c = record { consensus_encode = encode_vec c; consensus_decode = decode_vec c size_of }

module _ (sha256d : HashFunction 32) where
  -- `sha2_checksum`: the first four bytes of the double hash.
  unfoldable pub sha2_checksum : Bytes → Bytes
  sha2_checksum data_bytes = take 4 (sha256d.hash data_bytes)

  -- `CheckedData`.
  unfoldable pub encode_checked : Bytes → Encoded
  encode_checked v =
      let len = u32.consensus_encode (length v % 2 ^ 32) in
      let checksum = (byte_array 4).consensus_encode (sha2_checksum v) in
      ((len <+> checksum <+> emit_slice v).0, 8 + length v)

  -- The comparison that ends `decode_checked`.
  verify_checksum : Bytes → Bytes → Decoder Bytes
  verify_checksum checksum ret =
      let expected_checksum = sha2_checksum ret in
      if bytes_eq expected_checksum checksum
      then pure ret
      else fail (invalid_checksum expected_checksum checksum)

  -- What follows the length.
  decode_checked_body : ℕ → Decoder Bytes
  unfolding verify_checksum
  decode_checked_body len =
      if ltb max_vec_size len then fail (oversized_vector_allocation len max_vec_size) else (do
        checksum ← read_exact 4
        ret ← with_capacity 1 len (read_exact len)
        verify_checksum checksum ret)

  unfoldable pub decode_checked : Decoder Bytes
  unfolding decode_checked_body
  decode_checked = do len ← read_uint 4; decode_checked_body len

  abbrev pub checked_data : Consensus Bytes
  checked_data = record { consensus_encode = encode_checked; consensus_decode = decode_checked }
