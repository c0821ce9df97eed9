-- ===== src/Consensus/Integers.antt =====
-- consensus/encode.rs: `ReadExt` and `WriteExt`, and the implementations for unsigned integers,
-- booleans and byte arrays. The target is little-endian, so `to_le` and `from_le` change nothing.
pub mod Laws
use chaintopeslashrust_tapyr.Common.{ℕ, Bool, true, false, not, [], ◌∷◌, length, ◌==◌}
use chaintopeslashrust_tapyr.Common.{if◌then◌else◌}
use chaintopeslashrust_tapyr.Outcome.{Bytes, Result, ok, panic, bind}
use chaintopeslashrust_tapyr.Endian.{slice_to_le, to_array_le}
use chaintopeslashrust_tapyr.Consensus.Reader.{
  Decoder, ◌>>=◌, pure, lift, read_exact, Encoded, emit_slice, Consensus, Error,
}

-- `encoder_fn` and `decoder_fn` at an integer of `size` bytes.
unfoldable pub emit_uint : ℕ → ℕ → Bytes
emit_uint size v = to_array_le size v

unfoldable pub read_uint : ℕ → Decoder ℕ
read_uint size = do val ← read_exact size; lift (slice_to_le size val)

-- `slice[0]`.
abbrev first_byte : Bytes → Result Error ℕ
first_byte [] = panic
first_byte (b ∷ bs) = ok b

unfoldable pub read_u8 : Decoder ℕ
read_u8 = do slice ← read_exact 1; lift (first_byte slice)

-- `impl_int_encodable`.
abbrev pub uint : ℕ → Consensus ℕ
uint size = record {
  consensus_encode = λ v. (emit_uint size v, size);
  consensus_decode = read_uint size;
}

abbrev pub u8 : Consensus ℕ
u8 = record { consensus_encode = λ v. (v ∷ [], 1); consensus_decode = read_u8 }

abbrev pub u16 : Consensus ℕ
u16 = uint 2

abbrev pub u32 : Consensus ℕ
u32 = uint 4

abbrev pub u64 : Consensus ℕ
u64 = uint 8

unfoldable pub bool_encode : Bool → Encoded
bool_encode v = ((if v then 1 else 0) ∷ [], 1)

unfoldable pub bool_decode : Decoder Bool
bool_decode = do n ← read_u8; pure (not (n == 0))

-- `impl_array`.
abbrev pub byte_array : ℕ → Consensus Bytes
byte_array size = record {
  consensus_encode = λ v. emit_slice v;
  consensus_decode = read_exact size;
}
