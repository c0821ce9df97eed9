-- ===== src/Consensus/Reader.antt =====
-- consensus/encode.rs: `Error`, the traits `Encodable` and `Decodable`, and reading from a slice.
-- A writer is a growing vector, so writing does not fail: an encoder is the bytes that it writes
-- and the length that it returns. A reader is what is left of the input.
use Prim.Native.String.{String}
use chaintopeslashrust_tapyr.Common.{ℕ, zero, suc, ◌+◌, ◌++◌, [], ◌∷◌, length}
use chaintopeslashrust_tapyr.Outcome.{Bytes, Result, ok, err, bind}

-- `Io` is the end of the input, all that reading from a slice can fail with. The variants `Psbt`
-- and `Key`, which wrap errors of other modules, are left out: nothing modelled here builds them.
pub data Error : Type 0 where
  io : Error
  unexpected_network_magic : ℕ → ℕ → Error
  oversized_vector_allocation : ℕ → ℕ → Error
  invalid_checksum : Bytes → Bytes → Error
  non_minimal_var_int : Error
  unknown_network_magic : ℕ → Error
  parse_failed : String → Error
  unsupported_segwit_flag : ℕ → Error
  unrecognized_network_command : String → Error
  unknown_inventory_type : ℕ → Error

abbrev pub Decoder {ℓ} : Type ℓ → Type ℓ
Decoder A = Bytes → Result Error (A × Bytes)

infixl 5 ◌>>=◌ ◌>>◌
abbrev pub ◌>>=◌ {ℓ κ} : {A : Type ℓ} {B : Type κ} → Decoder A → (A → Decoder B) → Decoder B
◌>>=◌ m f bs = bind (m bs) (λ p. f p.0 p.1)

abbrev pub ◌>>◌ {ℓ κ} : {A : Type ℓ} {B : Type κ} → Decoder A → Decoder B → Decoder B
m >> k = m >>= λ _. k

abbrev pub pure {ℓ} : {A : Type ℓ} → A → Decoder A
pure a bs = ok (a, bs)

abbrev pub fail {ℓ} : {A : Type ℓ} → Error → Decoder A
fail e bs = err e

-- A computation that reads nothing.
abbrev pub lift {ℓ} : {A : Type ℓ} → Result Error A → Decoder A
lift r bs = bind r (λ a. ok (a, bs))

abbrev pub put_front : ℕ → Bytes × Bytes → Result Error (Bytes × Bytes)
put_front b p = ok (b ∷ p.0, p.1)

-- `Read::read_exact` on a slice, into a buffer of `n` bytes.
unfoldable pub read_exact : ℕ → Decoder Bytes
read_exact zero bs = ok ([], bs)
read_exact (suc n) [] = err io
read_exact (suc n) (b ∷ bs) = bind (read_exact n bs) (put_front b)

-- The bytes written and the length returned.
abbrev pub Encoded : Type 0
Encoded = Bytes × ℕ

-- `len += x.consensus_encode(&mut s)?` after what was written before.
infixr 60 ◌<+>◌
abbrev pub ◌<+>◌ : Encoded → Encoded → Encoded
d <+> e = (d.0 ++ e.0, d.1 + e.1)

-- `emit_slice`, counted by its length.
abbrev pub emit_slice : Bytes → Encoded
emit_slice bs = (bs, length bs)

abbrev pub nothing : Encoded
nothing = ([], 0)

-- The implementations of `Encodable` and `Decodable` for one type.
pub record Consensus (A : Type 0) : Type 0 where
  pub consensus_encode : A → Encoded
  pub consensus_decode : Decoder A

-- `serialize`.
abbrev pub serialize : {A : Type 0} → Consensus A → A → Bytes
serialize c a = (c.consensus_encode a).0
