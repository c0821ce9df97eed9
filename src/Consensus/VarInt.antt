-- ===== src/Consensus/VarInt.antt =====
-- consensus/encode.rs: `VarInt`, the variable-length integer.
pub mod Laws
use chaintopeslashrust_tapyr.Common.{ℕ, ◌%◌, [], ◌∷◌, ltb, leb, ◌==◌, if◌then◌else◌}
use chaintopeslashrust_tapyr.Consensus.Reader.{
  Decoder, ◌>>=◌, pure, fail, Encoded, ◌<+>◌, Consensus, non_minimal_var_int,
}
use chaintopeslashrust_tapyr.Consensus.Integers.{u16, u32, u64, emit_uint, read_u8, read_uint}

-- `VarInt::len`.
unfoldable pub len : ℕ → ℕ
len v = if leb v 0xFC then 1 else if leb v 0xFFFF then 3 else if leb v 0xFFFFFFFF then 5 else 9

unfoldable pub encode : ℕ → Encoded
encode v =
    if leb v 0xFC
    then ((v % 256) ∷ [], 1)
    else if leb v 0xFFFF
    then (0xFD ∷ emit_uint 2 v, 3)
    else if leb v 0xFFFFFFFF
    then (0xFE ∷ emit_uint 4 v, 5)
    else (0xFF ∷ emit_uint 8 v, 9)

-- A branch of `decode`: a number that a shorter form could hold is refused.
at_least : ℕ → ℕ → Decoder ℕ
at_least least x = if ltb x least then fail non_minimal_var_int else pure x

decode_tag : ℕ → Decoder ℕ
unfolding at_least
decode_tag n =
    if n == 0xFF
    then (do x ← read_uint 8; at_least 0x100000000 x)
    else if n == 0xFE
    then (do x ← read_uint 4; at_least 0x10000 x)
    else if n == 0xFD
    then (do x ← read_uint 2; at_least 0xFD x)
    else pure n

unfoldable pub decode : Decoder ℕ
unfolding decode_tag
decode = do n ← read_u8; decode_tag n

abbrev pub var_int : Consensus ℕ
var_int = record { consensus_encode = encode; consensus_decode = decode }
