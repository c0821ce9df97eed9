-- ===== src/Script/Templates.antt =====
-- blockdata/script.rs: the forms of a script pubkey, and colored coins.
pub mod Colors
pub mod Witness
use chaintopeslashrust_tapyr.Common.{
  ℕ, ◌-◌, Bool, true, false, not, ◌&&◌, ◌||◌, List, [], ◌∷◌, ◌++◌, length, get_or, is_empty,
  if◌then◌else◌, ◌==◌, leb, Option, none, some,
}
use chaintopeslashrust_tapyr.Outcome.{Bytes, Result, ok, err}
use chaintopeslashrust_tapyr.Consensus.Reader.{
  Decoder, ◌>>=◌, pure, fail, Encoded, ◌<+>◌, Consensus, serialize, parse_failed,
}
use chaintopeslashrust_tapyr.Consensus.Integers.{u8, byte_array}
use chaintopeslashrust_tapyr.Opcodes.{
  op_hash160, op_equal, op_dup, op_equalverify, op_checksig, op_true, op_pushnum_16, op_color,
  op_return, classify, Class, push_num, push_bytes, return_op, illegal_op, no_op, ordinary,
  panicked,
}

-- `self.0[i]`, in range by the test of the length that comes first.
abbrev byte_at : Bytes → ℕ → ℕ
byte_at script i = get_or script i 0

unfoldable pub is_p2sh : Bytes → Bool
is_p2sh script =
    length script == 23
    && byte_at script 0 == op_hash160
    && byte_at script 1 == 0x14
    && byte_at script 22 == op_equal

unfoldable pub is_p2pkh : Bytes → Bool
is_p2pkh script =
    length script == 25
    && byte_at script 0 == op_dup
    && byte_at script 1 == op_hash160
    && byte_at script 2 == 0x14
    && byte_at script 23 == op_equalverify
    && byte_at script 24 == op_checksig

unfoldable pub is_p2pk : Bytes → Bool
is_p2pk script =
    (length script == 67 && byte_at script 0 == 0x41 && byte_at script 66 == op_checksig)
    || (length script == 35 && byte_at script 0 == 0x21 && byte_at script 34 == op_checksig)

unfoldable pub is_witness_program : Bytes → Bool
is_witness_program script =
    leb 4 (length script)
    && leb (length script) 42
    && (byte_at script 0 == 0
        || leb op_true (byte_at script 0) && leb (byte_at script 0) op_pushnum_16)
    && leb 0x02 (byte_at script 1)
    && leb (byte_at script 1) 0x28
    && length script - 2 == byte_at script 1

unfoldable pub is_v0_p2wsh : Bytes → Bool
is_v0_p2wsh script = length script == 34 && byte_at script 0 == 0 && byte_at script 1 == 0x20

unfoldable pub is_v0_p2wpkh : Bytes → Bool
is_v0_p2wpkh script = length script == 22 && byte_at script 0 == 0 && byte_at script 1 == 0x14

unfoldable pub is_op_return : Bytes → Bool
is_op_return script = not (is_empty script) && byte_at script 0 == op_return

-- `TokenTypes`, by its codes.
pub data TokenTypes : Type 0 where
  reissuable non_reissuable nft : TokenTypes

abbrev pub token_code : TokenTypes → ℕ
token_code reissuable = 0xc1
token_code non_reissuable = 0xc2
token_code nft = 0xc3

-- `TokenTypes::is_valid`.
unfoldable pub is_valid : ℕ → Bool
is_valid code =
    code == token_code reissuable || code == token_code non_reissuable || code == token_code nft

unfoldable pub is_cp2pkh : Bytes → Bool
is_cp2pkh script =
    length script == 60
    && byte_at script 0 == 0x21
    && is_valid (byte_at script 1)
    && byte_at script 34 == op_color
    && byte_at script 35 == op_dup
    && byte_at script 36 == op_hash160
    && byte_at script 37 == 0x14
    && byte_at script 58 == op_equalverify
    && byte_at script 59 == op_checksig

unfoldable pub is_cp2sh : Bytes → Bool
is_cp2sh script =
    length script == 58
    && byte_at script 0 == 0x21
    && is_valid (byte_at script 1)
    && byte_at script 34 == op_color
    && byte_at script 35 == op_hash160
    && byte_at script 36 == 0x14
    && byte_at script 57 == op_equal

unfoldable pub is_colored : Bytes → Bool
is_colored script = is_cp2pkh script || is_cp2sh script

pub record ColorIdentifier : Type 0 where
  pub token_type : TokenTypes
  pub payload : Bytes

abbrev token_of : ℕ → Option TokenTypes
token_of code =
    if code == 0xC1
    then some reissuable
    else if code == 0xC2
    then some non_reissuable
    else if code == 0xC3
    then some nft
    else none

-- The `match` on the first of the 33 bytes, and the payload from the others.
unfoldable pub color_of : Bytes → Decoder ColorIdentifier
color_of [] = fail (parse_failed "invalid token type.")
color_of (code ∷ payload) = elim (token_of code) [
  | none ↦ fail (parse_failed "invalid token type.")
  | some token_type ↦ pure (record { token_type = token_type; payload = payload })
]

unfoldable pub color_identifier : Consensus ColorIdentifier
color_identifier = record {
  consensus_encode = λ c.
      u8.consensus_encode (token_code c.token_type) <+> (byte_array 32).consensus_encode c.payload;
  consensus_decode = do
    bytes ← (byte_array 33).consensus_decode
    color_of bytes;
}

-- `none` is `UnsuppotedScriptType`, the one error.
unfoldable pub add_color : Bytes → ColorIdentifier → Option Bytes
add_color script color_id =
    if not (is_p2pkh script) && not (is_p2sh script)
    then none
    else some (0x21 ∷ (serialize color_identifier color_id ++ (op_color ∷ script)))
