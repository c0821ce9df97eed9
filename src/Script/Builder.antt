-- ===== src/Script/Builder.antt =====
-- blockdata/script.rs: `Builder`.
pub mod Verify
use chaintopeslashrust_tapyr.Common.{
  ℕ, suc, ◌+◌, ◌-◌, ◌/◌, ◌%◌, ◌^◌, ◌++◌, Bool, true, false, ◌&&◌, ◌||◌, List, [], ◌∷◌, length, take,
  if◌then◌else◌, ◌==◌, ltb, leb, Option, none, some,
}
use chaintopeslashrust_tapyr.Outcome.{Bytes}
use chaintopeslashrust_tapyr.Opcodes.{
  op_pushdata1, op_pushdata2, op_pushdata4, op_equal, op_equalverify, op_numequal,
  op_numequalverify, op_checksig, op_checksigverify, op_checkmultisig, op_checkmultisigverify,
  op_verify,
}
use chaintopeslashrust_tapyr.Script.Instructions.{Instruction, push, op, error, instructions}

-- The bytes, and the opcode added last.
pub record Builder : Type 0 where
  pub bytes : Bytes
  pub last_op : Option ℕ

abbrev pub new : Builder
new = record { bytes = []; last_op = none }

-- The push opcode with the length, for fewer than 2 ^ 32 bytes.
unfoldable pub push_header : ℕ → Bytes
push_header n =
    if ltb n op_pushdata1
    then (n % 256) ∷ []
    else if ltb n 0x100
    then op_pushdata1 ∷ (n % 256) ∷ []
    else if ltb n 0x10000
    then op_pushdata2 ∷ (n % 0x100) ∷ (n / 0x100 % 256) ∷ []
    else op_pushdata4
      ∷ (n % 0x100)
      ∷ (n / 0x100 % 0x100)
      ∷ (n / 0x10000 % 0x100)
      ∷ (n / 0x1000000 % 256)
      ∷ []

-- `none` is the panic on data of 2 ^ 32 bytes or more.
unfoldable pub push_slice : Builder → Bytes → Option Builder
push_slice b slice =
    if ltb (length slice) 0x100000000
    then some (record { bytes = b.bytes ++ (push_header (length slice) ++ slice); last_op = none })
    else none

unfoldable pub push_opcode : Builder → ℕ → Builder
push_opcode b code = record { bytes = b.bytes ++ (code ∷ []); last_op = some code }

-- `self.0.pop()`
unfoldable pub pop : Builder → Builder
pop b = record b { bytes = take (length b.bytes - 1) b.bytes }

-- The alternate form of an opcode that has one.
unfoldable pub push_verify_after : Builder → Option ℕ → Builder
push_verify_after b none = push_opcode b op_verify
push_verify_after b (some o) =
    if o == op_equal
    then push_opcode (pop b) op_equalverify
    else if o == op_numequal
    then push_opcode (pop b) op_numequalverify
    else if o == op_checksig
    then push_opcode (pop b) op_checksigverify
    else if o == op_checkmultisig
    then push_opcode (pop b) op_checkmultisigverify
    else push_opcode b op_verify

unfoldable pub push_verify : Builder → Builder
push_verify b = push_verify_after b b.last_op

-- The opcode of the last instruction.
unfoldable pub last_opcode : List Instruction → Option ℕ
last_opcode [] = none
last_opcode (op code ∷ []) = some code
last_opcode (push d ∷ []) = none
last_opcode (error e ∷ []) = none
last_opcode (i ∷ (j ∷ is)) = last_opcode (j ∷ is)

abbrev pub with_last : Bytes → Option (List Instruction) → Option Builder
with_last v none = none
with_last v (some is) = some (record { bytes = v; last_op = last_opcode is })

-- `From<Vec<u8>>`; `none` where the iterator panics.
unfoldable pub from_bytes : Bytes → Option Builder
from_bytes v = with_last v (instructions false v)
