-- ===== src/Transaction/SigHash.antt =====
-- blockdata/transaction.rs: `SigHashType` and `Transaction::signature_hash`.
pub mod Laws
use chaintopeslashrust_tapyr.Common.{
  ℕ, suc, bit_and, Bool, true, false, not, ◌&&◌, ◌||◌, List, [], ◌∷◌, ◌++◌, length, take, get_elem?,
  if◌then◌else◌, ◌==◌, ltb, leb, Option, none, some,
}
use chaintopeslashrust_tapyr.Outcome.{Bytes}
use chaintopeslashrust_tapyr.Hashes.{HashFunction}
use chaintopeslashrust_tapyr.Endian.{to_array_le}
use chaintopeslashrust_tapyr.Transaction.{Sizes, TxIn, TxOut, Transaction, encode_tx}

pub data SigHashType : Type 0 where
  sign_all sign_none sign_single : SigHashType
  all_plus_anyone_can_pay none_plus_anyone_can_pay single_plus_anyone_can_pay : SigHashType

unfoldable pub split_anyonecanpay_flag : SigHashType → SigHashType × Bool
split_anyonecanpay_flag sign_all = (sign_all, false)
split_anyonecanpay_flag sign_none = (sign_none, false)
split_anyonecanpay_flag sign_single = (sign_single, false)
split_anyonecanpay_flag all_plus_anyone_can_pay = (sign_all, true)
split_anyonecanpay_flag none_plus_anyone_can_pay = (sign_none, true)
split_anyonecanpay_flag single_plus_anyone_can_pay = (sign_single, true)

-- The `match` on `n & 0x9f`.
unfoldable pub type_of_flags : ℕ → SigHashType
type_of_flags x =
    if x == 0x01
    then sign_all
    else if x == 0x02
    then sign_none
    else if x == 0x03
    then sign_single
    else if x == 0x81
    then all_plus_anyone_can_pay
    else if x == 0x82
    then none_plus_anyone_can_pay
    else if x == 0x83
    then single_plus_anyone_can_pay
    else if bit_and x 0x80 == 0x80
    then all_plus_anyone_can_pay
    else sign_all

unfoldable pub from_u32 : ℕ → SigHashType
from_u32 n = type_of_flags (bit_and n 0x9f)

unfoldable pub as_u32 : SigHashType → ℕ
as_u32 sign_all = 0x01
as_u32 sign_none = 0x02
as_u32 sign_single = 0x03
as_u32 all_plus_anyone_can_pay = 0x81
as_u32 none_plus_anyone_can_pay = 0x82
as_u32 single_plus_anyone_can_pay = 0x83

-- `==` on the type.
abbrev pub is_single : SigHashType → Bool
is_single sign_single = true
is_single _ = false

abbrev pub is_none : SigHashType → Bool
is_none sign_none = true
is_none _ = false

abbrev pub one_hash : Bytes
one_hash =
    1 ∷ 0 ∷ 0 ∷ 0 ∷ 0 ∷ 0 ∷ 0 ∷ 0 ∷ 0 ∷ 0 ∷ 0 ∷ 0 ∷ 0 ∷ 0 ∷ 0 ∷ 0 ∷ 0 ∷ 0 ∷ 0 ∷ 0 ∷ 0 ∷ 0 ∷ 0 ∷ 0
    ∷ 0 ∷ 0 ∷ 0 ∷ 0 ∷ 0 ∷ 0 ∷ 0 ∷ 0 ∷ []

-- `TxOut::default()`.
abbrev default_tx_out : TxOut
default_tx_out = record { value = 0xffffffffffffffff; script_pubkey = [] }

-- An input to sign, with the script in place of its own.
abbrev pub bare_input : Bytes → ℕ → TxIn → TxIn
bare_input script sequence t = record {
  previous_output = t.previous_output;
  script_sig = script;
  sequence = sequence;
  witness = [];
}

-- The loop over the inputs, from the index `n`.
unfoldable pub sign_inputs : ℕ → Bytes → SigHashType → ℕ → List TxIn → List TxIn
sign_inputs input_index script_pubkey sighash n [] = []
sign_inputs input_index script_pubkey sighash n (t ∷ ts) =
    bare_input (if n == input_index then script_pubkey else [])
      (if not (n == input_index) && (is_single sighash || is_none sighash) then 0 else t.sequence) t
    ∷ sign_inputs input_index script_pubkey sighash (suc n) ts

-- `input[input_index]` alone, or all inputs; `none` is the panic out of range.
unfoldable pub inputs_to_sign : Bool → ℕ → Bytes → SigHashType → List TxIn → Option (List TxIn)
inputs_to_sign anyone_can_pay input_index script_pubkey sighash ts =
    if anyone_can_pay
    then elim (get_elem? ts input_index) [
      | none ↦ none
      | some t ↦ some (bare_input script_pubkey t.sequence t ∷ [])
    ]
    else some (sign_inputs input_index script_pubkey sighash 0 ts)

-- All outputs but the one of the index are erased.
unfoldable pub erase_others : ℕ → ℕ → List TxOut → List TxOut
erase_others input_index n [] = []
erase_others input_index n (out ∷ outs) =
    (if n == input_index then out else default_tx_out) ∷ erase_others input_index (suc n) outs

-- `none` is `unreachable!()`.
unfoldable pub outputs_to_sign : SigHashType → ℕ → List TxOut → Option (List TxOut)
outputs_to_sign sign_all input_index outs = some outs
outputs_to_sign sign_single input_index outs =
    some (erase_others input_index 0 (take (suc input_index) outs))
outputs_to_sign sign_none input_index outs = some []
outputs_to_sign all_plus_anyone_can_pay input_index outs = none
outputs_to_sign none_plus_anyone_can_pay input_index outs = none
outputs_to_sign single_plus_anyone_can_pay input_index outs = none

module _ (sizes : Sizes) (sha256d : HashFunction 32) where
  -- The end: the transaction to sign, serialized, with the flag.
  unfoldable pub hash_to_sign :
      Transaction → ℕ → Option (List TxIn) → Option (List TxOut) → Option Bytes
  hash_to_sign tx sighash_u32 none outs = none
  hash_to_sign tx sighash_u32 (some ins) none = none
  hash_to_sign tx sighash_u32 (some ins) (some outs) =
      let signed : Transaction = record {
        version = tx.version;
        lock_time = tx.lock_time;
        input = ins;
        output = outs;
      } in
      some (sha256d.hash ((encode_tx sizes signed).0 ++ to_array_le 4 sighash_u32))

  -- What follows the split of the flags.
  unfoldable pub sign_with : Transaction → ℕ → Bytes → ℕ → SigHashType × Bool → Option Bytes
  sign_with tx input_index script_pubkey sighash_u32 (sighash, anyone_can_pay) =
      if is_single sighash && leb (length tx.output) input_index
      then some one_hash
      else hash_to_sign tx sighash_u32
          (inputs_to_sign anyone_can_pay input_index script_pubkey sighash tx.input)
          (outputs_to_sign sighash input_index tx.output)

  -- `none` is a panic; the first test is the assertion.
  unfoldable pub signature_hash : Transaction → ℕ → Bytes → ℕ → Option Bytes
  signature_hash tx input_index script_pubkey sighash_u32 =
      if ltb input_index (length tx.input)
      then sign_with tx input_index script_pubkey sighash_u32
          (split_anyonecanpay_flag (from_u32 sighash_u32))
      else none
