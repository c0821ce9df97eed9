-- ===== src/Transaction.antt =====
-- blockdata/transaction.rs: transactions and their consensus encoding. A script and a transaction
-- id are their bytes (`Script(Box<[u8]>)`, and `impl_hashencode` of hash_types.rs for `Txid`).
pub mod Fields
pub mod Witness
pub mod Segwit
pub mod Forms
pub mod Codec
pub mod Contract
pub mod SigHash
pub mod Ids
use chaintopeslashrust_tapyr.Common.{
  ℕ, List, [], ◌∷◌, Bool, true, false, not, ◌&&◌, map, is_empty, if◌then◌else◌, ◌==◌, length,
}
use chaintopeslashrust_tapyr.Outcome.{Bytes, ok}
use chaintopeslashrust_tapyr.Consensus.Reader.{
  Decoder, ◌>>=◌, pure, fail, Encoded, ◌<+>◌, nothing, Consensus, parse_failed,
  unsupported_segwit_flag,
}
use chaintopeslashrust_tapyr.Consensus.Integers.{u8, u32, u64, byte_array}
use chaintopeslashrust_tapyr.Consensus.Vectors.{byte_vec, vec}

pub record OutPoint : Type 0 where
  pub txid : Bytes
  pub vout : ℕ

pub record TxIn : Type 0 where
  pub previous_output : OutPoint
  pub script_sig : Bytes
  pub sequence : ℕ
  pub witness : List Bytes

pub record TxOut : Type 0 where
  pub value : ℕ
  pub script_pubkey : Bytes

pub record Transaction : Type 0 where
  pub version : ℕ
  pub lock_time : ℕ
  pub input : List TxIn
  pub output : List TxOut

-- `mem::size_of` of the elements of the vectors, which the compiler chooses.
pub record Sizes : Type 0 where
  pub tx_in : ℕ
  pub tx_out : ℕ
  pub byte_vec : ℕ
  pub transaction : ℕ
  pub hash : ℕ

unfoldable pub out_point : Consensus OutPoint
out_point = record {
  consensus_encode = λ o. (byte_array 32).consensus_encode o.txid <+> u32.consensus_encode o.vout;
  consensus_decode = do
    txid ← (byte_array 32).consensus_decode
    vout ← u32.consensus_decode
    pure (record { txid = txid; vout = vout });
}

-- The witness is not part of an input's encoding.
unfoldable pub tx_in : Consensus TxIn
tx_in = record {
  consensus_encode = λ t.
      out_point.consensus_encode t.previous_output
      <+> Consensus.consensus_encode byte_vec t.script_sig
      <+> u32.consensus_encode t.sequence;
  consensus_decode = do
    previous_output ← out_point.consensus_decode
    script_sig ← Consensus.consensus_decode byte_vec
    sequence ← u32.consensus_decode
    pure (record {
      previous_output = previous_output;
      script_sig = script_sig;
      sequence = sequence;
      witness = [];
    });
}

unfoldable pub tx_out : Consensus TxOut
tx_out = record {
  consensus_encode =
      λ t. u64.consensus_encode t.value <+> Consensus.consensus_encode byte_vec t.script_pubkey;
  consensus_decode = do
    value ← u64.consensus_decode
    script_pubkey ← Consensus.consensus_decode byte_vec
    pure (record { value = value; script_pubkey = script_pubkey });
}

-- The loop that looks for an input with a witness and breaks at the first; the first argument is
-- the flag so far.
unfoldable pub find_witness : Bool → List TxIn → Bool
find_witness have_witness [] = have_witness
find_witness have_witness (t ∷ ts) =
    if not (is_empty t.witness) then true else find_witness have_witness ts

unfoldable pub have_witness : List TxIn → Bool
have_witness input = find_witness (is_empty input) input

-- `input.iter().all(|input| input.witness.is_empty())`
unfoldable pub all_witnesses_empty : List TxIn → Bool
all_witnesses_empty [] = true
all_witnesses_empty (t ∷ ts) = is_empty t.witness && all_witnesses_empty ts

module _ (sizes : Sizes) where
  abbrev pub witness_codec : Consensus (List Bytes)
  witness_codec = vec sizes.byte_vec byte_vec

  abbrev pub inputs : Consensus (List TxIn)
  inputs = vec sizes.tx_in tx_in

  abbrev pub outputs : Consensus (List TxOut)
  outputs = vec sizes.tx_out tx_out

  unfoldable pub encode_witnesses : List TxIn → Encoded
  encode_witnesses [] = nothing
  encode_witnesses (t ∷ ts) = witness_codec.consensus_encode t.witness <+> encode_witnesses ts

  -- `for txin in input.iter_mut() { txin.witness = Decodable::consensus_decode(&mut d)?; }`
  unfoldable pub decode_witnesses : List TxIn → Decoder (List TxIn)
  decode_witnesses [] = pure []
  decode_witnesses (t ∷ ts) = do
    witness ← witness_codec.consensus_decode
    rest ← decode_witnesses ts
    pure (record t { witness = witness } ∷ rest)

  unfoldable pub encode_tx : Transaction → Encoded
  encode_tx tx =
      if have_witness tx.input
      then u32.consensus_encode tx.version
        <+> u8.consensus_encode 0
        <+> u8.consensus_encode 1
        <+> inputs.consensus_encode tx.input
        <+> outputs.consensus_encode tx.output
        <+> encode_witnesses tx.input
        <+> u32.consensus_encode tx.lock_time
      else u32.consensus_encode tx.version
        <+> inputs.consensus_encode tx.input
        <+> outputs.consensus_encode tx.output
        <+> u32.consensus_encode tx.lock_time

  -- The end of the segwit branch.
  unfoldable pub finish_segwit : ℕ → List TxOut → List TxIn → Decoder Transaction
  finish_segwit version output input =
      if not (is_empty input) && all_witnesses_empty input
      then fail (parse_failed "witness flag set but no witnesses present")
      else (do
        lock_time ← u32.consensus_decode
        pure (record { version = version; lock_time = lock_time; input = input; output = output }))

  unfoldable pub decode_segwit : ℕ → ℕ → Decoder Transaction
  decode_segwit version segwit_flag =
      if segwit_flag == 1
      then (do
        input ← inputs.consensus_decode
        output ← outputs.consensus_decode
        input' ← decode_witnesses input
        finish_segwit version output input')
      else fail (unsupported_segwit_flag segwit_flag)

  -- What follows the first vector of inputs.
  unfoldable pub decode_rest : ℕ → List TxIn → Decoder Transaction
  decode_rest version [] = do segwit_flag ← u8.consensus_decode; decode_segwit version segwit_flag
  decode_rest version (t ∷ ts) = do
    output ← outputs.consensus_decode
    lock_time ← u32.consensus_decode
    pure (record { version = version; lock_time = lock_time; input = t ∷ ts; output = output })

  unfoldable pub decode_tx : Decoder Transaction
  decode_tx = do
    version ← u32.consensus_decode
    input ← inputs.consensus_decode
    decode_rest version input

  abbrev pub transaction : Consensus Transaction
  transaction = record { consensus_encode = encode_tx; consensus_decode = decode_tx }
