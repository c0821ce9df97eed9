-- ===== src/Transaction/Ids.antt =====
-- blockdata/transaction.rs: the ids of a transaction, its weight, and the test for a coin base.
pub mod Laws
use chaintopeslashrust_tapyr.Common.{
  ℕ, zero, suc, ◌+◌, ◌-◌, ◌*◌, Bool, true, false, not, ◌&&◌, List, [], ◌∷◌, map, length, is_empty,
  bytes_eq, if◌then◌else◌, ◌==◌,
}
use chaintopeslashrust_tapyr.Outcome.{Bytes}
use chaintopeslashrust_tapyr.Hashes.{HashFunction}
use chaintopeslashrust_tapyr.Consensus.Reader.{Encoded, ◌<+>◌, nothing, Consensus}
use chaintopeslashrust_tapyr.Consensus.Integers.{u32}
use chaintopeslashrust_tapyr.Consensus.VarInt
use chaintopeslashrust_tapyr.Transaction.{
  Sizes, OutPoint, TxIn, TxOut, Transaction, out_point, inputs, outputs, encode_tx,
}

-- An input without the parts that others can change.
abbrev pub unsigned_input : TxIn → TxIn
unsigned_input t = record t { script_sig = []; witness = [] }

-- The inputs as `malfix_txid` writes them.
unfoldable pub encode_fixed : List TxIn → Encoded
encode_fixed [] = nothing
encode_fixed (t ∷ ts) =
    out_point.consensus_encode t.previous_output
    <+> u32.consensus_encode t.sequence
    <+> encode_fixed ts

-- A hash engine hashes all that is written to it.
module _ (sizes : Sizes) (sha256d : HashFunction 32) where
  unfoldable pub txid : Transaction → Bytes
  txid tx =
      sha256d.hash
        (u32.consensus_encode tx.version
          <+> (inputs sizes).consensus_encode tx.input
          <+> (outputs sizes).consensus_encode tx.output
          <+> u32.consensus_encode tx.lock_time).0

  unfoldable pub ntxid : Transaction → Bytes
  ntxid tx = txid (record tx { input = map unsigned_input tx.input })

  unfoldable pub wtxid : Transaction → Bytes
  wtxid tx = sha256d.hash (encode_tx sizes tx).0

  unfoldable pub malfix_txid : Transaction → Bytes
  malfix_txid tx =
      sha256d.hash
        (u32.consensus_encode tx.version
          <+> VarInt.encode (length tx.input)
          <+> encode_fixed tx.input
          <+> (outputs sizes).consensus_encode tx.output
          <+> u32.consensus_encode tx.lock_time).0
