-- ===== src/Transaction/Contract.antt =====
-- What the consensus encoding of blockdata/transaction.rs promises, for any sizes in memory.
use chaintopeslashrust_tapyr.Common.{◌≡◌, ◌≢◌, ◌↔◌, ◌++◌, length, All}
use chaintopeslashrust_tapyr.Outcome.{Bytes, IsByte, ok, panic}
use chaintopeslashrust_tapyr.Consensus.Reader.{serialize}
use chaintopeslashrust_tapyr.Consensus.Deserialize.{deserialize, deserialize-ne-panic}
use chaintopeslashrust_tapyr.Consensus.Contract.{inverse}
use chaintopeslashrust_tapyr.Transaction.{Sizes, Transaction, encode_tx, decode_tx, transaction}
use chaintopeslashrust_tapyr.Transaction.Segwit.{IsTransaction}
use chaintopeslashrust_tapyr.Transaction.Codec.{transaction-IsLawful}

module _ (sizes : Sizes) where
  -- A byte string is read as the transaction `tx` exactly when it is the encoding of `tx`, with or
  -- without witnesses, and `tx` is a transaction whose fields and vectors are within their limits.
  pub transaction_iff :
      (bs : Bytes) (tx : Transaction)
      → All IsByte bs
      → (deserialize (transaction sizes) bs ≡ ok tx)
        ↔ ((bs ≡ serialize (transaction sizes) tx) × IsTransaction sizes tx)
  transaction_iff = inverse (transaction-IsLawful sizes)

  -- The encoding of a transaction, witnesses included, reads back in front of any bytes, which are
  -- left, and the length that the encoder returns is that of what it wrote.
  pub decode_tx-encode_tx :
      (tx : Transaction) (rest : Bytes)
      → IsTransaction sizes tx
      → (decode_tx sizes ((encode_tx sizes tx).0 ++ rest) ≡ ok (tx, rest))
        × ((encode_tx sizes tx).1 ≡ length (encode_tx sizes tx).0)
  decode_tx-encode_tx tx rest h =
      let law = transaction-IsLawful sizes in (law.round_trip tx rest h, law.reports tx)

  -- No byte string makes the reading of a transaction panic.
  pub deserialize_tx-ne-panic :
      (bs : Bytes) → All IsByte bs → deserialize (transaction sizes) bs ≢ panic
  deserialize_tx-ne-panic = deserialize-ne-panic (transaction-IsLawful sizes)
