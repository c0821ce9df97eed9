-- ===== src/Runs/Signing.antt =====
-- Runs of the ids and the signature hash of blockdata/transaction.rs.
use chaintopeslashrust_tapyr.Common.{◌≡◌, refl, arith, [], ◌∷◌, some}
use chaintopeslashrust_tapyr.Outcome.{Bytes}
use chaintopeslashrust_tapyr.Transaction.{Transaction}
use chaintopeslashrust_tapyr.Transaction.Ids.{txid, malfix_txid}
use chaintopeslashrust_tapyr.Transaction.Ids.Laws.{txid-strip, malfix_txid-unsigned}
use chaintopeslashrust_tapyr.Transaction.SigHash.{
  split_anyonecanpay_flag, type_of_flags, from_u32, signature_hash,
}
use chaintopeslashrust_tapyr.Transaction.SigHash.Laws.{signature_hash_total, signature_hash_alone}
use chaintopeslashrust_tapyr.Runs.Values.{toy, sizes, segwit_tx, paid, legacy_input, with_witness}

abbrev legacy_tx : Transaction
legacy_tx = record {
  version = 1;
  lock_time = 7;
  input = legacy_input ∷ legacy_input ∷ [];
  output = paid ∷ [];
}

-- As `legacy_tx`, with another script.
abbrev malleated_tx : Transaction
malleated_tx = record {
  version = 1;
  lock_time = 7;
  input = record legacy_input { script_sig = 0x53 ∷ [] } ∷ legacy_input ∷ [];
  output = paid ∷ [];
}

-- A transaction with the input that `legacy_tx` has, and nothing else in common but its frame.
abbrev other_tx : Transaction
other_tx = record { version = 1; lock_time = 7; input = with_witness ∷ []; output = [] }

txid-strip_example : txid sizes toy segwit_tx ≡ txid sizes toy legacy_tx
txid-strip_example = txid-strip sizes toy segwit_tx legacy_tx refl refl refl refl

malfix_txid-unsigned_example : malfix_txid sizes toy malleated_tx ≡ malfix_txid sizes toy legacy_tx
malfix_txid-unsigned_example =
    malfix_txid-unsigned sizes toy malleated_tx legacy_tx refl refl refl refl

signature_hash_total_example :
    (h : Bytes) × (signature_hash sizes toy segwit_tx 1 (0x51 ∷ []) 3 ≡ some h)
signature_hash_total_example =
    signature_hash_total sizes toy segwit_tx 1 (0x51 ∷ []) 3 (omega arith)

signature_hash_alone_example :
    signature_hash sizes toy segwit_tx 1 (0x51 ∷ []) 0x82
    ≡ signature_hash sizes toy other_tx 0 (0x51 ∷ []) 0x82
unfolding split_anyonecanpay_flag from_u32 type_of_flags
signature_hash_alone_example =
    signature_hash_alone sizes toy segwit_tx other_tx 1 0 (0x51 ∷ []) 0x82 legacy_input with_witness
      refl (omega arith) (omega arith) refl refl refl refl refl refl
