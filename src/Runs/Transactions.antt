-- ===== src/Runs/Transactions.antt =====
-- Runs of blockdata/transaction.rs.
use chaintopeslashrust_tapyr.Common.{◌≡◌, ◌≢◌, ◌↔◌, refl, arith, [], ◌∷◌, ◌++◌, length}
use chaintopeslashrust_tapyr.Outcome.{Bytes, ok, panic}
use chaintopeslashrust_tapyr.Consensus.Reader.{serialize}
use chaintopeslashrust_tapyr.Consensus.Deserialize.{deserialize}
use chaintopeslashrust_tapyr.Transaction.{encode_tx, decode_tx, transaction}
use chaintopeslashrust_tapyr.Transaction.Fields.{IsBareInput}
use chaintopeslashrust_tapyr.Transaction.Segwit.{IsTransaction}
use chaintopeslashrust_tapyr.Transaction.Codec.{transaction-IsLawful}
use chaintopeslashrust_tapyr.Transaction.Contract.{
  transaction_iff, decode_tx-encode_tx, deserialize_tx-ne-panic,
}
use chaintopeslashrust_tapyr.Runs.Values.{
  all_bytes_sound, sizes, segwit_tx, paid, legacy_input, zeros-IsByte, length-zeros,
}

legacy_input-IsBareInput : IsBareInput legacy_input
legacy_input-IsBareInput = record {
  outpoint = record { txid_size = (length-zeros 32, zeros-IsByte 32); vout_fits = omega arith };
  script_fits = (omega arith, all_bytes_sound legacy_input.script_sig refl);
  sequence_fits = omega arith;
  bare = refl;
}

pub segwit_tx-IsTransaction : IsTransaction sizes segwit_tx
segwit_tx-IsTransaction = record {
  version_fits = omega arith;
  inputs_fit = record {
    counted = omega arith;
    within = omega arith;
    each = (legacy_input-IsBareInput, (legacy_input-IsBareInput, tt));
  };
  witnesses_fit = (
    record {
      counted = omega arith;
      within = omega arith;
      each = ((omega arith, all_bytes_sound (1 ∷ 2 ∷ []) refl), tt);
    },
    (record { counted = omega arith; within = omega arith; each = tt }, tt),
  );
  outputs_fit = record {
    counted = omega arith;
    within = omega arith;
    each = (
      record {
        value_fits = omega arith;
        script_fits = (omega arith, all_bytes_sound paid.script_pubkey refl);
      },
      tt,
    );
  };
  lock_time_fits = omega arith;
}

abbrev no_inputs : Bytes
no_inputs = 1 ∷ 0 ∷ 0 ∷ 0 ∷ 0 ∷ 1 ∷ 0 ∷ 0 ∷ 7 ∷ 0 ∷ 0 ∷ 0 ∷ []

transaction_iff_example :
    (deserialize (transaction sizes) (serialize (transaction sizes) segwit_tx) ≡ ok segwit_tx) ↔ (
      (serialize (transaction sizes) segwit_tx ≡ serialize (transaction sizes) segwit_tx)
      × IsTransaction sizes segwit_tx)
transaction_iff_example =
    transaction_iff sizes (serialize (transaction sizes) segwit_tx) segwit_tx
      ((transaction-IsLawful sizes).writes segwit_tx segwit_tx-IsTransaction)

decode_tx-encode_tx_example :
    (decode_tx sizes ((encode_tx sizes segwit_tx).0 ++ (9 ∷ [])) ≡ ok (segwit_tx, 9 ∷ []))
    × ((encode_tx sizes segwit_tx).1 ≡ length (encode_tx sizes segwit_tx).0)
decode_tx-encode_tx_example = decode_tx-encode_tx sizes segwit_tx (9 ∷ []) segwit_tx-IsTransaction

deserialize_tx-ne-panic_example : deserialize (transaction sizes) no_inputs ≢ panic
deserialize_tx-ne-panic_example =
    deserialize_tx-ne-panic sizes no_inputs (all_bytes_sound no_inputs refl)
