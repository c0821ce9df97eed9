-- ===== src/Transaction/Fields.antt =====
-- The contract of the parts of a transaction, blockdata/transaction.rs.
use chaintopeslashrust_tapyr.Common.{ℕ, ◌^◌, ◌<◌, ◌≡◌, refl, []}
use chaintopeslashrust_tapyr.Consensus.Codec.{IsLawful}
use chaintopeslashrust_tapyr.Consensus.Integers.Laws.{uint-IsLawful, byte_array-IsLawful, IsArray}
use chaintopeslashrust_tapyr.Consensus.Vectors.ByteVec.{byte_vec-IsLawful, IsVec}
use chaintopeslashrust_tapyr.Consensus.Structs.{pair-IsLawful, struct-IsLawful, bind_assoc}
use chaintopeslashrust_tapyr.Transaction.{OutPoint, TxIn, TxOut, out_point, tx_in, tx_out}

abbrev pub IsU32 : ℕ → Type 0
IsU32 v = v < 256 ^ 4

pub record IsOutPoint (o : OutPoint) : Type 0 where
  pub txid_size : IsArray 32 o.txid
  pub vout_fits : IsU32 o.vout

-- An input as it is encoded: without a witness.
pub record IsBareInput (t : TxIn) : Type 0 where
  pub outpoint : IsOutPoint t.previous_output
  pub script_fits : IsVec t.script_sig
  pub sequence_fits : IsU32 t.sequence
  pub bare : t.witness ≡ []

pub record IsTxOut (t : TxOut) : Type 0 where
  pub value_fits : t.value < 256 ^ 8
  pub script_fits : IsVec t.script_pubkey

pub out_point-IsLawful : IsLawful out_point IsOutPoint
unfolding out_point
out_point-IsLawful =
    struct-IsLawful (pair-IsLawful (byte_array-IsLawful 32) (uint-IsLawful 4)) out_point IsOutPoint
      (λ p. record { txid = p.0; vout = p.1 }) (λ o. (o.txid, o.vout))
      (λ o h. (h.txid_size, h.vout_fits)) (λ p h. record { txid_size = h.0; vout_fits = h.1 })
      (λ o h. refl) (λ p. refl) (λ o. refl) (λ bs. simp bind_assoc)

pub tx_in-IsLawful : IsLawful tx_in IsBareInput
unfolding tx_in
tx_in-IsLawful =
    struct-IsLawful
      (pair-IsLawful out_point-IsLawful (pair-IsLawful byte_vec-IsLawful (uint-IsLawful 4))) tx_in
      IsBareInput
      (λ p. record { previous_output = p.0; script_sig = p.1.0; sequence = p.1.1; witness = [] })
      (λ t. (t.previous_output, (t.script_sig, t.sequence)))
      (λ t h. (h.outpoint, (h.script_fits, h.sequence_fits)))
      (λ p h. record { outpoint = h.0; script_fits = h.1.0; sequence_fits = h.1.1; bare = refl })
      (λ t h. rw (← h.bare)) (λ p. refl) (λ t. refl) (λ bs. simp bind_assoc)

pub tx_out-IsLawful : IsLawful tx_out IsTxOut
unfolding tx_out
tx_out-IsLawful =
    struct-IsLawful (pair-IsLawful (uint-IsLawful 8) byte_vec-IsLawful) tx_out IsTxOut
      (λ p. record { value = p.0; script_pubkey = p.1 }) (λ t. (t.value, t.script_pubkey))
      (λ t h. (h.value_fits, h.script_fits)) (λ p h. record { value_fits = h.0; script_fits = h.1 })
      (λ t h. refl) (λ p. refl) (λ t. refl) (λ bs. simp bind_assoc)
