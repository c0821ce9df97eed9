-- ===== src/Transaction/Ids/Laws.antt =====
-- blockdata/transaction.rs: what the ids of a transaction depend on.
use chaintopeslashrust_tapyr.Common.{
  ℕ, suc, length, ◌++◌, ◌≡◌, refl, sym, ap, ◌∙◌, arith, false, List, [], ◌∷◌, map,
}
use chaintopeslashrust_tapyr.Outcome.{Bytes}
use chaintopeslashrust_tapyr.Hashes.{HashFunction}
use chaintopeslashrust_tapyr.Consensus.Reader.{Encoded, ◌<+>◌, serialize}
use chaintopeslashrust_tapyr.Consensus.Integers.{u32}
use chaintopeslashrust_tapyr.Consensus.VarInt
use chaintopeslashrust_tapyr.Transaction.{
  Sizes, TxIn, TxOut, Transaction, inputs, outputs, encode_tx, have_witness, out_point,
}
use chaintopeslashrust_tapyr.Transaction.Witness.{strip}
use chaintopeslashrust_tapyr.Transaction.Segwit.{inputs_stripped}
use chaintopeslashrust_tapyr.Transaction.Ids.{
  unsigned_input, encode_fixed, txid, ntxid, wtxid, malfix_txid,
}

module _ (sizes : Sizes) (sha256d : HashFunction 32) where
  -- A transaction that is written without witnesses has one id: its `wtxid` is its `txid`.
  wtxid-txid :
      (tx : Transaction)
      → have_witness tx.input ≡ false
      → wtxid sizes sha256d tx ≡ txid sizes sha256d tx
  unfolding wtxid txid encode_tx
  wtxid-txid tx h = ground (arith, h)

  -- The `txid` does not depend on the witnesses: transactions that differ in nothing else share it.
  pub txid-strip :
      (tx tx' : Transaction)
      → tx.version ≡ tx'.version
      → tx.lock_time ≡ tx'.lock_time
      → tx.output ≡ tx'.output
      → map strip tx.input ≡ map strip tx'.input
      → txid sizes sha256d tx ≡ txid sizes sha256d tx'
  unfolding txid
  txid-strip tx tx' v l o i =
      let same : serialize (inputs sizes) tx.input ≡ serialize (inputs sizes) tx'.input =
        inputs_stripped sizes tx.input
        ∙ ap (serialize (inputs sizes)) i
        ∙ sym (inputs_stripped sizes tx'.input) in
      ap
        (λ (q : ℕ × ℕ × List TxOut × Bytes).
          sha256d.hash
            (serialize u32 q.0 ++ (q.3 ++ (serialize (outputs sizes) q.2 ++ serialize u32 q.1))))
        (λ j. (v j, l j, o j, same j))

  -- The normalized id does not depend on the scripts and witnesses of the inputs: transactions that
  -- differ in nothing else share it.
  pub ntxid-unsigned :
      (tx tx' : Transaction)
      → tx.version ≡ tx'.version
      → tx.lock_time ≡ tx'.lock_time
      → tx.output ≡ tx'.output
      → map unsigned_input tx.input ≡ map unsigned_input tx'.input
      → ntxid sizes sha256d tx ≡ ntxid sizes sha256d tx'
  unfolding ntxid
  ntxid-unsigned tx tx' v l o i =
      txid-strip (record tx { input = map unsigned_input tx.input })
        (record tx' { input = map unsigned_input tx'.input }) v l o (ap (map strip) i)

fixed-unsigned : (ts : List TxIn) → encode_fixed ts ≡ encode_fixed (map unsigned_input ts)
unfolding encode_fixed
fixed-unsigned [] = refl
fixed-unsigned (t ∷ ts) =
    ap (λ e. out_point.consensus_encode t.previous_output <+> u32.consensus_encode t.sequence <+> e)
      (fixed-unsigned ts)

length-unsigned : (ts : List TxIn) → length ts ≡ length (map unsigned_input ts)
length-unsigned [] = refl
length-unsigned (t ∷ ts) = ap suc (length-unsigned ts)

module _ (sizes : Sizes) (sha256d : HashFunction 32) where
  -- The id against malleation does not depend on the scripts and witnesses of the inputs:
  -- transactions that differ in nothing else share it.
  pub malfix_txid-unsigned :
      (tx tx' : Transaction)
      → tx.version ≡ tx'.version
      → tx.lock_time ≡ tx'.lock_time
      → tx.output ≡ tx'.output
      → map unsigned_input tx.input ≡ map unsigned_input tx'.input
      → malfix_txid sizes sha256d tx ≡ malfix_txid sizes sha256d tx'
  unfolding malfix_txid
  malfix_txid-unsigned tx tx' v l o i =
      let fixed : encode_fixed tx.input ≡ encode_fixed tx'.input =
        fixed-unsigned tx.input ∙ ap encode_fixed i ∙ sym (fixed-unsigned tx'.input) in
      let count : length tx.input ≡ length tx'.input =
        length-unsigned tx.input ∙ ap length i ∙ sym (length-unsigned tx'.input) in
      ap
        (λ (q : ℕ × ℕ × List TxOut × ℕ × Encoded). sha256d.hash (
          serialize u32 q.0
          ++ ((VarInt.encode q.3).0
              ++ (q.4.0 ++ (serialize (outputs sizes) q.2 ++ serialize u32 q.1)))))
        (λ j. (v j, l j, o j, count j, fixed j))
