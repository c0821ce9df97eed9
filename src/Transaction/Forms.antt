-- ===== src/Transaction/Forms.antt =====
-- The two forms that a transaction is written in, blockdata/transaction.rs.
use chaintopeslashrust_tapyr.Common.{
  ℕ, ◌≡◌, refl, sym, ◌∙◌, subst, arith, List, ◌∷◌, ◌++◌, map, true, false, length, All, All-append,
  Bool-cases, inl, inr,
}
use chaintopeslashrust_tapyr.Outcome.{Bytes, IsByte, ok}
use chaintopeslashrust_tapyr.Consensus.Reader.{◌>>=◌, pure, serialize, ◌<+>◌, Encoded}
use chaintopeslashrust_tapyr.Consensus.Codec.{reports_both, was_read, read_back, joined, delivered}
use chaintopeslashrust_tapyr.Consensus.Integers.{u8, u32}
use chaintopeslashrust_tapyr.Consensus.Integers.Laws.{uint-IsLawful}
use chaintopeslashrust_tapyr.Consensus.Vectors.Elements.{IsVecOf}
use chaintopeslashrust_tapyr.Transaction.{
  Sizes, TxIn, TxOut, Transaction, have_witness, inputs, outputs, encode_witnesses, encode_tx,
  decode_rest,
}
use chaintopeslashrust_tapyr.Transaction.Witness.{
  strip, encode_witnesses_reports, encode_witnesses_writes,
}
use chaintopeslashrust_tapyr.Transaction.Segwit.{
  IsTransaction, inputs-IsLawful, outputs-IsLawful, inputs_stripped,
}
use chaintopeslashrust_tapyr.Transaction.Fields.{IsU32, IsBareInput, IsTxOut}

module _ (sizes : Sizes) where
  unfoldable pub plain_form : Transaction → Encoded
  plain_form tx =
      u32.consensus_encode tx.version
      <+> (inputs sizes).consensus_encode tx.input
      <+> (outputs sizes).consensus_encode tx.output
      <+> u32.consensus_encode tx.lock_time

  unfoldable pub segwit_form : Transaction → Encoded
  segwit_form tx =
      u32.consensus_encode tx.version
      <+> u8.consensus_encode 0
      <+> u8.consensus_encode 1
      <+> (inputs sizes).consensus_encode tx.input
      <+> (outputs sizes).consensus_encode tx.output
      <+> encode_witnesses sizes tx.input
      <+> u32.consensus_encode tx.lock_time

  pub encode_plain :
      (tx : Transaction) → have_witness tx.input ≡ false → encode_tx sizes tx ≡ plain_form tx
  unfolding encode_tx plain_form
  encode_plain tx w = rw w

  pub encode_segwit :
      (tx : Transaction) → have_witness tx.input ≡ true → encode_tx sizes tx ≡ segwit_form tx
  unfolding encode_tx segwit_form
  encode_segwit tx w = rw w

  pub plain_reads :
      (version lock_time : ℕ) (t : TxIn) (ts : List TxIn) (output : List TxOut) (rest : Bytes)
      → IsU32 lock_time
      → IsVecOf sizes.tx_out IsTxOut output
      → decode_rest sizes version
          (t ∷ ts)
          (serialize (outputs sizes) output ++ (serialize u32 lock_time ++ rest))
        ≡ ok (
          record { version = version; lock_time = lock_time; input = t ∷ ts; output = output },
          rest,
        )
  unfolding decode_rest
  plain_reads version lock_time t ts output rest hl ho =
      read_back (outputs-IsLawful sizes) _ output (serialize u32 lock_time ++ rest) ho
      ∙ read_back (uint-IsLawful 4) _ lock_time rest hl

  pub plain_sound :
      (version : ℕ) (t : TxIn) (ts : List TxIn) (bs rest : Bytes) (tx : Transaction)
      → All IsByte bs
      → decode_rest sizes version (t ∷ ts) bs ≡ ok (tx, rest)
      → (bs ≡ (serialize (outputs sizes) tx.output ++ serialize u32 tx.lock_time) ++ rest)
        × IsVecOf sizes.tx_out IsTxOut tx.output
        × IsU32 tx.lock_time
        × (tx.version ≡ version)
        × (tx.input ≡ t ∷ ts)
  unfolding decode_rest
  plain_sound version t ts bs rest tx h e =
      let (output, r, same, vo, hr, k) =
        was_read (outputs-IsLawful sizes)
          (λ output. u32.consensus_decode >>= λ l.
            pure (record { version = version; lock_time = l; input = t ∷ ts; output = output }))
          bs rest tx h e in
      let (l, r', same', vl, _, last) =
        was_read (uint-IsLawful 4)
          (λ l. pure (record { version = version; lock_time = l; input = t ∷ ts; output = output }))
          r rest tx hr k in
      delivered
        (λ u q.
          (bs ≡ (serialize (outputs sizes) u.output ++ serialize u32 u.lock_time) ++ q)
          × IsVecOf sizes.tx_out IsTxOut u.output
          × IsU32 u.lock_time
          × (u.version ≡ version)
          × (u.input ≡ t ∷ ts))
        last
        (
          joined (serialize (outputs sizes) output) (serialize u32 l) r' same same',
          vo,
          vl,
          refl,
          refl,
        )

  pub transaction_reports :
      (tx : Transaction) → (encode_tx sizes tx).1 ≡ length (encode_tx sizes tx).0
  unfolding plain_form segwit_form
  transaction_reports tx =
      let i = (inputs-IsLawful sizes).reports tx.input in
      let last = (uint-IsLawful 4).reports tx.lock_time in
      let o = (outputs-IsLawful sizes).reports tx.output in
      elim (Bool-cases (have_witness tx.input)) [
        | inl w ↦
            let tail : Encoded =
              (inputs sizes).consensus_encode tx.input
              <+> (outputs sizes).consensus_encode tx.output
              <+> encode_witnesses sizes tx.input
              <+> u32.consensus_encode tx.lock_time in
            let counted : tail.1 ≡ length tail.0 = reports_both _ _ i (
              reports_both _ _ o
                (reports_both _ _ (encode_witnesses_reports sizes tx.input) last)) in
            rw (encode_segwit tx w) (
              reports_both _ _ ((uint-IsLawful 4).reports tx.version) (
                reports_both (u8.consensus_encode 0) (u8.consensus_encode 1 <+> tail) refl
                  (reports_both (u8.consensus_encode 1) tail refl counted)))
        | inr w ↦ rw (encode_plain tx w) (
            reports_both _ _ ((uint-IsLawful 4).reports tx.version)
              (reports_both _ _ i (reports_both _ _ o last)))
      ]

  inputs_write :
      (ts : List TxIn)
      → IsVecOf sizes.tx_in IsBareInput (map strip ts)
      → All IsByte (serialize (inputs sizes) ts)
  inputs_write ts h =
      subst (All IsByte) (sym (inputs_stripped sizes ts))
        ((inputs-IsLawful sizes).writes (map strip ts) h)

  pub transaction_writes :
      (tx : Transaction) → IsTransaction sizes tx → All IsByte (encode_tx sizes tx).0
  unfolding plain_form segwit_form
  transaction_writes tx h =
      let i = inputs_write tx.input h.inputs_fit in
      let last = (uint-IsLawful 4).writes tx.lock_time h.lock_time_fits in
      let o = (outputs-IsLawful sizes).writes tx.output h.outputs_fit in
      let first = (uint-IsLawful 4).writes tx.version h.version_fits in
      elim (Bool-cases (have_witness tx.input)) [
        | inl w ↦ rw (encode_segwit tx w) (
            All-append IsByte _ _ first (
              omega arith,
              (
                omega arith,
                All-append IsByte _ _ i (
                    All-append IsByte _ _ o (
                      All-append IsByte _ _ (encode_witnesses_writes sizes tx.input h.witnesses_fit)
                        last)),
              ),
            ))
        | inr w ↦
            rw (encode_plain tx w)
              (All-append IsByte _ _ first (All-append IsByte _ _ i (All-append IsByte _ _ o last)))
      ]
