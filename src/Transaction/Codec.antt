-- ===== src/Transaction/Codec.antt =====
-- The contract of `Transaction` of blockdata/transaction.rs, with and without witnesses.
use chaintopeslashrust_tapyr.Common.{
  ℕ, ◌≡◌, ◌≢◌, refl, sym, ap, ◌∙◌, subst, arith, List, [], ◌∷◌, ◌++◌, append_assoc, map, true,
  false, not, All, Bool-cases, inl, inr,
}
use chaintopeslashrust_tapyr.Outcome.{Bytes, IsByte, ok, panic}
use chaintopeslashrust_tapyr.Consensus.Reader.{◌>>=◌, pure, serialize}
use chaintopeslashrust_tapyr.Consensus.Codec.{IsLawful, was_read, no_panic, read_back}
use chaintopeslashrust_tapyr.Consensus.Integers.{u32}
use chaintopeslashrust_tapyr.Consensus.Integers.Laws.{uint-IsLawful, u8-IsLawful}
use chaintopeslashrust_tapyr.Consensus.Vectors.Elements.{IsVecOf, encode_vec-nil}
use chaintopeslashrust_tapyr.Transaction.{
  Sizes, TxIn, TxOut, Transaction, tx_in, have_witness, all_witnesses_empty, inputs, outputs,
  encode_tx, decode_segwit, decode_rest, decode_tx, transaction,
}
use chaintopeslashrust_tapyr.Transaction.Witness.{
  strip, have_witness-nil, have_witness-cons, strip_all, HasWitness,
}
use chaintopeslashrust_tapyr.Transaction.Segwit.{
  regroup, IsTransaction, inputs-IsLawful, outputs-IsLawful, segwit_body, segwit_reads,
  segwit_sound, segwit-ne-panic,
}
use chaintopeslashrust_tapyr.Transaction.Forms.{
  plain_form, segwit_form, encode_plain, encode_segwit, plain_reads, plain_sound,
  transaction_reports, transaction_writes,
}
use chaintopeslashrust_tapyr.Transaction.Fields.{IsU32, IsBareInput, IsTxOut}

module _ (sizes : Sizes) where
  rest_nil :
      (version : ℕ) (flag : ℕ) (bs : Bytes)
      → IsByte flag
      → decode_rest sizes version [] (flag ∷ bs) ≡ decode_segwit sizes version flag bs
  unfolding decode_rest
  rest_nil version flag bs h = read_back u8-IsLawful (decode_segwit sizes version) flag bs h

  -- What follows the version, read back.
  body_reads :
      (tx : Transaction) (rest : Bytes)
      → IsTransaction sizes tx
      → have_witness tx.input ≡ true
      → ((inputs sizes).consensus_decode >>= decode_rest sizes tx.version)
          (0 ∷ 1 ∷ (segwit_body sizes tx ++ rest))
        ≡ ok (tx, rest)
  body_reads tx rest h w =
      ap
        (λ t.
          ((inputs sizes).consensus_decode >>= decode_rest sizes tx.version)
            (t ++ (1 ∷ (segwit_body sizes tx ++ rest))))
        (sym (encode_vec-nil tx_in))
      ∙ read_back (inputs-IsLawful sizes) (decode_rest sizes tx.version) []
          (1 ∷ (segwit_body sizes tx ++ rest)) (omega arith)
      ∙ rest_nil tx.version 1 (segwit_body sizes tx ++ rest) (omega arith)
      ∙ segwit_reads sizes tx rest h w

  body_reads_plain :
      (version lock_time : ℕ) (input : List TxIn) (output : List TxOut) (rest : Bytes)
      → IsU32 lock_time
      → IsVecOf sizes.tx_in IsBareInput (map strip input)
      → IsVecOf sizes.tx_out IsTxOut output
      → have_witness input ≡ false
      → ((inputs sizes).consensus_decode >>= decode_rest sizes version) (
          serialize (inputs sizes) input
          ++ (serialize (outputs sizes) output ++ (serialize u32 lock_time ++ rest)))
        ≡ ok (
          record { version = version; lock_time = lock_time; input = input; output = output },
          rest,
        )
  body_reads_plain version lock_time [] output rest hl hi ho w = absurd (cc (w, have_witness-nil))
  body_reads_plain version lock_time (t ∷ ts) output rest hl hi ho w =
      let bare : map strip (t ∷ ts) ≡ t ∷ ts =
        strip_all (t ∷ ts) (ground (arith, have_witness-cons t ts)) in
      read_back (inputs-IsLawful sizes) (decode_rest sizes version) (t ∷ ts) _
        (subst (IsVecOf sizes.tx_in IsBareInput) bare hi)
      ∙ plain_reads sizes version lock_time t ts output rest hl ho

  transaction_reads :
      (tx : Transaction) (rest : Bytes)
      → IsTransaction sizes tx
      → decode_tx sizes ((encode_tx sizes tx).0 ++ rest) ≡ ok (tx, rest)
  unfolding plain_form segwit_form decode_tx
  transaction_reads tx rest h = elim (Bool-cases (have_witness tx.input)) [
    | inl w ↦ rw (encode_segwit sizes tx w) (
        ap (decode_tx sizes) (append_assoc (serialize u32 tx.version) _ rest)
        ∙ read_back (uint-IsLawful 4) _ tx.version _ h.version_fits
        ∙ body_reads tx rest h w)
    | inr w ↦ rw (encode_plain sizes tx w) (
        ap (decode_tx sizes) (
          regroup (serialize u32 tx.version) (serialize (inputs sizes) tx.input)
            (serialize (outputs sizes) tx.output) (serialize u32 tx.lock_time) rest)
        ∙ read_back (uint-IsLawful 4) _ tx.version _ h.version_fits
        ∙ body_reads_plain tx.version tx.lock_time tx.input tx.output rest h.lock_time_fits
            h.inputs_fit h.outputs_fit w)
  ]

  bare_inputs : (ts : List TxIn) → All IsBareInput ts → all_witnesses_empty ts ≡ true
  unfolding all_witnesses_empty
  bare_inputs [] h = refl
  bare_inputs (t ∷ ts) (ht, hs) = rw (ht.bare, bare_inputs ts hs)

  no_witness : (t : TxIn) → IsBareInput t → HasWitness sizes t
  no_witness t h = rw h.bare (omega arith)

  no_witnesses : (ts : List TxIn) → All IsBareInput ts → All (HasWitness sizes) ts
  no_witnesses [] h = tt
  no_witnesses (t ∷ ts) (ht, hs) = (no_witness t ht, no_witnesses ts hs)

  body_sound :
      (version : ℕ) (xs : List TxIn) (bs r rest : Bytes) (tx : Transaction)
      → IsU32 version
      → bs ≡ serialize u32 version ++ (serialize (inputs sizes) xs ++ r)
      → IsVecOf sizes.tx_in IsBareInput xs
      → All IsByte r
      → decode_rest sizes version xs r ≡ ok (tx, rest)
      → (bs ≡ (encode_tx sizes tx).0 ++ rest) × IsTransaction sizes tx
  unfolding plain_form segwit_form
  body_sound version [] bs r rest tx hv front vi hr e =
      let (flag, r', same, hf, hr', k) =
        was_read u8-IsLawful (decode_segwit sizes version) r rest tx hr (unfold decode_rest in e) in
      let (one, image, valid, w, ev) = segwit_sound sizes version flag r' rest tx hv hr' k in
      let whole : bs ≡ (segwit_form sizes tx).0 ++ rest =
        front
        ∙ ap (λ q. serialize u32 q ++ (serialize (inputs sizes) [] ++ r)) (sym ev)
        ∙ ap (λ q. serialize u32 tx.version ++ (q ++ r)) (encode_vec-nil tx_in)
        ∙ ap (λ q. serialize u32 tx.version ++ (0 ∷ q))
            (same ∙ ap (λ f. f ∷ r') one ∙ ap (λ q. 1 ∷ q) image)
        ∙ sym (append_assoc (serialize u32 tx.version) (0 ∷ 1 ∷ segwit_body sizes tx) rest) in
      (whole ∙ ap (λ e. e.0 ++ rest) (sym (encode_segwit sizes tx w)), valid)
  body_sound version (t ∷ ts) bs r rest tx hv front vi hr e =
      let (image, vo, vl, ev, ei) = plain_sound sizes version t ts r rest tx hr e in
      let bare = bare_inputs (t ∷ ts) vi.each in
      let w : have_witness tx.input ≡ false =
        ap have_witness ei ∙ have_witness-cons t ts ∙ ap not bare in
      let stripped : map strip tx.input ≡ t ∷ ts = ap (map strip) ei ∙ strip_all (t ∷ ts) bare in
      let front_of : bs ≡ serialize u32 tx.version ++ (serialize (inputs sizes) tx.input ++ r) =
        front
        ∙ ap (λ q. serialize u32 q ++ (serialize (inputs sizes) (t ∷ ts) ++ r)) (sym ev)
        ∙ ap (λ q. serialize u32 tx.version ++ (serialize (inputs sizes) q ++ r)) (sym ei) in
      let whole : bs ≡ (plain_form sizes tx).0 ++ rest =
        front_of
        ∙ ap (λ q. serialize u32 tx.version ++ (serialize (inputs sizes) tx.input ++ q))
            (image
              ∙ append_assoc (serialize (outputs sizes) tx.output) (serialize u32 tx.lock_time)
                  rest)
        ∙ sym (
            regroup (serialize u32 tx.version) (serialize (inputs sizes) tx.input)
              (serialize (outputs sizes) tx.output) (serialize u32 tx.lock_time) rest) in
      (
        whole ∙ ap (λ e. e.0 ++ rest) (sym (encode_plain sizes tx w)),
        record {
          version_fits = subst IsU32 (sym ev) hv;
          inputs_fit = subst (IsVecOf sizes.tx_in IsBareInput) (sym stripped) vi;
          witnesses_fit = subst (All (HasWitness sizes)) (sym ei) (no_witnesses (t ∷ ts) vi.each);
          outputs_fit = vo;
          lock_time_fits = vl;
        },
      )

  transaction_sound :
      (bs rest : Bytes) (tx : Transaction)
      → All IsByte bs
      → decode_tx sizes bs ≡ ok (tx, rest)
      → (bs ≡ (encode_tx sizes tx).0 ++ rest) × IsTransaction sizes tx
  unfolding decode_tx
  transaction_sound bs rest tx h e =
      let (version, r, same, hv, hr, k) =
        was_read (uint-IsLawful 4)
          (λ version. (inputs sizes).consensus_decode >>= decode_rest sizes version) bs rest tx h
          e in
      let (xs, r', same', vi, hr', k') =
        was_read (inputs-IsLawful sizes) (decode_rest sizes version) r rest tx hr k in
      body_sound version xs bs r' rest tx hv (same ∙ ap (λ q. serialize u32 version ++ q) same') vi
        hr' k'

  rest-ne-panic :
      (version : ℕ) (xs : List TxIn) (bs : Bytes)
      → All IsByte bs
      → decode_rest sizes version xs bs ≢ panic
  unfolding decode_rest
  rest-ne-panic version [] bs h =
      no_panic u8-IsLawful (decode_segwit sizes version) bs h
        (λ flag r _ hr. segwit-ne-panic sizes version flag r hr)
  rest-ne-panic version (t ∷ ts) bs h = no_panic (outputs-IsLawful sizes) _ bs h (λ output r _ hr.
      no_panic (uint-IsLawful 4)
        (λ l. pure (record { version = version; lock_time = l; input = t ∷ ts; output = output })) r
        hr (λ l r' _ _. λ e. cc))

  -- A transaction, in either form.
  pub transaction-IsLawful : IsLawful (transaction sizes) (IsTransaction sizes)
  transaction-IsLawful = record {
    reports = transaction_reports sizes;
    writes = transaction_writes sizes;
    round_trip = transaction_reads;
    canonical = transaction_sound;
    total = λ bs h.
        unfold decode_tx in
        no_panic (uint-IsLawful 4) _ bs h (λ version r _ hr.
          no_panic (inputs-IsLawful sizes) (decode_rest sizes version) r hr
            (λ xs r' _ hr'. rest-ne-panic version xs r' hr'));
  }
