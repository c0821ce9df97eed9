-- ===== src/Transaction/Segwit.antt =====
-- The segwit form of a transaction, blockdata/transaction.rs.
use chaintopeslashrust_tapyr.Common.{
  ℕ, ◌≡◌, ◌≢◌, refl, sym, ap, ◌∙◌, subst, arith, List, [], ◌∷◌, ◌++◌, append_assoc, map, true, not,
  ◌&&◌, is_empty, ◌==◌, ==→eq, All, Bool-cases, inl, inr,
}
use chaintopeslashrust_tapyr.Outcome.{Bytes, IsByte, Result, ok, err, panic, bind, bind_inv}
use chaintopeslashrust_tapyr.Consensus.Reader.{Error, ◌>>=◌, pure, serialize}
use chaintopeslashrust_tapyr.Consensus.Codec.{IsLawful, was_read, no_panic, read_back, delivered}
use chaintopeslashrust_tapyr.Consensus.Integers.{u32}
use chaintopeslashrust_tapyr.Consensus.Integers.Laws.{uint-IsLawful}
use chaintopeslashrust_tapyr.Consensus.Vectors.Elements.{vec-IsLawful, IsVecOf, encode_vec-map}
use chaintopeslashrust_tapyr.Transaction.{
  Sizes, TxIn, TxOut, Transaction, tx_in, have_witness, all_witnesses_empty, inputs, outputs,
  encode_witnesses, decode_witnesses, finish_segwit, decode_segwit,
}
use chaintopeslashrust_tapyr.Transaction.Witness.{
  strip, have_witness-nil, have_witness-cons, HasWitness, decode_witnesses-encode_witnesses,
  decode_witnesses_sound, decode_witnesses-ne-panic,
}
use chaintopeslashrust_tapyr.Transaction.Fields.{
  IsU32, IsBareInput, IsTxOut, tx_in-IsLawful, tx_out-IsLawful,
}

-- The test that ends the segwit branch refuses what the encoder would not write so.
refuses-have_witness :
    (input : List TxIn)
    → (not (is_empty input) && all_witnesses_empty input) ≡ not (have_witness input)
refuses-have_witness [] = rw have_witness-nil
refuses-have_witness (t ∷ ts) = ground (arith, have_witness-cons t ts)

pub regroup : (a b c d r : Bytes) → (a ++ (b ++ (c ++ d))) ++ r ≡ a ++ (b ++ (c ++ (d ++ r)))
regroup a b c d r = simp append_assoc

module _ (sizes : Sizes) where
  -- A transaction that the library can read: fields in range, and vectors within the limit.
  pub record IsTransaction (tx : Transaction) : Type 0 where
    pub version_fits : IsU32 tx.version
    pub inputs_fit : IsVecOf sizes.tx_in IsBareInput (map strip tx.input)
    pub witnesses_fit : All (HasWitness sizes) tx.input
    pub outputs_fit : IsVecOf sizes.tx_out IsTxOut tx.output
    pub lock_time_fits : IsU32 tx.lock_time

  pub inputs-IsLawful : IsLawful (inputs sizes) (IsVecOf sizes.tx_in IsBareInput)
  inputs-IsLawful = vec-IsLawful tx_in-IsLawful sizes.tx_in

  pub outputs-IsLawful : IsLawful (outputs sizes) (IsVecOf sizes.tx_out IsTxOut)
  outputs-IsLawful = vec-IsLawful tx_out-IsLawful sizes.tx_out

  pub inputs_stripped :
      (ts : List TxIn) → serialize (inputs sizes) ts ≡ serialize (inputs sizes) (map strip ts)
  inputs_stripped ts =
      ap (λ e. e.0) (sym (encode_vec-map tx_in strip (λ t. unfold tx_in in refl) ts))

  finish_reads :
      (version lock_time : ℕ) (output : List TxOut) (input : List TxIn) (rest : Bytes)
      → IsU32 lock_time
      → have_witness input ≡ true
      → finish_segwit sizes version output input (serialize u32 lock_time ++ rest)
        ≡ ok (
          record { version = version; lock_time = lock_time; input = input; output = output },
          rest,
        )
  unfolding finish_segwit
  finish_reads version lock_time output input rest fits w =
      rw (refuses-have_witness input, w, (uint-IsLawful 4).round_trip lock_time rest fits)

  finish_sound :
      (version : ℕ) (output : List TxOut) (input : List TxIn) (bs rest : Bytes) (tx : Transaction)
      → All IsByte bs
      → finish_segwit sizes version output input bs ≡ ok (tx, rest)
      → (bs ≡ serialize u32 tx.lock_time ++ rest)
        × IsU32 tx.lock_time
        × (tx.version ≡ version)
        × (tx.output ≡ output)
        × (tx.input ≡ input)
        × (have_witness input ≡ true)
  unfolding finish_segwit
  finish_sound version output input bs rest tx h e = elim (Bool-cases (have_witness input)) [
    | inr bare ↦ absurd (ground (arith, refuses-have_witness input))
    | inl w ↦
        let k = rw (refuses-have_witness input, w) at e in
        let (lock_time, r, same, fits, _, last) =
          was_read (uint-IsLawful 4)
            (λ l.
              pure (record { version = version; lock_time = l; input = input; output = output }))
            bs rest tx h k in
        delivered
          (λ u t.
            (bs ≡ serialize u32 u.lock_time ++ t)
            × IsU32 u.lock_time
            × (u.version ≡ version)
            × (u.output ≡ output)
            × (u.input ≡ input)
            × (have_witness input ≡ true))
          last (same, fits, refl, refl, refl, w)
  ]

  -- What stands between the flag and the end.
  abbrev pub segwit_body : Transaction → Bytes
  segwit_body tx =
      serialize (inputs sizes) tx.input
      ++ (serialize (outputs sizes) tx.output
          ++ ((encode_witnesses sizes tx.input).0 ++ serialize u32 tx.lock_time))

  pub segwit_reads :
      (tx : Transaction) (rest : Bytes)
      → IsTransaction tx
      → have_witness tx.input ≡ true
      → decode_segwit sizes tx.version 1 (segwit_body tx ++ rest) ≡ ok (tx, rest)
  unfolding decode_segwit
  segwit_reads tx rest h w =
      ap (decode_segwit sizes tx.version 1) (
        regroup (serialize (inputs sizes) tx.input) (serialize (outputs sizes) tx.output)
          (encode_witnesses sizes tx.input).0 (serialize u32 tx.lock_time) rest
        ∙ ap
            (λ t.
              t
              ++ (serialize (outputs sizes) tx.output
                  ++ ((encode_witnesses sizes tx.input).0 ++ (serialize u32 tx.lock_time ++ rest))))
            (inputs_stripped tx.input))
      ∙ read_back inputs-IsLawful _ (map strip tx.input) _ h.inputs_fit
      ∙ read_back outputs-IsLawful _ tx.output _ h.outputs_fit
      ∙ ap (λ m. bind m (λ p. finish_segwit sizes tx.version tx.output p.0 p.1))
          (decode_witnesses-encode_witnesses sizes tx.input _ h.witnesses_fit)
      ∙ finish_reads tx.version tx.lock_time tx.output tx.input rest h.lock_time_fits w

  pub segwit_sound :
      (version flag : ℕ) (bs rest : Bytes) (tx : Transaction)
      → IsU32 version
      → All IsByte bs
      → decode_segwit sizes version flag bs ≡ ok (tx, rest)
      → (flag ≡ 1)
        × (bs ≡ segwit_body tx ++ rest)
        × IsTransaction tx
        × (have_witness tx.input ≡ true)
        × (tx.version ≡ version)
  unfolding decode_segwit
  segwit_sound version flag bs rest tx vf h e = elim (Bool-cases (flag == 1)) [
    | inr other ↦ absurd (ground arith)
    | inl one ↦
        let (bare, r, same, vi, hr, k) =
          was_read inputs-IsLawful
            (λ input. (outputs sizes).consensus_decode >>= λ output.
              decode_witnesses sizes input >>= λ us. finish_segwit sizes version output us)
            bs rest tx h (rw one at e) in
        let (output, r₁, same₁, vo, hr₁, k₁) =
          was_read outputs-IsLawful
            (λ output. decode_witnesses sizes bare >>= λ us. finish_segwit sizes version output us)
            r rest tx hr k in
        let ((us, r₂), d, k₂) =
          bind_inv (decode_witnesses sizes bare r₁)
            (λ p. finish_segwit sizes version output p.0 p.1) k₁ in
        let (same₂, stripped, vw, hr₂) = decode_witnesses_sound sizes bare r₁ r₂ us hr₁ vi.each d in
        let (same₃, vl, ev, eo, ei, w) = finish_sound version output us r₂ rest tx hr₂ k₂ in
        let image : bs
            ≡ serialize (inputs sizes) bare
              ++ (serialize (outputs sizes) output
                  ++ ((encode_witnesses sizes us).0 ++ (serialize u32 tx.lock_time ++ rest))) =
          cc (same, same₁, same₂, same₃) in
        let stripped_input : map strip tx.input ≡ bare = ap (map strip) ei ∙ stripped in
        (
          ==→eq flag 1 one,
          cc (
            regroup (serialize (inputs sizes) tx.input) (serialize (outputs sizes) tx.output)
                (encode_witnesses sizes tx.input).0 (serialize u32 tx.lock_time) rest,
            inputs_stripped tx.input,
            stripped_input,
            ei,
            eo,
          ),
          record {
            version_fits = subst IsU32 (sym ev) vf;
            inputs_fit = subst (IsVecOf sizes.tx_in IsBareInput) (sym stripped_input) vi;
            witnesses_fit = subst (All (HasWitness sizes)) (sym ei) vw;
            outputs_fit = subst (IsVecOf sizes.tx_out IsTxOut) (sym eo) vo;
            lock_time_fits = vl;
          },
          subst (λ i. have_witness i ≡ true) (sym ei) w,
          ev,
        )
  ]

  finish-ne-panic :
      (version : ℕ) (output : List TxOut) (input : List TxIn) (bs : Bytes)
      → All IsByte bs
      → finish_segwit sizes version output input bs ≢ panic
  unfolding finish_segwit
  finish-ne-panic version output input bs h =
      elim (Bool-cases (not (is_empty input) && all_witnesses_empty input)) [
        | inl bare ↦ rw bare (λ e. cc)
        | inr w ↦ rw w (
            no_panic (uint-IsLawful 4)
              (λ l.
                pure (record { version = version; lock_time = l; input = input; output = output }))
              bs h (λ l r _ _. λ e. cc))
      ]

  witnesses_finish :
      (version : ℕ) (output : List TxOut) (bare : List TxIn) (bs : Bytes)
      → All IsBareInput bare
      → All IsByte bs
      → (decode_witnesses sizes bare >>= λ us. finish_segwit sizes version output us) bs ≢ panic
  witnesses_finish version output bare bs v h = go (decode_witnesses sizes bare bs) refl
    where
      go :
          (m : Result Error (List TxIn × Bytes))
          → decode_witnesses sizes bare bs ≡ m
          → bind m (λ p. finish_segwit sizes version output p.0 p.1) ≢ panic
      go (ok (us, r)) d =
          finish-ne-panic version output us r (decode_witnesses_sound sizes bare bs r us h v d).3
      go (err x) d = λ e. cc
      go panic d = λ e. decode_witnesses-ne-panic sizes bare bs h d

  pub segwit-ne-panic :
      (version flag : ℕ) (bs : Bytes) → All IsByte bs → decode_segwit sizes version flag bs ≢ panic
  unfolding decode_segwit
  segwit-ne-panic version flag bs h = elim (Bool-cases (flag == 1)) [
    | inr other ↦ rw other (λ e. cc)
    | inl one ↦ rw one (
        no_panic inputs-IsLawful _ bs h (λ bare r vi hr.
          no_panic outputs-IsLawful _ r hr
            (λ output r₁ _ hr₁. witnesses_finish version output bare r₁ vi.each hr₁)))
  ]
