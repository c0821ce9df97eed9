-- ===== src/Transaction/Witness.antt =====
-- The witnesses of a transaction's inputs, of blockdata/transaction.rs, with and without witnesses.
use chaintopeslashrust_tapyr.Common.{
  ◌≡◌, ◌≢◌, refl, sym, ap, arith, List, [], ◌∷◌, ◌++◌, append_assoc, map, true, false, not,
  is_empty, length, All, All-append,
}
use chaintopeslashrust_tapyr.Outcome.{Bytes, IsByte, ok, panic, bind_inv}
use chaintopeslashrust_tapyr.Consensus.Reader.{Consensus, ◌>>=◌, pure, serialize}
use chaintopeslashrust_tapyr.Consensus.Codec.{
  IsLawful, reports_both, was_read, no_panic, joined, delivered,
}
use chaintopeslashrust_tapyr.Consensus.Vectors.ByteVec.{byte_vec-IsLawful, IsVec}
use chaintopeslashrust_tapyr.Consensus.Vectors.Elements.{vec-IsLawful, IsVecOf}
use chaintopeslashrust_tapyr.Transaction.{
  Sizes, TxIn, find_witness, have_witness, all_witnesses_empty, witness_codec, encode_witnesses,
  decode_witnesses,
}
use chaintopeslashrust_tapyr.Transaction.Fields.{IsBareInput}

-- An input without its witness: what the vector of inputs holds on the wire.
abbrev pub strip : TxIn → TxIn
strip t = record t { witness = [] }

find_witness-all : (ts : List TxIn) → find_witness false ts ≡ not (all_witnesses_empty ts)
unfolding find_witness all_witnesses_empty
find_witness-all [] = refl
find_witness-all (t ∷ ts) = ground (arith, find_witness-all ts)

pub have_witness-nil : have_witness [] ≡ true
unfolding have_witness find_witness
have_witness-nil = refl

pub have_witness-cons :
    (t : TxIn) (ts : List TxIn) → have_witness (t ∷ ts) ≡ not (all_witnesses_empty (t ∷ ts))
unfolding have_witness
have_witness-cons t ts = find_witness-all (t ∷ ts)

is_empty-nil : (xs : List Bytes) → is_empty xs ≡ true → xs ≡ []
is_empty-nil [] h = refl
is_empty-nil (x ∷ xs) h = cc

pub strip_all : (ts : List TxIn) → all_witnesses_empty ts ≡ true → map strip ts ≡ ts
unfolding all_witnesses_empty
strip_all [] h = refl
strip_all (t ∷ ts) h =
    let bare : t.witness ≡ [] = is_empty-nil t.witness (ground arith) in
    let same : strip t ≡ t = ap (λ w. record t { witness = w }) (sym bare) in
    rw (same, strip_all ts (ground arith))

module _ (sizes : Sizes) where
  abbrev pub HasWitness : TxIn → Type 0
  HasWitness t = IsVecOf sizes.byte_vec IsVec t.witness

  pub witness-IsLawful : IsLawful (witness_codec sizes) (IsVecOf sizes.byte_vec IsVec)
  witness-IsLawful = vec-IsLawful byte_vec-IsLawful sizes.byte_vec

  pub decode_witnesses-encode_witnesses :
      (ts : List TxIn) (rest : Bytes)
      → All HasWitness ts
      → decode_witnesses sizes (map strip ts) ((encode_witnesses sizes ts).0 ++ rest)
        ≡ ok (ts, rest)
  unfolding encode_witnesses decode_witnesses
  decode_witnesses-encode_witnesses [] rest h = refl
  decode_witnesses-encode_witnesses (t ∷ ts) rest (ht, hs) = rw (
    append_assoc,
    witness-IsLawful.round_trip t.witness ((encode_witnesses sizes ts).0 ++ rest) ht,
    decode_witnesses-encode_witnesses ts rest hs,
  )

  pub decode_witnesses_sound :
      (bare : List TxIn) (bs rest : Bytes) (ts : List TxIn)
      → All IsByte bs
      → All IsBareInput bare
      → decode_witnesses sizes bare bs ≡ ok (ts, rest)
      → (bs ≡ (encode_witnesses sizes ts).0 ++ rest)
        × (map strip ts ≡ bare)
        × All HasWitness ts
        × All IsByte rest
  unfolding encode_witnesses decode_witnesses
  decode_witnesses_sound [] bs rest ts h v e =
      delivered
        (λ us r.
          (bs ≡ (encode_witnesses sizes us).0 ++ r)
          × (map strip us ≡ [])
          × All HasWitness us
          × All IsByte r)
        e (refl, refl, tt, h)
  decode_witnesses_sound (t ∷ bare) bs rest ts h (vt, vs) e =
      let (w, r, same, vw, hr, k) =
        was_read witness-IsLawful
          (λ w. decode_witnesses sizes bare >>= λ us. pure (record t { witness = w } ∷ us)) bs rest
          ts h e in
      let ((us, r'), d, last) =
        bind_inv (decode_witnesses sizes bare r) (λ p. ok (record t { witness = w } ∷ p.0, p.1))
          k in
      let (image, stripped, valid, hr') = decode_witnesses_sound bare r r' us hr vs d in
      let head : strip (record t { witness = w }) ≡ t =
        ap (λ x. record t { witness = x }) (sym vt.bare) in
      delivered
        (λ us r.
          (bs ≡ (encode_witnesses sizes us).0 ++ r)
          × (map strip us ≡ t ∷ bare)
          × All HasWitness us
          × All IsByte r)
        last
        (
          joined (serialize (witness_codec sizes) w) (encode_witnesses sizes us).0 r' same image,
          rw (head, stripped),
          (vw, valid),
          hr',
        )

  pub decode_witnesses-ne-panic :
      (bare : List TxIn) (bs : Bytes) → All IsByte bs → decode_witnesses sizes bare bs ≢ panic
  unfolding decode_witnesses
  decode_witnesses-ne-panic [] bs h = λ e. cc
  decode_witnesses-ne-panic (t ∷ bare) bs h =
      no_panic witness-IsLawful
        (λ w. decode_witnesses sizes bare >>= λ us. pure (record t { witness = w } ∷ us)) bs h
        (λ w r _ hr. λ e. ground (arith, decode_witnesses-ne-panic bare r hr))

  pub encode_witnesses_reports :
      (ts : List TxIn) → (encode_witnesses sizes ts).1 ≡ length (encode_witnesses sizes ts).0
  unfolding encode_witnesses
  encode_witnesses_reports [] = refl
  encode_witnesses_reports (t ∷ ts) =
      reports_both (Consensus.consensus_encode (witness_codec sizes) t.witness)
        (encode_witnesses sizes ts) (witness-IsLawful.reports t.witness)
        (encode_witnesses_reports ts)

  pub encode_witnesses_writes :
      (ts : List TxIn) → All HasWitness ts → All IsByte (encode_witnesses sizes ts).0
  unfolding encode_witnesses
  encode_witnesses_writes [] h = tt
  encode_witnesses_writes (t ∷ ts) (ht, hs) =
      All-append IsByte (serialize (witness_codec sizes) t.witness) _
        (witness-IsLawful.writes t.witness ht) (encode_witnesses_writes ts hs)
