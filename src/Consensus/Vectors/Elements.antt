-- ===== src/Consensus/Vectors/Elements.antt =====
-- The contract of the vectors of encodable elements of consensus/encode.rs.
use chaintopeslashrust_tapyr.Common.{
  ℕ, map, zero, suc, ◌*◌, ◌^◌, ◌≤◌, ◌≡◌, ◌≢◌, refl, ap, sym, subst, arith, List, [], ◌∷◌, ◌++◌,
  append_assoc, length, All, All-append, ltb, ltb→le, Bool-cases, inl, inr,
}
use chaintopeslashrust_tapyr.Outcome.{Bytes, IsByte, ok, panic, bind_inv}
use chaintopeslashrust_tapyr.Consensus.Reader.{Consensus, ◌>>=◌, serialize, pure}
use chaintopeslashrust_tapyr.Consensus.Codec.{
  IsLawful, reports_both, was_read, no_panic, read_back, joined, delivered,
}
use chaintopeslashrust_tapyr.Consensus.VarInt
use chaintopeslashrust_tapyr.Consensus.VarInt.{var_int}
use chaintopeslashrust_tapyr.Consensus.VarInt.Laws.{var_int-IsLawful, IsU64}
use chaintopeslashrust_tapyr.Consensus.Vectors.{
  max_vec_size, checked_mul, encode_each, decode_times, encode_vec, decode_elements, decode_vec,
  vec,
}

-- A vector that its decoder accepts: its count is a 64-bit number, and its size in memory is
-- within the limit.
pub record IsVecOf {A : Type 0} (size_of : ℕ) (IsValid : A → Type 0) (v : List A) : Type 0 where
  pub counted : IsU64 (length v)
  pub within : length v * size_of ≤ max_vec_size
  pub each : All IsValid v

module _ {A : Type 0} {c : Consensus A} {IsValid : A → Type 0} (law : IsLawful c IsValid) where
  pub encode_each_reports : (v : List A) → (encode_each c v).1 ≡ length (encode_each c v).0
  unfolding encode_each
  encode_each_reports [] = refl
  encode_each_reports (a ∷ v) =
      reports_both (c.consensus_encode a) (encode_each c v) (law.reports a) (encode_each_reports v)

  pub encode_each_writes : (v : List A) → All IsValid v → All IsByte (encode_each c v).0
  unfolding encode_each
  encode_each_writes [] h = tt
  encode_each_writes (a ∷ v) (ha, hv) =
      All-append IsByte (serialize c a) _ (law.writes a ha) (encode_each_writes v hv)

  pub decode_times-encode_each :
      (v : List A) (rest : Bytes)
      → All IsValid v
      → decode_times c (length v) ((encode_each c v).0 ++ rest) ≡ ok (v, rest)
  unfolding decode_times encode_each
  decode_times-encode_each [] rest h = refl
  decode_times-encode_each (a ∷ v) rest (ha, hv) = rw (
    append_assoc,
    law.round_trip a ((encode_each c v).0 ++ rest) ha,
    decode_times-encode_each v rest hv,
  )

  pub decode_times_sound :
      (n : ℕ) (bs rest : Bytes) (v : List A)
      → All IsByte bs
      → decode_times c n bs ≡ ok (v, rest)
      → (bs ≡ (encode_each c v).0 ++ rest) × (length v ≡ n) × All IsValid v
  unfolding decode_times encode_each
  decode_times_sound zero bs rest v h e =
      delivered (λ w r. (bs ≡ (encode_each c w).0 ++ r) × (length w ≡ 0) × All IsValid w) e
        (refl, refl, tt)
  decode_times_sound (suc n) bs rest v h e =
      let (a, r, same, ha, hr, k) =
        was_read law (λ a. decode_times c n >>= λ w. pure (a ∷ w)) bs rest v h e in
      let ((w, r'), d, last) = bind_inv (decode_times c n r) (λ p. ok (a ∷ p.0, p.1)) k in
      let (image, counted, valid) = decode_times_sound n r r' w hr d in
      delivered (λ u t. (bs ≡ (encode_each c u).0 ++ t) × (length u ≡ suc n) × All IsValid u) last
        (joined (serialize c a) (encode_each c w).0 r' same image, ap suc counted, (ha, valid))

  pub decode_times-ne-panic : (n : ℕ) (bs : Bytes) → All IsByte bs → decode_times c n bs ≢ panic
  unfolding decode_times
  decode_times-ne-panic zero bs h = λ e. cc
  decode_times-ne-panic (suc n) bs h =
      no_panic law (λ a. decode_times c n >>= λ w. pure (a ∷ w)) bs h
        (λ a r _ hr. λ e. ground (arith, decode_times-ne-panic n r hr))

  module _ (size_of : ℕ) where
    decode_elements-encode_each :
        (v : List A) (rest : Bytes)
        → IsVecOf size_of IsValid v
        → decode_elements c size_of (length v) ((encode_each c v).0 ++ rest) ≡ ok (v, rest)
    unfolding decode_elements checked_mul
    decode_elements-encode_each v rest h =
        ground (arith, h.within, decode_times-encode_each v rest h.each)

    decode_elements_sound :
        (n : ℕ) (bs rest : Bytes) (v : List A)
        → IsU64 n
        → All IsByte bs
        → decode_elements c size_of n bs ≡ ok (v, rest)
        → (bs ≡ (encode_each c v).0 ++ rest) × (length v ≡ n) × IsVecOf size_of IsValid v
    unfolding decode_elements checked_mul
    decode_elements_sound n bs rest v hn h e = elim (Bool-cases (ltb (n * size_of) (2 ^ 64))) [
      | inr wide ↦ absurd (ground arith)
      | inl fits ↦ elim (Bool-cases (ltb max_vec_size (n * size_of))) [
        | inl big ↦ absurd (ground arith)
        | inr small ↦
            let (image, counted, valid) = decode_times_sound n bs rest v h (ground arith) in
            (
              image,
              counted,
              record {
                counted = subst IsU64 (sym counted) hn;
                within =
                    subst (λ m. m * size_of ≤ max_vec_size) (sym counted)
                      (ltb→le max_vec_size (n * size_of) small);
                each = valid;
              },
            )
      ]
    ]

    decode_elements-ne-panic :
        (n : ℕ) (bs : Bytes) → All IsByte bs → decode_elements c size_of n bs ≢ panic
    unfolding decode_elements checked_mul
    decode_elements-ne-panic n bs h e = ground (arith, decode_times-ne-panic n bs h)

    decode_vec_sound :
        (bs rest : Bytes) (v : List A)
        → All IsByte bs
        → decode_vec c size_of bs ≡ ok (v, rest)
        → (bs ≡ (encode_vec c v).0 ++ rest) × IsVecOf size_of IsValid v
    unfolding decode_vec encode_vec
    decode_vec_sound bs rest v h e =
        let (n, r, same, hn, hr, k) =
          was_read var_int-IsLawful (decode_elements c size_of) bs rest v h e in
        let (image, counted, valid) = decode_elements_sound n r rest v hn hr k in
        let front : bs ≡ serialize var_int (length v) ++ r =
          subst (λ m. bs ≡ serialize var_int m ++ r) (sym counted) same in
        (joined (serialize var_int (length v)) (encode_each c v).0 rest front image, valid)

    -- A vector of elements that keep the contract.
    pub vec-IsLawful : IsLawful (vec size_of c) (IsVecOf size_of IsValid)
    unfolding encode_vec decode_vec
    vec-IsLawful = record {
      reports = λ v.
          reports_both _ (encode_each c v) (var_int-IsLawful.reports (length v))
            (encode_each_reports v);
      writes = λ v h.
          All-append IsByte (serialize var_int (length v)) _
            (var_int-IsLawful.writes (length v) h.counted) (encode_each_writes v h.each);
      round_trip = λ v rest h.
          rw
            (
              append_assoc,
              read_back var_int-IsLawful (decode_elements c size_of) (length v)
                  ((encode_each c v).0 ++ rest) h.counted,
            )
            (decode_elements-encode_each v rest h);
      canonical = decode_vec_sound;
      total = λ bs h.
          no_panic var_int-IsLawful (decode_elements c size_of) bs h
            (λ n r _ hr. decode_elements-ne-panic n r hr);
    }

module _ {A : Type 0} (c : Consensus A) (f : A → A)
    (same : (a : A) → c.consensus_encode (f a) ≡ c.consensus_encode a) where
  encode_each-map : (v : List A) → encode_each c (map f v) ≡ encode_each c v
  unfolding encode_each
  encode_each-map [] = refl
  encode_each-map (a ∷ v) = rw (same a, encode_each-map v)

  length-map : (v : List A) → length (map f v) ≡ length v
  length-map [] = refl
  length-map (a ∷ v) = ap suc (length-map v)

  -- What an element's encoding leaves out, a vector's does.
  pub encode_vec-map : (v : List A) → encode_vec c (map f v) ≡ encode_vec c v
  unfolding encode_vec
  encode_vec-map v = rw (encode_each-map v, length-map v)

pub encode_vec-nil : {A : Type 0} (c : Consensus A) → (encode_vec c []).0 ≡ 0 ∷ []
unfolding encode_vec encode_each VarInt.encode
encode_vec-nil c = refl
