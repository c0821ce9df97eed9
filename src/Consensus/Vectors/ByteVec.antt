-- ===== src/Consensus/Vectors/ByteVec.antt =====
-- The contract of the byte vectors of consensus/encode.rs.
use chaintopeslashrust_tapyr.Common.{
  ℕ, ◌≤◌, ◌≡◌, ◌≢◌, refl, sym, subst, arith, ◌++◌, append_assoc, length, All, All-append, ltb,
  ltb→le, le→ltb, Bool-cases, inl, inr,
}
use chaintopeslashrust_tapyr.Outcome.{Bytes, IsByte, ok, panic}
use chaintopeslashrust_tapyr.Consensus.Reader.{serialize, read_exact}
use chaintopeslashrust_tapyr.Consensus.Codec.{
  IsLawful, reports_both, was_read, no_panic, read_back, joined,
}
use chaintopeslashrust_tapyr.Consensus.Integers.Laws.{byte_array-IsLawful}
use chaintopeslashrust_tapyr.Consensus.VarInt.{var_int}
use chaintopeslashrust_tapyr.Consensus.VarInt.Laws.{var_int-IsLawful}
use chaintopeslashrust_tapyr.Consensus.Vectors.{
  max_vec_size, with_capacity_lem, encode_bytes, decode_bytes, read_sized, byte_vec,
}

abbrev pub IsVec : Bytes → Type 0
IsVec v = (length v ≤ max_vec_size) × All IsByte v

decode_bytes-encode_bytes :
    (v rest : Bytes) → IsVec v → decode_bytes ((encode_bytes v).0 ++ rest) ≡ ok (v, rest)
unfolding decode_bytes encode_bytes
decode_bytes-encode_bytes v rest h =
    rw
      (
        append_assoc,
        read_back var_int-IsLawful read_sized (length v) (v ++ rest) (omega arith),
        le→ltb max_vec_size (length v) h.0,
        with_capacity_lem 1 (length v) (read_exact (length v)) (omega (arith, h.0)),
      )
      ((byte_array-IsLawful (length v)).round_trip v rest (refl, h.1))

read_sized_sound :
    (len : ℕ) (r rest v : Bytes)
    → All IsByte r
    → read_sized len r ≡ ok (v, rest)
    → (r ≡ v ++ rest) × (length v ≡ len) × IsVec v
unfolding read_sized
read_sized_sound len r rest v h e = elim (Bool-cases (ltb max_vec_size len)) [
  | inl big ↦ absurd (ground arith)
  | inr small ↦
      let room =
        with_capacity_lem 1 len (read_exact len) (omega (arith, ltb→le max_vec_size len small)) in
      let (image, (n, bytes)) =
        (byte_array-IsLawful len).canonical r rest v h (rw (small, room) at e) in
      (image, n, (omega (arith, ltb→le max_vec_size len small), bytes))
]

decode_bytes_sound :
    (bs rest v : Bytes)
    → All IsByte bs
    → decode_bytes bs ≡ ok (v, rest)
    → (bs ≡ (encode_bytes v).0 ++ rest) × IsVec v
unfolding decode_bytes encode_bytes
decode_bytes_sound bs rest v h e =
    let (len, r, same, _, hr, k) = was_read var_int-IsLawful read_sized bs rest v h e in
    let (image, n, valid) = read_sized_sound len r rest v hr k in
    let counted : bs ≡ serialize var_int (length v) ++ r =
      subst (λ m. bs ≡ serialize var_int m ++ r) (sym n) same in
    (joined (serialize var_int (length v)) v rest counted image, valid)

read_sized-ne-panic : (len : ℕ) (r : Bytes) → All IsByte r → read_sized len r ≢ panic
unfolding read_sized
read_sized-ne-panic len r h = elim (Bool-cases (ltb max_vec_size len)) [
  | inl big ↦ rw big (λ e. cc)
  | inr small ↦
      rw
        (
          small,
          with_capacity_lem 1 len (read_exact len) (omega (arith, ltb→le max_vec_size len small)),
        )
        ((byte_array-IsLawful len).total r h)
]

-- A byte vector of at most `max_vec_size` bytes.
pub byte_vec-IsLawful : IsLawful byte_vec IsVec
unfolding encode_bytes decode_bytes
byte_vec-IsLawful = record {
  reports = λ v. reports_both _ (v, length v) (var_int-IsLawful.reports (length v)) refl;
  writes = λ v h. All-append IsByte _ v (var_int-IsLawful.writes (length v) (omega arith)) h.1;
  round_trip = decode_bytes-encode_bytes;
  canonical = decode_bytes_sound;
  total = λ bs h.
      no_panic var_int-IsLawful read_sized bs h (λ len r _ hr. read_sized-ne-panic len r hr);
}
