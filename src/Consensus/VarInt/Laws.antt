-- ===== src/Consensus/VarInt/Laws.antt =====
-- The contract of `VarInt` of consensus/encode.rs: the shortest form, and no other.
use chaintopeslashrust_tapyr.Common.{ℕ, ◌%◌, ◌^◌, ◌≤◌, ◌<◌, ◌≡◌, ◌≢◌, arith, ◌∷◌, ◌++◌}
use chaintopeslashrust_tapyr.Common.{length, All, ltb, leb, Bool-cases, inl, inr}
use chaintopeslashrust_tapyr.Outcome.{Bytes, IsByte, ok, panic}
use chaintopeslashrust_tapyr.Consensus.Reader.{◌>>=◌}
use chaintopeslashrust_tapyr.Consensus.Codec.{IsLawful, was_read, no_panic, read_back}
use chaintopeslashrust_tapyr.Consensus.Integers.{read_uint, emit_uint}
use chaintopeslashrust_tapyr.Consensus.Integers.Laws.{uint-IsLawful, u8-IsLawful}
use chaintopeslashrust_tapyr.Consensus.VarInt.{len, encode, at_least, decode_tag, decode, var_int}

abbrev pub IsU64 : ℕ → Type 0
IsU64 v = v < 2 ^ 64

read_tag : (n : ℕ) (rest : Bytes) → IsByte n → decode (n ∷ rest) ≡ decode_tag n rest
unfolding decode
read_tag n rest h = read_back u8-IsLawful decode_tag n rest h

decode-encode : (v : ℕ) (rest : Bytes) → IsU64 v → decode ((encode v).0 ++ rest) ≡ ok (v, rest)
unfolding encode decode_tag at_least
decode-encode v rest h = ground (
  arith,
  read_tag (v % 256) rest,
  read_tag 0xFD (emit_uint 2 v ++ rest),
  read_tag 0xFE (emit_uint 4 v ++ rest),
  read_tag 0xFF (emit_uint 8 v ++ rest),
  (uint-IsLawful 2).round_trip v rest,
  (uint-IsLawful 4).round_trip v rest,
  (uint-IsLawful 8).round_trip v rest,
)

module _ (rest : Bytes) (v : ℕ) where
  -- The body after a tag, of `size` bytes and at least `least`.
  body_sound :
      (size least : ℕ) (r : Bytes)
      → All IsByte r
      → (read_uint size >>= at_least least) r ≡ ok (v, rest)
      → (r ≡ emit_uint size v ++ rest) × (v < 256 ^ size) × (least ≤ v)
  unfolding at_least
  body_sound size least r h e =
      let (x, r', same, fits, _, k) = was_read (uint-IsLawful size) (at_least least) r rest v h e in
      elim (Bool-cases (ltb x least)) [
        | inl short ↦ absurd (ground arith)
        | inr enough ↦ ground arith
      ]

  decode_tag_sound :
      (n : ℕ) (r : Bytes)
      → IsByte n
      → All IsByte r
      → decode_tag n r ≡ ok (v, rest)
      → (n ∷ r ≡ (encode v).0 ++ rest) × IsU64 v
  unfolding decode_tag encode
  decode_tag_sound n r hn h e =
      ground (arith, body_sound 8 0x100000000 r h, body_sound 4 0x10000 r h, body_sound 2 0xFD r h)

decode_sound :
    (bs rest : Bytes) (v : ℕ)
    → All IsByte bs
    → decode bs ≡ ok (v, rest)
    → (bs ≡ (encode v).0 ++ rest) × IsU64 v
unfolding decode
decode_sound bs rest v h e =
    let (n, r, same, hn, hr, k) = was_read u8-IsLawful decode_tag bs rest v h e in
    let found = decode_tag_sound rest v n r hn hr k in (cc (same, found.0), found.1)

body-ne-panic :
    (size least : ℕ) (r : Bytes) → All IsByte r → (read_uint size >>= at_least least) r ≢ panic
unfolding at_least
body-ne-panic size least r h =
    no_panic (uint-IsLawful size) (at_least least) r h (λ x r' hx hr. λ e. ground arith)

decode-ne-panic : (bs : Bytes) → All IsByte bs → decode bs ≢ panic
unfolding decode decode_tag
decode-ne-panic bs h = no_panic u8-IsLawful decode_tag bs h (λ n r hn hr e. ground (
  arith,
  body-ne-panic 8 0x100000000 r hr,
  body-ne-panic 4 0x10000 r hr,
  body-ne-panic 2 0xFD r hr,
))

encode_reports : (v : ℕ) → (encode v).1 ≡ length (encode v).0
unfolding encode
encode_reports v =
    ground
      (arith, (uint-IsLawful 2).reports v, (uint-IsLawful 4).reports v, (uint-IsLawful 8).reports v)

encode_writes : (v : ℕ) → IsU64 v → All IsByte (encode v).0
unfolding encode
encode_writes v h = elim (Bool-cases (leb v 0xFC)) [
  | inl a ↦ rw a (omega arith, tt)
  | inr a ↦ rw a (elim (Bool-cases (leb v 0xFFFF)) [
    | inl b ↦ rw b (omega arith, (uint-IsLawful 2).writes v (ground arith))
    | inr b ↦ rw b (elim (Bool-cases (leb v 0xFFFFFFFF)) [
      | inl c ↦ rw c (omega arith, (uint-IsLawful 4).writes v (ground arith))
      | inr c ↦ rw c (omega arith, (uint-IsLawful 8).writes v h)
    ])
  ])
]

-- `VarInt` reads back every 64-bit number, and only the shortest form is accepted.
pub var_int-IsLawful : IsLawful var_int IsU64
var_int-IsLawful = record {
  reports = encode_reports;
  writes = encode_writes;
  round_trip = decode-encode;
  canonical = decode_sound;
  total = decode-ne-panic;
}

-- `VarInt::len` is the number of bytes written.
pub len-encode : (v : ℕ) → len v ≡ length (encode v).0
unfolding len encode
len-encode v =
    ground
      (arith, (uint-IsLawful 2).reports v, (uint-IsLawful 4).reports v, (uint-IsLawful 8).reports v)
