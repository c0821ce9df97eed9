-- ===== src/Block/Header.antt =====
-- blockdata/block.rs: headers and blocks read back.
use chaintopeslashrust_tapyr.Common.{
  ℕ, ◌≤◌, ◌≡◌, refl, arith, ◌++◌, append_assoc, Bool, true, false, length, if◌then◌else◌, ◌==◌,
  ne→==, eq→==, Option, none, some,
}
use chaintopeslashrust_tapyr.Outcome.{Bytes, IsByte, ok}
use chaintopeslashrust_tapyr.Keys.{Curve, to_bytes, from_slice-to_bytes}
use chaintopeslashrust_tapyr.Consensus.Reader.{Consensus, serialize, read_exact}
use chaintopeslashrust_tapyr.Consensus.Codec.{IsLawful, read_back}
use chaintopeslashrust_tapyr.Consensus.Integers.{read_u8}
use chaintopeslashrust_tapyr.Consensus.Integers.Laws.{
  uint-IsLawful, u8-IsLawful, byte_array-IsLawful, IsArray,
}
use chaintopeslashrust_tapyr.Consensus.Structs.{pair-IsLawful, struct-IsLawful, bind_assoc}
use chaintopeslashrust_tapyr.Consensus.VarInt.Laws.{var_int-IsLawful, IsU64}
use chaintopeslashrust_tapyr.Consensus.Vectors.{max_vec_size}
use chaintopeslashrust_tapyr.Consensus.Vectors.ByteVec.{byte_vec-IsLawful, IsVec}
use chaintopeslashrust_tapyr.Transaction.Fields.{IsU32}
use chaintopeslashrust_tapyr.Block.{
  Signature, signature, encode_option, decode_option, check_length, XField, no_field,
  aggregate_public_key, unknown, field_type, encode_content, encode_xfield, decode_content,
  decode_xfield, BlockHeader, encode_without_proof, encode_header, decode_header,
}

pub record IsSignature (s : Signature) : Type 0 where
  pub r_size : IsArray 32 s.r_x
  pub sigma_size : IsArray 32 s.sigma

pub signature-IsLawful : IsLawful signature IsSignature
unfolding signature
signature-IsLawful =
    struct-IsLawful (pair-IsLawful (byte_array-IsLawful 32) (byte_array-IsLawful 32)) signature
      IsSignature (λ p. record { r_x = p.0; sigma = p.1 }) (λ s. (s.r_x, s.sigma))
      (λ s h. (h.r_size, h.sigma_size)) (λ p h. record { r_size = h.0; sigma_size = h.1 })
      (λ s h. refl) (λ p. refl) (λ s. refl) (λ bs. simp bind_assoc)

-- The values of an option that can be written: without a value, or with one of the element's values, whose
-- encoding is not empty.
abbrev pub IsOption : {A : Type 0} → Consensus A → (A → Type 0) → Option A → Type 0
IsOption c V none = Unit
IsOption c V (some a) = V a × (1 ≤ length (serialize c a)) × IsU64 (length (serialize c a))

module _ {A : Type 0} {c : Consensus A} {V : A → Type 0} (law : IsLawful c V) where
  pub decode-encode_option :
      (o : Option A) (rest : Bytes)
      → IsOption c V o
      → decode_option c ((encode_option c o).0 ++ rest) ≡ ok (o, rest)
  unfolding decode_option encode_option check_length
  decode-encode_option none rest h =
      read_back var_int-IsLawful (λ len. if len == 0 then _ else _) 0 rest (omega arith)
  decode-encode_option (some a) rest h =
      let size : ℕ = length (serialize c a) in
      rw
        (
          append_assoc,
          var_int-IsLawful.round_trip size (serialize c a ++ rest) h.2,
          ne→== size 0 (λ e. absurd (omega (arith, h.1))),
          law.round_trip a rest h.0,
          eq→== size size refl,
        )
        refl

module _ (curve : Curve) where
  -- The extra fields that are read as they are written: an unknown one does not have the type of a known one.
  abbrev pub IsXField : XField curve → Type 0
  IsXField no_field = Unit
  IsXField (aggregate_public_key pk) = Unit
  IsXField (unknown x_type content) = (2 ≤ x_type) × IsByte x_type × IsVec content

  small : (c : Bool) (bs : Bytes) → length bs ≡ (if c then 33 else 65) → length bs ≤ max_vec_size
  small true bs e = omega arith
  small false bs e = omega arith

  pub decode_xfield-encode_xfield :
      (x : XField curve) (rest : Bytes)
      → IsXField x
      → decode_xfield curve ((encode_xfield curve x).0 ++ rest) ≡ ok (x, rest)
  unfolding decode_xfield encode_xfield encode_content field_type decode_content read_u8 read_exact
  decode_xfield-encode_xfield no_field rest h =
      read_back u8-IsLawful (decode_content curve) 0 rest (omega arith)
  decode_xfield-encode_xfield (aggregate_public_key pk) rest h =
      let bs : Bytes = to_bytes curve pk in
      let (parses, size, all_bytes) = from_slice-to_bytes curve pk in
      rw (byte_vec-IsLawful.round_trip bs rest (small pk.compressed bs size, all_bytes), parses)
        refl
  decode_xfield-encode_xfield (unknown x_type content) rest h =
      rw
        (
          ne→== x_type 0 (λ e. absurd (omega (arith, h.0))),
          ne→== x_type 1 (λ e. absurd (omega (arith, h.0))),
          byte_vec-IsLawful.round_trip content rest h.2,
        )
        refl

  pub record IsHeader (h : BlockHeader curve) : Type 0 where
    pub version_fits : IsU32 h.version
    pub previous_size : IsArray 32 h.prev_blockhash
    pub root_size : IsArray 32 h.merkle_root
    pub im_root_size : IsArray 32 h.im_merkle_root
    pub time_fits : IsU32 h.time
    pub xfield_valid : IsXField h.xfield
    pub proof_valid : IsOption signature IsSignature h.proof

  -- A header whose fields are valid is read back from its encoding in front of any bytes, which are left; the encoding begins
  -- with what the signature hash is computed from, and the rest of it is the encoded proof.
  pub decode_header-encode_header :
      (h : BlockHeader curve) (rest : Bytes)
      → IsHeader h
      → (decode_header curve ((encode_header curve h).0 ++ rest) ≡ ok (h, rest))
        × ((encode_header curve h).0
            ≡ (encode_without_proof curve h).0 ++ (encode_option signature h.proof).0)
  unfolding decode_header encode_header encode_without_proof
  decode_header-encode_header h rest v = (
    simp append_assoc (
        rw
          (
            (uint-IsLawful 4).round_trip h.version _ v.version_fits,
            (byte_array-IsLawful 32).round_trip h.prev_blockhash _ v.previous_size,
            (byte_array-IsLawful 32).round_trip h.merkle_root _ v.root_size,
            (byte_array-IsLawful 32).round_trip h.im_merkle_root _ v.im_root_size,
            (uint-IsLawful 4).round_trip h.time _ v.time_fits,
            decode_xfield-encode_xfield h.xfield _ v.xfield_valid,
            decode-encode_option signature-IsLawful h.proof rest v.proof_valid,
          )
          refl),
    simp append_assoc refl,
  )
