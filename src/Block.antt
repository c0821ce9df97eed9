-- ===== src/Block.antt =====
-- blockdata/block.rs: blocks, their headers and their encoding, with `Option` of consensus/encode.rs and
-- the signature of util/signature.rs as it is encoded.
pub mod Header
pub mod Proofs
use chaintopeslashrust_tapyr.Common.{
  ℕ, List, [], ◌∷◌, map, Bool, true, false, ◌&&◌, length, bytes_eq, if◌then◌else◌, ◌==◌, Option,
  none, some,
}
use chaintopeslashrust_tapyr.Outcome.{Bytes, Result, ok, err, panic, bind}
use chaintopeslashrust_tapyr.Hashes.{HashFunction}
use chaintopeslashrust_tapyr.Keys.{Curve, KeyError, PublicKey, to_bytes, from_slice}
use chaintopeslashrust_tapyr.Consensus.Reader.{
  Decoder, ◌>>=◌, pure, fail, Encoded, ◌<+>◌, Consensus, parse_failed, serialize,
}
use chaintopeslashrust_tapyr.Consensus.Integers.{u8, u32, byte_array}
use chaintopeslashrust_tapyr.Consensus.VarInt
use chaintopeslashrust_tapyr.Consensus.Vectors.{byte_vec, vec}
use chaintopeslashrust_tapyr.Transaction.{Sizes, Transaction, transaction}
use chaintopeslashrust_tapyr.Transaction.Ids.{txid, malfix_txid}
use chaintopeslashrust_tapyr.Merkle.{bitcoin_merkle_root}

pub record Signature : Type 0 where
  pub r_x : Bytes
  pub sigma : Bytes

unfoldable pub signature : Consensus Signature
signature = record {
  consensus_encode =
      λ s. (byte_array 32).consensus_encode s.r_x <+> (byte_array 32).consensus_encode s.sigma;
  consensus_decode = do
    r_x ← (byte_array 32).consensus_decode
    sigma ← (byte_array 32).consensus_decode
    pure (record { r_x = r_x; sigma = sigma });
}

-- `impl_option`.
module _ {A : Type 0} (c : Consensus A) where
  unfoldable pub encode_option : Option A → Encoded
  encode_option none = VarInt.encode 0
  encode_option (some a) = VarInt.encode (length (serialize c a)) <+> c.consensus_encode a

  unfoldable pub check_length : ℕ → A → Decoder (Option A)
  check_length len ret =
      if len == length (serialize c ret)
      then pure (some ret)
      else fail (parse_failed "Invalid length")

  unfoldable pub decode_option : Decoder (Option A)
  unfolding check_length
  decode_option = do
    len ← VarInt.decode
    if len == 0 then pure none else (do ret ← c.consensus_decode; check_length len ret)

module _ (curve : Curve) where
  pub data XField : Type 0 where
    no_field : XField
    aggregate_public_key : PublicKey curve → XField
    unknown : ℕ → Bytes → XField

  unfoldable pub field_type : XField → ℕ
  field_type no_field = 0
  field_type (aggregate_public_key pk) = 1
  field_type (unknown x_type content) = x_type

  unfoldable pub encode_content : XField → Encoded
  encode_content no_field = ([], 0)
  encode_content (aggregate_public_key pk) = Consensus.consensus_encode byte_vec (to_bytes curve pk)
  encode_content (unknown x_type content) = Consensus.consensus_encode byte_vec content

  unfoldable pub encode_xfield : XField → Encoded
  unfolding encode_content field_type
  encode_xfield x = u8.consensus_encode (field_type x) <+> encode_content x

  unfoldable pub key_field : Result KeyError (PublicKey curve) → Decoder XField
  key_field (ok pk) = pure (aggregate_public_key pk)
  key_field (err e) = fail (parse_failed "aggregate public key")
  key_field panic = λ bs. panic

  unfoldable pub decode_content : ℕ → Decoder XField
  unfolding key_field
  decode_content x_type =
      if x_type == 0
      then pure no_field
      else if x_type == 1
      then (do bs ← Consensus.consensus_decode byte_vec; key_field (from_slice curve bs))
      else (do content ← Consensus.consensus_decode byte_vec; pure (unknown x_type content))

  unfoldable pub decode_xfield : Decoder XField
  unfolding decode_content
  decode_xfield = do x_type ← u8.consensus_decode; decode_content x_type

  pub record BlockHeader : Type 0 where
    pub version : ℕ
    pub prev_blockhash : Bytes
    pub merkle_root : Bytes
    pub im_merkle_root : Bytes
    pub time : ℕ
    pub xfield : XField
    pub proof : Option Signature

  -- `BlockHeaderWithoutProof`, as it is encoded.
  unfoldable pub encode_without_proof : BlockHeader → Encoded
  unfolding encode_xfield
  encode_without_proof h =
      u32.consensus_encode h.version
      <+> (byte_array 32).consensus_encode h.prev_blockhash
      <+> (byte_array 32).consensus_encode h.merkle_root
      <+> (byte_array 32).consensus_encode h.im_merkle_root
      <+> u32.consensus_encode h.time
      <+> encode_xfield h.xfield

  unfoldable pub encode_header : BlockHeader → Encoded
  encode_header h =
      u32.consensus_encode h.version
      <+> (byte_array 32).consensus_encode h.prev_blockhash
      <+> (byte_array 32).consensus_encode h.merkle_root
      <+> (byte_array 32).consensus_encode h.im_merkle_root
      <+> u32.consensus_encode h.time
      <+> encode_xfield h.xfield
      <+> encode_option signature h.proof

  unfoldable pub decode_header : Decoder BlockHeader
  decode_header = do
    version ← u32.consensus_decode
    prev_blockhash ← (byte_array 32).consensus_decode
    merkle_root ← (byte_array 32).consensus_decode
    im_merkle_root ← (byte_array 32).consensus_decode
    time ← u32.consensus_decode
    xfield ← decode_xfield
    proof ← decode_option signature
    pure (record {
      version = version;
      prev_blockhash = prev_blockhash;
      merkle_root = merkle_root;
      im_merkle_root = im_merkle_root;
      time = time;
      xfield = xfield;
      proof = proof;
    })

  abbrev pub header : Consensus BlockHeader
  header = record { consensus_encode = encode_header; consensus_decode = decode_header }

  pub record Block : Type 0 where
    pub header_of : BlockHeader
    pub txdata : List Transaction

  -- The consensus encoding of a block, and the hashes; `sha256d` is the hash of all the types.
  module _ (sizes : Sizes) (sha256d : HashFunction 32) where
    unfoldable pub encode_block : Block → Encoded
    encode_block b =
        encode_header b.header_of
        <+> (vec sizes.transaction (transaction sizes)).consensus_encode b.txdata

    unfoldable pub decode_block : Decoder Block
    decode_block = do
      header_of ← decode_header
      txdata ← (vec sizes.transaction (transaction sizes)).consensus_decode
      pure (record { header_of = header_of; txdata = txdata })

    unfoldable pub block_signature_hash : BlockHeader → Bytes
    block_signature_hash h = sha256d.hash (encode_without_proof h).0

    unfoldable pub bitcoin_hash : BlockHeader → Bytes
    bitcoin_hash h = sha256d.hash (encode_header h).0

    -- `zero_hash` is the default of the hash types.
    unfoldable pub block_root : Bytes → List Transaction → Option Bytes
    block_root zero_hash txs = bitcoin_merkle_root sha256d zero_hash (map (txid sizes sha256d) txs)

    unfoldable pub immutable_merkle_root : Bytes → List Transaction → Option Bytes
    immutable_merkle_root zero_hash txs =
        bitcoin_merkle_root sha256d zero_hash (map (malfix_txid sizes sha256d) txs)

    abbrev pub root_is : Bytes → Option Bytes → Bool
    root_is expected none = false
    root_is expected (some root) = bytes_eq expected root

    unfoldable pub check_merkle_root : Bytes → Block → Bool
    check_merkle_root zero_hash b =
        root_is b.header_of.merkle_root (block_root zero_hash b.txdata)
        && root_is b.header_of.im_merkle_root (immutable_merkle_root zero_hash b.txdata)
