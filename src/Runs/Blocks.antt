-- ===== src/Runs/Blocks.antt =====
-- Runs of blockdata/block.rs and of merkle blocks.
use chaintopeslashrust_tapyr.Common.{
  ℕ, zero, suc, ◌+◌, ◌*◌, ◌^◌, ◌≡◌, ◌≢◌, ◌<◌, refl, ap, arith, Bool, true, List, [], ◌∷◌, ◌++◌,
  length, map, get_or, some, bytes_eq, if◌then◌else◌,
}
use chaintopeslashrust_tapyr.Outcome.{Bytes, ok, err}
use chaintopeslashrust_tapyr.Keys.{Curve}
use chaintopeslashrust_tapyr.Transaction.{Transaction, tx_in, out_point, tx_out}
use chaintopeslashrust_tapyr.Endian.{to_array_le}
use chaintopeslashrust_tapyr.Consensus.Integers.{emit_uint}
use chaintopeslashrust_tapyr.Consensus.VarInt.{encode}
use chaintopeslashrust_tapyr.Consensus.Vectors.{encode_vec, encode_bytes}
use native.Mathlib.Nat.{pow-suc}
use chaintopeslashrust_tapyr.Transaction.Ids.{txid}
use chaintopeslashrust_tapyr.Transaction.Segwit.{IsTransaction}
use chaintopeslashrust_tapyr.Block.{
  Signature, signature, aggregate_public_key, BlockHeader, Block, encode_header, decode_header,
  encode_without_proof, encode_option, encode_block, decode_block, block_root,
}
use chaintopeslashrust_tapyr.Block.Header.{IsHeader, decode_header-encode_header}
use chaintopeslashrust_tapyr.Merkle.Partial.{calc_hash, merkle_root_mismatch}
use chaintopeslashrust_tapyr.Merkle.Partial.Widths.{pow_positive}
use chaintopeslashrust_tapyr.Merkle.Partial.Selection.{selected, positions}
use chaintopeslashrust_tapyr.Block.Proofs.{
  MerkleBlock, decode_block-encode_block, from_block, extract_block_matches,
  extract_block_matches-from_block,
}
use chaintopeslashrust_tapyr.Runs.Values.{
  toy_hash, sum_bytes, toy, sizes, segwit_tx, zeros, length-zeros, zeros-IsByte,
}
use chaintopeslashrust_tapyr.Runs.Transactions.{segwit_tx-IsTransaction}

-- A curve with one point.
abbrev one_point : Curve
one_point = record {
  Point = Unit;
  parse = λ bs. some tt;
  compress = λ p. zeros 33;
  expand = λ p. zeros 65;
  parse-compress = λ p. refl;
  parse-expand = λ p. refl;
  length-compress = λ p. length-zeros 33;
  length-expand = λ p. length-zeros 65;
  compress-IsByte = λ p. zeros-IsByte 33;
  expand-IsByte = λ p. zeros-IsByte 65;
}

abbrev signed : Signature
signed = record { r_x = zeros 32; sigma = zeros 32 }

abbrev a_header : BlockHeader one_point
a_header = record {
  version = 1;
  prev_blockhash = zeros 32;
  merkle_root = zeros 32;
  im_merkle_root = zeros 32;
  time = 1500000000;
  xfield = aggregate_public_key (record { compressed = true; key = tt });
  proof = some signed;
}

a_header-IsHeader : IsHeader one_point a_header
unfolding signature zeros
a_header-IsHeader = record {
  version_fits = omega arith;
  previous_size = (length-zeros 32, zeros-IsByte 32);
  root_size = (length-zeros 32, zeros-IsByte 32);
  im_root_size = (length-zeros 32, zeros-IsByte 32);
  time_fits = omega arith;
  xfield_valid = tt;
  proof_valid = (
    record {
      r_size = (length-zeros 32, zeros-IsByte 32);
      sigma_size = (length-zeros 32, zeros-IsByte 32);
    },
    omega arith,
    omega arith,
  );
}

abbrev later_tx : Transaction
later_tx = record segwit_tx { lock_time = 8 }

abbrev a_block : Block one_point
a_block = record { header_of = a_header; txdata = segwit_tx ∷ later_tx ∷ [] }

later_tx-IsTransaction : IsTransaction sizes later_tx
later_tx-IsTransaction =
    let h = segwit_tx-IsTransaction in
    record {
      version_fits = h.version_fits;
      inputs_fit = h.inputs_fit;
      witnesses_fit = h.witnesses_fit;
      outputs_fit = h.outputs_fit;
      lock_time_fits = omega arith;
    }

decode_header-encode_header_example :
    (decode_header one_point ((encode_header one_point a_header).0 ++ (5 ∷ []))
      ≡ ok (a_header, 5 ∷ []))
    × ((encode_header one_point a_header).0
        ≡ (encode_without_proof one_point a_header).0 ++ (encode_option signature (some signed)).0)
decode_header-encode_header_example =
    decode_header-encode_header one_point a_header (5 ∷ []) a_header-IsHeader

decode_block-encode_block_example :
    decode_block one_point sizes toy ((encode_block one_point sizes toy a_block).0 ++ (5 ∷ []))
    ≡ ok (a_block, 5 ∷ [])
decode_block-encode_block_example = decode_block-encode_block one_point sizes toy a_block (5 ∷ []) (
  a_header-IsHeader,
  record {
    counted = omega arith;
    within = omega arith;
    each = (segwit_tx-IsTransaction, (later_tx-IsTransaction, tt));
  },
)

abbrev ids : List Bytes
ids = map (txid sizes toy) (segwit_tx ∷ later_tx ∷ [])

abbrev everything : Bytes → Bool
everything id = true

first_byte : get_or (txid sizes toy segwit_tx) 0 0 ≡ 186
unfolding txid toy_hash sum_bytes emit_uint to_array_le encode_vec encode tx_in out_point zeros
    encode_bytes tx_out
first_byte = refl

later_byte : get_or (txid sizes toy later_tx) 0 0 ≡ 139
unfolding txid toy_hash sum_bytes emit_uint to_array_le encode_vec encode tx_in out_point zeros
    encode_bytes tx_out
later_byte = refl

distinct_ids :
    (height pos : ℕ)
    → (pos * 2 + 1) * 2 ^ height < length ids
    → calc_hash toy (length ids) ids height (pos * 2 + 1)
      ≢ calc_hash toy (length ids) ids height (pos * 2)
unfolding calc_hash
distinct_ids zero zero h e =
    absurd (omega (arith, ap (λ bs. get_or bs 0 0) e, first_byte, later_byte))
distinct_ids zero (suc pos) h e = absurd (omega arith)
distinct_ids (suc height) pos h e = absurd (omega (arith, pow_positive height, pow-suc 2 height))

extract_block_matches-from_block_example :
    (mb : MerkleBlock one_point) × (root : Bytes) × (from_block one_point sizes toy a_block
        everything
      ≡ ok mb)
    × (block_root one_point sizes toy (zeros 32) a_block.txdata ≡ some root)
    × (extract_block_matches one_point sizes toy mb ≡ (
        if bytes_eq root (zeros 32)
        then ok (selected ids (true ∷ true ∷ []), positions 0 (true ∷ true ∷ []))
        else err merkle_root_mismatch))
extract_block_matches-from_block_example =
    extract_block_matches-from_block one_point sizes toy (zeros 32) a_block everything (omega arith)
      (omega arith) distinct_ids
