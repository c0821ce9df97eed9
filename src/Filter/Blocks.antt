-- ===== src/Filter/Blocks.antt =====
-- util/bip158.rs: `BlockFilter`, with its writer and its reader.
pub mod Collected
pub mod Elements
pub mod Found
use chaintopeslashrust_tapyr.Common.{
  ℕ, List, [], ◌∷◌, ◌++◌, map, take, drop, Bool, not, if◌then◌else◌,
}
use chaintopeslashrust_tapyr.Outcome.{Bytes, Result, ok, bind}
use chaintopeslashrust_tapyr.Endian.{slice_to_le}
use chaintopeslashrust_tapyr.Hashes.{HashFunction}
use chaintopeslashrust_tapyr.Transaction.{OutPoint, TxIn, TxOut, Transaction}
use chaintopeslashrust_tapyr.Script.Templates.{is_op_return}
use chaintopeslashrust_tapyr.Filter.Stream.{FilterError}
use chaintopeslashrust_tapyr.Filter.Golomb.{SipHash}
use chaintopeslashrust_tapyr.Filter.Sets.{
  GcsFilter, GcsFilterWriter, GcsFilterReader, add_element, finish, match_any, match_all,
}

abbrev pub parameter_p : ℕ
parameter_p = 19

abbrev pub parameter_m : ℕ
parameter_m = 784931

-- The keys of a block, from the first sixteen bytes of its hash.
unfoldable pub filter_of_block : Bytes → Result FilterError GcsFilter
filter_of_block block_hash = bind (slice_to_le 8 (take 8 block_hash)) (λ k0.
    bind (slice_to_le 8 (take 8 (drop 8 block_hash)))
      (λ k1. ok (record { k0 = k0; k1 = k1; p = parameter_p })))

abbrev pub new_filter_writer : GcsFilter → GcsFilterWriter
new_filter_writer f = record { filter = f; written = []; elements = []; m = parameter_m }

unfoldable pub add_outputs : List TxOut → GcsFilterWriter → GcsFilterWriter
add_outputs [] w = w
add_outputs (o ∷ os) w =
    add_outputs os (if not (is_op_return o.script_pubkey) then add_element o.script_pubkey w else w)

unfoldable pub add_output_scripts : List Transaction → GcsFilterWriter → GcsFilterWriter
unfolding add_outputs
add_output_scripts [] w = w
add_output_scripts (t ∷ ts) w = add_output_scripts ts (add_outputs t.output w)

-- What the inputs spend, in their order.
abbrev pub coins_of : List Transaction → List OutPoint
coins_of [] = []
coins_of (t ∷ ts) = map (λ (i : TxIn). i.previous_output) t.input ++ coins_of ts

unfoldable pub add_coins :
    (OutPoint → Result FilterError Bytes)
    → List OutPoint
    → GcsFilterWriter
    → Result FilterError GcsFilterWriter
add_coins script_for_coin [] w = ok w
add_coins script_for_coin (c ∷ cs) w =
    bind (script_for_coin c) (λ script. add_coins script_for_coin cs (add_element script w))

-- The first transaction is the coin base.
unfoldable pub add_input_scripts :
    (OutPoint → Result FilterError Bytes)
    → List Transaction
    → GcsFilterWriter
    → Result FilterError GcsFilterWriter
unfolding add_coins
add_input_scripts script_for_coin txs w = add_coins script_for_coin (coins_of (drop 1 txs)) w

-- `FilterHash::hash` is the double hash.
unfoldable pub filter_id : HashFunction 32 → Bytes → Bytes → Bytes
filter_id sha256d content previous_filter_id =
    sha256d.hash (sha256d.hash content ++ previous_filter_id)

module _ (sip : SipHash) where
  unfoldable pub new_script_filter :
      (OutPoint → Result FilterError Bytes) → Bytes → List Transaction → Result FilterError Bytes
  new_script_filter script_for_coin block_hash txs = bind (filter_of_block block_hash) (λ f.
      bind (add_input_scripts script_for_coin txs (add_output_scripts txs (new_filter_writer f)))
        (finish sip))

  abbrev pub reader_of : GcsFilter → GcsFilterReader
  reader_of f = record { filter = f; m = parameter_m }

  unfoldable pub block_match_any : Bytes → Bytes → List Bytes → Result FilterError Bool
  block_match_any content block_hash query =
      bind (filter_of_block block_hash) (λ f. match_any sip (reader_of f) query content)

  unfoldable pub block_match_all : Bytes → Bytes → List Bytes → Result FilterError Bool
  block_match_all content block_hash query =
      bind (filter_of_block block_hash) (λ f. match_all sip (reader_of f) query content)
