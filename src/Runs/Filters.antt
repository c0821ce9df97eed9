-- ===== src/Runs/Filters.antt =====
-- Runs of util/bip158.rs.
use chaintopeslashrust_tapyr.Common.{
  ℕ, ◌+◌, ◌*◌, ◌/◌, ◌-◌, ◌%◌, ◌^◌, ◌<◌, ◌≤◌, ◌≡◌, refl, arith, List, [], ◌∷◌, true,
}
use chaintopeslashrust_tapyr.Outcome.{Bytes, Result, ok, panic}
use chaintopeslashrust_tapyr.Transaction.{OutPoint}
use chaintopeslashrust_tapyr.Filter.Stream.{FilterError}
use chaintopeslashrust_tapyr.Filter.Golomb.{SipHash, map_to_range}
use chaintopeslashrust_tapyr.Filter.Golomb.Range.{map_to_range_exact}
use chaintopeslashrust_tapyr.Filter.Sets.{GcsFilter, finish, match_any, match_all}
use chaintopeslashrust_tapyr.Filter.Sets.Merging.{has, any_meets, all_meet}
use chaintopeslashrust_tapyr.Filter.Sets.Found.{writer_of, reader, values_of, match-finish}
use chaintopeslashrust_tapyr.Script.Templates.{is_op_return}
use chaintopeslashrust_tapyr.Filter.Sets.{holds_element}
use chaintopeslashrust_tapyr.Filter.Blocks.{new_script_filter, block_match_any, block_match_all}
use chaintopeslashrust_tapyr.Filter.Blocks.Found.{block_match-new_script_filter}
use chaintopeslashrust_tapyr.Runs.Values.{sum_bytes, zeros, length-zeros, segwit_tx}

-- A keyed function of the right shape in place of `siphash24`.
unfoldable keyed_sum : ℕ → ℕ → Bytes → ℕ
unfolding sum_bytes
keyed_sum k0 k1 bs = (sum_bytes bs * 7919008174619 + k0 + k1) % 2 ^ 64

keyed_sum_small : (k0 k1 : ℕ) (bs : Bytes) → keyed_sum k0 k1 bs < 2 ^ 64
unfolding keyed_sum
keyed_sum_small k0 k1 bs = omega arith

abbrev toy_sip : SipHash
toy_sip = record { hash = keyed_sum; hash_small = keyed_sum_small }

abbrev keys : GcsFilter
keys = record { k0 = 1; k1 = 2; p = 19 }

abbrev three_elements : List Bytes
three_elements = (1 ∷ 2 ∷ []) ∷ (3 ∷ 4 ∷ []) ∷ (250 ∷ []) ∷ []

abbrev two_queries : List Bytes
two_queries = (9 ∷ []) ∷ (3 ∷ 4 ∷ []) ∷ []

-- A product of halves and the carry of the lowest exceed 64 bits.
map_overflows : map_to_range (2 ^ 64 - 1) (3 * 2 ^ 32 - 1) ≡ panic
unfolding map_to_range
map_overflows = refl

map_to_range_exact_example :
    (map_to_range 12345678901234567890 8589934591 ≡ ok (12345678901234567890 * 8589934591 / 2 ^ 64))
    × (12345678901234567890 * 8589934591 / 2 ^ 64 ≤ 8589934591)
map_to_range_exact_example =
    map_to_range_exact 12345678901234567890 8589934591 (omega arith) (omega arith)

match-finish_example :
    (content : Bytes) × (finish toy_sip (writer_of toy_sip keys 784931 three_elements) ≡ ok content)
    × (match_any toy_sip (reader toy_sip keys 784931) two_queries content
        ≡ ok (
            any_meets
              (has (values_of toy_sip keys 784931 3 three_elements))
              (values_of toy_sip keys 784931 3 two_queries)))
    × (match_all toy_sip (reader toy_sip keys 784931) two_queries content
        ≡ ok (
            all_meet
              (has (values_of toy_sip keys 784931 3 three_elements))
              (values_of toy_sip keys 784931 3 two_queries)))
match-finish_example =
    match-finish toy_sip keys 784931 three_elements two_queries (omega arith) (omega arith)
      (omega arith)

abbrev found_script : OutPoint → Result FilterError Bytes
found_script coin = ok (0x51 ∷ 0x52 ∷ [])

block_match-new_script_filter_example :
    (content : Bytes) × (new_script_filter toy_sip found_script
        (zeros 32)
        (segwit_tx ∷ segwit_tx ∷ [])
      ≡ ok content)
    × (block_match_any toy_sip content (zeros 32) ((0x51 ∷ 0x52 ∷ []) ∷ []) ≡ ok true)
    × (block_match_all toy_sip content (zeros 32) ((0x51 ∷ 0x52 ∷ []) ∷ []) ≡ ok true)
unfolding is_op_return holds_element
block_match-new_script_filter_example =
    block_match-new_script_filter toy_sip found_script (zeros 32) (segwit_tx ∷ segwit_tx ∷ [])
      ((0x51 ∷ 0x52 ∷ []) ∷ (0x51 ∷ 0x52 ∷ []) ∷ []) ((0x51 ∷ 0x52 ∷ []) ∷ []) (length-zeros 32)
      refl (omega arith) (refl, tt)
