-- ===== src/Filter/Blocks/Found.antt =====
-- util/bip158.rs: a block's filter misses none of the scripts of the block.
use chaintopeslashrust_tapyr.Common.{
  ℕ, ◌+◌, ◌≤◌, ◌≡◌, refl, sym, ap, ◌∙◌, arith, List, [], ◌∷◌, ◌++◌, length, take, drop,
  length-append, length-take, length-drop, All, Bool, true, ◌==◌, eq→==, if◌then◌else◌,
}
use chaintopeslashrust_tapyr.Outcome.{Bytes, Result, ok, panic}
use chaintopeslashrust_tapyr.Endian.{slice_to_le}
use chaintopeslashrust_tapyr.Transaction.{OutPoint, Transaction}
use chaintopeslashrust_tapyr.Filter.Stream.{FilterError}
use chaintopeslashrust_tapyr.Filter.Golomb.{SipHash}
use chaintopeslashrust_tapyr.Filter.Sets.{GcsFilter, GcsFilterWriter, holds_element}
use chaintopeslashrust_tapyr.Filter.Sets.Matching.{value_of}
use chaintopeslashrust_tapyr.Filter.Sets.Found.{writer_of, match-finish}
use chaintopeslashrust_tapyr.Filter.Blocks.{
  parameter_p, parameter_m, filter_of_block, new_filter_writer, add_output_scripts, coins_of,
  add_input_scripts, add_coins, new_script_filter, block_match_any, block_match_all,
}
use chaintopeslashrust_tapyr.Filter.Blocks.Collected.{
  nonempty_scripts, output_scripts, add_all, find_scripts, add_all-append,
  add_output_scripts-add_all, add_coins-add_all,
}
use chaintopeslashrust_tapyr.Filter.Blocks.Elements.{
  element_set, add_all-element_set, set-holds, length-element_set, held-found,
}

abbrev pub Holding : List Bytes → Bytes → Type 0
Holding es s = holds_element s es ≡ true

All-holds :
    (query ss es : List Bytes)
    → All (Holding (nonempty_scripts ss)) query
    → All (Holding (element_set ss es)) query
All-holds [] ss es h = tt
All-holds (q ∷ qs) ss es (h, hs) = (set-holds q ss es h, All-holds qs ss es hs)

if_ok :
    (b : Bool) (v : ℕ)
    → b ≡ true
    → (k : ℕ) × (◌≡◌ {A = Result FilterError ℕ} (if b then ok v else panic) (ok k))
if_ok b v e = (v, rw e refl)

key_read : (bs : Bytes) → length bs ≡ 8 → (k : ℕ) × (slice_to_le {E = FilterError} 8 bs ≡ ok k)
unfolding slice_to_le
key_read bs h = if_ok (length bs == 8) _ (eq→== (length bs) 8 h)

filter_of_block_lem :
    (block_hash : Bytes)
    → length block_hash ≡ 32
    → (k0 : ℕ) × (k1 : ℕ) × (filter_of_block block_hash
        ≡ ok (record { k0 = k0; k1 = k1; p = parameter_p }))
unfolding filter_of_block
filter_of_block_lem block_hash h =
    let (k0, first) = key_read (take 8 block_hash) (length-take 8 block_hash (omega arith)) in
    let (k1, second) =
      key_read (take 8 (drop 8 block_hash))
        (length-take 8 (drop 8 block_hash) (omega (arith, length-drop 8 block_hash))) in
    (k0, k1, rw (first, second) refl)

-- The filter of a block whose outputs and spent outputs are 10,943 at most is made when the script of every coin that
-- the block spends, but for those of its first transaction, is found. Every query for scripts of the block, that are
-- not empty and whose output does not begin with OP_RETURN, is then answered with a match, of any and of all.
pub block_match-new_script_filter :
    (sip : SipHash) (script_for_coin : OutPoint → Result FilterError Bytes) (block_hash : Bytes)
    (txs : List Transaction) (spent query : List Bytes)
    → length block_hash ≡ 32
    → find_scripts script_for_coin (coins_of (drop 1 txs)) ≡ ok spent
    → length (output_scripts txs) + length spent ≤ 10943
    → All (Holding (nonempty_scripts (output_scripts txs ++ spent))) query
    → (content : Bytes) × (new_script_filter sip script_for_coin block_hash txs ≡ ok content)
      × (block_match_any sip content block_hash query ≡ ok true)
      × (block_match_all sip content block_hash query ≡ ok true)
unfolding new_script_filter add_input_scripts block_match_any block_match_all
block_match-new_script_filter sip script_for_coin block_hash txs spent query hashed found few held =
    let (k0, k1, keys) = filter_of_block_lem block_hash hashed in
    let f : GcsFilter = record { k0 = k0; k1 = k1; p = parameter_p } in
    let scripts : List Bytes = output_scripts txs ++ spent in
    let es : List Bytes = element_set scripts [] in
    let start : GcsFilterWriter = new_filter_writer f in
    let collected : add_coins script_for_coin (coins_of (drop 1 txs)) (add_output_scripts txs start)
        ≡ ok (writer_of sip f parameter_m es) =
      add_coins-add_all script_for_coin (coins_of (drop 1 txs)) spent (add_output_scripts txs start)
        found
      ∙ ap (λ w. ok (add_all spent w)) (add_output_scripts-add_all txs start)
      ∙ ap ok (
          sym (add_all-append (output_scripts txs) spent start)
          ∙ add_all-element_set scripts start) in
    let count : length es ≤ 10943 =
      omega (arith, length-element_set scripts [], length-append (output_scripts txs) spent) in
    let (content, wrote, any_match, all_match) =
      match-finish sip f parameter_m es query (omega arith) (omega arith) (omega (arith, count)) in
    let (all_found, any_found) =
      held-found (value_of sip f parameter_m (length es)) query es
        (All-holds query scripts [] held) in
    (
      content,
      rw (keys, collected) wrote,
      rw keys (any_match ∙ ap ok any_found),
      rw keys (all_match ∙ ap ok all_found),
    )
