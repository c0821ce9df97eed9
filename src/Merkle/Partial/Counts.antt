-- ===== src/Merkle/Partial/Counts.antt =====
-- util/merkleblock.rs: how many bits and hashes the tree has.
use native.Mathlib.Nat.{pow-suc}
use chaintopeslashrust_tapyr.Common.{
  ℕ, zero, suc, ◌+◌, ◌*◌, ◌^◌, ◌≡◌, ◌≤◌, ◌<◌, ap, ◌∙◌, arith, Bool, Bool-cases, inl, inr, List, [],
  length, length-append, ltb, ltb→lt,
}
use chaintopeslashrust_tapyr.Outcome.{Bytes}
use chaintopeslashrust_tapyr.Hashes.{HashFunction}
use chaintopeslashrust_tapyr.Merkle.Partial.{level_width, parent_of_match}
use chaintopeslashrust_tapyr.Merkle.Partial.Nodes.{node_bits, node_hashes}
use chaintopeslashrust_tapyr.Merkle.Partial.Widths.{width_lt_iff, pow_positive}

-- Bounds on the bits and hashes of a node: by its leaves, and by the leaves of the tree behind its first one.
pub record IsBounded (num height start : ℕ) (bits : List Bool) (hashes : List Bytes) : Type 0 where
  pub fewer : length hashes ≤ length bits
  pub few : length bits + 1 ≤ 2 * 2 ^ height
  pub leaves : length hashes ≤ 2 ^ height
  pub inside : start + length hashes ≤ num

module _ (hash : HashFunction 32) (num : ℕ) (txids : List Bytes) (matched : List Bool) where
  pub node-IsBounded :
      (height pos : ℕ)
      → num ≤ 2 ^ 31
      → height ≤ 31
      → pos * 2 ^ height < num
      → IsBounded num height
          (pos * 2 ^ height)
          (node_bits hash num txids matched height pos)
          (node_hashes hash num txids matched height pos)
  unfolding node_bits node_hashes
  node-IsBounded zero pos hn low h = record {
    fewer = omega arith;
    few = omega arith;
    leaves = omega arith;
    inside = omega (arith, h);
  }
  node-IsBounded (suc height) pos hn low h =
      let d : ℕ = 2 ^ height in
      let doubled : pos * 2 ^ suc height ≡ pos * 2 * d =
        ap (λ k. pos * k) (pow-suc 2 height) ∙ omega arith in
      let twice : 2 ^ suc height ≡ d + d = omega (arith, pow-suc 2 height) in
      let lb : List Bool = node_bits hash num txids matched height (pos * 2) in
      let lh : List Bytes = node_hashes hash num txids matched height (pos * 2) in
      let left : IsBounded num height (pos * 2 * d) lb lh =
        node-IsBounded height (pos * 2) hn (omega arith) (omega (arith, h, doubled)) in
      elim (Bool-cases (parent_of_match num (suc height) pos matched)) [
        | inr no_match ↦ rw no_match (record {
          fewer = omega arith;
          few = omega (arith, twice, pow_positive height);
          leaves = omega (arith, twice, pow_positive height);
          inside = omega (arith, h);
        })
        | inl some_match ↦ elim (Bool-cases (ltb (pos * 2 + 1) (level_width num height))) [
          | inr one ↦
              rw (some_match, one)
                (record {
                  fewer = omega (arith, length-append lb [], length-append lh [], left.fewer);
                  few = omega (arith, length-append lb [], left.few, twice, pow_positive height);
                  leaves = omega (arith, length-append lh [], left.leaves, twice);
                  inside = omega (arith, length-append lh [], left.inside, doubled);
                })
          | inl both ↦
              let r : List Bool = node_bits hash num txids matched height (pos * 2 + 1) in
              let q : List Bytes = node_hashes hash num txids matched height (pos * 2 + 1) in
              let start : (pos * 2 + 1) * d ≡ pos * 2 * d + d = omega arith in
              let right : IsBounded num height ((pos * 2 + 1) * d) r q =
                node-IsBounded height (pos * 2 + 1) hn (omega arith) (
                  (width_lt_iff num height (pos * 2 + 1) (pow_positive height)).0
                    (ltb→lt (pos * 2 + 1) (level_width num height) both)) in
              rw (some_match, both)
                (record {
                  fewer =
                      omega
                        (arith, length-append lb r, length-append lh q, left.fewer, right.fewer);
                  few = omega (arith, length-append lb r, left.few, right.few, twice);
                  leaves = omega (arith, length-append lh q, left.leaves, right.leaves, twice);
                  inside =
                      omega (arith, length-append lh q, left.leaves, right.inside, doubled, start);
                })
        ]
      ]
