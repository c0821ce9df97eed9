-- ===== src/Merkle/Partial/Levels.antt =====
-- util/merkleblock.rs against util/hash.rs: the hash at the top of the tree is the merkle root.
use native.Mathlib.Nat.{pow-suc}
use chaintopeslashrust_tapyr.Common.{
  ℕ, zero, suc, ◌+◌, ◌*◌, ◌/◌, ◌^◌, ◌≡◌, ◌≤◌, ◌<◌, refl, sym, ap, ◌∙◌, subst, arith, Bool-cases,
  inl, inr, List, [], ◌∷◌, length, get_or, if◌then◌else◌, ltb, ltb→lt, ltb→le, lt→ltb, some,
}
use chaintopeslashrust_tapyr.Outcome.{Bytes}
use chaintopeslashrust_tapyr.Hashes.{HashFunction}
use chaintopeslashrust_tapyr.Merkle.{
  combine_pairs, root_inline, bitcoin_merkle_root_inline, bitcoin_merkle_root,
}
use chaintopeslashrust_tapyr.Merkle.Root.{length-combine_pairs, root_one, root_step, same_root}
use chaintopeslashrust_tapyr.Merkle.Partial.{level_width, parent_hash, calc_hash}
use chaintopeslashrust_tapyr.Merkle.Partial.Widths.{width_lt_iff, pow_positive, IsHeight}

-- Two tests with one meaning.
same_test : (a b c d : ℕ) → ((a < b) → c < d) → ((c < d) → a < b) → ltb a b ≡ ltb c d
same_test a b c d forth back = elim (Bool-cases (ltb c d)) [
  | inl e ↦ rw e (lt→ltb a b (back (ltb→lt c d e)))
  | inr e ↦ rw e (elim (Bool-cases (ltb a b)) [
    | inl k ↦ absurd (omega (arith, forth (ltb→lt a b k), ltb→le c d e))
    | inr k ↦ k
  ])
]

module _ (hash : HashFunction 32) (zero_hash : Bytes) where
  abbrev pairs_of : List Bytes → List Bytes
  pairs_of txids = combine_pairs hash zero_hash txids

  get_pair :
      (txids : List Bytes) (pos : ℕ)
      → pos < length (pairs_of txids)
      → get_or (pairs_of txids) pos []
        ≡ parent_hash hash (get_or txids (pos * 2) []) (
            if ltb (pos * 2 + 1) (length txids)
            then get_or txids (pos * 2 + 1) []
            else get_or txids (pos * 2) [])
  unfolding combine_pairs parent_hash
  get_pair [] pos h = absurd (omega arith)
  get_pair (x ∷ []) zero h = refl
  get_pair (x ∷ []) (suc pos) h = absurd (omega arith)
  get_pair (x ∷ (y ∷ xs)) zero h = rw (lt→ltb 1 (length (x ∷ y ∷ xs)) (omega arith)) refl
  get_pair (x ∷ (y ∷ xs)) (suc pos) h =
      let even : suc pos * 2 ≡ suc (suc (pos * 2)) = omega arith in
      let odd : suc pos * 2 + 1 ≡ suc (suc (pos * 2 + 1)) = omega arith in
      let test : ltb (suc (suc (pos * 2 + 1))) (suc (suc (length xs)))
          ≡ ltb (pos * 2 + 1) (length xs) =
        same_test (suc (suc (pos * 2 + 1))) (suc (suc (length xs))) (pos * 2 + 1) (length xs)
          (λ k. omega arith) (λ k. omega arith) in
      rw (odd, even, test) (get_pair xs pos (omega arith))

  width_zero : (num : ℕ) → num ≤ 2 ^ 31 → level_width num 0 ≡ num
  unfolding level_width
  width_zero num h = omega arith

  calc_step :
      (num : ℕ) (txids : List Bytes) (height pos : ℕ)
      → calc_hash hash num txids (suc height) pos
        ≡ parent_hash hash (calc_hash hash num txids height (pos * 2)) (
            if ltb (pos * 2 + 1) (level_width num height)
            then calc_hash hash num txids height (pos * 2 + 1)
            else calc_hash hash num txids height (pos * 2))
  unfolding calc_hash
  calc_step num txids height pos = refl

  pair_count : (txids : List Bytes) → length (pairs_of txids) ≡ (length txids + 1) / 2
  pair_count txids = length-combine_pairs hash zero_hash txids

  width_halves :
      (height k : ℕ) (txids : List Bytes)
      → length txids ≤ 2 ^ 31
      → suc height ≤ 31
      → ltb k (level_width (length txids) (suc height))
        ≡ ltb k (level_width (length (pairs_of txids)) height)
  width_halves height k txids hn low =
      let n : ℕ = length txids in
      let m : ℕ = length (pairs_of txids) in
      let upper = width_lt_iff n (suc height) k (pow_positive (suc height)) in
      let lower = width_lt_iff m height k (pow_positive height) in
      let twice : k * 2 ^ suc height ≡ 2 * (k * 2 ^ height) =
        ap (λ d. k * d) (pow-suc 2 height) ∙ omega arith in
      same_test k (level_width n (suc height)) k (level_width m height)
        (λ e. lower.1 (omega (arith, upper.0 e, twice, pair_count txids)))
        (λ e. upper.1 (omega (arith, lower.0 e, twice, pair_count txids)))

  next_level :
      (height pos : ℕ) (txids : List Bytes)
      → length txids ≤ 2 ^ 31
      → suc (suc height) ≤ 31
      → calc_hash hash (length txids) txids (suc height) (pos * 2)
        ≡ calc_hash hash (length (pairs_of txids)) (pairs_of txids) height (pos * 2)
      → (pos * 2 + 1 < level_width (length (pairs_of txids)) height
          → calc_hash hash (length txids) txids (suc height) (pos * 2 + 1)
            ≡ calc_hash hash (length (pairs_of txids)) (pairs_of txids) height (pos * 2 + 1))
      → parent_hash hash (calc_hash hash (length txids) txids (suc height) (pos * 2)) (
          if ltb (pos * 2 + 1) (level_width (length txids) (suc height))
          then calc_hash hash (length txids) txids (suc height) (pos * 2 + 1)
          else calc_hash hash (length txids) txids (suc height) (pos * 2))
        ≡ calc_hash hash (length (pairs_of txids)) (pairs_of txids) (suc height) pos
  next_level height pos txids hn low left right =
      rw
        (
          calc_step (length (pairs_of txids)) (pairs_of txids) height pos,
          left,
          width_halves height (pos * 2 + 1) txids hn (omega arith),
        )
        (elim (Bool-cases (ltb (pos * 2 + 1) (level_width (length (pairs_of txids)) height))) [
          | inl both ↦
              rw
                (
                  both,
                  right (ltb→lt (pos * 2 + 1) (level_width (length (pairs_of txids)) height) both),
                )
                refl
          | inr one ↦ rw one refl
        ])

  level :
      (height pos : ℕ) (txids : List Bytes)
      → length txids ≤ 2 ^ 31
      → suc height ≤ 31
      → pos * 2 ^ height < length (pairs_of txids)
      → calc_hash hash (length txids) txids (suc height) pos
        ≡ calc_hash hash (length (pairs_of txids)) (pairs_of txids) height pos
  unfolding calc_hash
  level zero pos txids hn low h =
      rw (width_zero (length txids) hn) (sym (get_pair txids pos (omega (arith, h))))
  level (suc height) pos txids hn low h =
      calc_step (length txids) txids (suc height) pos
      ∙ next_level height pos txids hn low
          (level height (pos * 2) txids hn (omega arith) (omega (arith, h, doubled)))
          (λ k. level height (pos * 2 + 1) txids hn (omega arith) (
            (width_lt_iff (length (pairs_of txids)) height (pos * 2 + 1) (pow_positive height)).0
              k))
    where
      doubled : pos * 2 ^ suc height ≡ pos * 2 * 2 ^ height
      doubled = ap (λ d. pos * d) (pow-suc 2 height) ∙ omega arith

  pairs-IsHeight :
      (height : ℕ) (txids : List Bytes)
      → IsHeight (length txids) (suc height)
      → IsHeight (length (pairs_of txids)) height
  pairs-IsHeight height txids h = record {
    wide = omega (arith, h.wide, pow-suc 2 height, pair_count txids);
    low = omega (arith, h.low);
    least = λ k e.
        let half : 2 ^ suc k < length txids =
          subst (λ j. 2 ^ j < length txids) e (h.least height refl) in
        omega (arith, half, pow-suc 2 k, pair_count txids);
  }

  top_root :
      (height fuel : ℕ) (txids : List Bytes)
      → 1 ≤ length txids
      → length txids ≤ 2 ^ 31
      → length txids ≤ fuel
      → IsHeight (length txids) height
      → root_inline hash zero_hash fuel txids ≡ some (calc_hash hash (length txids) txids height 0)
  unfolding calc_hash
  top_root zero fuel [] full hn enough h = absurd (omega arith)
  top_root (suc height) fuel [] full hn enough h = absurd (omega arith)
  top_root zero fuel (x ∷ []) full hn enough h = root_one hash zero_hash fuel x
  top_root zero fuel (x ∷ (y ∷ xs)) full hn enough h = absurd (omega (arith, h.wide))
  top_root (suc height) fuel (x ∷ []) full hn enough h =
      absurd (omega (arith, h.least height refl, pow_positive height))
  top_root (suc height) zero (x ∷ (y ∷ xs)) full hn enough h = absurd (omega arith)
  top_root (suc height) (suc fuel) (x ∷ (y ∷ xs)) full hn enough h =
      let txids : List Bytes = x ∷ y ∷ xs in
      root_step hash zero_hash fuel x y xs
      ∙ top_root height fuel (pairs_of txids) (omega (arith, pair_count txids))
          (omega (arith, pair_count txids)) (omega (arith, pair_count txids))
          (pairs-IsHeight height txids h)
      ∙ ap some (sym (level height 0 txids hn h.low (omega (arith, pair_count txids))))

  -- The hash at the top of the tree is the merkle root.
  pub top-merkle_root :
      (height : ℕ) (txids : List Bytes)
      → 1 ≤ length txids
      → length txids ≤ 2 ^ 31
      → IsHeight (length txids) height
      → bitcoin_merkle_root hash zero_hash txids
        ≡ some (calc_hash hash (length txids) txids height 0)
  unfolding bitcoin_merkle_root_inline
  top-merkle_root height txids full hn h =
      same_root hash zero_hash txids ∙ top_root height (length txids) txids full hn (omega arith) h
