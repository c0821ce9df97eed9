-- ===== src/Merkle/Partial/Reading.antt =====
-- util/merkleblock.rs: what a node of the tree writes is read back.
use native.Mathlib.Nat.{pow-suc}
use chaintopeslashrust_tapyr.Common.{
  ℕ, zero, suc, ◌+◌, ◌*◌, ◌^◌, ◌≡◌, ◌≢◌, ◌≤◌, ◌<◌, refl, ap, ◌∙◌, arith, Bool, true, false,
  Bool-cases, inl, inr, List, [], ◌∷◌, ◌++◌, map, append_assoc, append-nil, length, get_or,
  get_elem?, if◌then◌else◌, ltb, ltb→lt, bytes_eq, bytes_eq_sound, some,
}
use chaintopeslashrust_tapyr.Outcome.{Bytes, ok}
use chaintopeslashrust_tapyr.Hashes.{HashFunction}
use chaintopeslashrust_tapyr.Merkle.Partial.{
  PartialMerkleTree, Cursor, level_width, any_match, parent_of_match, next_bit, next_hash,
  push_match, calc_hash, join, traverse_and_extract,
}
use chaintopeslashrust_tapyr.Merkle.Partial.Nodes.{
  picked, picked-append, picked_beyond, picked_none, node_bits, node_hashes,
}
use chaintopeslashrust_tapyr.Merkle.Partial.Widths.{outside}

get_here {ℓ} :
    {A : Type ℓ} (xs ys : List A) (x : A) → get_elem? (xs ++ (x ∷ ys)) (length xs) ≡ some x
get_here [] ys x = refl
get_here (y ∷ xs) ys x = get_here xs ys x

length_snoc {ℓ} : {A : Type ℓ} (xs : List A) (x : A) → suc (length xs) ≡ length (xs ++ (x ∷ []))
length_snoc [] x = refl
length_snoc (y ∷ xs) x = ap suc (length_snoc xs x)

map-append : (f : ℕ → Bytes) (xs ys : List ℕ) → map f (xs ++ ys) ≡ map f xs ++ map f ys
map-append f [] ys = refl
map-append f (x ∷ xs) ys = ap (λ l. f x ∷ l) (map-append f xs ys)

module _ (hash : HashFunction 32) (num : ℕ) (txids : List Bytes) (matched : List Bool) where
  abbrev pub txid_at : ℕ → Bytes
  txid_at i = get_or txids i []

  abbrev pub tree : List Bool → List Bytes → PartialMerkleTree
  tree bits hashes = record { num_transactions = num; bits = bits; hashes = hashes }

  -- The cursor behind bits, hashes and positions.
  abbrev pub cursor_at : List Bool → List Bytes → List ℕ → Cursor
  cursor_at bs hs is = record {
    bits_used = length bs;
    hash_used = length hs;
    matches = map txid_at is;
    indexes = is;
  }

  next_bit_at :
      (bs : List Bool) (b : Bool) (rb bits : List Bool) (hashes hs : List Bytes) (is : List ℕ)
      → bits ≡ bs ++ (b ∷ rb)
      → next_bit (tree bits hashes) (cursor_at bs hs is) ≡ ok (b, cursor_at (bs ++ (b ∷ [])) hs is)
  unfolding next_bit
  next_bit_at bs b rb bits hashes hs is e = rw (e, get_here bs rb b, length_snoc bs b) refl

  next_hash_at :
      (hs : List Bytes) (h : Bytes) (rh hashes : List Bytes) (bits bs : List Bool) (is : List ℕ)
      → hashes ≡ hs ++ (h ∷ rh)
      → next_hash (tree bits hashes) (cursor_at bs hs is) ≡ ok (h, cursor_at bs (hs ++ (h ∷ [])) is)
  unfolding next_hash
  next_hash_at hs h rh hashes bits bs is e = rw (e, get_here hs rh h, length_snoc hs h) refl

  picked_leaf :
      (pos : ℕ)
      → picked (2 ^ 0) (pos * 2 ^ 0) num matched
        ≡ (if parent_of_match num 0 pos matched then pos ∷ [] else [])
  unfolding picked any_match
  picked_leaf pos =
      let same : pos * 1 ≡ pos = omega arith in
      rw same (elim (Bool-cases (ltb pos num)) [
        | inl inside ↦ elim (Bool-cases (get_or matched pos false)) [
          | inl here ↦ rw (inside, here) refl
          | inr other ↦ rw (inside, other) refl
        ]
        | inr outside ↦ rw outside refl
      ])

  abbrev picked_at : ℕ → ℕ → List ℕ
  picked_at height pos = picked (2 ^ height) (pos * 2 ^ height) num matched

  -- A node is read from what it writes, with whatever follows.
  abbrev pub Reads : ℕ → ℕ → Type 0
  Reads height pos =
      (bs rb bits : List Bool) (hs rh hashes : List Bytes) (is : List ℕ)
      → bits ≡ bs ++ (node_bits hash num txids matched height pos ++ rb)
      → hashes ≡ hs ++ (node_hashes hash num txids matched height pos ++ rh)
      → traverse_and_extract hash (tree bits hashes) height pos (cursor_at bs hs is)
        ≡ ok (
          calc_hash hash num txids height pos,
          cursor_at (bs ++ node_bits hash num txids matched height pos)
              (hs ++ node_hashes hash num txids matched height pos) (is ++ picked_at height pos),
        )

  leaf-Reads : (pos : ℕ) → Reads 0 pos
  unfolding traverse_and_extract node_bits node_hashes push_match calc_hash
  leaf-Reads pos bs rb bits hs rh hashes is eb eh =
      let bit : Bool = parent_of_match num 0 pos matched in
      rw
        (
          next_bit_at bs bit rb bits hashes hs is eb,
          next_hash_at hs (txid_at pos) rh hashes bits (bs ++ (bit ∷ [])) is eh,
          picked_leaf pos,
        )
        (elim (Bool-cases bit) [
          | inl here ↦ rw (here, map-append txid_at is (pos ∷ [])) refl
          | inr other ↦ rw (other, append-nil is) refl
        ])

  picked_split :
      (height pos : ℕ)
      → picked_at (suc height) pos ≡ picked_at height (pos * 2) ++ picked_at height (pos * 2 + 1)
  picked_split height pos =
      let d : ℕ = 2 ^ height in
      let twice : 2 ^ suc height ≡ d + d = omega (arith, pow-suc 2 height) in
      let start : pos * (d + d) ≡ pos * 2 * d = omega arith in
      let middle : pos * 2 * d + d ≡ (pos * 2 + 1) * d = omega arith in
      ap (λ k. picked k (pos * k) num matched) twice
      ∙ ap (λ p. picked (d + d) p num matched) start
      ∙ picked-append d d (pos * 2 * d) num matched
      ∙ ap (λ p. picked d (pos * 2 * d) num matched ++ picked d p num matched) middle

  -- The two children of a node do not have one hash.
  abbrev pub Distinct : ℕ → Type 0
  Distinct height =
      (pos : ℕ)
      → pos * 2 + 1 < level_width num height
      → calc_hash hash num txids height (pos * 2 + 1) ≢ calc_hash hash num txids height (pos * 2)

  differ : (xs ys : Bytes) → xs ≢ ys → bytes_eq xs ys ≡ false
  differ xs ys h = elim (Bool-cases (bytes_eq xs ys)) [
    | inl e ↦ absurd (h (bytes_eq_sound xs ys e))
    | inr e ↦ e
  ]

  -- What the two children write, in short.
  abbrev bits_of : ℕ → ℕ → List Bool
  bits_of height pos = node_bits hash num txids matched height pos

  abbrev hashes_of : ℕ → ℕ → List Bytes
  hashes_of height pos = node_hashes hash num txids matched height pos

  skipped-Reads :
      (height pos : ℕ)
      → parent_of_match num (suc height) pos matched ≡ false
      → Reads (suc height) pos
  unfolding traverse_and_extract node_bits node_hashes
  skipped-Reads height pos no_match bs rb bits hs rh hashes is eb eh =
      let eb' : bits ≡ bs ++ (false ∷ rb) = eb ∙ rw no_match refl in
      let eh' : hashes ≡ hs ++ (calc_hash hash num txids (suc height) pos ∷ rh) =
        eh ∙ rw no_match refl in
      let nothing : picked_at (suc height) pos ≡ [] =
        picked_none (2 ^ suc height) (pos * 2 ^ suc height) num matched no_match in
      rw
        (
          no_match,
          next_bit_at bs false rb bits hashes hs is eb',
          next_hash_at hs (calc_hash hash num txids (suc height) pos) rh hashes bits
              (bs ++ (false ∷ [])) is eh',
          nothing,
          append-nil is,
        )
        refl

  both-Reads :
      (height pos : ℕ)
      → parent_of_match num (suc height) pos matched ≡ true
      → ltb (pos * 2 + 1) (level_width num height) ≡ true
      → Distinct height
      → Reads height (pos * 2)
      → Reads height (pos * 2 + 1)
      → Reads (suc height) pos
  unfolding traverse_and_extract node_bits node_hashes calc_hash join
  both-Reads height pos some_match both distinct left right bs rb bits hs rh hashes is eb eh =
      let lb : List Bool = bits_of height (pos * 2) in
      let lh : List Bytes = hashes_of height (pos * 2) in
      let r : List Bool = bits_of height (pos * 2 + 1) in
      let q : List Bytes = hashes_of height (pos * 2 + 1) in
      let eb' : bits ≡ bs ++ (true ∷ ((lb ++ r) ++ rb)) = eb ∙ rw (some_match, both) refl in
      let eh' : hashes ≡ hs ++ ((lh ++ q) ++ rh) = eh ∙ rw (some_match, both) refl in
      rw
        (
          some_match,
          both,
          next_bit_at bs true ((lb ++ r) ++ rb) bits hashes hs is eb',
          left (bs ++ (true ∷ [])) (r ++ rb) bits hs (q ++ rh) hashes is
              (eb' ∙ simp (append_assoc) refl) (eh' ∙ simp (append_assoc) refl),
          right ((bs ++ (true ∷ [])) ++ lb) rb bits (hs ++ lh) rh hashes
              (is ++ picked_at height (pos * 2)) (eb' ∙ simp (append_assoc) refl)
              (eh' ∙ simp (append_assoc) refl),
          differ (calc_hash hash num txids height (pos * 2 + 1))
              (calc_hash hash num txids height (pos * 2))
              (distinct pos (ltb→lt (pos * 2 + 1) (level_width num height) both)),
          picked_split height pos,
        )
        (simp (append_assoc) refl)

  one-Reads :
      (height pos : ℕ)
      → num ≤ 2 ^ 31
      → 2 ^ height ≤ 2 ^ 31
      → parent_of_match num (suc height) pos matched ≡ true
      → ltb (pos * 2 + 1) (level_width num height) ≡ false
      → Reads height (pos * 2)
      → Reads (suc height) pos
  unfolding traverse_and_extract node_bits node_hashes calc_hash join
  one-Reads height pos hn small some_match one left bs rb bits hs rh hashes is eb eh =
      let lb : List Bool = bits_of height (pos * 2) in
      let lh : List Bytes = hashes_of height (pos * 2) in
      let eb' : bits ≡ bs ++ (true ∷ ((lb ++ []) ++ rb)) = eb ∙ rw (some_match, one) refl in
      let eh' : hashes ≡ hs ++ ((lh ++ []) ++ rh) = eh ∙ rw (some_match, one) refl in
      let beyond : num ≤ (pos * 2 + 1) * 2 ^ height =
        outside num height (pos * 2 + 1) hn small one in
      rw
        (
          some_match,
          one,
          next_bit_at bs true ((lb ++ []) ++ rb) bits hashes hs is eb',
          left (bs ++ (true ∷ [])) rb bits hs rh hashes is
              (eb' ∙ simp (append_assoc, append-nil) refl) (eh' ∙ simp (append-nil) refl),
          picked_split height pos,
          picked_beyond (2 ^ height) ((pos * 2 + 1) * 2 ^ height) num matched beyond,
        )
        (simp (append_assoc, append-nil) refl)

  pub node-Reads :
      (height : ℕ)
      → num ≤ 2 ^ 31
      → 2 ^ height ≤ 2 ^ 32
      → ((below : ℕ) → below < height → Distinct below)
      → (pos : ℕ) → Reads height pos
  node-Reads zero hn small distinct pos = leaf-Reads pos
  node-Reads (suc height) hn small distinct pos =
      let half : 2 ^ height ≤ 2 ^ 31 = omega (arith, pow-suc 2 height) in
      let below = node-Reads height hn (omega arith) (λ k h. distinct k (omega arith)) in
      elim (Bool-cases (parent_of_match num (suc height) pos matched)) [
        | inr no_match ↦ skipped-Reads height pos no_match
        | inl some_match ↦ elim (Bool-cases (ltb (pos * 2 + 1) (level_width num height))) [
          | inl both ↦
              both-Reads height pos some_match both (distinct height (omega arith))
                (below (pos * 2)) (below (pos * 2 + 1))
          | inr one ↦ one-Reads height pos hn half some_match one (below (pos * 2))
        ]
      ]
