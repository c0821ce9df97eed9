-- ===== src/Merkle/Partial/Nodes.antt =====
-- util/merkleblock.rs: what a node of the tree writes.
use chaintopeslashrust_tapyr.Common.{
  ℕ, zero, suc, ◌+◌, ◌*◌, ◌≡◌, ◌≤◌, refl, sym, ap, ◌∙◌, arith, Bool, true, false, ◌||◌, Bool-cases,
  inl, inr, List, [], ◌∷◌, ◌++◌, append_assoc, append-nil, get_or, if◌then◌else◌, ltb, le→ltb,
  ltb→le,
}
use chaintopeslashrust_tapyr.Outcome.{Bytes}
use chaintopeslashrust_tapyr.Hashes.{HashFunction}
use chaintopeslashrust_tapyr.Merkle.Partial.{
  level_width, any_match, parent_of_match, calc_hash, traverse_and_build,
}

-- The matched positions among `rounds` positions from `p` on.
unfoldable pub picked : ℕ → ℕ → ℕ → List Bool → List ℕ
picked zero p num matched = []
picked (suc rounds) p num matched =
    let rest = picked rounds (suc p) num matched in
    if ltb p num then (if get_or matched p false then p ∷ rest else rest) else []

pub picked_beyond : (k p num : ℕ) (matched : List Bool) → num ≤ p → picked k p num matched ≡ []
unfolding picked
picked_beyond zero p num matched h = refl
picked_beyond (suc k) p num matched h = rw (le→ltb p num h) refl

pub picked-append :
    (a b p num : ℕ) (matched : List Bool)
    → picked (a + b) p num matched ≡ picked a p num matched ++ picked b (p + a) num matched
unfolding picked
picked-append zero b p num matched =
    let left : 0 + b ≡ b = omega arith in
    let right : p ≡ p + 0 = omega arith in
    ap (λ k. picked k p num matched) left ∙ ap (λ q. picked b q num matched) right
picked-append (suc a) b p num matched =
    let later : picked (a + b) (suc p) num matched
        ≡ picked a (suc p) num matched ++ picked b (suc p + a) num matched =
      picked-append a b (suc p) num matched in
    let moved : suc p + a ≡ p + suc a = omega arith in
    let grouped : suc a + b ≡ suc (a + b) = omega arith in
    ap (λ k. picked k p num matched) grouped ∙ elim (Bool-cases (ltb p num)) [
      | inl inside ↦ elim (Bool-cases (get_or matched p false)) [
        | inl here ↦
            rw (inside, here)
              (ap (λ l. p ∷ l)
                (later ∙ ap (λ q. picked a (suc p) num matched ++ picked b q num matched) moved))
        | inr other ↦
            rw (inside, other)
              (later ∙ ap (λ q. picked a (suc p) num matched ++ picked b q num matched) moved)
      ]
      | inr outside ↦
          rw outside
            (sym (picked_beyond b (p + suc a) num matched (omega (arith, ltb→le p num outside))))
    ]

neither : (a b : Bool) → (a || b) ≡ false → (a ≡ false) × (b ≡ false)
neither true b h = absurd (ground arith)
neither false b h = (refl, h)

pub picked_none :
    (k p num : ℕ) (matched : List Bool)
    → any_match k p num matched ≡ false
    → picked k p num matched ≡ []
unfolding picked any_match
picked_none zero p num matched h = refl
picked_none (suc k) p num matched h = elim (Bool-cases (ltb p num)) [
  | inl inside ↦
      let split : (get_or matched p false || any_match k (suc p) num matched) ≡ false =
        sym (
          ap (λ t. if t then (get_or matched p false || any_match k (suc p) num matched) else false)
            inside)
        ∙ h in
      let (here, later) =
        neither (get_or matched p false) (any_match k (suc p) num matched) split in
      rw (inside, here) (picked_none k (suc p) num matched later)
  | inr outside ↦ rw outside refl
]

module _ (hash : HashFunction 32) (num : ℕ) (txids : List Bytes) (matched : List Bool) where
  unfoldable pub node_bits : ℕ → ℕ → List Bool
  node_bits zero pos = parent_of_match num 0 pos matched ∷ []
  node_bits (suc height) pos =
      parent_of_match num (suc height) pos matched
      ∷ (if parent_of_match num (suc height) pos matched
          then node_bits height (pos * 2)
            ++ (if ltb (pos * 2 + 1) (level_width num height)
                then node_bits height (pos * 2 + 1)
                else [])
          else [])

  unfoldable pub node_hashes : ℕ → ℕ → List Bytes
  node_hashes zero pos = calc_hash hash num txids 0 pos ∷ []
  node_hashes (suc height) pos =
      if parent_of_match num (suc height) pos matched
      then node_hashes height (pos * 2)
        ++ (if ltb (pos * 2 + 1) (level_width num height)
            then node_hashes height (pos * 2 + 1)
            else [])
      else calc_hash hash num txids (suc height) pos ∷ []

  pub build_appends :
      (height pos : ℕ) (t : List Bool × List Bytes)
      → traverse_and_build hash num txids matched height pos t
        ≡ (t.0 ++ node_bits height pos, t.1 ++ node_hashes height pos)
  unfolding traverse_and_build node_bits node_hashes
  build_appends zero pos t = refl
  build_appends (suc height) pos t =
      elim (Bool-cases (parent_of_match num (suc height) pos matched)) [
        | inl some_match ↦ elim (Bool-cases (ltb (pos * 2 + 1) (level_width num height))) [
          | inl both ↦
              rw (some_match, both)
                (build_appends height (pos * 2 + 1) (
                    traverse_and_build hash num txids matched height (pos * 2)
                      (t.0 ++ (true ∷ []), t.1))
                  ∙ rw (build_appends height (pos * 2) (t.0 ++ (true ∷ []), t.1))
                      (simp (append_assoc) refl))
          | inr one ↦
              rw (some_match, one)
                (build_appends height (pos * 2) (t.0 ++ (true ∷ []), t.1)
                  ∙ simp (append_assoc, append-nil) refl)
        ]
        | inr no_match ↦ rw no_match refl
      ]
