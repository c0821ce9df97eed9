-- ===== src/Merkle/Partial/Selection.antt =====
-- util/merkleblock.rs: the matched positions and transactions.
use chaintopeslashrust_tapyr.Common.{
  ℕ, zero, suc, ◌+◌, ◌≡◌, ◌≤◌, refl, subst, arith, Bool, false, Bool-cases, inl, inr, List, [], ◌∷◌,
  ◌++◌, map, append_assoc, length, length-append, get_or, if◌then◌else◌, lt→ltb, le→ltb,
}
use chaintopeslashrust_tapyr.Outcome.{Bytes}
use chaintopeslashrust_tapyr.Merkle.Partial.Nodes.{picked}

-- The entries of a list that are matched, and the positions from `p` on that are.
abbrev pub selected {ℓ} : {A : Type ℓ} → List A → List Bool → List A
selected [] ms = []
selected (x ∷ xs) [] = []
selected (x ∷ xs) (m ∷ ms) = if m then x ∷ selected xs ms else selected xs ms

abbrev pub positions : ℕ → List Bool → List ℕ
positions p [] = []
positions p (m ∷ ms) = if m then p ∷ positions (suc p) ms else positions (suc p) ms

get_there {ℓ} : {A : Type ℓ} (xs ys : List A) (y d : A) → get_or (xs ++ (y ∷ ys)) (length xs) d ≡ y
get_there [] ys y d = refl
get_there (x ∷ xs) ys y d = get_there xs ys y d

snoc_length {ℓ} : {A : Type ℓ} (xs : List A) (x : A) → length (xs ++ (x ∷ [])) ≡ suc (length xs)
snoc_length xs x = omega (arith, length-append xs (x ∷ []))

picked-positions :
    (k num : ℕ) (front ms : List Bool)
    → num ≡ length front + length ms
    → length ms ≤ k
    → picked k (length front) num (front ++ ms) ≡ positions (length front) ms
unfolding picked
picked-positions zero num front [] e h = refl
picked-positions zero num front (m ∷ ms) e h = absurd (omega arith)
picked-positions (suc k) num front [] e h = rw (le→ltb (length front) num (omega arith)) refl
picked-positions (suc k) num front (m ∷ ms) e h =
    let later : picked k (suc (length front)) num (front ++ (m ∷ ms))
        ≡ positions (suc (length front)) ms =
      subst (λ l. picked k (suc (length front)) num l ≡ positions (suc (length front)) ms)
        (append_assoc front (m ∷ []) ms)
        (subst (λ n. picked k n num ((front ++ (m ∷ [])) ++ ms) ≡ positions n ms)
          (snoc_length front m)
          (picked-positions k num (front ++ (m ∷ [])) ms (omega (arith, snoc_length front m))
            (omega arith))) in
    rw (lt→ltb (length front) num (omega arith), get_there front ms m false, later) refl

pub all_positions :
    (k : ℕ) (ms : List Bool) → length ms ≤ k → picked k 0 (length ms) ms ≡ positions 0 ms
all_positions k ms h = picked-positions k (length ms) [] ms (omega arith) h

map_behind :
    (front xs : List Bytes) (ms : List Bool)
    → length ms ≡ length xs
    → map (λ i. get_or (front ++ xs) i []) (positions (length front) ms) ≡ selected xs ms
map_behind front [] [] e = refl
map_behind front [] (m ∷ ms) e = absurd (omega arith)
map_behind front (x ∷ xs) [] e = refl
map_behind front (x ∷ xs) (m ∷ ms) e =
    let later : map (λ i. get_or (front ++ (x ∷ xs)) i []) (positions (suc (length front)) ms)
        ≡ selected xs ms =
      subst (λ l. map (λ i. get_or l i []) (positions (suc (length front)) ms) ≡ selected xs ms)
        (append_assoc front (x ∷ []) xs)
        (subst
          (λ n.
            map (λ i. get_or ((front ++ (x ∷ [])) ++ xs) i []) (positions n ms) ≡ selected xs ms)
          (snoc_length front x) (map_behind (front ++ (x ∷ [])) xs ms (omega arith))) in
    elim (Bool-cases m) [
      | inl here ↦ rw (here, get_there front xs x [], later) refl
      | inr other ↦ rw (other, later) refl
    ]

pub map-positions :
    (txids : List Bytes) (ms : List Bool)
    → length ms ≡ length txids
    → map (λ i. get_or txids i []) (positions 0 ms) ≡ selected txids ms
map-positions txids ms e = map_behind [] txids ms e
