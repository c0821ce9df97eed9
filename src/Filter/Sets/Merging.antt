-- ===== src/Filter/Sets/Merging.antt =====
-- util/bip158.rs: the loops over a sorted query and the values of a set, without the bits.
use Prim.Native.Nat.{compare, Ordering}
use chaintopeslashrust_tapyr.Common.{
  ℕ, ◌≤◌, ◌≡◌, refl, sym, ap, ◌∙◌, arith, List, [], ◌∷◌, Bool, true, false, ◌||◌, ◌&&◌, ◌==◌, leb,
  Bool-cases, inl, inr,
}
use chaintopeslashrust_tapyr.Filter.Golomb.{insert, sort, dedup_from, dedup}

-- Whether a value stands in a list.
abbrev pub has : List ℕ → ℕ → Bool
has [] q = false
has (x ∷ xs) q = q == x || has xs q

abbrev pub any_meets : (ℕ → Bool) → List ℕ → Bool
any_meets f [] = false
any_meets f (x ∷ xs) = f x || any_meets f xs

abbrev pub all_meet : (ℕ → Bool) → List ℕ → Bool
all_meet f [] = true
all_meet f (x ∷ xs) = f x && all_meet f xs

-- Ascending from `a` on.
abbrev pub IsSorted : ℕ → List ℕ → Type 0
IsSorted a [] = Unit
IsSorted a (x ∷ xs) = (a ≤ x) × IsSorted x xs

insert-IsSorted : (a x : ℕ) (xs : List ℕ) → a ≤ x → IsSorted a xs → IsSorted a (insert x xs)
unfolding insert
insert-IsSorted a x [] h s = (h, tt)
insert-IsSorted a x (y ∷ ys) h (hy, s) = elim (Bool-cases (leb x y)) [
  | inl first ↦ rw first (h, (ground (arith, first), s))
  | inr later ↦ rw later (hy, insert-IsSorted y x ys (ground (arith, later)) s)
]

pub sort-IsSorted : (xs : List ℕ) → IsSorted 0 (sort xs)
unfolding sort
sort-IsSorted [] = tt
sort-IsSorted (x ∷ xs) = insert-IsSorted 0 x (sort xs) (omega arith) (sort-IsSorted xs)

or_swap : (a b c : Bool) → (a || (b || c)) ≡ (b || (a || c))
or_swap true true c = refl
or_swap true false c = refl
or_swap false b c = refl

and_swap : (a b c : Bool) → (a && (b && c)) ≡ (b && (a && c))
and_swap true b c = refl
and_swap false true c = refl
and_swap false false c = refl

and_same : (a b : Bool) → (a && (a && b)) ≡ (a && b)
and_same true b = refl
and_same false b = refl

any_meets-insert :
    (f : ℕ → Bool) (x : ℕ) (xs : List ℕ) → any_meets f (insert x xs) ≡ (f x || any_meets f xs)
unfolding insert
any_meets-insert f x [] = refl
any_meets-insert f x (y ∷ ys) = elim (Bool-cases (leb x y)) [
  | inl first ↦ rw first refl
  | inr later ↦ rw (later, any_meets-insert f x ys) (or_swap (f y) (f x) (any_meets f ys))
]

pub any_meets-sort : (f : ℕ → Bool) (xs : List ℕ) → any_meets f (sort xs) ≡ any_meets f xs
unfolding sort
any_meets-sort f [] = refl
any_meets-sort f (x ∷ xs) =
    any_meets-insert f x (sort xs) ∙ ap (λ b. f x || b) (any_meets-sort f xs)

all_meet-insert :
    (f : ℕ → Bool) (x : ℕ) (xs : List ℕ) → all_meet f (insert x xs) ≡ (f x && all_meet f xs)
unfolding insert
all_meet-insert f x [] = refl
all_meet-insert f x (y ∷ ys) = elim (Bool-cases (leb x y)) [
  | inl first ↦ rw first refl
  | inr later ↦ rw (later, all_meet-insert f x ys) (and_swap (f y) (f x) (all_meet f ys))
]

pub all_meet-sort : (f : ℕ → Bool) (xs : List ℕ) → all_meet f (sort xs) ≡ all_meet f xs
unfolding sort
all_meet-sort f [] = refl
all_meet-sort f (x ∷ xs) = all_meet-insert f x (sort xs) ∙ ap (λ b. f x && b) (all_meet-sort f xs)

all_meet-dedup_from :
    (f : ℕ → Bool) (x : ℕ) (xs : List ℕ) → all_meet f (dedup_from x xs) ≡ (f x && all_meet f xs)
unfolding dedup_from
all_meet-dedup_from f x [] = refl
all_meet-dedup_from f x (y ∷ ys) = elim (Bool-cases (x == y)) [
  | inl same ↦
      let e : x ≡ y = ground (arith, same) in
      rw (same, all_meet-dedup_from f y ys)
        (sym (ap (λ z. f z && (f y && all_meet f ys)) e ∙ and_same (f y) (all_meet f ys)))
  | inr differ ↦ rw (differ, all_meet-dedup_from f y ys) refl
]

pub all_meet-dedup : (f : ℕ → Bool) (xs : List ℕ) → all_meet f (dedup xs) ≡ all_meet f xs
unfolding dedup
all_meet-dedup f [] = refl
all_meet-dedup f (x ∷ xs) = all_meet-dedup_from f x xs

dedup_from-IsSorted : (a x : ℕ) (xs : List ℕ) → a ≤ x → IsSorted x xs → IsSorted a (dedup_from x xs)
unfolding dedup_from
dedup_from-IsSorted a x [] h s = (h, tt)
dedup_from-IsSorted a x (y ∷ ys) h (hy, s) = elim (Bool-cases (x == y)) [
  | inl same ↦ rw same (dedup_from-IsSorted a y ys (omega arith) s)
  | inr differ ↦ rw differ (h, dedup_from-IsSorted x y ys hy s)
]

pub dedup-IsSorted : (xs : List ℕ) → IsSorted 0 xs → IsSorted 0 (dedup xs)
unfolding dedup
dedup-IsSorted [] s = tt
dedup-IsSorted (x ∷ xs) (h, s) = dedup_from-IsSorted 0 x xs h s

-- The loops of `match_any` and `match_all`, over the values themselves: `value` and those behind it.
unfoldable pub any_merge : List ℕ → ℕ → List ℕ → Bool
any_merge [] value later = false
any_merge (q ∷ qs) value [] = elim (compare value q) [
  | Ordering.eq ↦ true
  | Ordering.lt ↦ false
  | Ordering.gt ↦ any_merge qs value []
]
any_merge (q ∷ qs) value (x ∷ xs) = elim (compare value q) [
  | Ordering.eq ↦ true
  | Ordering.lt ↦ any_merge (q ∷ qs) x xs
  | Ordering.gt ↦ any_merge qs value (x ∷ xs)
]

unfoldable pub all_merge : List ℕ → ℕ → List ℕ → Bool
all_merge [] value later = true
all_merge (q ∷ qs) value [] = elim (compare value q) [
  | Ordering.eq ↦ all_merge qs value []
  | Ordering.lt ↦ false
  | Ordering.gt ↦ false
]
all_merge (q ∷ qs) value (x ∷ xs) = elim (compare value q) [
  | Ordering.eq ↦ all_merge qs value (x ∷ xs)
  | Ordering.lt ↦ all_merge (q ∷ qs) x xs
  | Ordering.gt ↦ false
]
