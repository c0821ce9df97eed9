-- ===== src/Filter/Sets/Merged.antt =====
-- util/bip158.rs: the loops over sorted lists find what is in both.
use chaintopeslashrust_tapyr.Common.{
  ℕ, ◌<◌, ◌≡◌, refl, ap, ◌∙◌, arith, List, [], ◌∷◌, false, ◌||◌, ◌&&◌,
}
use chaintopeslashrust_tapyr.Filter.Sets.Merging.{
  has, any_meets, all_meet, IsSorted, any_merge, all_merge,
}

has_below : (value : ℕ) (xs : List ℕ) (q : ℕ) → q < value → IsSorted value xs → has xs q ≡ false
has_below value [] q h s = refl
has_below value (x ∷ xs) q h (hx, s) = ground (arith, has_below x xs q)

-- Queries above `value` do not meet it.
has_above : (value : ℕ) (xs : List ℕ) (q : ℕ) → value < q → has (value ∷ xs) q ≡ has xs q
has_above value xs q h = ground arith

any_above :
    (value b : ℕ) (xs qs : List ℕ)
    → value < b
    → IsSorted b qs
    → any_meets (has (value ∷ xs)) qs ≡ any_meets (has xs) qs
any_above value b xs [] h s = refl
any_above value b xs (q ∷ qs) h (hq, s) =
    ap (λ t. t || any_meets (has (value ∷ xs)) qs) (has_above value xs q (omega arith))
    ∙ ap (λ t. has xs q || t) (any_above value q xs qs (omega arith) s)

all_above :
    (value b : ℕ) (xs qs : List ℕ)
    → value < b
    → IsSorted b qs
    → all_meet (has (value ∷ xs)) qs ≡ all_meet (has xs) qs
all_above value b xs [] h s = refl
all_above value b xs (q ∷ qs) h (hq, s) =
    ap (λ t. t && all_meet (has (value ∷ xs)) qs) (has_above value xs q (omega arith))
    ∙ ap (λ t. has xs q && t) (all_above value q xs qs (omega arith) s)

pub any_none : (qs : List ℕ) → any_meets (has []) qs ≡ false
any_none [] = refl
any_none (q ∷ qs) = any_none qs

pub any_merge_lem :
    (qs : List ℕ) (b value : ℕ) (xs : List ℕ)
    → IsSorted b qs
    → IsSorted value xs
    → any_merge qs value xs ≡ any_meets (has (value ∷ xs)) qs
unfolding any_merge
any_merge_lem [] b value xs s t = refl
any_merge_lem (q ∷ qs) b value [] (hq, s) t =
    ground (arith, any_merge_lem qs q value [] s t, any_above value q [] (q ∷ qs), any_none qs)
any_merge_lem (q ∷ qs) b value (x ∷ xs) (hq, s) (hx, t) = ground (
  arith,
  any_merge_lem (q ∷ qs) b x xs (hq, s) t,
  any_merge_lem qs q value (x ∷ xs) s (hx, t),
  any_above value q (x ∷ xs) (q ∷ qs),
  has_below value (x ∷ xs) q,
)

all_none : (q : ℕ) (qs : List ℕ) → all_meet (has []) (q ∷ qs) ≡ false
all_none q qs = refl

pub all_merge_lem :
    (qs : List ℕ) (b value : ℕ) (xs : List ℕ)
    → IsSorted b qs
    → IsSorted value xs
    → all_merge qs value xs ≡ all_meet (has (value ∷ xs)) qs
unfolding all_merge
all_merge_lem [] b value xs s t = refl
all_merge_lem (q ∷ qs) b value [] (hq, s) t =
    ground (arith, all_merge_lem qs q value [] s t, all_above value q [] (q ∷ qs))
all_merge_lem (q ∷ qs) b value (x ∷ xs) (hq, s) (hx, t) = ground (
  arith,
  all_merge_lem (q ∷ qs) b x xs (hq, s) t,
  all_merge_lem qs q value (x ∷ xs) s (hx, t),
  all_above value q (x ∷ xs) (q ∷ qs),
  has_below value (x ∷ xs) q,
)
