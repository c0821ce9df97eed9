-- ===== src/Filter/Sets/Decoding.antt =====
-- util/bip158.rs: the sorted values of a set as bits, and the loops that read them.
use Prim.Native.Nat.{compare, Ordering}
use chaintopeslashrust_tapyr.Common.{
  ℕ, ◌+◌, ◌-◌, ◌^◌, ◌≤◌, ◌<◌, ◌≡◌, ◌⊎◌, inl, inr, refl, arith, subst, List, [], ◌∷◌, ◌++◌,
  append_assoc, append-nil, length, All, le→ltb, lt→ltb,
}
use chaintopeslashrust_tapyr.Outcome.{Result, ok, bind}
use chaintopeslashrust_tapyr.Filter.Stream.{FilterError, BitStreamWriter, BitStreamReader}
use chaintopeslashrust_tapyr.Filter.Stream.Writing.{Open}
use chaintopeslashrust_tapyr.Filter.Stream.Reading.{Offers}
use chaintopeslashrust_tapyr.Filter.Golomb.{plus_u64, golomb_rice_decode}
use chaintopeslashrust_tapyr.Filter.Golomb.Coding.{
  code, Writes, golomb_rice_encode-Open, golomb_rice_decode-Offers,
}
use chaintopeslashrust_tapyr.Filter.Sets.{write_deltas, any_from, all_from}
use chaintopeslashrust_tapyr.Filter.Sets.Merging.{IsSorted, any_merge, all_merge}

abbrev pub IsU64 : ℕ → Type 0
IsU64 x = x < 2 ^ 64

-- The codes of the steps from `last` through the values.
abbrev pub codes : ℕ → ℕ → List ℕ → List ℕ
codes p last [] = []
codes p last (x ∷ xs) = code p (x - last) ++ codes p x xs

pub write_deltas-Open :
    (p last : ℕ) (xs : List ℕ) (w : BitStreamWriter) (bs : List ℕ)
    → p < 64
    → IsSorted last xs
    → Open w bs
    → Writes (write_deltas p last xs w) (bs ++ codes p last xs)
unfolding write_deltas
write_deltas-Open p last [] w bs small s h = (w, refl, rw (append-nil bs) h)
write_deltas-Open p last (x ∷ xs) w bs small (hx, s) h =
    let (v, wrote, opened) = golomb_rice_encode-Open p (x - last) w bs small h in
    let (u, then_wrote, then_opened) =
      write_deltas-Open p x xs v (bs ++ code p (x - last)) small s opened in
    (
      u,
      rw (le→ltb x last hx, wrote) then_wrote,
      subst (Open u) (append_assoc bs (code p (x - last)) (codes p x xs)) then_opened,
    )

-- The next value is read and added.
advance :
    {A : Type 0} (p value x : ℕ) (bits : List ℕ) (r : BitStreamReader)
    (go : ℕ → BitStreamReader → Result FilterError A) (a : A)
    → p < 64
    → value ≤ x
    → IsU64 x
    → Offers r (code p (x - value) ++ bits)
    → ((s : BitStreamReader) → Offers s bits → go x s ≡ ok a)
    → bind (golomb_rice_decode p r) (λ d. bind (plus_u64 value (d.0)) (λ next. go next (d.1)))
      ≡ ok a
advance p value x bits r go a small up hx offers rest =
    let (s, result, after) =
      golomb_rice_decode-Offers p (x - value) r bits small (omega arith) offers in
    let sum : value + (x - value) ≡ x = omega arith in
    rw (result, sum, lt→ltb x (2 ^ 64) hx) (rest s after)

Ordering-cases : (o : Ordering) → (o ≡ Ordering.eq) ⊎ ((o ≡ Ordering.lt) ⊎ (o ≡ Ordering.gt))
Ordering-cases Ordering.eq = inl refl
Ordering-cases Ordering.lt = inr (inl refl)
Ordering-cases Ordering.gt = inr (inr refl)

module _ (p : ℕ) (small : p < 64) (tail : List ℕ) where
  pub any_from-any_merge :
      (qs : List ℕ) (value : ℕ) (xs : List ℕ) (r : BitStreamReader)
      → IsSorted value xs
      → All IsU64 xs
      → Offers r (codes p value xs ++ tail)
      → any_from p qs value (length xs) r ≡ ok (any_merge qs value xs)
  unfolding any_from any_merge
  any_from-any_merge [] value xs r s hs h = refl
  any_from-any_merge (q ∷ qs) value [] r s hs h = elim (Ordering-cases (compare value q)) [
    | inl e ↦ rw (e, any_from, any_merge) refl
    | inr (inl e) ↦ rw (e, any_from, any_merge) refl
    | inr (inr e) ↦ rw (e, any_from, any_merge) (any_from-any_merge qs value [] r s hs h)
  ]
  any_from-any_merge (q ∷ qs) value (x ∷ xs) r (hx, s) (fits, hs) h =
      let offers = subst (Offers r) (append_assoc (code p (x - value)) (codes p x xs) tail) h in
      elim (Ordering-cases (compare value q)) [
        | inl e ↦ rw (e, any_from, any_merge) refl
        | inr (inl e) ↦
            rw (e, any_from, any_merge)
              (advance p value x (codes p x xs ++ tail) r
                (λ next t. any_from p (q ∷ qs) next (length xs) t) (any_merge (q ∷ qs) x xs) small
                hx fits offers (λ t after. any_from-any_merge (q ∷ qs) x xs t s hs after))
        | inr (inr e) ↦
            rw (e, any_from, any_merge)
              (any_from-any_merge qs value (x ∷ xs) r (hx, s) (fits, hs) h)
      ]

  pub all_from-all_merge :
      (qs : List ℕ) (value : ℕ) (xs : List ℕ) (r : BitStreamReader)
      → IsSorted value xs
      → All IsU64 xs
      → Offers r (codes p value xs ++ tail)
      → all_from p qs value (length xs) r ≡ ok (all_merge qs value xs)
  unfolding all_from all_merge
  all_from-all_merge [] value xs r s hs h = refl
  all_from-all_merge (q ∷ qs) value [] r s hs h = elim (Ordering-cases (compare value q)) [
    | inl e ↦ rw (e, all_from, all_merge) (all_from-all_merge qs value [] r s hs h)
    | inr (inl e) ↦ rw (e, all_from, all_merge) refl
    | inr (inr e) ↦ rw (e, all_from, all_merge) refl
  ]
  all_from-all_merge (q ∷ qs) value (x ∷ xs) r (hx, s) (fits, hs) h =
      let offers = subst (Offers r) (append_assoc (code p (x - value)) (codes p x xs) tail) h in
      elim (Ordering-cases (compare value q)) [
        | inl e ↦
            rw (e, all_from, all_merge)
              (all_from-all_merge qs value (x ∷ xs) r (hx, s) (fits, hs) h)
        | inr (inl e) ↦
            rw (e, all_from, all_merge)
              (advance p value x (codes p x xs ++ tail) r
                (λ next t. all_from p (q ∷ qs) next (length xs) t) (all_merge (q ∷ qs) x xs) small
                hx fits offers (λ t after. all_from-all_merge (q ∷ qs) x xs t s hs after))
        | inr (inr e) ↦ rw (e, all_from, all_merge) refl
      ]
