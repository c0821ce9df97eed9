-- ===== src/Filter/Sets/Matching.antt =====
-- util/bip158.rs: a set that is written is matched as the set that it is.
use mathlib.Core.List.{map}
use chaintopeslashrust_tapyr.Common.{
  ℕ, suc, ◌-◌, ◌*◌, ◌/◌, ◌^◌, ◌<◌, ◌≡◌, refl, sym, ap, ◌∙◌, arith, subst, List, [], ◌∷◌, ◌++◌,
  append_assoc, length, All, Bool-cases, inl, inr, ◌||◌, ◌==◌, leb, lt→ltb,
}
use chaintopeslashrust_tapyr.Common.Powers.{digits_of}
use chaintopeslashrust_tapyr.Outcome.{Bytes, ok, bind}
use chaintopeslashrust_tapyr.Consensus.VarInt.{encode}
use chaintopeslashrust_tapyr.Filter.Stream.{new_writer, new_reader, flush}
use chaintopeslashrust_tapyr.Filter.Stream.Writing.{all_digits, new_writer-Open, flush-digits}
use chaintopeslashrust_tapyr.Filter.Golomb.{SipHash, golomb_rice_decode, insert, sort, dedup}
use chaintopeslashrust_tapyr.Filter.Golomb.Coding.{code, golomb_rice_decode-Offers}
use chaintopeslashrust_tapyr.Filter.Golomb.Range.{map_to_range_exact}
use chaintopeslashrust_tapyr.Filter.Sets.{GcsFilter, any_from, all_from, map_all, finish}
use chaintopeslashrust_tapyr.Filter.Sets.Merging.{
  has, any_meets, all_meet, IsSorted, sort-IsSorted, dedup-IsSorted, any_meets-sort, all_meet-sort,
  all_meet-dedup, any_merge, all_merge,
}
use chaintopeslashrust_tapyr.Filter.Sets.Merged.{any_merge_lem, all_merge_lem}
use chaintopeslashrust_tapyr.Filter.Sets.Decoding.{
  IsU64, codes, write_deltas-Open, any_from-any_merge, all_from-all_merge,
}

length-insert : (x : ℕ) (xs : List ℕ) → length (insert x xs) ≡ suc (length xs)
unfolding insert
length-insert x [] = refl
length-insert x (y ∷ ys) = elim (Bool-cases (leb x y)) [
  | inl first ↦ rw first refl
  | inr later ↦ rw later (ap suc (length-insert x ys))
]

pub length-sort : (xs : List ℕ) → length (sort xs) ≡ length xs
unfolding sort
length-sort [] = refl
length-sort (x ∷ xs) = length-insert x (sort xs) ∙ ap suc (length-sort xs)

pub length-map : (f : Bytes → ℕ) (es : List Bytes) → length (map f es) ≡ length es
length-map f [] = refl
length-map f (e ∷ es) = ap suc (length-map f es)

has-any_meets : (xs : List ℕ) (q : ℕ) → has xs q ≡ any_meets (λ x. q == x) xs
has-any_meets [] q = refl
has-any_meets (x ∷ xs) q = ap (λ b. q == x || b) (has-any_meets xs q)

pub has-sort : (xs : List ℕ) (q : ℕ) → has (sort xs) q ≡ has xs q
has-sort xs q =
    has-any_meets (sort xs) q ∙ any_meets-sort (λ x. q == x) xs ∙ sym (has-any_meets xs q)

All-insert : (x : ℕ) (xs : List ℕ) → IsU64 x → All IsU64 xs → All IsU64 (insert x xs)
unfolding insert
All-insert x [] h hs = (h, tt)
All-insert x (y ∷ ys) h (hy, hs) = elim (Bool-cases (leb x y)) [
  | inl first ↦ rw first (h, (hy, hs))
  | inr later ↦ rw later (hy, All-insert x ys h hs)
]

pub All-sort : (xs : List ℕ) → All IsU64 xs → All IsU64 (sort xs)
unfolding sort
All-sort [] hs = tt
All-sort (x ∷ xs) (h, hs) = All-insert x (sort xs) h (All-sort xs hs)

module _ (sip : SipHash) (f : GcsFilter) (m : ℕ) where
  -- The value that an element has in a set of `n` elements: its hash, scaled to the range below `n * m`.
  abbrev pub value_of : ℕ → Bytes → ℕ
  value_of n e = sip.hash f.k0 f.k1 e * (n * m) / 2 ^ 64

  pub map_all_exact :
      (n : ℕ) (es : List Bytes)
      → n * m < 2 ^ 33
      → (map_all sip f (n * m) es ≡ ok (map (value_of n) es)) × All IsU64 (map (value_of n) es)
  unfolding map_all
  map_all_exact n [] h = (refl, tt)
  map_all_exact n (e ∷ es) h =
      let (first, low) =
        map_to_range_exact (sip.hash f.k0 f.k1 e) (n * m) (sip.hash_small f.k0 f.k1 e) h in
      let (rest, lows) = map_all_exact n es h in (rw (first, rest) refl, (omega (arith, low), lows))

  pub finish_lem :
      (written : Bytes) (es : List Bytes)
      → f.p < 64
      → length es * m < 2 ^ 33
      → (body : Bytes) × (spare : ℕ) × (finish sip
            (record { filter = f; written = written; elements = es; m = m })
          ≡ ok (written ++ ((encode (length es)).0 ++ body)))
        × (all_digits body
            ≡ codes f.p 0 (sort (map (value_of (length es)) es)) ++ digits_of spare 0)
  unfolding finish
  finish_lem written es small range =
      let n : ℕ = length es in
      let values : List ℕ = sort (map (value_of n) es) in
      let (mapped, _) = map_all_exact n es range in
      let (v, wrote, opened) =
        write_deltas-Open f.p 0 values (new_writer []) [] small
          (sort-IsSorted (map (value_of n) es)) (new_writer-Open []) in
      let (spare, _, digits) = flush-digits v (codes f.p 0 values) opened in
      let count : length values ≡ n =
        length-sort (map (value_of n) es) ∙ length-map (value_of n) es in
      (
        (flush v).written,
        spare,
        rw (lt→ltb (n * m) (2 ^ 64) (omega arith), mapped, wrote)
            (ap (λ k. ok (written ++ ((encode k).0 ++ (flush v).written))) count),
        digits,
      )

  pub any_decoded :
      (body : Bytes) (tail values qs : List ℕ) (x : ℕ) (xs : List ℕ)
      → f.p < 64
      → values ≡ x ∷ xs
      → IsSorted 0 values
      → All IsU64 values
      → all_digits body ≡ codes f.p 0 values ++ tail
      → (bind
            (golomb_rice_decode f.p (new_reader body))
            (λ d. any_from f.p (sort qs) (d.0) (length values - 1) (d.1))
          ≡ ok (any_meets (has values) qs))
        × (bind
              (golomb_rice_decode f.p (new_reader body))
              (λ d. all_from f.p (dedup (sort qs)) (d.0) (length values - 1) (d.1))
            ≡ ok (all_meet (has values) qs))
  unfolding digits_of
  any_decoded body tail values qs x xs small e sorted fits digits =
      let sorted_here : IsSorted 0 (x ∷ xs) = subst (IsSorted 0) e sorted in
      let fits_here : All IsU64 (x ∷ xs) = subst (All IsU64) e fits in
      let here : all_digits body ≡ code f.p (x - 0) ++ (codes f.p x xs ++ tail) =
        digits
        ∙ ap (λ l. codes f.p 0 l ++ tail) e
        ∙ append_assoc (code f.p (x - 0)) (codes f.p x xs) tail in
      let (s, read, after) =
        golomb_rice_decode-Offers f.p (x - 0) (new_reader body) (codes f.p x xs ++ tail) small
          (omega (arith, fits_here.0)) (record { inside = omega arith; bits = here }) in
      let first : x - 0 ≡ x = omega arith in
      let left : length values - 1 ≡ length xs = ap (λ l. length l - 1) e ∙ omega arith in
      let any_value : any_merge (sort qs) x xs ≡ any_meets (has values) qs =
        any_merge_lem (sort qs) 0 x xs (sort-IsSorted qs) sorted_here.1
        ∙ any_meets-sort (has (x ∷ xs)) qs
        ∙ ap (λ l. any_meets (has l) qs) (sym e) in
      let all_value : all_merge (dedup (sort qs)) x xs ≡ all_meet (has values) qs =
        all_merge_lem (dedup (sort qs)) 0 x xs (dedup-IsSorted (sort qs) (sort-IsSorted qs))
          sorted_here.1
        ∙ all_meet-dedup (has (x ∷ xs)) (sort qs)
        ∙ all_meet-sort (has (x ∷ xs)) qs
        ∙ ap (λ l. all_meet (has l) qs) (sym e) in
      (
        rw (read, left, first)
            (any_from-any_merge f.p small tail (sort qs) x xs s sorted_here.1 fits_here.1 after
              ∙ ap ok any_value),
        rw (read, left, first)
            (all_from-all_merge f.p small tail (dedup (sort qs)) x xs s sorted_here.1 fits_here.1
                after
              ∙ ap ok all_value),
      )
