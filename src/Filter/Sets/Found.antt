-- ===== src/Filter/Sets/Found.antt =====
-- util/bip158.rs: a set that is written is matched as the set that it is.
use mathlib.Core.Path.{fun_ext}
use mathlib.Core.List.{map}
use chaintopeslashrust_tapyr.Common.{
  ℕ, ◌-◌, ◌*◌, ◌^◌, ◌≤◌, ◌<◌, ◌≡◌, refl, sym, ap, ◌∙◌, arith, subst, List, [], ◌∷◌, ◌++◌, length,
  ◌||◌, ne→==, is_empty, lt→ltb,
}
use chaintopeslashrust_tapyr.Common.Powers.{digits_of}
use chaintopeslashrust_tapyr.Outcome.{Bytes, ok, bind}
use chaintopeslashrust_tapyr.Consensus.VarInt.{encode, decode}
use chaintopeslashrust_tapyr.Consensus.VarInt.Laws.{var_int-IsLawful}
use chaintopeslashrust_tapyr.Filter.Stream.{new_reader}
use chaintopeslashrust_tapyr.Filter.Stream.Writing.{all_digits}
use chaintopeslashrust_tapyr.Filter.Golomb.{SipHash, golomb_rice_decode, sort, dedup}
use chaintopeslashrust_tapyr.Filter.Sets.{
  GcsFilter, GcsFilterWriter, GcsFilterReader, any_from, all_from, finish, match_any, match_all,
}
use chaintopeslashrust_tapyr.Filter.Sets.Merging.{has, any_meets, all_meet, sort-IsSorted}
use chaintopeslashrust_tapyr.Filter.Sets.Merged.{any_none}
use chaintopeslashrust_tapyr.Filter.Sets.Decoding.{codes}
use chaintopeslashrust_tapyr.Filter.Sets.Matching.{
  has-sort, length-sort, length-map, All-sort, value_of, map_all_exact, finish_lem, any_decoded,
}

module _ (sip : SipHash) (f : GcsFilter) (m : ℕ) where
  -- The writer of a set of elements and the reader with the same parameters.
  abbrev pub writer_of : List Bytes → GcsFilterWriter
  writer_of es = record { filter = f; written = []; elements = es; m = m }

  abbrev pub reader : GcsFilterReader
  reader = record { filter = f; m = m }

  -- The values of elements, in a set of `n`.
  abbrev pub values_of : ℕ → List Bytes → List ℕ
  values_of n es = map (value_of sip f m n) es

  -- What is said of a query against the bytes of a set.
  abbrev Answers : List Bytes → List Bytes → Bytes → Type 0
  Answers es query content =
      (match_any sip reader query content
        ≡ ok (
            is_empty query
            || any_meets (has (values_of (length es) es)) (values_of (length es) query)))
      × (match_all sip reader query content
          ≡ ok (all_meet (has (values_of (length es) es)) (values_of (length es) query)))

  nonempty : (xs : List ℕ) → 1 ≤ length xs → (x : ℕ) × (rest : List ℕ) × (xs ≡ x ∷ rest)
  nonempty [] h = absurd (omega arith)
  nonempty (x ∷ xs) h = (x, xs, refl)

  answers :
      (es query : List Bytes) (body : Bytes) (tail : List ℕ)
      → f.p < 64
      → 1 ≤ m
      → length es * m < 2 ^ 33
      → all_digits body ≡ codes f.p 0 (sort (values_of (length es) es)) ++ tail
      → Answers es query ((encode (length es)).0 ++ body)
  unfolding match_any match_all
  answers es query body tail small positive range digits =
      go es query digits range (var_int-IsLawful.round_trip (length es) body (omega (arith, few)))
    where
      few : length es < 2 ^ 33
      few = grind (arith, range, positive)

      go :
          (es query : List Bytes)
          → all_digits body ≡ codes f.p 0 (sort (values_of (length es) es)) ++ tail
          → length es * m < 2 ^ 33
          → decode ((encode (length es)).0 ++ body) ≡ ok (length es, body)
          → Answers es query ((encode (length es)).0 ++ body)
      go es [] d range counted =
          let (mapped, _) = map_all_exact sip f m (length es) [] range in
          let fits = lt→ltb (length es * m) (2 ^ 64) (omega arith) in
          (rw (counted, fits, mapped) refl, rw (counted, fits, mapped) refl)
      go [] (q ∷ qs) d range counted =
          let (mapped, _) = map_all_exact sip f m 0 (q ∷ qs) range in
          let fits = lt→ltb (0 * m) (2 ^ 64) (omega arith) in
          (
            rw (counted, fits, mapped) (ap ok (sym (any_none (values_of 0 qs)))),
            rw (counted, fits, mapped) refl,
          )
      go (e ∷ es) (q ∷ qs) d range counted =
          let n : ℕ = length (e ∷ es) in
          let wanted : List ℕ = values_of n (q ∷ qs) in
          let elements : List ℕ = values_of n (e ∷ es) in
          let values : List ℕ = sort elements in
          let (mapped, _) = map_all_exact sip f m n (q ∷ qs) range in
          let (_, fit) = map_all_exact sip f m n (e ∷ es) range in
          let some_left = ne→== n 0 (λ k. absurd (omega arith)) in
          let fits = lt→ltb (n * m) (2 ^ 64) (omega arith) in
          let count : length values ≡ n =
            length-sort elements ∙ length-map (value_of sip f m n) (e ∷ es) in
          let (x, xs, shape) = nonempty values (omega (arith, count)) in
          let (any_found, all_found) =
            any_decoded sip f m body tail values wanted x xs small shape (sort-IsSorted elements)
              (All-sort elements fit) d in
          let same : has values ≡ has elements = fun_ext (has-sort elements) in
          let left : length values - 1 ≡ n - 1 = ap (λ k. k - 1) count in
          (
            rw (counted, fits, mapped, some_left)
                (subst
                  (λ k.
                    bind (golomb_rice_decode f.p (new_reader body))
                      (λ d. any_from f.p (sort wanted) (d.0) k (d.1))
                    ≡ ok (any_meets (has elements) wanted))
                  left (any_found ∙ ap (λ h. ok (any_meets h wanted)) same)),
            rw (counted, fits, mapped, some_left)
                (subst
                  (λ k.
                    bind (golomb_rice_decode f.p (new_reader body))
                      (λ d. all_from f.p (dedup (sort wanted)) (d.0) k (d.1))
                    ≡ ok (all_meet (has elements) wanted))
                  left (all_found ∙ ap (λ h. ok (all_meet h wanted)) same)),
          )

  -- A set of elements that is written, with a Golomb parameter below 64 and values below 2 ^ 33, is answered for
  -- exactly: some element of a query is matched when its value, the hash scaled to the range of the set, is that of an
  -- element, or when the query is empty; all of a query are matched when each has the value of an element.
  pub match-finish :
      (es query : List Bytes)
      → f.p < 64
      → 1 ≤ m
      → length es * m < 2 ^ 33
      → (content : Bytes) × (finish sip (writer_of es) ≡ ok content)
        × (match_any sip reader query content
            ≡ ok (
                is_empty query
                || any_meets (has (values_of (length es) es)) (values_of (length es) query)))
        × (match_all sip reader query content
            ≡ ok (all_meet (has (values_of (length es) es)) (values_of (length es) query)))
  match-finish es query small positive range =
      let (body, spare, wrote, digits) = finish_lem sip f m [] es small range in
      let (any_found, all_found) =
        answers es query body (digits_of spare 0) small positive range digits in
      ((encode (length es)).0 ++ body, wrote, any_found, all_found)
