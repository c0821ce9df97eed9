-- ===== src/Merkle/Inline.antt =====
-- util/hash.rs: one level of the merkle root in place.
use chaintopeslashrust_tapyr.Common.{
  ℕ, zero, suc, ◌+◌, ◌-◌, ◌*◌, ◌/◌, min, ◌≡◌, refl, sym, ap, ◌∙◌, arith, List, [], ◌∷◌, ◌++◌,
  append_assoc, append-nil, length, length-append, take, take-append, get_or,
}
use chaintopeslashrust_tapyr.Outcome.{Bytes}
use chaintopeslashrust_tapyr.Hashes.{HashFunction}
use chaintopeslashrust_tapyr.Merkle.{set_at, combine, combine_in_place, combine_pairs}

get_at :
    (front back : List Bytes) (i : ℕ) (d : Bytes)
    → get_or (front ++ back) (length front + i) d ≡ get_or back i d
get_at [] back i d = let same : 0 + i ≡ i = omega arith in ap (λ k. get_or back k d) same
get_at (x ∷ front) back i d =
    let same : suc (length front) + i ≡ suc (length front + i) = omega arith in
    ap (λ k. get_or (x ∷ (front ++ back)) k d) same ∙ get_at front back i d

set_after :
    (front : List Bytes) (x : Bytes) (back : List Bytes) (v : Bytes)
    → set_at (front ++ (x ∷ back)) (length front) v ≡ front ++ (v ∷ back)
unfolding set_at
set_after [] x back v = refl
set_after (y ∷ front) x back v = ap (λ l. y ∷ l) (set_after front x back v)

-- The stale hashes between what is done and what is left, moved by one.
move :
    (mid : List Bytes) (a : Bytes) (r : List Bytes)
    → (x : Bytes) × (back : List Bytes) × (mid ++ (a ∷ r) ≡ x ∷ (back ++ r))
      × (length back ≡ length mid)
move [] a r = (a, [], refl, refl)
move (m ∷ mid) a r = (
  m,
  mid ++ (a ∷ []),
  ap (λ l. m ∷ l) (sym (append_assoc mid (a ∷ []) r)),
  omega (arith, length-append mid (a ∷ [])),
)

get_two :
    (front mid todo : List Bytes) (k n : ℕ) (d : Bytes)
    → k ≡ length front + (length mid + n)
    → get_or (front ++ (mid ++ todo)) k d ≡ get_or todo n d
get_two front mid todo k n d h =
    ap (λ j. get_or (front ++ (mid ++ todo)) j d) h
    ∙ get_at front (mid ++ todo) (length mid + n) d
    ∙ get_at mid todo n d

module _ (hash : HashFunction 32) (zero_hash : Bytes) where
  -- One round: the two hashes that it reads are those at twice its index.
  round :
      (left idx : ℕ) (front : List Bytes) (x : Bytes) (back : List Bytes) (a b : Bytes)
      → length front ≡ idx
      → get_or (front ++ (x ∷ back)) (2 * idx) zero_hash ≡ a
      → get_or
          (front ++ (x ∷ back))
          (min (2 * idx + 1) (length (front ++ (x ∷ back)) - 1))
          zero_hash
        ≡ b
      → combine_in_place hash zero_hash (suc left) idx (front ++ (x ∷ back))
        ≡ combine_in_place hash zero_hash left
            (suc idx)
            ((front ++ (combine hash zero_hash a b ∷ [])) ++ back)
  unfolding combine_in_place
  round left idx front x back a b h ha hb =
      let step : set_at (front ++ (x ∷ back)) idx (combine hash zero_hash a b)
          ≡ (front ++ (combine hash zero_hash a b ∷ [])) ++ back =
        ap (λ k. set_at (front ++ (x ∷ back)) k (combine hash zero_hash a b)) (sym h)
        ∙ set_after front x back (combine hash zero_hash a b)
        ∙ sym (append_assoc front (combine hash zero_hash a b ∷ []) back) in
      rw (ha, hb) (ap (combine_in_place hash zero_hash left (suc idx)) step)

  -- A round on the whole list, whose stale middle is as long as its front.
  round_of :
      (left : ℕ) (front mid : List Bytes) (a : Bytes) (r : List Bytes) (b : Bytes)
      → length mid ≡ length front
      → get_or
          (front ++ (mid ++ (a ∷ r)))
          (min (2 * length front + 1) (length (front ++ (mid ++ (a ∷ r))) - 1))
          zero_hash
        ≡ b
      → (back : List Bytes) × (length back ≡ length mid)
        × (combine_in_place hash zero_hash (suc left) (length front) (front ++ (mid ++ (a ∷ r)))
            ≡ combine_in_place hash zero_hash left
                (suc (length front))
                ((front ++ (combine hash zero_hash a b ∷ [])) ++ (back ++ r)))
  round_of left front mid a r b same hb =
      let (x, back, image, size) = move mid a r in
      let ha : get_or (front ++ (mid ++ (a ∷ r))) (2 * length front) zero_hash ≡ a =
        get_two front mid (a ∷ r) (2 * length front) 0 zero_hash (omega arith) in
      (
        back,
        size,
        ap (λ l. combine_in_place hash zero_hash (suc left) (length front) (front ++ l)) image
            ∙ round left (length front) front x (back ++ r) a b refl
                (ap (λ l. get_or (front ++ l) (2 * length front) zero_hash) (sym image) ∙ ha)
                (ap
                    (λ l.
                      get_or (front ++ l) (min (2 * length front + 1) (length (front ++ l) - 1))
                        zero_hash)
                    (sym image)
                  ∙ hb),
      )

  pub in_place :
      (left : ℕ) (front mid todo : List Bytes)
      → length mid ≡ length front
      → left ≡ (length todo + 1) / 2
      → take
          (length front + left)
          (combine_in_place hash zero_hash left (length front) (front ++ (mid ++ todo)))
        ≡ front ++ combine_pairs hash zero_hash todo
  unfolding combine_in_place combine_pairs
  in_place zero front mid [] same h =
      let none_left : length front + 0 ≡ length front = omega arith in
      ap (λ k. take k (front ++ (mid ++ []))) none_left
      ∙ take-append front (mid ++ [])
      ∙ sym (append-nil front)
  in_place (suc left) front mid [] same h = absurd (omega arith)
  in_place zero front mid (a ∷ []) same h = absurd (omega arith)
  in_place (suc (suc left)) front mid (a ∷ []) same h = absurd (omega arith)
  in_place (suc zero) front mid (a ∷ []) same h =
      let c = combine hash zero_hash a a in
      let (back, size, step) = round_of 0 front mid a [] a same (
        get_two front mid (a ∷ []) _ 0 zero_hash
          (omega (arith, length-append front (mid ++ (a ∷ [])), length-append mid (a ∷ [])))) in
      let taken : length front + 1 ≡ length (front ++ (c ∷ [])) =
        omega (arith, length-append front (c ∷ [])) in
      ap (take (length front + 1)) step
      ∙ ap (λ k. take k ((front ++ (c ∷ [])) ++ (back ++ []))) taken
      ∙ take-append (front ++ (c ∷ [])) (back ++ [])
  in_place zero front mid (a ∷ (b ∷ rest)) same h = absurd (omega arith)
  in_place (suc left) front mid (a ∷ (b ∷ rest)) same h =
      let c = combine hash zero_hash a b in
      let (back, size, step) = round_of left front mid a (b ∷ rest) b same (
        get_two front mid (a ∷ b ∷ rest) _ 1 zero_hash (
          omega (
            arith,
            length-append front (mid ++ (a ∷ b ∷ rest)),
            length-append mid (a ∷ b ∷ rest),
          ))) in
      let longer : suc (length front) ≡ length (front ++ (c ∷ [])) =
        omega (arith, length-append front (c ∷ [])) in
      let taken : length front + suc left ≡ length (front ++ (c ∷ [])) + left =
        omega (arith, longer) in
      ap (take (length front + suc left)) (
        step
        ∙ ap
            (λ k.
              combine_in_place hash zero_hash left k ((front ++ (c ∷ [])) ++ (back ++ (b ∷ rest))))
            longer
        ∙ ap
            (λ l.
              combine_in_place hash zero_hash left (length (front ++ (c ∷ [])))
                ((front ++ (c ∷ [])) ++ l))
            (sym (append_assoc back (b ∷ []) rest)))
      ∙ ap
          (λ k. take k (
            combine_in_place hash zero_hash left (length (front ++ (c ∷ [])))
              ((front ++ (c ∷ [])) ++ ((back ++ (b ∷ [])) ++ rest))))
          taken
      ∙ in_place left (front ++ (c ∷ [])) (back ++ (b ∷ [])) rest
          (omega (arith, longer, length-append back (b ∷ []))) (omega arith)
      ∙ append_assoc front (c ∷ []) (combine_pairs hash zero_hash rest)
