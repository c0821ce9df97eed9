-- ===== src/Merkle/Partial/Unpacking.antt =====
-- util/merkleblock.rs: bits of a partial tree that were packed are read back.
use native.Mathlib.Nat.{pow-suc, div-div-eq-div-mul}
use chaintopeslashrust_tapyr.Common.{
  ℕ, zero, suc, ◌+◌, ◌-◌, ◌*◌, ◌/◌, ◌%◌, ◌^◌, ◌≤◌, ◌≡◌, refl, sym, ap, ◌∙◌, arith, Bool, true,
  false, not, Bool-cases, inl, inr, List, [], ◌∷◌, ◌++◌, append_assoc, append-nil, ==→eq, ==→ne,
  length, length-append, length-take, length-drop, take, drop, take-append-drop, get_or, bit_and,
  ◌==◌, eq→==, ne→==, ltb, ltb→lt, ltb→le,
}
use chaintopeslashrust_tapyr.Common.Bits.{bit_and_one}
use chaintopeslashrust_tapyr.Merkle.Partial.Widths.{pow_positive}
use chaintopeslashrust_tapyr.Outcome.{Bytes}
use chaintopeslashrust_tapyr.Merkle.Partial.Packing.{
  bit_value, blank, set_bits, pack_bits, get_bits, unpack_bits, get_byte, value, take_all, drop_all,
  bytes_of, packed, length-bytes_of,
}

-- Bits read back.
bits_of : ℕ → ℕ → List Bool
bits_of zero v = []
bits_of (suc n) v = (v % 2 == 1) ∷ bits_of n (v / 2)

abbrev pub no_bits : ℕ → List Bool
no_bits zero = []
no_bits (suc n) = false ∷ no_bits n

bits_of_zero : (n : ℕ) → bits_of n 0 ≡ no_bits n
unfolding bits_of
bits_of_zero zero = refl
bits_of_zero (suc n) = ap (λ l. false ∷ l) (bits_of_zero n)

halves :
    (b : Bool) (v : ℕ) → (((bit_value b + 2 * v) % 2 == 1) ≡ b) × ((bit_value b + 2 * v) / 2 ≡ v)
halves true v = (eq→== ((1 + 2 * v) % 2) 1 (omega arith), omega arith)
halves false v = (ne→== ((0 + 2 * v) % 2) 1 (λ e. absurd (omega arith)), omega arith)

bits_of-value :
    (n : ℕ) (bits : List Bool) → bits_of (length bits + n) (value bits) ≡ bits ++ no_bits n
unfolding bits_of
bits_of-value n [] = ap (λ k. bits_of k 0) (omega arith) ∙ bits_of_zero n
bits_of-value n (b ∷ bits) =
    let grouped : suc (length bits) + n ≡ suc (length bits + n) = omega arith in
    let (lowest, upper) = halves b (value bits) in
    ap (λ k. bits_of k (bit_value b + 2 * value bits)) grouped
    ∙ rw (lowest, upper) (ap (λ l. b ∷ l) (bits_of-value n bits))

test_bit : (v i : ℕ) → not (bit_and v (2 ^ i) == 0) ≡ (v / 2 ^ i % 2 == 1)
test_bit v i = elim (Bool-cases (v / 2 ^ i % 2 == 1)) [
  | inl on ↦
      let one : v / 2 ^ i % 2 ≡ 1 = ==→eq (v / 2 ^ i % 2) 1 on in
      let whole : bit_and v (2 ^ i) ≡ 2 ^ i =
        bit_and_one i v ∙ ap (λ b. b * 2 ^ i) one ∙ omega arith in
      rw (on, ne→== (bit_and v (2 ^ i)) 0 (λ e. absurd (omega (arith, whole, pow_positive i)))) refl
  | inr off ↦
      let none_on : v / 2 ^ i % 2 ≡ 0 = omega (arith, ==→ne (v / 2 ^ i % 2) 1 off) in
      let nothing : bit_and v (2 ^ i) ≡ 0 =
        bit_and_one i v ∙ ap (λ b. b * 2 ^ i) none_on ∙ omega arith in
      rw (off, eq→== (bit_and v (2 ^ i)) 0 nothing) refl
]

take_out :
    (rounds i : ℕ) (more : ℕ) (front : Bytes) (cur p : ℕ) (back : Bytes)
    → i + rounds ≤ 8
    → p ≡ length front * 8 + i
    → get_bits (rounds + more) p (front ++ (cur ∷ back))
      ≡ bits_of rounds (cur / 2 ^ i) ++ get_bits more (p + rounds) (front ++ (cur ∷ back))
unfolding get_bits bits_of
take_out zero i more front cur p back h e =
    let left : 0 + more ≡ more = omega arith in
    let right : p ≡ p + 0 = omega arith in
    ap (λ k. get_bits k p (front ++ (cur ∷ back))) left
    ∙ ap (λ q. get_bits more q (front ++ (cur ∷ back))) right
take_out (suc rounds) i more front cur p back h e =
    let row : p / 8 ≡ length front = omega (arith, e, h) in
    let column : p % 8 ≡ i = omega (arith, e, h) in
    let grouped : suc rounds + more ≡ suc (rounds + more) = omega arith in
    let shifted : cur / 2 ^ i / 2 ≡ cur / 2 ^ suc i =
      div-div-eq-div-mul cur (2 ^ i) 2 ∙ ap (λ d. cur / d) (omega (arith, pow-suc 2 i)) in
    let tested : not (bit_and (get_or (front ++ (cur ∷ back)) (p / 8) 0) (2 ^ (p % 8)) == 0)
        ≡ (cur / 2 ^ i % 2 == 1) =
      rw (row, column, get_byte front cur back) (test_bit cur i) in
    ap (λ k. get_bits k p (front ++ (cur ∷ back))) grouped
    ∙ ap (λ b. b ∷ get_bits (rounds + more) (p + 1) (front ++ (cur ∷ back))) tested
    ∙ ap (λ l. (cur / 2 ^ i % 2 == 1) ∷ l)
        (take_out rounds (suc i) more front cur (p + 1) back (omega arith) (omega (arith, e))
          ∙ ap (λ v. bits_of rounds v ++ get_bits more (p + 1 + rounds) (front ++ (cur ∷ back)))
              (sym shifted)
          ∙ ap (λ q. bits_of rounds (cur / 2 ^ i / 2) ++ get_bits more q (front ++ (cur ∷ back)))
              (omega arith))

length-take_le {ℓ} : {A : Type ℓ} (n : ℕ) (xs : List A) → length (take n xs) ≤ n
length-take_le zero xs = omega arith
length-take_le (suc n) [] = omega arith
length-take_le (suc n) (x ∷ xs) = omega (arith, length-take_le n xs)

no_bits-append : (a b : ℕ) → no_bits a ++ no_bits b ≡ no_bits (a + b)
no_bits-append zero b = ap no_bits (omega arith)
no_bits-append (suc a) b =
    let grouped : suc a + b ≡ suc (a + b) = omega arith in
    ap (λ l. false ∷ l) (no_bits-append a b) ∙ ap no_bits (sym grouped)

joined :
    (n : ℕ) (bits : List Bool)
    → length bits ≤ suc n * 8
    → (take 8 bits ++ no_bits (8 - length (take 8 bits)))
        ++ (drop 8 bits ++ no_bits (n * 8 - length (drop 8 bits)))
      ≡ bits ++ no_bits (suc n * 8 - length bits)
joined n bits h = elim (Bool-cases (ltb (length bits) 8)) [
  | inl few ↦
      let short : length bits ≤ 8 = omega (arith, ltb→lt (length bits) 8 few) in
      rw (take_all 8 bits short, drop_all 8 bits short)
        (append_assoc bits (no_bits (8 - length bits)) (no_bits (n * 8 - 0))
          ∙ ap (λ l. bits ++ l)
              (no_bits-append (8 - length bits) (n * 8 - 0) ∙ ap no_bits (omega (arith, short))))
  | inr many ↦
      let size : length (take 8 bits) ≡ 8 = length-take 8 bits (ltb→le (length bits) 8 many) in
      let left : n * 8 - length (drop 8 bits) ≡ suc n * 8 - length bits =
        omega (arith, length-drop 8 bits, ltb→le (length bits) 8 many) in
      rw
        (
          size,
          append-nil (take 8 bits),
          left,
          ← append_assoc (take 8 bits) (drop 8 bits) (no_bits (suc n * 8 - length bits)),
        )
        (ap (λ l. l ++ no_bits (suc n * 8 - length bits)) (take-append-drop 8 bits))
]

unpacked :
    (n : ℕ) (bits : List Bool) (front : Bytes) (p : ℕ)
    → length bits ≤ n * 8
    → p ≡ length front * 8
    → get_bits (n * 8) p (front ++ bytes_of n bits) ≡ bits ++ no_bits (n * 8 - length bits)
unfolding get_bits
unpacked zero [] front p h e = refl
unpacked zero (b ∷ bits) front p h e = absurd (omega arith)
unpacked (suc n) bits front p h e =
    let t : List Bool = take 8 bits in
    let d : List Bool = drop 8 bits in
    let v : ℕ = value t in
    let back : Bytes = bytes_of n d in
    let size : length t ≤ 8 = length-take_le 8 bits in
    let first : bits_of 8 (v / 1) ≡ t ++ no_bits (8 - length t) =
      ap (bits_of 8) (omega arith)
      ∙ ap (λ k. bits_of k v) (omega (arith, size))
      ∙ bits_of-value (8 - length t) t in
    let others : get_bits (n * 8) (p + 8) (front ++ (v ∷ back)) ≡ d ++ no_bits (n * 8 - length d) =
      ap (get_bits (n * 8) (p + 8)) (sym (append_assoc front (v ∷ []) back))
      ∙ unpacked n d (front ++ (v ∷ [])) (p + 8) (omega (arith, length-drop 8 bits))
          (omega (arith, e, length-append front (v ∷ []))) in
    ap (λ k. get_bits k p (front ++ (v ∷ back))) (omega arith)
    ∙ take_out 8 0 (n * 8) front v p back (omega arith) (omega (arith, e))
    ∙ ap (λ l. l ++ get_bits (n * 8) (p + 8) (front ++ (v ∷ back))) first
    ∙ ap (λ l. (t ++ no_bits (8 - length t)) ++ l) others
    ∙ joined n bits h

-- The bits that are packed come back, with bits that are not set up to the end of the last byte.
pub unpack-pack_bits :
    (bits : List Bool)
    → unpack_bits (pack_bits bits) ≡ bits ++ no_bits ((length bits + 7) / 8 * 8 - length bits)
unfolding unpack_bits pack_bits
unpack-pack_bits bits =
    let n : ℕ = (length bits + 7) / 8 in
    let bytes : set_bits bits 0 (blank n) ≡ bytes_of n bits =
      packed n bits [] 0 (omega arith) (omega arith) in
    ap (λ b. get_bits (length b * 8) 0 b) bytes
    ∙ ap (λ k. get_bits (k * 8) 0 (bytes_of n bits)) (length-bytes_of n bits)
    ∙ unpacked n bits [] 0 (omega arith) (omega arith)

pub length-no_bits : (n : ℕ) → length (no_bits n) ≡ n
length-no_bits zero = refl
length-no_bits (suc n) = ap suc (length-no_bits n)
