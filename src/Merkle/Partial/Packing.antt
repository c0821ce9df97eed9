-- ===== src/Merkle/Partial/Packing.antt =====
-- util/merkleblock.rs: the bits of a partial tree in bytes, the lowest bit first.
use native.Mathlib.Nat.{pow-suc}
use chaintopeslashrust_tapyr.Common.{
  ℕ, zero, suc, ◌+◌, ◌*◌, ◌/◌, ◌%◌, ◌^◌, ◌<◌, ◌≤◌, ◌≡◌, refl, sym, ap, ◌∙◌, subst, arith, Bool,
  true, false, not, Bool-cases, inl, inr, List, [], ◌∷◌, ◌++◌, All, append_assoc, append-nil,
  length, length-append, length-take, length-drop, take, drop, take-append-drop, get_or, bit_and,
  bit_or, ◌==◌, ltb, ltb→lt, ltb→le,
}
use chaintopeslashrust_tapyr.Common.Bits.{bit_or_above}
use chaintopeslashrust_tapyr.Merkle.Partial.Widths.{pow_positive}
use chaintopeslashrust_tapyr.Outcome.{Bytes, IsByte}

abbrev pub bit_value : Bool → ℕ
bit_value false = 0
bit_value true = 1

-- `bytes[i] = b`.
unfoldable pub set_byte : Bytes → ℕ → ℕ → Bytes
set_byte [] i b = []
set_byte (x ∷ xs) zero b = b ∷ xs
set_byte (x ∷ xs) (suc i) b = x ∷ set_byte xs i b

-- `vec![0; n]`
unfoldable pub blank : ℕ → Bytes
blank zero = []
blank (suc n) = 0 ∷ blank n

-- `for p in 0..bits.len()`, from `p` on.
unfoldable pub set_bits : List Bool → ℕ → Bytes → Bytes
unfolding set_byte
set_bits [] p bytes = bytes
set_bits (b ∷ bits) p bytes =
    set_bits bits (p + 1)
      (set_byte bytes (p / 8) (bit_or (get_or bytes (p / 8) 0) (bit_value b * 2 ^ (p % 8))))

unfoldable pub pack_bits : List Bool → Bytes
unfolding set_bits blank
pack_bits bits = set_bits bits 0 (blank ((length bits + 7) / 8))

-- `for (p, bit) in bits.iter_mut().enumerate()`, from `p` on.
unfoldable pub get_bits : ℕ → ℕ → Bytes → List Bool
get_bits zero p bytes = []
get_bits (suc rounds) p bytes =
    not (bit_and (get_or bytes (p / 8) 0) (2 ^ (p % 8)) == 0) ∷ get_bits rounds (p + 1) bytes

unfoldable pub unpack_bits : Bytes → List Bool
unfolding get_bits
unpack_bits bytes = get_bits (length bytes * 8) 0 bytes

pub get_byte :
    (front : Bytes) (b : ℕ) (back : Bytes) → get_or (front ++ (b ∷ back)) (length front) 0 ≡ b
get_byte [] b back = refl
get_byte (x ∷ front) b back = get_byte front b back

set_byte_at :
    (front : Bytes) (b c : ℕ) (back : Bytes)
    → set_byte (front ++ (b ∷ back)) (length front) c ≡ front ++ (c ∷ back)
unfolding set_byte
set_byte_at [] b c back = refl
set_byte_at (x ∷ front) b c back = ap (λ l. x ∷ l) (set_byte_at front b c back)

-- The number whose binary digits are given, the lowest first.
abbrev pub value : List Bool → ℕ
value [] = 0
value (b ∷ bits) = bit_value b + 2 * value bits

bit_value_small : (b : Bool) → bit_value b ≤ 1
bit_value_small true = omega arith
bit_value_small false = omega arith

pub scaled : (b : Bool) (d : ℕ) → bit_value b * d ≤ d
scaled true d = omega arith
scaled false d = omega arith

-- Bits are set in the byte at the end of `front`.
fill :
    (bits rest : List Bool) (i : ℕ) (front : Bytes) (cur p : ℕ) (back : Bytes)
    → i + length bits ≤ 8
    → cur < 2 ^ i
    → p ≡ length front * 8 + i
    → set_bits (bits ++ rest) p (front ++ (cur ∷ back))
      ≡ set_bits rest (p + length bits) (front ++ ((cur + 2 ^ i * value bits) ∷ back))
unfolding set_bits
fill [] rest i front cur p back h small e =
    let here : p ≡ p + 0 = omega arith in
    let same : cur ≡ cur + 2 ^ i * 0 = omega arith in
    ap (λ q. set_bits rest q (front ++ (cur ∷ back))) here
    ∙ ap (λ c. set_bits rest (p + 0) (front ++ (c ∷ back))) same
fill (b ∷ bits) rest i front cur p back h small e =
    let row : p / 8 ≡ length front = omega (arith, e, h) in
    let column : p % 8 ≡ i = omega (arith, e, h) in
    let doubled : 2 ^ suc i ≡ 2 ^ i * 2 = omega (arith, pow-suc 2 i) in
    let next : ℕ = cur + bit_value b * 2 ^ i in
    let next_small : next < 2 ^ suc i = omega (arith, scaled b (2 ^ i), doubled) in
    let total : next + 2 ^ suc i * value bits ≡ cur + 2 ^ i * (bit_value b + 2 * value bits) =
      ap (λ d. next + d * value bits) doubled ∙ omega arith in
    let filled : set_byte (front ++ (cur ∷ back)) (p / 8)
          (bit_or (get_or (front ++ (cur ∷ back)) (p / 8) 0) (bit_value b * 2 ^ (p % 8)))
        ≡ front ++ (next ∷ back) =
      rw (row, column, get_byte front cur back, bit_or_above i cur (bit_value b) small)
        (set_byte_at front cur next back) in
    ap (set_bits (bits ++ rest) (p + 1)) filled
    ∙ fill bits rest (suc i) front next (p + 1) back (omega arith) next_small (omega (arith, e))
    ∙ ap (λ c. set_bits rest (p + 1 + length bits) (front ++ (c ∷ back))) total
    ∙ ap (λ q. set_bits rest q (front ++ ((cur + 2 ^ i * (bit_value b + 2 * value bits)) ∷ back)))
        (omega arith)

-- The bytes of some bits, as many as are asked for.
abbrev pub bytes_of : ℕ → List Bool → Bytes
bytes_of zero bits = []
bytes_of (suc n) bits = value (take 8 bits) ∷ bytes_of n (drop 8 bits)

blank_bytes : (n : ℕ) → bytes_of n [] ≡ blank n
unfolding blank
blank_bytes zero = refl
blank_bytes (suc n) = ap (λ l. 0 ∷ l) (blank_bytes n)

pub take_all {ℓ} : {A : Type ℓ} (n : ℕ) (xs : List A) → length xs ≤ n → take n xs ≡ xs
take_all zero [] h = refl
take_all zero (x ∷ xs) h = absurd (omega arith)
take_all (suc n) [] h = refl
take_all (suc n) (x ∷ xs) h = ap (λ l. x ∷ l) (take_all n xs (omega arith))

pub drop_all {ℓ} : {A : Type ℓ} (n : ℕ) (xs : List A) → length xs ≤ n → drop n xs ≡ []
drop_all zero [] h = refl
drop_all zero (x ∷ xs) h = absurd (omega arith)
drop_all (suc n) [] h = refl
drop_all (suc n) (x ∷ xs) h = drop_all n xs (omega arith)

pub packed :
    (n : ℕ) (bits : List Bool) (front : Bytes) (p : ℕ)
    → length bits ≤ n * 8
    → p ≡ length front * 8
    → set_bits bits p (front ++ blank n) ≡ front ++ bytes_of n bits
unfolding set_bits blank
packed zero [] front p h e = refl
packed zero (b ∷ bits) front p h e = absurd (omega arith)
packed (suc n) bits front p h e = elim (Bool-cases (ltb (length bits) 8)) [
  | inl few ↦
      let short : length bits ≤ 8 = omega (arith, ltb→lt (length bits) 8 few) in
      rw (take_all 8 bits short, drop_all 8 bits short, blank_bytes n)
        (ap (λ l. set_bits l p (front ++ (0 ∷ blank n))) (sym (append-nil bits))
          ∙ fill bits [] 0 front 0 p (blank n) (omega (arith, short)) (omega arith)
              (omega (arith, e))
          ∙ ap (λ v. front ++ (v ∷ blank n)) (omega arith))
  | inr many ↦
      let long : 8 ≤ length bits = ltb→le (length bits) 8 many in
      let size : length (take 8 bits) ≡ 8 = length-take 8 bits long in
      let v : ℕ = value (take 8 bits) in
      ap (λ l. set_bits l p (front ++ (0 ∷ blank n))) (sym (take-append-drop 8 bits))
      ∙ fill (take 8 bits) (drop 8 bits) 0 front 0 p (blank n) (omega (arith, size)) (omega arith)
          (omega (arith, e))
      ∙ ap (λ w. set_bits (drop 8 bits) (p + length (take 8 bits)) (front ++ (w ∷ blank n)))
          (omega arith)
      ∙ ap (set_bits (drop 8 bits) (p + length (take 8 bits)))
          (sym (append_assoc front (v ∷ []) (blank n)))
      ∙ packed n (drop 8 bits) (front ++ (v ∷ [])) (p + length (take 8 bits))
          (omega (arith, length-drop 8 bits)) (omega (arith, e, size, length-append front (v ∷ [])))
      ∙ append_assoc front (v ∷ []) (bytes_of n (drop 8 bits))
]

pub length-bytes_of : (n : ℕ) (bits : List Bool) → length (bytes_of n bits) ≡ n
length-bytes_of zero bits = refl
length-bytes_of (suc n) bits = ap suc (length-bytes_of n (drop 8 bits))

value_small : (n : ℕ) (bits : List Bool) → value (take n bits) < 2 ^ n
value_small zero bits = omega arith
value_small (suc n) [] = pow_positive (suc n)
value_small (suc n) (b ∷ bits) = omega (arith, value_small n bits, bit_value_small b, pow-suc 2 n)

bytes_of-IsByte : (n : ℕ) (bits : List Bool) → All IsByte (bytes_of n bits)
bytes_of-IsByte zero bits = tt
bytes_of-IsByte (suc n) bits = (value_small 8 bits, bytes_of-IsByte n (drop 8 bits))

-- As many bytes are written as hold the bits.
pub pack_bits-IsByte :
    (bits : List Bool)
    → (length (pack_bits bits) ≡ (length bits + 7) / 8) × All IsByte (pack_bits bits)
unfolding pack_bits
pack_bits-IsByte bits =
    let n : ℕ = (length bits + 7) / 8 in
    let bytes : set_bits bits 0 (blank n) ≡ bytes_of n bits =
      packed n bits [] 0 (omega arith) (omega arith) in
    (
      ap length bytes ∙ length-bytes_of n bits,
      subst (All IsByte) (sym bytes) (bytes_of-IsByte n bits),
    )
