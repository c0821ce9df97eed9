-- ===== src/Filter/Golomb/Coding.antt =====
-- util/bip158.rs: the code of a number, and that it is read back.
use Prim.Native.Nat.{min}
use native.Mathlib.Nat.{mod-eq_of_lt, div-add-mod'}
use chaintopeslashrust_tapyr.Common.{
  ℕ, zero, suc, ◌+◌, ◌-◌, ◌*◌, ◌/◌, ◌%◌, ◌^◌, ◌≤◌, ◌<◌, ◌≡◌, refl, sym, ap, ◌∙◌, subst, arith, List,
  [], ◌∷◌, ◌++◌, length, length-append, append_assoc, append-nil, append_inj, lt→leb, lt→ltb, ◌==◌,
  Bool-cases, inl, inr, ==→eq, ==→ne,
}
use chaintopeslashrust_tapyr.Common.Powers.{digits_of, digits_of-append, length-digits_of}
use chaintopeslashrust_tapyr.Outcome.{Bytes, Result, ok, bind}
use chaintopeslashrust_tapyr.Filter.Stream.{
  FilterError, BitStreamWriter, BitStreamReader, write, read,
}
use chaintopeslashrust_tapyr.Filter.Stream.Writing.{all_digits, Open, write-Open}
use chaintopeslashrust_tapyr.Filter.Stream.Reading.{Offers, remaining, read-Offers}
use chaintopeslashrust_tapyr.Filter.Golomb.{
  write_ones, golomb_rice_encode, read_ones, bits_left, golomb_rice_decode,
}

abbrev pub ones : ℕ → List ℕ
ones zero = []
ones (suc n) = 1 ∷ ones n

-- The Golomb-Rice code of `n` with the parameter `p`.
unfoldable pub code : ℕ → ℕ → List ℕ
code p n = ones (n / 2 ^ p) ++ (0 ∷ digits_of p n)

length-ones : (n : ℕ) → length (ones n) ≡ n
length-ones zero = refl
length-ones (suc n) = ap suc (length-ones n)

ones-append : (a b : ℕ) → ones (a + b) ≡ ones a ++ ones b
ones-append zero b = ap ones (omega arith)
ones-append (suc a) b =
    let e : suc a + b ≡ suc (a + b) = omega arith in ap ones e ∙ ap (λ l. 1 ∷ l) (ones-append a b)

all_ones : digits_of 64 (2 ^ 64 - 1) ≡ ones 64
unfolding digits_of
all_ones = refl

digits_of-ones : (m : ℕ) → m ≤ 64 → digits_of m (2 ^ 64 - 1) ≡ ones m
digits_of-ones m h =
    let k : ℕ = 64 - m in
    let sum : 64 ≡ k + m = omega arith in
    let high : List ℕ = digits_of k ((2 ^ 64 - 1) / 2 ^ m) in
    let same : high ++ digits_of m (2 ^ 64 - 1) ≡ ones k ++ ones m =
      sym (digits_of-append k m (2 ^ 64 - 1))
      ∙ ap (λ n. digits_of n (2 ^ 64 - 1)) (sym sum)
      ∙ all_ones
      ∙ ap ones sum
      ∙ ones-append k m in
    (append_inj high (ones k) (length-digits_of k ((2 ^ 64 - 1) / 2 ^ m) ∙ sym (length-ones k))
      same).1

-- What a call returns that has written `bs` in all.
abbrev pub Writes : Result FilterError BitStreamWriter → List ℕ → Type 0
Writes result bs = (v : BitStreamWriter) × (result ≡ ok v) × Open v bs

write_ones-Open :
    (rounds q : ℕ) (w : BitStreamWriter) (bs : List ℕ)
    → q ≤ rounds
    → Open w bs
    → Writes (write_ones rounds q w) (bs ++ ones q)
unfolding write_ones
write_ones-Open zero zero w bs enough h = (w, refl, rw (append-nil bs) h)
write_ones-Open zero (suc q) w bs enough h = absurd (omega arith)
write_ones-Open (suc rounds) q w bs enough h = elim (Bool-cases (q == 0)) [
  | inl done ↦ (w, rw done refl, rw (==→eq q 0 done, append-nil bs) h)
  | inr more ↦
      let m : ℕ = min q 64 in
      let byte : m % 256 ≡ m = omega arith in
      let (v, wrote, opened) = write-Open (2 ^ 64 - 1) m w bs (omega arith) h in
      let first : Open v (bs ++ ones m) =
        subst (λ l. Open v (bs ++ l)) (digits_of-ones m (omega arith)) opened in
      let (u, then_wrote, then_open) =
        write_ones-Open rounds (q - m) v (bs ++ ones m) (omega (arith, ==→ne q 0 more)) first in
      let parts : ones m ++ ones (q - m) ≡ ones q =
        sym (ones-append m (q - m)) ∙ ap ones (omega arith) in
      let digits : (bs ++ ones m) ++ ones (q - m) ≡ bs ++ ones q =
        append_assoc bs (ones m) (ones (q - m)) ∙ ap (λ l. bs ++ l) parts in
      (
        u,
        rw more (
            ap (λ n. bind (write (2 ^ 64 - 1) n w) (write_ones rounds (q - m))) byte
            ∙ ap (λ (x : Result FilterError BitStreamWriter). bind x (write_ones rounds (q - m)))
                wrote
            ∙ then_wrote),
        subst (Open u) digits then_open,
      )
]

one_zero : digits_of 1 0 ≡ 0 ∷ []
unfolding digits_of
one_zero = refl

pub golomb_rice_encode-Open :
    (p n : ℕ) (w : BitStreamWriter) (bs : List ℕ)
    → p < 64
    → Open w bs
    → Writes (golomb_rice_encode p n w) (bs ++ code p n)
unfolding golomb_rice_encode code
golomb_rice_encode-Open p n w bs small h =
    let q : ℕ = n / 2 ^ p in
    let (v, wrote, opened) = write_ones-Open q q w bs (omega arith) h in
    let (u, wrote_stop, open_stop) = write-Open 0 1 v (bs ++ ones q) (omega arith) opened in
    let (t, wrote_low, open_low) =
      write-Open n p u ((bs ++ ones q) ++ (0 ∷ [])) (omega arith)
        (subst (Open u) (stop q) open_stop) in
    let digits : ((bs ++ ones q) ++ (0 ∷ [])) ++ digits_of p n
        ≡ bs ++ (ones q ++ (0 ∷ digits_of p n)) =
      append_assoc (bs ++ ones q) (0 ∷ []) (digits_of p n)
      ∙ append_assoc bs (ones q) (0 ∷ digits_of p n) in
    (t, rw (lt→leb 64 p small, wrote, wrote_stop) wrote_low, subst (Open t) digits open_low)
  where
    stop : (q : ℕ) → (bs ++ ones q) ++ digits_of 1 0 ≡ (bs ++ ones q) ++ (0 ∷ [])
    stop q = ap (λ l. (bs ++ ones q) ++ l) one_zero

length-all_digits : (bs : Bytes) → length (all_digits bs) ≡ 8 * length bs
length-all_digits [] = omega arith
length-all_digits (b ∷ bs) = omega (
  arith,
  length-append (digits_of 8 b) (all_digits bs),
  length-digits_of 8 b,
  length-all_digits bs,
)

-- What a call returns that reads `n` and leaves `tail`.
abbrev pub Reads : Result FilterError (ℕ × BitStreamReader) → ℕ → List ℕ → Type 0
Reads result n tail = (s : BitStreamReader) × (result ≡ ok (n, s)) × Offers s tail

one_digit : (b : ℕ) (tail : List ℕ) → b < 2 → digits_of 1 b ++ tail ≡ b ∷ tail
unfolding digits_of
one_digit b tail h = let e : b / 2 ^ 0 % 2 ≡ b = omega arith in ap (λ n. n ∷ tail) e

read_bit :
    (b : ℕ) (r : BitStreamReader) (tail : List ℕ)
    → b < 2
    → Offers r (b ∷ tail)
    → Reads (read 1 r) b tail
read_bit b r tail h offers =
    let (s, result, after) =
      read-Offers 1 b r tail (omega arith) (subst (Offers r) (sym (one_digit b tail h)) offers) in
    let low : b % 2 ^ 1 ≡ b = omega arith in (s, result ∙ ap (λ n. ok (n, s)) low, after)

read_ones-Offers :
    (rounds q k : ℕ) (r : BitStreamReader) (tail : List ℕ)
    → k < rounds
    → Offers r (ones k ++ (0 ∷ tail))
    → Reads (read_ones rounds q r) (q + k) tail
unfolding read_ones
read_ones-Offers zero q k r tail enough h = absurd (omega arith)
read_ones-Offers (suc rounds) q zero r tail enough h =
    let (s, result, after) = read_bit 0 r tail (omega arith) h in
    let e : q ≡ q + 0 = omega arith in (s, rw result (ap (λ n. ok (n, s)) e), after)
read_ones-Offers (suc rounds) q (suc k) r tail enough h =
    let (s, result, after) = read_bit 1 r (ones k ++ (0 ∷ tail)) (omega arith) h in
    let (t, then_result, then_after) =
      read_ones-Offers rounds (suc q) k s tail (omega arith) after in
    let e : suc q + k ≡ q + suc k = omega arith in
    (t, rw result (then_result ∙ ap (λ n. ok (n, t)) e), then_after)

pub golomb_rice_decode-Offers :
    (p n : ℕ) (r : BitStreamReader) (tail : List ℕ)
    → p < 64
    → n < 2 ^ 64
    → Offers r (code p n ++ tail)
    → Reads (golomb_rice_decode p r) n tail
unfolding golomb_rice_decode code
golomb_rice_decode-Offers p n r tail small fits h =
    let q : ℕ = n / 2 ^ p in
    let digits : (ones q ++ (0 ∷ digits_of p n)) ++ tail ≡ ones q ++ (0 ∷ (digits_of p n ++ tail)) =
      append_assoc (ones q) (0 ∷ digits_of p n) tail in
    let offers : Offers r (ones q ++ (0 ∷ (digits_of p n ++ tail))) = subst (Offers r) digits h in
    let count : length (remaining r) ≡ length (ones q ++ (0 ∷ (digits_of p n ++ tail))) =
      ap (λ l. length l) offers.bits in
    let enough : q < suc (bits_left r) = omega (
      arith,
      count,
      length-append (ones q) (0 ∷ (digits_of p n ++ tail)),
      length-ones q,
      length-append (digits_of (8 - r.offset) r.buffer) (all_digits r.rest),
      length-digits_of (8 - r.offset) r.buffer,
      length-all_digits r.rest,
    ) in
    let (s, high, after) =
      read_ones-Offers (suc (bits_left r)) 0 q r (digits_of p n ++ tail) enough offers in
    let (t, low, left) = read-Offers p n s tail (omega arith) after in
    let whole : q * 2 ^ p + n % 2 ^ p ≡ n = div-add-mod' n (2 ^ p) in
    let shifted : (0 + q) * 2 ^ p % 2 ^ 64 ≡ q * 2 ^ p =
      ap (λ (x : ℕ). x * 2 ^ p % 2 ^ 64) (omega arith) ∙ mod-eq_of_lt (omega (arith, whole)) in
    let sum : (0 + q) * 2 ^ p % 2 ^ 64 + n % 2 ^ p ≡ n = ap (λ x. x + n % 2 ^ p) shifted ∙ whole in
    (t, rw (high, low, lt→leb 64 p small, sum, lt→ltb n (2 ^ 64) fits) refl, left)
