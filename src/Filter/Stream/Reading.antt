-- ===== src/Filter/Stream/Reading.antt =====
-- util/bip158.rs: what the reader of bits reads.
use Prim.Native.Nat.{min}
use native.Mathlib.Nat.{mod-eq_of_lt, mod-lt, pow-le-pow_right}
use chaintopeslashrust_tapyr.Common.{
  ℕ, zero, suc, ◌+◌, ◌-◌, ◌*◌, ◌/◌, ◌%◌, ◌^◌, ◌≤◌, ◌<◌, ◌≡◌, ◌≢◌, refl, sym, ap, ◌∙◌, subst, arith,
  List, [], ◌∷◌, ◌++◌, append_assoc, append_inj, le→ltb, ◌==◌, Bool-cases, inl, inr, ==→eq, ==→ne,
  bit_or,
}
use chaintopeslashrust_tapyr.Common.Bits.{bit_or_below}
use chaintopeslashrust_tapyr.Common.Powers.{
  pow_positive, pow_add, mod_split, digits_of, digits_of-append, digits_of_inj, length-digits_of,
}
use chaintopeslashrust_tapyr.Outcome.{Bytes, Result, ok}
use chaintopeslashrust_tapyr.Filter.Stream.{
  FilterError, BitStreamReader, next_buffer, refill, add_chunk, skip_chunk, read_rounds, read,
}
use chaintopeslashrust_tapyr.Filter.Stream.Writing.{all_digits}
use chaintopeslashrust_tapyr.Filter.Stream.Chunks.{chunk_read}

-- The digits that are left to read.
abbrev pub remaining : BitStreamReader → List ℕ
remaining r = digits_of (8 - r.offset) r.buffer ++ all_digits r.rest

-- A reader that has these digits left.
pub record Offers (r : BitStreamReader) (bs : List ℕ) : Type 0 where
  pub inside : r.offset ≤ 8
  pub bits : remaining r ≡ bs

refill-Offers :
    (r : BitStreamReader) (b : ℕ) (bs : List ℕ)
    → Offers r (b ∷ bs)
    → (f : BitStreamReader) × (refill r ≡ ok f) × (f.offset < 8) × Offers f (b ∷ bs)
unfolding refill digits_of
refill-Offers r b bs h = elim (Bool-cases (r.offset == 8)) [
  | inl spent ↦
      let offset = ==→eq r.offset 8 spent in
      let none_left : 8 - r.offset ≡ 0 = omega (arith, offset) in
      let bytes : all_digits r.rest ≡ b ∷ bs =
        ap (λ n. digits_of n r.buffer ++ all_digits r.rest) (sym none_left) ∙ h.bits in
      rw spent (fresh r.rest bytes)
  | inr some_left ↦ (r, rw some_left refl, omega (arith, ==→ne r.offset 8 some_left, h.inside), h)
]
  where
    fresh :
        (bytes : Bytes)
        → all_digits bytes ≡ b ∷ bs
        → (f : BitStreamReader) × (next_buffer bytes ≡ ok f) × (f.offset < 8) × Offers f (b ∷ bs)
    fresh [] e = cc e
    fresh (x ∷ xs) e = (
      record { buffer = x; offset = 0; rest = xs },
      refl,
      omega arith,
      record { inside = omega arith; bits = e },
    )

no_bits-Offers :
    (nbits v : ℕ) (r : BitStreamReader) (tail : List ℕ)
    → nbits ≡ 0
    → Offers r (digits_of nbits v ++ tail)
    → Offers r tail
unfolding digits_of
no_bits-Offers zero v r tail e h = h
no_bits-Offers (suc nbits) v r tail e h = absurd (omega arith)

refill_digits :
    (nbits v : ℕ) (r : BitStreamReader) (tail : List ℕ)
    → nbits ≢ 0
    → Offers r (digits_of nbits v ++ tail)
    → (f : BitStreamReader) × (refill r ≡ ok f)
      × (f.offset < 8)
      × Offers f (digits_of nbits v ++ tail)
unfolding digits_of
refill_digits zero v r tail more h = absurd (more refl)
refill_digits (suc nbits) v r tail more h =
    refill-Offers r (v / 2 ^ nbits % 2) (digits_of nbits v ++ tail) h

-- One round takes the digits of `v` above the `rest` lowest.
module _ (f : BitStreamReader) (v bits rest spare : ℕ) (tail : List ℕ) where
  skip_chunk-Offers :
      f.offset + bits + spare ≡ 8
      → Offers f (digits_of (bits + rest) v ++ tail)
      → (f.buffer / 2 ^ spare % 2 ^ bits ≡ v / 2 ^ rest % 2 ^ bits)
        × Offers (skip_chunk bits f) (digits_of rest v ++ tail)
  skip_chunk-Offers room h =
      let left : 8 - f.offset ≡ bits + spare = omega arith in
      let left_after : 8 - (f.offset + bits) ≡ spare = omega arith in
      let buffered : remaining f
          ≡ digits_of bits (f.buffer / 2 ^ spare)
            ++ (digits_of spare f.buffer ++ all_digits f.rest) =
        ap (λ n. digits_of n f.buffer ++ all_digits f.rest) left
        ∙ ap (λ l. l ++ all_digits f.rest) (digits_of-append bits spare f.buffer)
        ∙ append_assoc (digits_of bits (f.buffer / 2 ^ spare)) (digits_of spare f.buffer)
            (all_digits f.rest) in
      let wanted : digits_of (bits + rest) v ++ tail
          ≡ digits_of bits (v / 2 ^ rest) ++ (digits_of rest v ++ tail) =
        ap (λ l. l ++ tail) (digits_of-append bits rest v)
        ∙ append_assoc (digits_of bits (v / 2 ^ rest)) (digits_of rest v) tail in
      let (front, back) =
        append_inj (digits_of bits (f.buffer / 2 ^ spare)) (digits_of bits (v / 2 ^ rest))
          (length-digits_of bits (f.buffer / 2 ^ spare)
            ∙ sym (length-digits_of bits (v / 2 ^ rest)))
          (sym buffered ∙ h.bits ∙ wanted) in
      (
        digits_of_inj bits (f.buffer / 2 ^ spare) (v / 2 ^ rest) front,
        record {
          inside = omega arith;
          bits = ap (λ n. digits_of n f.buffer ++ all_digits f.rest) left_after ∙ back;
        },
      )

-- What has been read is moved up, with the chunk below.
add_chunk_lem :
    (content bits c already : ℕ) (f : BitStreamReader)
    → content < 2 ^ already
    → already + bits ≤ 64
    → c < 2 ^ bits
    → f.buffer * 2 ^ f.offset % 256 / 2 ^ (8 - bits) ≡ c
    → (add_chunk content bits f ≡ content * 2 ^ bits + c)
      × (add_chunk content bits f < 2 ^ (already + bits))
add_chunk_lem content bits c already f small fits low chunk =
    let limit : 2 ^ (already + bits) ≤ 2 ^ 64 =
      pow-le-pow_right {n = 2} (omega arith) {i = already + bits} {j = 64} fits in
    let below : content * 2 ^ bits + c < 2 ^ (already + bits) =
      rw (pow_add already bits) (grind (arith, small, low)) in
    let shift : content * 2 ^ bits % 2 ^ 64 ≡ content * 2 ^ bits =
      mod-eq_of_lt (omega (arith, below, limit)) in
    let value : add_chunk content bits f ≡ content * 2 ^ bits + c =
      ap (λ x. bit_or x (f.buffer * 2 ^ f.offset % 256 / 2 ^ (8 - bits))) shift
      ∙ ap (bit_or (content * 2 ^ bits)) chunk
      ∙ bit_or_below bits c content low in
    (value, subst (λ n. n < 2 ^ (already + bits)) (sym value) below)

-- What a call returns that reads `nbits` bits as the lowest of `v` behind `content`.
abbrev Delivers : Result FilterError (ℕ × BitStreamReader) → ℕ → List ℕ → Type 0
Delivers result n tail = (r : BitStreamReader) × (result ≡ ok (n, r)) × Offers r tail

read_rounds-Offers :
    (rounds content nbits already v : ℕ) (r : BitStreamReader) (tail : List ℕ)
    → nbits ≤ rounds
    → content < 2 ^ already
    → already + nbits ≤ 64
    → Offers r (digits_of nbits v ++ tail)
    → Delivers (read_rounds rounds content nbits r) (content * 2 ^ nbits + v % 2 ^ nbits) tail
unfolding read_rounds
read_rounds-Offers zero content nbits already v r tail enough small fits h =
    let none_left : nbits ≡ 0 = omega arith in
    (
      r,
      ap (λ n. ok (n, r))
          (omega arith ∙ ap (λ (n : ℕ). content * 2 ^ n + v % 2 ^ n) (sym none_left)),
      no_bits-Offers nbits v r tail none_left h,
    )
read_rounds-Offers (suc rounds) content nbits already v r tail enough small fits h =
    elim (Bool-cases (nbits == 0)) [
      | inl done ↦
          let none_left : nbits ≡ 0 = ==→eq nbits 0 done in
          (
            r,
            rw done (
                ap (λ n. ok (n, r))
                  (omega arith ∙ ap (λ (n : ℕ). content * 2 ^ n + v % 2 ^ n) (sym none_left))),
            no_bits-Offers nbits v r tail none_left h,
          )
      | inr more ↦
          let some_left = ==→ne nbits 0 more in
          let (f, refilled, room, offers) = refill_digits nbits v r tail some_left h in
          let bits : ℕ = min (8 - f.offset) nbits in
          let rest : ℕ = nbits - bits in
          let spare : ℕ = 8 - f.offset - bits in
          let parts : nbits ≡ bits + rest = omega arith in
          let c : ℕ = v / 2 ^ rest % 2 ^ bits in
          let all_offers : Offers f (digits_of (bits + rest) v ++ tail) =
            subst (λ n. Offers f (digits_of n v ++ tail)) parts offers in
          let (taken, after) =
            skip_chunk-Offers f v bits rest spare tail (omega arith) all_offers in
          let (value, below) =
            add_chunk_lem content bits c already f small (omega arith)
              (mod-lt (v / 2 ^ rest) (pow_positive bits))
              (chunk_read f.buffer f.offset bits spare (omega arith) ∙ taken) in
          let (s, returned, offered) =
            read_rounds-Offers rounds (add_chunk content bits f) rest (already + bits) v
              (skip_chunk bits f) tail (omega (arith, some_left, room)) below (omega arith) after in
          let total : add_chunk content bits f * 2 ^ rest + v % 2 ^ rest
              ≡ content * 2 ^ nbits + v % 2 ^ nbits =
            ap (λ (n : ℕ). n * 2 ^ rest + v % 2 ^ rest) value
            ∙ joined content c v bits rest refl
            ∙ ap (λ (n : ℕ). content * 2 ^ n + v % 2 ^ n) (sym parts) in
          (s, rw (more, refilled) (returned ∙ ap (λ n. ok (n, s)) total), offered)
    ]
  where
    joined :
        (content c v bits rest : ℕ)
        → c ≡ v / 2 ^ rest % 2 ^ bits
        → (content * 2 ^ bits + c) * 2 ^ rest + v % 2 ^ rest
          ≡ content * 2 ^ (bits + rest) + v % 2 ^ (bits + rest)
    joined content c v bits rest e =
        let wide : 2 ^ (bits + rest) ≡ 2 ^ bits * 2 ^ rest = pow_add bits rest in
        let split : v % 2 ^ (bits + rest) ≡ c * 2 ^ rest + v % 2 ^ rest =
          ap (λ n. v % n) wide
          ∙ mod_split v (2 ^ bits) (2 ^ rest) (pow_positive bits) (pow_positive rest)
          ∙ ap (λ (n : ℕ). n * 2 ^ rest + v % 2 ^ rest) (sym e) in
        grind (arith, split, ap (λ (n : ℕ). content * n) wide)

-- The digits that a number was written in are read as that number.
pub read-Offers :
    (nbits v : ℕ) (r : BitStreamReader) (tail : List ℕ)
    → nbits ≤ 64
    → Offers r (digits_of nbits v ++ tail)
    → (s : BitStreamReader) × (read nbits r ≡ ok (v % 2 ^ nbits, s)) × Offers s tail
unfolding read
read-Offers nbits v r tail most h =
    let (s, returned, offered) =
      read_rounds-Offers nbits 0 nbits 0 v r tail (omega arith) (omega arith) (omega arith) h in
    (s, rw (le→ltb 64 nbits most) (returned ∙ ap (λ n. ok (n, s)) (omega arith)), offered)
