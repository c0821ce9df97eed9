-- ===== src/Filter/Stream/Writing.antt =====
-- util/bip158.rs: what the writer of bits writes.
use Prim.Native.Nat.{min}
use native.Mathlib.Nat.{mod-lt}
use chaintopeslashrust_tapyr.Common.{
  ℕ, zero, suc, ◌+◌, ◌-◌, ◌*◌, ◌/◌, ◌%◌, ◌^◌, ◌≤◌, ◌<◌, ◌≡◌, ◌⊎◌, refl, sym, ap, ◌∙◌, subst, arith,
  List, [], ◌∷◌, ◌++◌, append_assoc, append-nil, ltb, lt→ltb, le→ltb, ltb→lt, ltb→le, ◌==◌,
  Bool-cases, inl, inr, ==→eq, ==→ne, bit_or,
}
use chaintopeslashrust_tapyr.Common.Bits.{bit_or_below}
use chaintopeslashrust_tapyr.Common.Powers.{
  pow_positive, pow_add, pow_sum, digits_of, digits_of-append, digits_of-join, digits_of_low_mod,
}
use chaintopeslashrust_tapyr.Outcome.{Bytes, ok}
use chaintopeslashrust_tapyr.Filter.Stream.{
  BitStreamWriter, new_writer, flush, chunk_to_write, put_chunk, write_round, write_rounds, write,
}
use chaintopeslashrust_tapyr.Filter.Stream.Chunks.{chunk_last, chunk_first}

-- The digits of bytes.
abbrev pub all_digits : Bytes → List ℕ
all_digits [] = []
all_digits (b ∷ bs) = digits_of 8 b ++ all_digits bs

pub all_digits-append : (xs ys : Bytes) → all_digits (xs ++ ys) ≡ all_digits xs ++ all_digits ys
all_digits-append [] ys = refl
all_digits-append (x ∷ xs) ys =
    ap (λ l. digits_of 8 x ++ l) (all_digits-append xs ys)
    ∙ sym (append_assoc (digits_of 8 x) (all_digits xs) (all_digits ys))

-- The writer has taken the digits `bs`; the digits not yet written out are those of `top`.
pub record Holds (w : BitStreamWriter) (bs : List ℕ) : Type 0 where
  pub top : ℕ
  pub filled : w.buffer ≡ top * 2 ^ (8 - w.offset)
  pub below : top < 2 ^ w.offset
  pub inside : w.offset ≤ 8
  pub bits : all_digits w.written ++ digits_of w.offset top ≡ bs

module _ (content rest bits spare : ℕ) (w : BitStreamWriter) (bs : List ℕ) where
  -- What one round puts into the buffer.
  put_chunk-Holds :
      w.offset + bits + spare ≡ 8
      → chunk_to_write content (bits + rest) w.offset ≡ content / 2 ^ rest % 2 ^ bits * 2 ^ spare
      → bits ≡ min (8 - w.offset) (bits + rest)
      → Holds w bs
      → Holds (put_chunk content (bits + rest) w) (bs ++ digits_of bits (content / 2 ^ rest))
  put_chunk-Holds room chunk fits h =
      let c : ℕ = content / 2 ^ rest % 2 ^ bits in
      let small : c < 2 ^ bits = mod-lt (content / 2 ^ rest) (pow_positive bits) in
      let wide : 2 ^ (8 - w.offset) ≡ 2 ^ bits * 2 ^ spare =
        pow_sum (8 - w.offset) bits spare (omega arith) in
      let low : c * 2 ^ spare < 2 ^ (8 - w.offset) =
        rw wide (grind (arith, small, pow_positive spare)) in
      let next : ℕ = h.top * 2 ^ bits + c in
      let merged : bit_or w.buffer (chunk_to_write content (bits + rest) w.offset)
          ≡ h.top * 2 ^ (8 - w.offset) + c * 2 ^ spare =
        ap (λ b. bit_or b (chunk_to_write content (bits + rest) w.offset)) h.filled
        ∙ ap (bit_or (h.top * 2 ^ (8 - w.offset))) chunk
        ∙ bit_or_below (8 - w.offset) (c * 2 ^ spare) h.top low in
      let shifted : h.top * 2 ^ (8 - w.offset) + c * 2 ^ spare ≡ next * 2 ^ spare =
        grind (arith, ap (λ (t : ℕ). h.top * t) wide) in
      let spare_left : spare ≡ 8 - (w.offset + min (8 - w.offset) (bits + rest)) =
        omega (arith, fits) in
      let wider : 2 ^ (w.offset + bits) ≡ 2 ^ w.offset * 2 ^ bits = pow_add w.offset bits in
      record {
        top = next;
        filled = merged ∙ shifted ∙ ap (λ (t : ℕ). next * 2 ^ t) spare_left;
        below =
            subst (λ t. next < 2 ^ (w.offset + t)) fits (rw wider (grind (arith, small, h.below)));
        inside = omega (arith, fits);
        bits =
            ap (λ t. all_digits w.written ++ digits_of (w.offset + t) next) (sym fits)
            ∙ ap (λ l. all_digits w.written ++ l) (digits_of-join w.offset bits h.top c small)
            ∙ sym
                (append_assoc (all_digits w.written) (digits_of w.offset h.top) (digits_of bits c))
            ∙ ap (λ l. l ++ digits_of bits c) h.bits
            ∙ ap (λ l. bs ++ l) (digits_of_low_mod bits (content / 2 ^ rest));
      }

-- A writer between two calls: its buffer is not full.
pub record Open (w : BitStreamWriter) (bs : List ℕ) : Type 0 where
  pub holds : Holds w bs
  pub room : w.offset < 8

pub new_writer-Open : (written : Bytes) → Open (new_writer written) (all_digits written)
unfolding digits_of
new_writer-Open written = record {
  holds = record {
    top = 0;
    filled = omega arith;
    below = omega arith;
    inside = omega arith;
    bits = append-nil (all_digits written);
  };
  room = omega arith;
}

full_buffer-Open :
    (w : BitStreamWriter) (bs : List ℕ)
    → w.offset ≡ 8
    → Holds w bs
    → Open (new_writer (w.written ++ (w.buffer ∷ []))) bs
full_buffer-Open w bs full h =
    let same : w.buffer ≡ h.top =
      h.filled ∙ ap (λ (n : ℕ). h.top * 2 ^ (8 - n)) full ∙ omega arith in
    let digits : all_digits (w.written ++ (w.buffer ∷ [])) ≡ bs =
      all_digits-append w.written (w.buffer ∷ [])
      ∙ ap (λ l. all_digits w.written ++ l) (append-nil (digits_of 8 w.buffer))
      ∙ ap (λ x. all_digits w.written ++ digits_of 8 x) same
      ∙ ap (λ n. all_digits w.written ++ digits_of n h.top) (sym full)
      ∙ h.bits in
    subst (Open (new_writer (w.written ++ (w.buffer ∷ [])))) digits
      (new_writer-Open (w.written ++ (w.buffer ∷ [])))

write_round-Open :
    (content rest bits spare : ℕ) (w : BitStreamWriter) (bs : List ℕ)
    → 0 < bits
    → bits + rest ≤ 64
    → w.offset + bits + spare ≡ 8
    → (rest ≡ 0) ⊎ (spare ≡ 0)
    → Open w bs
    → Open (write_round content (bits + rest) w) (bs ++ digits_of bits (content / 2 ^ rest))
unfolding write_round flush
write_round-Open content rest bits spare w bs some_bits most room ends h =
    let fits : bits ≡ min (8 - w.offset) (bits + rest) = elim ends [
      | inl e ↦ omega (arith, e)
      | inr e ↦ omega (arith, e)
    ] in
    let chunk : chunk_to_write content (bits + rest) w.offset
        ≡ content / 2 ^ rest % 2 ^ bits * 2 ^ spare =
      elim ends [
        | inl e ↦ none_left e
        | inr e ↦
            chunk_first content bits rest (56 + w.offset) (omega arith) most (omega (arith, e))
            ∙ sym (ap (λ (n : ℕ). content / 2 ^ rest % 2 ^ bits * 2 ^ n) e ∙ omega arith)
      ] in
    let held = put_chunk-Holds content rest bits spare w bs room chunk fits h.holds in
    elim (Bool-cases (w.offset + min (8 - w.offset) (bits + rest) == 8)) [
      | inl full ↦
          let offset = ==→eq (w.offset + min (8 - w.offset) (bits + rest)) 8 full in
          rw (full, lt→ltb 0 (w.offset + min (8 - w.offset) (bits + rest)) (omega (arith, offset)))
            (full_buffer-Open (put_chunk content (bits + rest) w) _ offset held)
      | inr open_still ↦
          let offset = ==→ne (w.offset + min (8 - w.offset) (bits + rest)) 8 open_still in
          rw open_still (record { holds = held; room = omega (arith, offset, fits) })
    ]
  where
    none_left :
        rest ≡ 0
        → chunk_to_write content (bits + rest) w.offset ≡ content / 2 ^ rest % 2 ^ bits * 2 ^ spare
    none_left e =
        let all_bits : bits + rest ≡ bits = omega (arith, e) in
        let whole : content / 2 ^ rest ≡ content =
          ap (λ (n : ℕ). content / 2 ^ n) e ∙ omega arith in
        ap (λ n. chunk_to_write content n w.offset) all_bits
        ∙ chunk_last content bits spare (56 + w.offset) (omega arith) (omega arith)
        ∙ ap (λ (x : ℕ). x % 2 ^ bits * 2 ^ spare) (sym whole)

write_rounds-Open :
    (rounds content nbits : ℕ) (w : BitStreamWriter) (bs : List ℕ)
    → nbits ≤ rounds
    → nbits ≤ 64
    → Open w bs
    → Open (write_rounds rounds content nbits w) (bs ++ digits_of nbits content)
unfolding write_rounds digits_of
write_rounds-Open zero content zero w bs enough most h = rw (append-nil bs) h
write_rounds-Open zero content (suc nbits) w bs enough most h = absurd (omega arith)
write_rounds-Open (suc rounds) content nbits w bs enough most h = elim (Bool-cases (nbits == 0)) [
  | inl done ↦ rw (done, ap (λ n. digits_of n content) (==→eq nbits 0 done), append-nil bs) h
  | inr more ↦
      let some_left = ==→ne nbits 0 more in
      let bits : ℕ = min (8 - w.offset) nbits in
      let rest : ℕ = nbits - bits in
      let parts : nbits ≡ bits + rest = omega arith in
      let step : Open (write_round content nbits w) (bs ++ digits_of bits (content / 2 ^ rest)) =
        subst (λ n. Open (write_round content n w) (bs ++ digits_of bits (content / 2 ^ rest)))
          (sym parts)
          (write_round-Open content rest bits (8 - w.offset - bits) w bs
            (omega (arith, some_left, h.room)) (omega arith) (omega (arith, h.room)) ends h) in
      let digits : (bs ++ digits_of bits (content / 2 ^ rest)) ++ digits_of rest content
          ≡ bs ++ digits_of nbits content =
        append_assoc bs (digits_of bits (content / 2 ^ rest)) (digits_of rest content)
        ∙ ap (λ l. bs ++ l) (sym (digits_of-append bits rest content))
        ∙ ap (λ n. bs ++ digits_of n content) (sym parts) in
      rw more (
        subst (Open (write_rounds rounds content rest (write_round content nbits w))) digits (
          write_rounds-Open rounds content rest (write_round content nbits w) _
            (omega (arith, some_left, h.room)) (omega arith) step))
]
  where
    ends : (nbits - min (8 - w.offset) nbits ≡ 0) ⊎ (8 - w.offset - min (8 - w.offset) nbits ≡ 0)
    ends = elim (Bool-cases (ltb (8 - w.offset) nbits)) [
      | inl big ↦ inr (omega (arith, ltb→lt (8 - w.offset) nbits big))
      | inr small ↦ inl (omega (arith, ltb→le (8 - w.offset) nbits small))
    ]

pub write-Open :
    (content nbits : ℕ) (w : BitStreamWriter) (bs : List ℕ)
    → nbits ≤ 64
    → Open w bs
    → (v : BitStreamWriter) × (write content nbits w ≡ ok v)
      × Open v (bs ++ digits_of nbits content)
unfolding write
write-Open content nbits w bs most h = (
  write_rounds nbits content nbits w,
  rw (le→ltb 64 nbits most) refl,
  write_rounds-Open nbits content nbits w bs (omega arith) most h,
)

-- What stands in the written bytes at the end: the digits, and zeros up to the next byte.
pub flush-digits :
    (w : BitStreamWriter) (bs : List ℕ)
    → Open w bs
    → (spare : ℕ) × (spare < 8) × (all_digits (flush w).written ≡ bs ++ digits_of spare 0)
unfolding flush digits_of
flush-digits w bs h = elim (Bool-cases (ltb 0 w.offset)) [
  | inl some_left ↦
      let t : ℕ = h.holds.top in
      let spare : ℕ = 8 - w.offset in
      let eight : 8 ≡ w.offset + spare = omega (arith, h.holds.inside) in
      (
        spare,
        omega (arith, ltb→lt 0 w.offset some_left),
        rw some_left (
            all_digits-append w.written (w.buffer ∷ [])
            ∙ ap (λ l. all_digits w.written ++ l) (append-nil (digits_of 8 w.buffer))
            ∙ ap (λ x. all_digits w.written ++ digits_of 8 x) (h.holds.filled ∙ omega arith)
            ∙ ap (λ n. all_digits w.written ++ digits_of n (t * 2 ^ spare + 0)) eight
            ∙ ap (λ l. all_digits w.written ++ l)
                (digits_of-join w.offset spare t 0 (pow_positive spare))
            ∙ sym (append_assoc (all_digits w.written) (digits_of w.offset t) (digits_of spare 0))
            ∙ ap (λ l. l ++ digits_of spare 0) h.holds.bits),
      )
  | inr none_left ↦
      let empty : w.offset ≡ 0 = omega (arith, ltb→le 0 w.offset none_left) in
      (
        0,
        omega arith,
        rw none_left (
            sym (append-nil (all_digits w.written))
            ∙ ap (λ n. all_digits w.written ++ digits_of n h.holds.top) (sym empty)
            ∙ h.holds.bits
            ∙ sym (append-nil bs)),
      )
]
