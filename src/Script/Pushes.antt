-- ===== src/Script/Pushes.antt =====
-- blockdata/script.rs: what `push_slice` writes against what `next` reads.
use chaintopeslashrust_tapyr.Common.{
  ℕ, ◌+◌, ◌/◌, ◌%◌, ◌<◌, ◌≤◌, ◌≡◌, refl, sym, ap, ◌∙◌, arith, Bool, false, ◌&&◌, [], ◌∷◌, ◌++◌,
  append_assoc, length, length-append, drop, take-append, drop-append, get_or, ◌==◌, ltb, le→ltb,
  ltb→le, ltb→lt, Bool-cases, inl, inr,
}
use chaintopeslashrust_tapyr.Outcome.{Bytes}
use chaintopeslashrust_tapyr.Opcodes.{
  any_of, classify, classify_push, op_pushdata1, op_pushdata2, op_pushdata4,
}
use chaintopeslashrust_tapyr.Script.Instructions.{
  push, item, take_push, next_push, next_data1_body, next_data1, next_wide_body, next_wide,
  dispatch, next, read_uint, add_shifted, has_opcode,
}
use chaintopeslashrust_tapyr.Script.Builder.{push_header}

drop_both : (h d rest : Bytes) → drop (length d + length h) (h ++ (d ++ rest)) ≡ rest
drop_both h d rest =
    ap (drop (length d + length h)) (sym (append_assoc h d rest))
    ∙ ap (λ n. drop n ((h ++ d) ++ rest)) (omega (arith, length-append h d))
    ∙ drop-append (h ++ d) rest

take_push_reads :
    (h d rest : Bytes) → take_push (length h) (length d) (h ++ (d ++ rest)) ≡ item (push d) rest
unfolding take_push
take_push_reads h d rest =
    rw
      (
        le→ltb (length (h ++ (d ++ rest))) (length d + length h)
            (omega (arith, length-append h (d ++ rest), length-append d rest)),
        drop-append h (d ++ rest),
        take-append d rest,
        drop_both h d rest,
      )
      refl

-- Bytes that `OP_0`, `OP_1` to `OP_16` or `OP_1NEGATE` would push as well.
unfoldable pub is_small_push : Bytes → Bool
is_small_push d = length d == 1 && has_opcode (get_or d 0 0)

-- The branches of `next` for the four forms of a push.
pub next_direct :
    (e : Bool) (n : ℕ) (bs : Bytes) → n < 76 → next e (n ∷ bs) ≡ next_push e n (n ∷ bs)
unfolding next dispatch
next_direct e n bs h = ap (dispatch e n bs) (classify_push n h)

pub next_of_data1 :
    (e : Bool) (bs : Bytes) → next e (op_pushdata1 ∷ bs) ≡ next_data1 e (op_pushdata1 ∷ bs)
unfolding next dispatch classify any_of
next_of_data1 e bs = refl

pub next_of_data2 :
    (e : Bool) (bs : Bytes) → next e (op_pushdata2 ∷ bs) ≡ next_wide 2 0x100 e (op_pushdata2 ∷ bs)
unfolding next dispatch classify any_of
next_of_data2 e bs = refl

pub next_of_data4 :
    (e : Bool) (bs : Bytes) → next e (op_pushdata4 ∷ bs) ≡ next_wide 4 0x10000 e (op_pushdata4 ∷ bs)
unfolding next dispatch classify any_of
next_of_data4 e bs = refl

pub first_of : (b : ℕ) (d rest : Bytes) → length d ≡ 1 → get_or (b ∷ (d ++ rest)) 1 0 ≡ get_or d 0 0
first_of b [] rest h = absurd (omega (arith, h))
first_of b (x ∷ d) rest h = refl

next_push_reads :
    (e : Bool) (b : ℕ) (d rest : Bytes)
    → (e && is_small_push d) ≡ false
    → next_push e (length d) (b ∷ (d ++ rest)) ≡ item (push d) rest
unfolding next_push is_small_push
next_push_reads e b d rest m =
    ground (arith, first_of b d rest, length-append d rest, take_push_reads (b ∷ []) d rest)

next_data1_reads :
    (e : Bool) (d rest : Bytes)
    → 76 ≤ length d
    → length d < 256
    → next_data1 e (op_pushdata1 ∷ (length d % 256) ∷ (d ++ rest)) ≡ item (push d) rest
unfolding next_data1 next_data1_body read_uint add_shifted
next_data1_reads e d rest h l =
    ground
      (arith, length-append d rest, take_push_reads (op_pushdata1 ∷ (length d % 256) ∷ []) d rest)

next_data2_reads :
    (e : Bool) (d rest : Bytes)
    → 256 ≤ length d
    → length d < 0x10000
    → next_wide 2 0x100 e (op_pushdata2 ∷ (length d % 256) ∷ (length d / 256 % 256) ∷ (d ++ rest))
      ≡ item (push d) rest
unfolding next_wide next_wide_body read_uint add_shifted
next_data2_reads e d rest h l = ground (
  arith,
  length-append d rest,
  take_push_reads (op_pushdata2 ∷ (length d % 256) ∷ (length d / 256 % 256) ∷ []) d rest,
)

next_data4_reads :
    (e : Bool) (d rest : Bytes)
    → 0x10000 ≤ length d
    → length d < 0x100000000
    → next_wide 4 0x10000 e (
        op_pushdata4
        ∷ (length d % 0x100)
        ∷ (length d / 0x100 % 0x100)
        ∷ (length d / 0x10000 % 0x100)
        ∷ (length d / 0x1000000 % 256)
        ∷ (d ++ rest))
      ≡ item (push d) rest
unfolding next_wide next_wide_body read_uint add_shifted
next_data4_reads e d rest h l = ground (
  arith,
  length-append d rest,
  take_push_reads
      (op_pushdata4
        ∷ (length d % 0x100)
        ∷ (length d / 0x100 % 0x100)
        ∷ (length d / 0x10000 % 0x100)
        ∷ (length d / 0x1000000 % 256)
        ∷ [])
      d rest,
)

-- What `push_slice` writes for fewer than 2 ^ 32 bytes is read as one push of those bytes, whatever
-- follows, also where minimal pushes are demanded unless the data has an opcode of its own.
pub next-push_header :
    (e : Bool) (d rest : Bytes)
    → length d < 0x100000000
    → (e && is_small_push d) ≡ false
    → next e (push_header (length d) ++ (d ++ rest)) ≡ item (push d) rest
unfolding push_header
next-push_header e d rest h m = elim (Bool-cases (ltb (length d) op_pushdata1)) [
  | inl small ↦
      let fits : length d < 76 = ltb→lt (length d) 76 small in
      rw small (
        ap (λ n. next e (n ∷ (d ++ rest))) (omega (arith, fits))
        ∙ next_direct e (length d) (d ++ rest) fits
        ∙ next_push_reads e (length d) d rest m)
  | inr one ↦ elim (Bool-cases (ltb (length d) 0x100)) [
    | inl small ↦
        rw (one, small)
          (next_of_data1 e _
            ∙ next_data1_reads e d rest (ltb→le (length d) 76 one) (ltb→lt (length d) 0x100 small))
    | inr two ↦ elim (Bool-cases (ltb (length d) 0x10000)) [
      | inl small ↦
          rw (one, two, small)
            (next_of_data2 e _
              ∙ next_data2_reads e d rest (ltb→le (length d) 0x100 two)
                  (ltb→lt (length d) 0x10000 small))
      | inr four ↦
          rw (one, two, four)
            (next_of_data4 e _ ∙ next_data4_reads e d rest (ltb→le (length d) 0x10000 four) h)
    ]
  ]
]
