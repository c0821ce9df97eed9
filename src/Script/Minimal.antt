-- ===== src/Script/Minimal.antt =====
-- blockdata/script.rs: the pushes that `next` reads where minimal ones are demanded.
mod Forms
use chaintopeslashrust_tapyr.Common.{
  ℕ, zero, suc, ◌+◌, ◌*◌, ◌/◌, ◌%◌, ◌^◌, ◌<◌, ◌≤◌, ◌≡◌, refl, sym, ap, ◌∙◌, subst, arith, Bool,
  true, false, ◌&&◌, List, [], ◌∷◌, ◌++◌, append_assoc, length, length-append, take, drop,
  take-append-drop, length-take, length-drop, ◌↔◌, get_or, All, if◌then◌else◌, ◌==◌, ltb, le→ltb,
  ltb→le, ltb→lt, lt→ltb, ==→eq, Bool-cases, inl, inr,
}
use chaintopeslashrust_tapyr.Outcome.{Bytes, IsByte, Result, ok, err, panic}
use chaintopeslashrust_tapyr.Opcodes.{
  Class, push_num, push_bytes, return_op, illegal_op, no_op, ordinary, panicked, classify,
  push_bytes_inv, ordinary_inv, op_pushdata1, op_pushdata2, op_pushdata4,
}
use chaintopeslashrust_tapyr.Script.Instructions.{
  Instruction, push, op, error, Next, done, item, out_of_range, take_push, next_push,
  next_data1_body, next_data1, next_wide_body, next_wide, dispatch, next, read_uint, add_shifted,
  has_opcode,
}
use chaintopeslashrust_tapyr.Script.Builder.{push_header}
use chaintopeslashrust_tapyr.Script.Pushes.{is_small_push, first_of, next-push_header}
use Forms.{next_push_inv, next_data1_inv, next_data2_inv, next_data4_inv}

-- The bytes that `push_slice` writes in front of `rest`, for data that it takes and that has no
-- opcode of its own.
pub record IsMinimalPush (left d rest : Bytes) : Type 0 where
  pub image : left ≡ push_header (length d) ++ (d ++ rest)
  pub fits : length d < 0x100000000
  pub no_opcode : is_small_push d ≡ false

header_direct : (n : ℕ) → n < 76 → push_header n ≡ n ∷ []
unfolding push_header
header_direct n h = ground arith

header_data1 : (n : ℕ) → 76 ≤ n → n < 256 → push_header n ≡ op_pushdata1 ∷ (n % 256) ∷ []
unfolding push_header
header_data1 n h l = ground arith

header_data2 :
    (n : ℕ)
    → 0x100 ≤ n
    → n < 0x10000
    → push_header n ≡ op_pushdata2 ∷ (n % 0x100) ∷ (n / 0x100 % 256) ∷ []
unfolding push_header
header_data2 n h l = ground arith

header_data4 :
    (n : ℕ)
    → 0x10000 ≤ n
    → push_header n
      ≡ op_pushdata4
        ∷ (n % 0x100)
        ∷ (n / 0x100 % 0x100)
        ∷ (n / 0x10000 % 0x100)
        ∷ (n / 0x1000000 % 256)
        ∷ []
unfolding push_header
header_data4 n h = ground arith

no_opcode_direct :
    (n : ℕ) (d rest : Bytes)
    → next_push true (length d) (n ∷ (d ++ rest)) ≡ item (push d) rest
    → is_small_push d ≡ false
unfolding next_push is_small_push
no_opcode_direct n d rest e = ground (arith, first_of n d rest)

many-not_small : (d : Bytes) → 1 < length d → is_small_push d ≡ false
unfolding is_small_push
many-not_small d h = ground arith

minimal_direct :
    (n : ℕ) (bs d rest : Bytes)
    → n < 76
    → next_push true n (n ∷ bs) ≡ item (push d) rest
    → IsMinimalPush (n ∷ bs) d rest
minimal_direct n bs d rest h e =
    let (image, len) = next_push_inv n n bs d rest e in
    let moved : next_push true (length d) (n ∷ (d ++ rest)) ≡ item (push d) rest =
      ap (λ k. next_push true k (n ∷ (d ++ rest))) len ∙ ap (next_push true n) (sym image) ∙ e in
    record {
      image =
          image
          ∙ ap (λ k. k ++ (d ++ rest)) (sym (header_direct n h))
          ∙ ap (λ k. push_header k ++ (d ++ rest)) (sym len);
      fits = omega (arith, len);
      no_opcode = no_opcode_direct n d rest moved;
    }

minimal_data1 :
    (bs d rest : Bytes)
    → All IsByte bs
    → next_data1 true (op_pushdata1 ∷ bs) ≡ item (push d) rest
    → IsMinimalPush (op_pushdata1 ∷ bs) d rest
minimal_data1 bs d rest v e =
    let (image, least, most) = next_data1_inv op_pushdata1 bs d rest v e in
    record {
      image = image ∙ ap (λ k. k ++ (d ++ rest)) (sym (header_data1 (length d) least most));
      fits = omega arith;
      no_opcode = many-not_small d (omega arith);
    }

minimal_data2 :
    (bs d rest : Bytes)
    → All IsByte bs
    → next_wide 2 0x100 true (op_pushdata2 ∷ bs) ≡ item (push d) rest
    → IsMinimalPush (op_pushdata2 ∷ bs) d rest
minimal_data2 bs d rest v e =
    let (image, least, most) = next_data2_inv op_pushdata2 bs d rest v e in
    record {
      image = image ∙ ap (λ k. k ++ (d ++ rest)) (sym (header_data2 (length d) least most));
      fits = omega arith;
      no_opcode = many-not_small d (omega arith);
    }

minimal_data4 :
    (bs d rest : Bytes)
    → All IsByte bs
    → next_wide 4 0x10000 true (op_pushdata4 ∷ bs) ≡ item (push d) rest
    → IsMinimalPush (op_pushdata4 ∷ bs) d rest
minimal_data4 bs d rest v e =
    let (image, least, most) = next_data4_inv op_pushdata4 bs d rest v e in
    record {
      image = image ∙ ap (λ k. k ++ (d ++ rest)) (sym (header_data4 (length d) least));
      fits = most;
      no_opcode = many-not_small d (omega arith);
    }

minimal_ordinary :
    (o : ℕ) (bs d rest : Bytes)
    → All IsByte bs
    → dispatch true o bs (ordinary o) ≡ item (push d) rest
    → IsMinimalPush (o ∷ bs) d rest
unfolding dispatch
minimal_ordinary o bs d rest v e = elim (Bool-cases (o == op_pushdata1)) [
  | inl one ↦
      let same : op_pushdata1 ≡ o = sym (==→eq o op_pushdata1 one) in
      subst (λ c. IsMinimalPush (c ∷ bs) d rest) same (minimal_data1 bs d rest v (ground arith))
  | inr not_one ↦ elim (Bool-cases (o == op_pushdata2)) [
    | inl two ↦
        let same : op_pushdata2 ≡ o = sym (==→eq o op_pushdata2 two) in
        subst (λ c. IsMinimalPush (c ∷ bs) d rest) same (minimal_data2 bs d rest v (ground arith))
    | inr not_two ↦ elim (Bool-cases (o == op_pushdata4)) [
      | inl four ↦
          let same : op_pushdata4 ≡ o = sym (==→eq o op_pushdata4 four) in
          subst (λ c. IsMinimalPush (c ∷ bs) d rest) same (minimal_data4 bs d rest v (ground arith))
      | inr not_four ↦ absurd (ground arith)
    ]
  ]
]

minimal_class :
    (b : ℕ) (bs d rest : Bytes) (c : Class)
    → classify b ≡ c
    → All IsByte bs
    → dispatch true b bs c ≡ item (push d) rest
    → IsMinimalPush (b ∷ bs) d rest
minimal_class b bs d rest (push_bytes n) k v e =
    let (same, small) = push_bytes_inv b n k in
    minimal_direct b bs d rest small
      (ap (λ c. next_push true c (b ∷ bs)) (sym same) ∙ (unfold dispatch in e))
minimal_class b bs d rest (ordinary o) k v e =
    let same : o ≡ b = ordinary_inv b o k in
    minimal_ordinary b bs d rest v (ap (λ c. dispatch true b bs (ordinary c)) (sym same) ∙ e)
minimal_class b bs d rest (push_num n) k v e = absurd (unfold dispatch in ground arith)
minimal_class b bs d rest return_op k v e = absurd (unfold dispatch in ground arith)
minimal_class b bs d rest illegal_op k v e = absurd (unfold dispatch in ground arith)
minimal_class b bs d rest no_op k v e = absurd (unfold dispatch in ground arith)
minimal_class b bs d rest panicked k v e = absurd (unfold dispatch in ground arith)

minimal :
    (left d rest : Bytes)
    → All IsByte left
    → next true left ≡ item (push d) rest
    → IsMinimalPush left d rest
minimal [] d rest v e = absurd (unfold next in ground arith)
minimal (b ∷ bs) d rest v e = minimal_class b bs d rest (classify b) refl v.1 (unfold next in e)

-- Where minimal pushes are demanded, the iterator reads a push of `d` and leaves `rest` exactly when
-- the bytes are what `push_slice` writes for `d` followed by `rest`, and `d` has fewer than 2 ^ 32
-- bytes and is no single byte with an opcode of its own: each data has one minimal form.
pub next_minimal_iff :
    (left d rest : Bytes)
    → All IsByte left
    → (next true left ≡ item (push d) rest) ↔ IsMinimalPush left d rest
next_minimal_iff left d rest v = (
  minimal left d rest v,
  (λ h. ap (next true) h.image ∙ next-push_header true d rest h.fits h.no_opcode),
)
