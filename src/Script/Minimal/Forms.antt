-- ===== src/Script/Minimal/Forms.antt =====
-- blockdata/script.rs: what each form of a push holds that `next` accepts as minimal.
use chaintopeslashrust_tapyr.Common.{
  ℕ, zero, suc, ◌+◌, ◌*◌, ◌/◌, ◌%◌, ◌<◌, ◌≤◌, ◌≡◌, refl, sym, ap, ◌∙◌, arith, true, [], ◌∷◌, ◌++◌,
  length, take, drop, take-append-drop, length-take, length-drop, All, ltb, Bool-cases, inl, inr,
}
use chaintopeslashrust_tapyr.Outcome.{Bytes, IsByte}
use chaintopeslashrust_tapyr.Script.Instructions.{
  push, item, take_push, next_push, next_data1_body, next_data1, next_wide_body, next_wide,
  read_uint, add_shifted,
}

drop-nil : (n : ℕ) → ◌≡◌ {A = Bytes} (drop n []) []
drop-nil zero = refl
drop-nil (suc n) = refl

drop_sum : (n header : ℕ) (left : Bytes) → drop (n + header) left ≡ drop n (drop header left)
drop_sum n zero left = ap (λ k. drop k left) (omega arith)
drop_sum n (suc header) [] = drop-nil (n + suc header) ∙ sym (drop-nil n)
drop_sum n (suc header) (x ∷ left) =
    let shifted : n + suc header ≡ suc (n + header) = omega arith in
    ap (λ k. drop k (x ∷ left)) shifted ∙ drop_sum n header left

split_push :
    (header n : ℕ) (left : Bytes)
    → left ≡ take header left ++ (take n (drop header left) ++ drop (n + header) left)
split_push header n left =
    sym (take-append-drop header left)
    ∙ ap (λ t. take header left ++ t)
        (sym (take-append-drop n (drop header left))
          ∙ ap (λ t. take n (drop header left) ++ t) (sym (drop_sum n header left)))

take_push_inv :
    (header n : ℕ) (left d rest : Bytes)
    → take_push header n left ≡ item (push d) rest
    → (left ≡ take header left ++ (d ++ rest)) × (length d ≡ n)
unfolding take_push
take_push_inv header n left d rest e = elim (Bool-cases (ltb (length left) (n + header))) [
  | inl short ↦ absurd (ground arith)
  | inr long ↦
      ground
        (arith, split_push header n left, length-take n (drop header left), length-drop header left)
]

-- What is read as a push by each form.
pub next_push_inv :
    (n b : ℕ) (bs d rest : Bytes)
    → next_push true n (b ∷ bs) ≡ item (push d) rest
    → (b ∷ bs ≡ b ∷ (d ++ rest)) × (length d ≡ n)
unfolding next_push
next_push_inv n b bs d rest e = ground (arith, take_push_inv 1 n (b ∷ bs) d rest)

pub next_data1_inv :
    (b : ℕ) (bs d rest : Bytes)
    → All IsByte bs
    → next_data1 true (b ∷ bs) ≡ item (push d) rest
    → (b ∷ bs ≡ b ∷ (length d % 256) ∷ (d ++ rest)) × (76 ≤ length d) × (length d < 256)
unfolding next_data1 next_data1_body read_uint add_shifted
next_data1_inv b [] d rest v e = absurd (ground arith)
next_data1_inv b (n ∷ bs) d rest v e = ground (arith, take_push_inv 2 n (b ∷ n ∷ bs) d rest, v.0)

pub next_data2_inv :
    (b : ℕ) (bs d rest : Bytes)
    → All IsByte bs
    → next_wide 2 0x100 true (b ∷ bs) ≡ item (push d) rest
    → (b ∷ bs ≡ b ∷ (length d % 0x100) ∷ (length d / 0x100 % 256) ∷ (d ++ rest))
      × (0x100 ≤ length d)
      × (length d < 0x10000)
unfolding next_wide next_wide_body read_uint add_shifted
next_data2_inv b [] d rest v e = absurd (ground arith)
next_data2_inv b (m ∷ []) d rest v e = absurd (ground arith)
next_data2_inv b (m ∷ n ∷ bs) d rest v e =
    ground (arith, take_push_inv 3 (m + n * 256) (b ∷ m ∷ n ∷ bs) d rest, v.0, v.1.0)

pub next_data4_inv :
    (b : ℕ) (bs d rest : Bytes)
    → All IsByte bs
    → next_wide 4 0x10000 true (b ∷ bs) ≡ item (push d) rest
    → (b ∷ bs
        ≡ b
          ∷ (length d % 0x100)
          ∷ (length d / 0x100 % 0x100)
          ∷ (length d / 0x10000 % 0x100)
          ∷ (length d / 0x1000000 % 256)
          ∷ (d ++ rest))
      × (0x10000 ≤ length d)
      × (length d < 0x100000000)
unfolding next_wide next_wide_body read_uint add_shifted
next_data4_inv b [] d rest v e = absurd (ground arith)
next_data4_inv b (m ∷ []) d rest v e = absurd (ground arith)
next_data4_inv b (m ∷ n ∷ []) d rest v e = absurd (ground arith)
next_data4_inv b (m ∷ n ∷ o ∷ []) d rest v e = absurd (ground arith)
next_data4_inv b (m ∷ n ∷ o ∷ p ∷ bs) d rest v e = ground (
  arith,
  take_push_inv 5 (m + n * 256 + o * 65536 + p * 16777216) (b ∷ m ∷ n ∷ o ∷ p ∷ bs) d rest,
  v.0,
  v.1.0,
  v.1.1.0,
  v.1.1.1.0,
)
