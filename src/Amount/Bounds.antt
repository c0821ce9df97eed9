-- ===== src/Amount/Bounds.antt =====
-- util/amount.rs: the parser never panics, and its values are `u64`s.
use chaintopeslashrust_tapyr.Common.{
  ℕ, zero, suc, ◌+◌, ◌-◌, ◌*◌, ◌^◌, ◌<◌, ◌≡◌, arith, Bool, true, false, [], ◌∷◌, length, take,
  if◌then◌else◌, ◌==◌, ltb, Bool-cases, inl, inr, Option, Option-cases, none, some,
}
use chaintopeslashrust_tapyr.Common.Int.{ℤ, pos, negsuc}
use chaintopeslashrust_tapyr.Common.Text.{Text, is_digit, byte_len}
use chaintopeslashrust_tapyr.Outcome.{Result, ok, err, panic, bind}
use chaintopeslashrust_tapyr.Amount.Slices.{without_last-take}
use chaintopeslashrust_tapyr.Amount.{
  Denomination, precision, ParseAmountError, is_too_precise, mul_u64, add_u64, push_digit,
  count_decimal, start_decimals, scan_char, scan, scale, unwrap_or, parse_decimals, parse_unsigned,
  parse_sign, parse_signed_to_satoshi,
}

-- No panic, and the value of a success satisfies a predicate.
abbrev pub Yields {ℓ} : {A : Type ℓ} → (A → Type 0) → Result ParseAmountError A → Type 0
Yields P (ok a) = P a
Yields P (err e) = Unit
Yields P panic = ⊥

bind-Yields {ℓ κ} :
    {A : Type ℓ} {B : Type κ} (P : A → Type 0) (Q : B → Type 0) (m : Result ParseAmountError A)
    (f : A → Result ParseAmountError B)
    → Yields P m
    → ((a : A) → P a → Yields Q (f a))
    → Yields Q (bind m f)
bind-Yields P Q (ok a) f h k = k a h
bind-Yields P Q (err e) f h k = tt
bind-Yields P Q panic f h k = absurd h

abbrev IsU64 : ℕ → Type 0
IsU64 n = n < 2 ^ 64

within : (n : ℕ) {c : ℕ} → (if ltb n (2 ^ 64) then some n else none) ≡ some c → IsU64 c
within n h = ground arith

mul_u64-IsU64 : (a b : ℕ) {c : ℕ} → mul_u64 a b ≡ some c → IsU64 c
unfolding mul_u64
mul_u64-IsU64 a b h = within (a * b) h

add_digit-IsU64 :
    (tens : Option ℕ) (d : ℕ) {c : ℕ}
    → elim tens [ none ↦ none | some t ↦ add_u64 t d ] ≡ some c
    → IsU64 c
unfolding add_u64
add_digit-IsU64 none d h = ground arith
add_digit-IsU64 (some t) d h = within (t + d) h

push_digit-IsU64 : (v d : ℕ) {c : ℕ} → push_digit v d ≡ some c → IsU64 c
unfolding push_digit
push_digit-IsU64 v d h = add_digit-IsU64 (mul_u64 10 v) d h

count_decimal-Yields : (m : ℕ) (d : Option ℕ) → Yields (λ e. Unit) (count_decimal m d)
unfolding count_decimal
count_decimal-Yields m none = tt
count_decimal-Yields m (some d) = ground arith

start_decimals-Yields : (d : Option ℕ) → Yields (λ e. Unit) (start_decimals d)
unfolding start_decimals
start_decimals-Yields none = tt
start_decimals-Yields (some d) = tt

-- The counter of decimals is at most what is allowed, and the value a `u64`.
abbrev Scanned : Option ℕ × ℕ → Type 0
Scanned p = IsU64 p.1

scan_char-Yields : (m : ℕ) (d : Option ℕ) (v c : ℕ) → IsU64 v → Yields Scanned (scan_char m d v c)
unfolding scan_char
scan_char-Yields m d v c h = elim (Bool-cases (is_digit c)) [
  | inl digit ↦ elim (Option-cases (push_digit v (c - b'0'))) [
    | inl over ↦ rw (digit, over) tt
    | inr (w, e) ↦
        rw (digit, e)
          (bind-Yields (λ n. Unit) Scanned (count_decimal m d) (λ n. ok (n, w))
            (count_decimal-Yields m d) (λ n u. push_digit-IsU64 v (c - b'0') e))
  ]
  | inr other ↦ elim (Bool-cases (c == b'.')) [
    | inl is_point ↦
        rw (other, is_point)
          (bind-Yields (λ n. Unit) Scanned (start_decimals d) (λ n. ok (n, v))
            (start_decimals-Yields d) (λ n u. h))
    | inr bad ↦ rw (other, bad) tt
  ]
]

scan-Yields : (m : ℕ) (d : Option ℕ) (v : ℕ) (s : Text) → IsU64 v → Yields Scanned (scan m d v s)
unfolding scan
scan-Yields m d v [] h = h
scan-Yields m d v (c ∷ s) h =
    bind-Yields Scanned Scanned (scan_char m d v c) (λ p. scan m (p.0) (p.1) s)
      (scan_char-Yields m d v c h) (λ p k. scan-Yields m (p.0) (p.1) s k)

scale-Yields : (n v : ℕ) → IsU64 v → Yields IsU64 (scale n v)
unfolding scale
scale-Yields zero v h = h
scale-Yields (suc n) v h = elim (Option-cases (mul_u64 10 v)) [
  | inl over ↦ rw (scale, over) tt
  | inr (w, e) ↦ rw (scale, e) (scale-Yields n w (mul_u64-IsU64 10 v e))
]

abbrev pub Parsed : Bool × ℕ → Type 0
Parsed p = p.1 < 2 ^ 64

decimals-Yields : (neg : Bool) (m : ℕ) (s : Text) → Yields Parsed (parse_decimals neg m s)
unfolding parse_decimals
decimals-Yields neg m s =
    bind-Yields Scanned Parsed (scan m none 0 s)
      (λ p. bind (scale (m - unwrap_or (p.0) 0) (p.1)) (λ v. ok (neg, v)))
      (scan-Yields m none 0 s (omega arith))
      (λ p h.
        bind-Yields IsU64 Parsed (scale (m - unwrap_or (p.0) 0) (p.1)) (λ v. ok (neg, v))
          (scale-Yields (m - unwrap_or (p.0) 0) (p.1) h) (λ v k. k))

unsigned-Yields : (neg : Bool) (s : Text) (z : ℤ) → Yields Parsed (parse_unsigned neg s z)
unfolding parse_unsigned
unsigned-Yields neg s (pos zero) = decimals-Yields neg 0 s
unsigned-Yields neg s (negsuc n) = decimals-Yields neg (suc n) s
unsigned-Yields neg s (pos (suc n)) = elim (Bool-cases (is_too_precise s (suc n))) [
  | inl precise ↦ rw precise tt
  | inr cut ↦
      rw (cut, without_last-take (suc n) s cut) (decimals-Yields neg 0 (take (length s - suc n) s))
]

sign-Yields : (denom : Denomination) (c : ℕ) (s : Text) → Yields Parsed (parse_sign denom (c ∷ s))
unfolding parse_sign
sign-Yields denom c s = elim (Bool-cases (c == b'-')) [
  | inl minus ↦ elim (Bool-cases (byte_len (c ∷ s) == 1)) [
    | inl alone ↦ rw (minus, alone) tt
    | inr more ↦ rw (minus, more) (unsigned-Yields true s (precision denom))
  ]
  | inr plain ↦ rw plain (unsigned-Yields false (c ∷ s) (precision denom))
]

-- Reading a text as an amount, in any denomination, does not panic, and an amount that it returns has
-- fewer than 2 ^ 64 satoshi.
pub parse_signed-Yields :
    (s : Text) (denom : Denomination) → Yields Parsed (parse_signed_to_satoshi s denom)
unfolding parse_signed_to_satoshi byte_len
parse_signed-Yields [] denom = tt
parse_signed-Yields (c ∷ s) denom = elim (Bool-cases (byte_len (c ∷ s) == 0)) [
  | inl empty ↦ rw empty tt
  | inr full ↦ elim (Bool-cases (ltb 50 (byte_len (c ∷ s)))) [
    | inl long ↦ rw (full, long) tt
    | inr short ↦ rw (full, short) (sign-Yields denom c s)
  ]
]
