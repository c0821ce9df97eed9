-- ===== src/Amount/Checked.antt =====
-- util/amount.rs: the operators on amounts against arithmetic on whole numbers, and `positive_sub`.
use native.Mathlib.Nat.{
  mod-lt, mod-add-div', div-mul-le_self, div-eq_of_lt-le, lt-div-mul-add, add-mul-mod_self_right,
  mod-eq_of_lt,
}
use chaintopeslashrust_tapyr.Common.{
  ℕ, zero, suc, ◌+◌, ◌-◌, ◌*◌, ◌/◌, ◌%◌, ◌^◌, ◌<◌, ◌≤◌, ◌≡◌, ◌↔◌, refl, sym, ap, ◌∙◌, subst, arith,
  List, [], ◌∷◌, if◌then◌else◌, ◌==◌, ne→==, ltb, Option, none, some,
}
use chaintopeslashrust_tapyr.Outcome.{ok, bind, bind_inv}
use chaintopeslashrust_tapyr.Amount.{ParseAmountError, mul_u64, add_u64}
use chaintopeslashrust_tapyr.Amount.Unsigned.{
  Amount, Arithmetic, plus, minus, times, over, modulo, expect, checked, operate, assign_all,
}

-- What an operator means on whole numbers, with a result that is a `u64`.
abbrev pub Exact : Arithmetic → ℕ → ℕ → Type 0
Exact (plus b) a c = (a + b ≡ c) × (c < 2 ^ 64)
Exact (minus b) a c = c + b ≡ a
Exact (times b) a c = (a * b ≡ c) × (c < 2 ^ 64)
Exact (over b) a c = (c * b ≤ a) × (a < (c + 1) * b)
Exact (modulo b) a c = (q : ℕ) × (c + q * b ≡ a) × (c < b)

-- A row of operations, each of which is exact.
pub data Reaches : List Arithmetic → ℕ → ℕ → Type 0 where
  done : {a : ℕ} → Reaches [] a a
  step :
      {op : Arithmetic} {ops : List Arithmetic} {a b c : ℕ}
      → Exact op a b
      → Reaches ops b c
      → Reaches (op ∷ ops) a c

guarded_iff :
    (n c : ℕ) → ((if ltb n (2 ^ 64) then some n else none) ≡ some c) ↔ ((n ≡ c) × (c < 2 ^ 64))
guarded_iff n c = (λ e. (ground arith, ground arith), λ h. ground (arith, h.0, h.1))

minus_iff : (a b c : ℕ) → ((if ltb a b then none else some (a - b)) ≡ some c) ↔ (c + b ≡ a)
minus_iff a b c = (λ e. ground arith, λ h. ground arith)

over_iff :
    (a b c : ℕ)
    → ((if b == 0 then none else some (a / b)) ≡ some c) ↔ ((c * b ≤ a) × (a < (c + 1) * b))
over_iff a zero c = (λ e. ground arith, λ h. absurd (omega (arith, h.1)))
over_iff a (suc b) c = rw (ne→== (suc b) 0 (λ e. absurd (omega arith))) (
  λ e.
      let same : a / suc b ≡ c = ground arith in
      subst (λ q. (q * suc b ≤ a) × (a < (q + 1) * suc b)) same
        (
          div-mul-le_self a (suc b),
          omega (arith, lt-div-mul-add {a = a} {b = suc b} (omega arith)),
        ),
  λ h. ap some (div-eq_of_lt-le (suc b) (h.0) (h.1)),
)

modulo_iff :
    (a b c : ℕ)
    → ((if b == 0 then none else some (a % b)) ≡ some c) ↔ ((q : ℕ) × (c + q * b ≡ a) × (c < b))
modulo_iff a zero c = (λ e. ground arith, λ h. absurd (omega (arith, h.2)))
modulo_iff a (suc b) c = rw (ne→== (suc b) 0 (λ e. absurd (omega arith))) (
  λ e.
      let same : a % suc b ≡ c = ground arith in
      subst (λ r. (q : ℕ) × (r + q * suc b ≡ a) × (r < suc b)) same
        (a / suc b, mod-add-div' a (suc b), mod-lt a (omega arith)),
  λ h. ap some (
      ap (λ n. n % suc b) (sym (h.1))
      ∙ add-mul-mod_self_right c (h.0) (suc b)
      ∙ mod-eq_of_lt (h.2)),
)

checked_iff : (op : Arithmetic) (a c : ℕ) → (checked op a ≡ some c) ↔ Exact op a c
unfolding checked add_u64 mul_u64
checked_iff (plus b) a c = guarded_iff (a + b) c
checked_iff (minus b) a c = minus_iff a b c
checked_iff (times b) a c = guarded_iff (a * b) c
checked_iff (over b) a c = over_iff a b c
checked_iff (modulo b) a c = modulo_iff a b c

operate_iff : (op : Arithmetic) (a c : ℕ) → (operate op a ≡ ok c) ↔ Exact op a c
unfolding operate
operate_iff op a c = (
  λ e. (checked_iff op a c).0 (found (checked op a) e),
  λ h. returned (checked op a) ((checked_iff op a c).1 h),
)
  where
    found : (o : Option ℕ) {c : ℕ} → expect {E = ParseAmountError} o ≡ ok c → o ≡ some c
    found none h = cc
    found (some b) h = cc

    returned : (o : Option ℕ) {c : ℕ} → o ≡ some c → expect {E = ParseAmountError} o ≡ ok c
    returned none h = cc
    returned (some b) h = cc

-- A row of assignments by operators on an amount returns a result, which is to say that no operator in it
-- panics, exactly when each operation in turn has that result in arithmetic on whole numbers and
-- it is at least zero, less than 2 ^ 64, and not by a division by zero.
pub assign_all_iff :
    (ops : List Arithmetic) (a c : Amount) → (assign_all ops a ≡ ok c) ↔ Reaches ops a c
unfolding assign_all
assign_all_iff ops a c = (forth ops a c, back)
  where
    forth : (ops : List Arithmetic) (a c : ℕ) → assign_all ops a ≡ ok c → Reaches ops a c
    forth [] a c h = let same : a ≡ c = cc in subst (Reaches [] a) same done
    forth (op ∷ ops) a c h =
        let (b, first, rest) = bind_inv (operate op a) (assign_all ops) h in
        step ((operate_iff op a b).0 first) (forth ops b c rest)

    back : {ops : List Arithmetic} {a c : ℕ} → Reaches ops a c → assign_all ops a ≡ ok c
    back done = refl
    back (step {op = op} {ops = ops} {a = a} {b = b} first rest) =
        ap (λ r. bind r (assign_all ops)) ((operate_iff op a b).1 first) ∙ back rest
