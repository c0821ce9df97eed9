-- ===== src/Derivation/Paths.antt =====
-- util/bip32.rs: child numbers and paths are read back.
use chaintopeslashrust_tapyr.Common.{
  ℕ, ◌+◌, ◌-◌, ◌*◌, ◌^◌, ◌<◌, ◌≤◌, ◌≡◌, ◌≢◌, refl, ap, ◌∙◌, arith, true, false, Bool-cases, inl,
  inr, [], ◌∷◌, ◌++◌, map, length, All, All-append, bit_and, bit_or, ◌==◌, eq→==, ne→==, ltb,
  lt→ltb, ltb→lt, ltb→le, some,
}
use chaintopeslashrust_tapyr.Common.Bits.{bit_and_one, bit_xor_high, bit_or_above}
use chaintopeslashrust_tapyr.Common.Text.{
  Text, is_digit, IsDigit, spelled, le-spelled, decimal, decimal-IsDecimal,
}
use chaintopeslashrust_tapyr.Outcome.{ok}
use chaintopeslashrust_tapyr.Derivation.{
  ChildNumber, normal, hardened, from_normal_idx, from_hardened_idx, child_of_number,
  number_of_child, fmt_child, scan_number, parse_number, is_marked, drop_last, parse_child,
  DerivationPath, fmt_children, fmt_path, split_slash, parse_children, parse_path,
}

abbrev pub index_of : ChildNumber → ℕ
index_of (normal index) = index
index_of (hardened index) = index

abbrev pub IsIndex : ℕ → Type 0
IsIndex index = index < 2 ^ 31

pub low_index : (index : ℕ) → IsIndex index → (bit_and index (2 ^ 31) == 0) ≡ true
low_index index h = eq→== (bit_and index (2 ^ 31)) 0 (omega (arith, bit_and_one 31 index))

pub high_index :
    (index : ℕ) → 2 ^ 31 ≤ index → index < 2 ^ 32 → (bit_and index (2 ^ 31) == 0) ≡ false
high_index index low high =
    ne→== (bit_and index (2 ^ 31)) 0 (λ e. absurd (omega (arith, bit_and_one 31 index)))

-- A child number with an index below 2 ^ 31 is found again from its number, a `u32`, and every `u32` is the
-- number of the child number that it stands for, whose index is below 2 ^ 31.
child_numbers :
    (cn : ChildNumber) (n : ℕ)
    → IsIndex (index_of cn)
    → n < 2 ^ 32
    → (child_of_number (number_of_child cn) ≡ cn)
      × (number_of_child (child_of_number n) ≡ n)
      × IsIndex (index_of (child_of_number n))
unfolding child_of_number number_of_child
child_numbers cn n low fits = (there cn low, (back n fits).0, (back n fits).1)
  where
    there : (cn : ChildNumber) → IsIndex (index_of cn) → child_of_number (number_of_child cn) ≡ cn
    there (normal index) h = rw (low_index index h) refl
    there (hardened index) h =
        let joined : bit_or index (2 ^ 31) ≡ index + 2 ^ 31 =
          bit_or_above 31 index 1 h ∙ omega arith in
        rw
          (
            joined,
            high_index (index + 2 ^ 31) (omega arith) (omega arith),
            bit_xor_high 31 (index + 2 ^ 31) (omega arith) (omega arith),
          )
          (ap hardened (omega arith))

    back :
        (n : ℕ)
        → n < 2 ^ 32
        → (number_of_child (child_of_number n) ≡ n) × IsIndex (index_of (child_of_number n))
    back n h = elim (Bool-cases (ltb n (2 ^ 31))) [
      | inl low ↦ rw (low_index n (ltb→lt n (2 ^ 31) low)) (refl, ltb→lt n (2 ^ 31) low)
      | inr high ↦
          let above : 2 ^ 31 ≤ n = ltb→le n (2 ^ 31) high in
          rw (high_index n above h, bit_xor_high 31 n above h)
            (bit_or_above 31 (n - 2 ^ 31) 1 (omega arith) ∙ omega arith, omega arith)
    ]

scan_spelled :
    (v : ℕ) (s : Text) → All IsDigit s → spelled v s < 2 ^ 32 → scan_number v s ≡ some (spelled v s)
unfolding scan_number
scan_spelled v [] h fits = refl
scan_spelled v (c ∷ s) h fits =
    let w : ℕ = v * 10 + (c - b'0') in
    let digit : is_digit c ≡ true = ground (arith, h.0) in
    rw (digit, lt→ltb w (2 ^ 32) (omega (arith, le-spelled s w))) (scan_spelled w s h.1 fits)

parse-decimal : (n : ℕ) → n < 2 ^ 32 → parse_number (decimal n) ≡ some n
unfolding parse_number
parse-decimal n h =
    let d = decimal-IsDecimal n (omega arith) in
    parse_spelled (decimal n) d.all_digits d.positive (omega (arith, d.value)) ∙ ap some d.value
  where
    parse_spelled :
        (s : Text)
        → All IsDigit s
        → 1 ≤ length s
        → spelled 0 s < 2 ^ 32
        → parse_number s ≡ some (spelled 0 s)
    parse_spelled [] h l fits = absurd (omega arith)
    parse_spelled (c ∷ s) h l fits =
        rw (ne→== c b'+' (λ e. absurd (omega (arith, h.0)))) (scan_spelled 0 (c ∷ s) h fits)

unmarked : (s : Text) → All IsDigit s → is_marked s ≡ false
unfolding is_marked
unmarked [] h = refl
unmarked (c ∷ []) h =
    rw
      (
        ne→== c 39 (λ e. absurd (omega (arith, h.0))),
        ne→== c b'h' (λ e. absurd (omega (arith, h.0))),
      )
      refl
unmarked (c ∷ (d ∷ s)) h = unmarked (d ∷ s) h.1

marked : (s : Text) → (is_marked (s ++ (39 ∷ [])) ≡ true) × (drop_last (s ++ (39 ∷ [])) ≡ s)
unfolding is_marked drop_last
marked [] = (refl, refl)
marked (c ∷ []) = (refl, refl)
marked (c ∷ (d ∷ s)) = ((marked (d ∷ s)).0, ap (λ t. c ∷ t) (marked (d ∷ s)).1)

pub parse-fmt_child :
    (cn : ChildNumber) → IsIndex (index_of cn) → parse_child (fmt_child cn) ≡ ok cn
unfolding parse_child fmt_child from_normal_idx from_hardened_idx
parse-fmt_child (normal index) h =
    let d = decimal-IsDecimal index (omega arith) in
    rw (unmarked (decimal index) d.all_digits, parse-decimal index (omega arith), low_index index h)
      refl
parse-fmt_child (hardened index) h =
    let (found, before) = marked (decimal index) in
    rw (found, before, parse-decimal index (omega arith), low_index index h) refl

abbrev Unslashed : Text → Type 0
Unslashed s = All (λ c. c ≢ b'/') s

digits-Unslashed : (s : Text) → All IsDigit s → Unslashed s
digits-Unslashed [] h = tt
digits-Unslashed (c ∷ s) h = (λ e. absurd (omega (arith, h.0)), digits-Unslashed s h.1)

fmt_child-Unslashed : (cn : ChildNumber) → IsIndex (index_of cn) → Unslashed (fmt_child cn)
unfolding fmt_child
fmt_child-Unslashed (normal index) h =
    digits-Unslashed (decimal index) (decimal-IsDecimal index (omega arith)).all_digits
fmt_child-Unslashed (hardened index) h =
    All-append (λ c. c ≢ b'/') (decimal index) (39 ∷ [])
      (digits-Unslashed (decimal index) (decimal-IsDecimal index (omega arith)).all_digits)
      (λ e. absurd (omega arith), tt)

split-fmt_children :
    (s : Text) (path : DerivationPath)
    → Unslashed s
    → All (λ cn. IsIndex (index_of cn)) path
    → split_slash (s ++ fmt_children path) ≡ (s, map fmt_child path)
unfolding split_slash fmt_children
split-fmt_children [] [] hs h = refl
split-fmt_children [] (cn ∷ path) hs h =
    rw (split-fmt_children (fmt_child cn) path (fmt_child-Unslashed cn h.0) h.1) refl
split-fmt_children (c ∷ s) path hs h = rw (ne→== c b'/' hs.0, split-fmt_children s path hs.1 h) refl

parse_fmt :
    (path : DerivationPath)
    → All (λ cn. IsIndex (index_of cn)) path
    → parse_children (map fmt_child path) ≡ ok path
unfolding parse_children
parse_fmt [] h = refl
parse_fmt (cn ∷ path) h = rw (parse-fmt_child cn h.0, parse_fmt path h.1) refl

-- A derivation path whose indices are below 2 ^ 31 is read back from its text.
pub parse-fmt_path :
    (path : DerivationPath)
    → All (λ cn. IsIndex (index_of cn)) path
    → parse_path (fmt_path path) ≡ ok path
unfolding parse_path fmt_path
parse-fmt_path path h = rw (split-fmt_children [] path tt h) (parse_fmt path h)
