-- ===== src/Merkle/Partial/Widths.antt =====
-- util/merkleblock.rs: the widths of the levels and the height of the tree.
use native.Mathlib.Nat.{le-div_iff_mul-le, pow-suc, pow-le-pow_right}
use chaintopeslashrust_tapyr.Common.{
  ℕ, zero, suc, ◌+◌, ◌-◌, ◌*◌, ◌/◌, ◌^◌, ◌≡◌, ◌≤◌, ◌<◌, ◌↔◌, refl, ap, ◌∙◌, sym, Option, subst,
  arith, false, Bool-cases, inl, inr, ltb, ltb→lt, ltb→le, lt→ltb, le→ltb, none, ◌==◌, ==→eq, ==→ne,
  some,
}
use chaintopeslashrust_tapyr.Merkle.Partial.{level_width, level_found, find_height, calc_tree_width}

pub width_lt_iff :
    (num height k : ℕ) → 1 ≤ 2 ^ height → (k < level_width num height) ↔ (k * 2 ^ height < num)
unfolding level_width
width_lt_iff num height k positive =
    let d : ℕ = 2 ^ height in
    let counted : (suc k ≤ (num + d - 1) / d) ↔ (suc k * d ≤ num + d - 1) =
      le-div_iff_mul-le {k = d} {x = suc k} {y = num + d - 1} positive in
    let grows : suc k * d ≡ d + k * d = omega arith in
    (λ e. omega (arith, counted.0 e, grows), λ e. counted.1 (omega (arith, e, grows)))

pub pow_positive : (height : ℕ) → 1 ≤ 2 ^ height
pow_positive zero = omega arith
pow_positive (suc height) = omega (arith, pow_positive height, pow-suc 2 height)

pub outside :
    (num height k : ℕ)
    → num ≤ 2 ^ 31
    → 2 ^ height ≤ 2 ^ 31
    → ltb k (level_width num height) ≡ false
    → num ≤ k * 2 ^ height
outside num height k hn small h = elim (Bool-cases (ltb (k * 2 ^ height) num)) [
  | inl inside ↦
      let wide =
        (width_lt_iff num height k (pow_positive height)).1 (ltb→lt (k * 2 ^ height) num inside) in
      absurd (omega (arith, wide, ltb→le k (level_width num height) h))
  | inr beyond ↦ ltb→le (k * 2 ^ height) num beyond
]

pub pow_le : (k : ℕ) → k ≤ 31 → 2 ^ k ≤ 2 ^ 31
pow_le k h = pow-le-pow_right {n = 2} (omega arith) {i = k} {j = 31} h

-- The height that is found is the least one whose level has one node at most.
pub record IsHeight (num height : ℕ) : Type 0 where
  pub wide : num ≤ 2 ^ height
  pub low : height ≤ 31
  pub least : (k : ℕ) → height ≡ suc k → 2 ^ k < num

below_top : (height num : ℕ) → height ≤ 31 → num ≤ 2 ^ 31 → 2 ^ height < num → suc height ≤ 31
below_top height num low hn more = elim (Bool-cases (height == 31)) [
  | inl top ↦
      let all_of : 2 ^ 31 < num = subst (λ k. 2 ^ k < num) (==→eq height 31 top) more in
      absurd (omega (arith, all_of))
  | inr under ↦ omega (arith, ==→ne height 31 under)
]

-- The sum of the width, where it fits and where it overflows.
calc_fits :
    (num height : ℕ)
    → num + 2 ^ height < 2 ^ 32
    → calc_tree_width num height ≡ some (level_width num height)
unfolding calc_tree_width
calc_fits num height h = rw (lt→ltb (num + 2 ^ height) (2 ^ 32) h) refl

calc_overflows : (num height : ℕ) → 2 ^ 32 ≤ num + 2 ^ height → calc_tree_width num height ≡ none
unfolding calc_tree_width
calc_overflows num height h = rw (le→ltb (num + 2 ^ height) (2 ^ 32) h) refl

round_found :
    (rounds num height : ℕ) (width : Option ℕ)
    → calc_tree_width num height ≡ width
    → find_height (suc rounds) num height
      ≡ level_found width (find_height rounds num (suc height)) height
unfolding find_height
round_found rounds num height width e =
    ap (λ w. level_found w (find_height rounds num (suc height)) height) e

search-IsHeight :
    (rounds height num : ℕ)
    → rounds + height ≡ 32
    → height ≤ 31
    → num < 2 ^ 31
    → ((k : ℕ) → height ≡ suc k → 2 ^ k < num)
    → (h : ℕ) × (find_height rounds num height ≡ some h) × IsHeight num h
search-IsHeight zero height num e low hn least = absurd (omega arith)
search-IsHeight (suc rounds) height num e low hn least =
    let fits : calc_tree_width num height ≡ some (level_width num height) =
      calc_fits num height (omega (arith, hn, pow_le height low)) in
    let step = round_found rounds num height (some (level_width num height)) fits in
    elim (Bool-cases (ltb 1 (level_width num height))) [
      | inr narrow ↦
          rw (step, narrow)
            (
              height,
              refl,
              record {
                wide = omega (arith, outside num height 1 (omega arith) (pow_le height low) narrow);
                low = low;
                least = least;
              },
            )
      | inl wide ↦
          let more : 1 * 2 ^ height < num =
            (width_lt_iff num height 1 (pow_positive height)).0
              (ltb→lt 1 (level_width num height) wide) in
          rw (step, wide)
            (search-IsHeight rounds (suc height) num (omega arith)
              (below_top height num low (omega arith) (omega (arith, more))) hn
              (λ k same.
                let below : k ≡ height = omega arith in
                subst (λ j. 2 ^ j < num) (sym below) (omega (arith, more))))
    ]

pub find-IsHeight :
    (num : ℕ) → num < 2 ^ 31 → (h : ℕ) × (find_height 32 num 0 ≡ some h) × IsHeight num h
find-IsHeight num hn =
    search-IsHeight 32 0 num (omega arith) (omega arith) hn (λ k e. absurd (omega arith))

-- From 2 ^ 31 transactions on the widths stay above one until their sum overflows.
wide_below :
    (num height : ℕ) → num + 2 ^ height < 2 ^ 32 → 2 ^ 31 ≤ num → 1 < level_width num height
wide_below num height room many =
    (width_lt_iff num height 1 (pow_positive height)).1 (omega (arith, room, many))

pub too_many-none :
    (rounds height num : ℕ)
    → rounds + height ≤ 32
    → 2 ^ 31 ≤ num
    → find_height rounds num height ≡ none
unfolding find_height
too_many-none zero height num h many = refl
too_many-none (suc rounds) height num h many = elim (Bool-cases (ltb (num + 2 ^ height) (2 ^ 32))) [
  | inr over ↦
      round_found rounds num height none
        (calc_overflows num height (ltb→le (num + 2 ^ height) (2 ^ 32) over))
  | inl fits ↦
      let room : num + 2 ^ height < 2 ^ 32 = ltb→lt (num + 2 ^ height) (2 ^ 32) fits in
      let wide : 1 < level_width num height = wide_below num height room many in
      round_found rounds num height (some (level_width num height)) (calc_fits num height room)
      ∙ rw (lt→ltb 1 (level_width num height) wide)
          (too_many-none rounds (suc height) num (omega arith) many)
]

-- Wherever the height is found, the widths up to it are those of `calc_tree_width`.
found_widths :
    (rounds start num height k : ℕ)
    → find_height rounds num start ≡ some height
    → start ≤ k
    → k ≤ height
    → calc_tree_width num k ≡ some (level_width num k)
found_widths zero start num height k found above below = absurd (never found)
  where
    never : find_height zero num start ≡ some height → ⊥
    never e = unfold find_height in cc
found_widths (suc rounds) start num height k found above below =
    elim (Bool-cases (ltb (num + 2 ^ start) (2 ^ 32))) [
      | inr over ↦
          let missed =
            round_found rounds num start none
              (calc_overflows num start (ltb→le (num + 2 ^ start) (2 ^ 32) over)) in
          absurd (cc (missed, found))
      | inl fits ↦
          let room : num + 2 ^ start < 2 ^ 32 = ltb→lt (num + 2 ^ start) (2 ^ 32) fits in
          let width = calc_fits num start room in
          let step = round_found rounds num start (some (level_width num start)) width in
          elim (Bool-cases (k == start)) [
            | inl here ↦
                subst (λ j. calc_tree_width num j ≡ some (level_width num j))
                  (sym (==→eq k start here)) width
            | inr later ↦ elim (Bool-cases (ltb 1 (level_width num start))) [
              | inl wide ↦
                  found_widths rounds (suc start) num height k (sym (rw wide at step) ∙ found)
                    (omega (arith, ==→ne k start later)) below
              | inr narrow ↦ absurd (
                  omega (arith, ==→ne k start later, same_height (sym (rw narrow at step) ∙ found)))
            ]
          ]
    ]
  where
    same_height : {a b : ℕ} → ◌≡◌ {A = Option ℕ} (some a) (some b) → a ≡ b
    same_height e = cc
