-- ===== src/Filter/Stream/Chunks.antt =====
-- util/bip158.rs: the bits of one round of writing or reading, as quotients and remainders.
use native.Mathlib.Nat.{mod-eq_of_lt, mod-lt, mul-div_left, div-div-eq-div-mul, pow-le-pow_right}
use chaintopeslashrust_tapyr.Common.{
  ℕ, ◌+◌, ◌-◌, ◌*◌, ◌/◌, ◌%◌, ◌^◌, ◌≤◌, ◌<◌, ◌≡◌, sym, ap, ◌∙◌, arith,
}
use chaintopeslashrust_tapyr.Common.Powers.{pow_positive, pow_add, pow_sum, mod_div, mod_scale}

pow_le : (i j : ℕ) → i ≤ j → 2 ^ i ≤ 2 ^ j
pow_le i j h = pow-le-pow_right {n = 2} (omega arith) {i = i} {j = j} h

-- All the bits left fit into the buffer.
pub chunk_last :
    (content n j s : ℕ)
    → n + j ≤ 8
    → n + j + s ≡ 64
    → content * 2 ^ (64 - n) % 2 ^ 64 / 2 ^ s % 256 ≡ content % 2 ^ n * 2 ^ j
chunk_last content n j s short total =
    let d : ℕ = content % 2 ^ n in
    let up : 2 ^ 64 ≡ 2 ^ n * 2 ^ (64 - n) = pow_sum 64 n (64 - n) (omega arith) in
    let cut : content * 2 ^ (64 - n) % 2 ^ 64 ≡ d * 2 ^ (64 - n) =
      ap (λ t. content * 2 ^ (64 - n) % t) up
      ∙ mod_scale content (2 ^ n) (2 ^ (64 - n)) (pow_positive n) (pow_positive (64 - n)) in
    let split : d * 2 ^ (64 - n) ≡ d * 2 ^ j * 2 ^ s =
      ap (λ (t : ℕ). d * t) (pow_sum (64 - n) j s (omega arith)) ∙ grind arith in
    let small : d * 2 ^ j < 2 ^ n * 2 ^ j =
      grind (arith, mod-lt content (pow_positive n), pow_positive j) in
    let byte : d * 2 ^ j < 256 = omega (arith, small, pow_add n j, pow_le (n + j) 8 short) in
    ap (λ t. t / 2 ^ s % 256) (cut ∙ split)
    ∙ ap (λ t. t % 256) (mul-div_left (d * 2 ^ j) (pow_positive s))
    ∙ mod-eq_of_lt byte

-- The buffer takes the highest of the bits left.
pub chunk_first :
    (content k j s : ℕ)
    → k ≤ 8
    → k + j ≤ 64
    → k + s ≡ 64
    → content * 2 ^ (64 - (k + j)) % 2 ^ 64 / 2 ^ s % 256 ≡ content / 2 ^ j % 2 ^ k
chunk_first content k j s short most total =
    let n : ℕ = k + j in
    let f : ℕ = 64 - n in
    let d : ℕ = content % 2 ^ n in
    let up : 2 ^ 64 ≡ 2 ^ n * 2 ^ f = pow_sum 64 n f (omega arith) in
    let cut : content * 2 ^ f % 2 ^ 64 ≡ d * 2 ^ f =
      ap (λ t. content * 2 ^ f % t) up
      ∙ mod_scale content (2 ^ n) (2 ^ f) (pow_positive n) (pow_positive f) in
    let lower : 2 ^ s ≡ 2 ^ f * 2 ^ j = pow_sum s f j (omega arith) in
    let high : d / 2 ^ j ≡ content / 2 ^ j % 2 ^ k =
      ap (λ t. content % t / 2 ^ j) (pow_add k j)
      ∙ mod_div content (2 ^ k) (2 ^ j) (pow_positive k) (pow_positive j) in
    let byte : content / 2 ^ j % 2 ^ k < 256 =
      omega (arith, mod-lt (content / 2 ^ j) (pow_positive k), pow_le k 8 short) in
    ap (λ t. t / 2 ^ s % 256) cut
    ∙ ap (λ t. d * 2 ^ f / t % 256) lower
    ∙ ap (λ t. t % 256) (sym (div-div-eq-div-mul (d * 2 ^ f) (2 ^ f) (2 ^ j)))
    ∙ ap (λ t. t / 2 ^ j % 256) (mul-div_left d (pow_positive f))
    ∙ ap (λ t. t % 256) high
    ∙ mod-eq_of_lt byte

-- The bits of the buffer that one round takes.
pub chunk_read :
    (buffer offset bits spare : ℕ)
    → offset + bits + spare ≡ 8
    → buffer * 2 ^ offset % 256 / 2 ^ (8 - bits) ≡ buffer / 2 ^ spare % 2 ^ bits
chunk_read buffer offset bits spare room =
    let k : ℕ = bits + spare in
    let byte : 256 ≡ 2 ^ k * 2 ^ offset = pow_sum 8 k offset (omega arith) in
    let lower : 2 ^ (8 - bits) ≡ 2 ^ offset * 2 ^ spare =
      pow_sum (8 - bits) offset spare (omega arith) in
    ap (λ t. buffer * 2 ^ offset % t / 2 ^ (8 - bits)) byte
    ∙ ap (λ t. t / 2 ^ (8 - bits))
        (mod_scale buffer (2 ^ k) (2 ^ offset) (pow_positive k) (pow_positive offset))
    ∙ ap (λ t. buffer % 2 ^ k * 2 ^ offset / t) lower
    ∙ sym (div-div-eq-div-mul (buffer % 2 ^ k * 2 ^ offset) (2 ^ offset) (2 ^ spare))
    ∙ ap (λ t. t / 2 ^ spare) (mul-div_left (buffer % 2 ^ k) (pow_positive offset))
    ∙ ap (λ t. buffer % t / 2 ^ spare) (pow_add bits spare)
    ∙ mod_div buffer (2 ^ bits) (2 ^ spare) (pow_positive bits) (pow_positive spare)
