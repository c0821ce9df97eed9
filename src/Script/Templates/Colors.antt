-- ===== src/Script/Templates/Colors.antt =====
-- blockdata/script.rs: `add_color` against the tests of colored scripts.
use chaintopeslashrust_tapyr.Common.{
  ℕ, suc, ◌+◌, ◌≡◌, ◌↔◌, refl, ap, ◌∙◌, arith, true, false, ◌||◌, [], ◌∷◌, ◌++◌, length,
  length-append, get_or, ◌==◌, Bool-cases, inl, inr, none, some,
}
use chaintopeslashrust_tapyr.Outcome.{Bytes}
use chaintopeslashrust_tapyr.Consensus.Integers.Laws.{IsArray}
use chaintopeslashrust_tapyr.Opcodes.{op_color}
use chaintopeslashrust_tapyr.Script.Templates.{
  TokenTypes, reissuable, non_reissuable, nft, token_code, is_valid, ColorIdentifier,
  color_identifier, add_color, is_p2sh, is_p2pkh, is_cp2sh, is_cp2pkh, is_colored,
}

-- The bytes after a front of known length.
get_after :
    (front back : Bytes) (n i d : ℕ)
    → length front ≡ n
    → get_or (front ++ back) (n + i) d ≡ get_or back i d
get_after [] back n i d h =
    let same : n + i ≡ i = omega (arith, h) in ap (λ k. get_or back k d) same
get_after (x ∷ front) back n i d h =
    let same : n + i ≡ suc (length front + i) = omega (arith, h) in
    ap (λ k. get_or (x ∷ (front ++ back)) k d) same ∙ get_after front back (length front) i d refl

token_code-is_valid : (t : TokenTypes) → is_valid (token_code t) ≡ true
unfolding is_valid
token_code-is_valid reissuable = refl
token_code-is_valid non_reissuable = refl
token_code-is_valid nft = refl

-- The bytes of a colored script, after the color.
colored : ColorIdentifier → Bytes → Bytes
colored c script = (0x21 ∷ token_code c.token_type ∷ c.payload) ++ (op_color ∷ script)

colored_at :
    (c : ColorIdentifier) (script : Bytes) (i : ℕ)
    → IsArray 32 c.payload
    → get_or (colored c script) (34 + i) 0 ≡ get_or (op_color ∷ script) i 0
unfolding colored
colored_at c script i h =
    get_after (0x21 ∷ token_code c.token_type ∷ c.payload) (op_color ∷ script) 34 i 0
      (omega (arith, h.0))

length-colored :
    (c : ColorIdentifier) (script : Bytes)
    → IsArray 32 c.payload
    → length (colored c script) ≡ 35 + length script
unfolding colored
length-colored c script h = omega (arith, h.0, length-append c.payload (op_color ∷ script))

longer : (n size : ℕ) → (35 + n == 35 + size) ≡ (n == size)
longer n size = ground arith

-- The front of a colored script, which the two tests read first.
front-colored :
    (c : ColorIdentifier) (script : Bytes)
    → (get_or (colored c script) 0 0 ≡ 0x21) × (is_valid (get_or (colored c script) 1 0) ≡ true)
unfolding colored
front-colored c script = (refl, token_code-is_valid c.token_type)

cp2pkh-colored :
    (c : ColorIdentifier) (script : Bytes)
    → IsArray 32 c.payload
    → is_cp2pkh (colored c script) ≡ is_p2pkh script
unfolding is_cp2pkh is_p2pkh
cp2pkh-colored c script h =
    rw
      (
        length-colored c script h,
        longer (length script) 25,
        (front-colored c script).0,
        (front-colored c script).1,
        colored_at c script 0 h,
        colored_at c script 1 h,
        colored_at c script 2 h,
        colored_at c script 3 h,
        colored_at c script 24 h,
        colored_at c script 25 h,
      )
      (elim (Bool-cases (length script == 25)) [
        | inl fits ↦ rw fits refl
        | inr other ↦ rw other refl
      ])

cp2sh-colored :
    (c : ColorIdentifier) (script : Bytes)
    → IsArray 32 c.payload
    → is_cp2sh (colored c script) ≡ is_p2sh script
unfolding is_cp2sh is_p2sh
cp2sh-colored c script h =
    rw
      (
        length-colored c script h,
        longer (length script) 23,
        (front-colored c script).0,
        (front-colored c script).1,
        colored_at c script 0 h,
        colored_at c script 1 h,
        colored_at c script 2 h,
        colored_at c script 23 h,
      )
      (elim (Bool-cases (length script == 23)) [
        | inl fits ↦ rw fits refl
        | inr other ↦ rw other refl
      ])

add_color_image :
    (script s : Bytes) (c : ColorIdentifier)
    → add_color script c ≡ some s
    → (s ≡ colored c script) × ((is_p2pkh script || is_p2sh script) ≡ true)
unfolding add_color color_identifier colored
add_color_image script s c e = ground arith

-- A script that `add_color` makes, with a color of 32 bytes, is colored; it is a colored P2PKH script
-- exactly if the script it was made from is P2PKH, and a colored P2SH script exactly if that is P2SH.
pub add_color-is_colored :
    (script s : Bytes) (c : ColorIdentifier)
    → IsArray 32 c.payload
    → add_color script c ≡ some s
    → (is_colored s ≡ true) × (is_cp2pkh s ≡ is_p2pkh script) × (is_cp2sh s ≡ is_p2sh script)
unfolding is_colored
add_color-is_colored script s c h e =
    let (image, form) = add_color_image script s c e in
    let pkh : is_cp2pkh s ≡ is_p2pkh script = ap is_cp2pkh image ∙ cp2pkh-colored c script h in
    let sh : is_cp2sh s ≡ is_p2sh script = ap is_cp2sh image ∙ cp2sh-colored c script h in
    (rw (pkh, sh) form, pkh, sh)

-- `add_color` fails exactly on the scripts that are neither P2PKH nor P2SH.
add_color-none_iff :
    (script : Bytes) (c : ColorIdentifier)
    → (add_color script c ≡ none) ↔ ((is_p2pkh script ≡ false) × (is_p2sh script ≡ false))
unfolding add_color
add_color-none_iff script c = (λ e. (ground arith, ground arith), λ h. rw (h.0, h.1) refl)
