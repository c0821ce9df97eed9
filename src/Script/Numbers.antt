-- ===== src/Script/Numbers.antt =====
-- blockdata/script.rs: numbers on the stack (`build_scriptint`, `read_scriptint`, `read_scriptbool`)
-- and the builder's pushes of them. An `i64` is an integer that satisfies `IsI64`.
pub mod Laws
pub mod Magnitude
pub mod RoundTrip
use chaintopeslashrust_tapyr.Common.{
  ℕ, zero, suc, ◌+◌, ◌-◌, ◌*◌, ◌/◌, ◌%◌, ◌^◌, bit_and, bit_or, Bool, true, false, not, ◌&&◌, ◌||◌,
  List, [], ◌∷◌, ◌++◌, length, get_or, ◌<◌, none, is_empty, if◌then◌else◌, ◌==◌, ltb, leb, Option,
  some,
}
use chaintopeslashrust_tapyr.Common.Int.{ℤ, pos, negsuc, abs}
use chaintopeslashrust_tapyr.Outcome.{Bytes, Result, ok, err}
use chaintopeslashrust_tapyr.Opcodes.{op_true, op_false}
use chaintopeslashrust_tapyr.Script.Instructions.{ScriptError, numeric_overflow}
use chaintopeslashrust_tapyr.Script.Builder.{Builder, push_slice, push_opcode}

abbrev pub IsI64 : ℤ → Type 0
IsI64 (pos n) = n < 2 ^ 63
IsI64 (negsuc n) = n < 2 ^ 63

abbrev pub is_negative : ℤ → Bool
is_negative (pos n) = false
is_negative (negsuc n) = true

-- `while abs > 0xFF { v.push((abs & 0xFF) as u8); abs >>= 8; }`: the bytes pushed and the last
-- `abs`. A `usize` has 64 bits.
unfoldable pub low_bytes : ℕ → ℕ → Bytes × ℕ
low_bytes zero left = ([], left)
low_bytes (suc fuel) left =
    let rest = low_bytes fuel (left / 256) in
    if ltb 0xFF left then (bit_and left 0xFF % 256 ∷ rest.0, rest.1) else ([], left)

-- The end of `build_scriptint`: the sign bit, in a byte of its own where it is taken.
unfoldable pub sign_bytes : Bool → ℕ → Bytes
sign_bytes neg left =
    if not (bit_and left 0x80 == 0)
    then (left % 256) ∷ (if neg then 0x80 else 0) ∷ []
    else (bit_or left (if neg then 0x80 else 0) % 256) ∷ []

-- `none` is the panic of `-n`, which overflows for the least `i64`.
unfoldable pub build_scriptint : ℤ → Option Bytes
build_scriptint n =
    let lows = low_bytes 7 (abs n) in
    if abs n == 0
    then some []
    else if is_negative n && not (ltb (abs n) (2 ^ 63))
    then none
    else some (lows.0 ++ sign_bytes (is_negative n) lows.1)

-- `fold((0, 0), |(acc, sh), n| (acc + ((*n as i64) << sh), sh + 8))`
unfoldable pub fold_shifted : ℕ × ℕ → Bytes → ℕ × ℕ
fold_shifted p [] = p
fold_shifted p (n ∷ v) = fold_shifted (p.0 + n * 2 ^ p.1, p.1 + 8) v

abbrev pub negate : ℕ → ℤ
negate zero = pos zero
negate (suc n) = negsuc n

-- `last` is `v[len - 1]`, and `p` what the fold gives.
unfoldable pub signed_value : ℕ → ℕ × ℕ → ℤ
signed_value last p =
    if not (bit_and last 0x80 == 0) then negate (bit_and p.0 (2 ^ (p.1 - 1) - 1)) else pos p.0

unfoldable pub read_scriptint : Bytes → Result ScriptError ℤ
read_scriptint v =
    if length v == 0
    then ok (pos 0)
    else if ltb 4 (length v)
    then err numeric_overflow
    else ok (signed_value (get_or v (length v - 1) 0) (fold_shifted (0, 0) v))

-- `v.iter().rev().skip(1).all(|&w| w == 0)`: all but the last.
unfoldable pub zero_before_last : Bytes → Bool
zero_before_last [] = true
zero_before_last (w ∷ []) = true
zero_before_last (w ∷ (x ∷ v)) = w == 0 && zero_before_last (x ∷ v)

unfoldable pub read_scriptbool : Bytes → Bool
read_scriptbool v = not (
    is_empty v
    || ((get_or v (length v - 1) 0 == 0 || get_or v (length v - 1) 0 == 0x80)
        && zero_before_last v))

unfoldable pub push_scriptint : Builder → ℤ → Option Builder
push_scriptint b n = elim (build_scriptint n) [ none ↦ none | some v ↦ push_slice b v ]

-- `-1` and `1` to `16` have opcodes from `OP_TRUE - 2`, and `0` has one.
unfoldable pub push_int : Builder → ℤ → Option Builder
push_int b (negsuc zero) = some (push_opcode b (op_true - 2))
push_int b (negsuc (suc n)) = push_scriptint b (negsuc (suc n))
push_int b (pos n) =
    if leb 1 n && leb n 16
    then some (push_opcode b (n - 1 + op_true))
    else if n == 0
    then some (push_opcode b op_false)
    else push_scriptint b (pos n)
