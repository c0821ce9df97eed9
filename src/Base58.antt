-- ===== src/Base58.antt =====
-- util/base58.rs: the encoder; the decoder is in Decoder. The buffer holds base-58 digits, the lowest first.
pub mod Small
pub mod Plain
pub mod Stacked
pub mod Value
pub mod Encoder
pub mod Decoder
pub mod Capacity
pub mod Buffer
pub mod RoundTrip
pub mod Checksum
use chaintopeslashrust_tapyr.Common.{
  ℕ, zero, suc, ◌+◌, ◌*◌, ◌/◌, ◌%◌, ◌^◌, ◌<◌, ◌≡◌, refl, sym, ap, ◌∙◌, arith, Bool, Bool-cases,
  true, false, inl, inr, List, [], ◌∷◌, ◌++◌, map, All, if◌then◌else◌, ◌&&◌, ◌==◌, ==→eq, ==→ne,
  Option, none, some,
}
use chaintopeslashrust_tapyr.Outcome.{Bytes, IsByte, and_then}
use chaintopeslashrust_tapyr.Common.{length, get_elem?, get_or, All-append}
use chaintopeslashrust_tapyr.Common.{drop}
use chaintopeslashrust_tapyr.Common.Text.{Text, codes}
use chaintopeslashrust_tapyr.Base58.Small.{SmallVec, new, push, stack_range, iter}
use native.Mathlib.Nat.{pow-suc}

-- `for ch in ret.iter_mut()`: the digits and the carry behind the last.
unfoldable pub carry_into : List ℕ → ℕ → List ℕ × ℕ
carry_into [] carry = ([], carry)
carry_into (ch ∷ ret) carry =
    let new_ch : ℕ = ch * 256 + carry in
    let rest : List ℕ × ℕ = carry_into ret (new_ch / 58) in (new_ch % 58 ∷ rest.0, rest.1)

-- `while carry > 0`, with the rounds left: eleven are enough for a `usize`.
unfoldable pub push_carry : ℕ → ℕ → List ℕ
push_carry zero carry = []
push_carry (suc rounds) carry =
    let rest : List ℕ = push_carry rounds (carry / 58) in
    if carry == 0 then [] else carry % 58 ∷ rest

pub record Progress : Type 0 where
  pub ret : SmallVec
  pub leading_zero_count : ℕ
  pub leading_zeroes : Bool

-- The loop over `ret.iter_mut()`: the stack first, then the heap.
unfoldable pub carry_through : SmallVec → ℕ → Option (SmallVec × ℕ)
carry_through ret carry = and_then (stack_range ret) (λ front.
    let low : List ℕ × ℕ = carry_into front carry in
    let high : List ℕ × ℕ = carry_into ret.heap low.1 in
    some (record { len = ret.len; stack = low.0 ++ drop ret.len ret.stack; heap = high.0 }, high.1))

-- `ret.push` for one digit after the other.
unfoldable pub push_each : SmallVec → List ℕ → Option SmallVec
push_each ret [] = some ret
push_each ret (d ∷ ds) = and_then (push ret d) (λ longer. push_each longer ds)

unfoldable pub add_digits : SmallVec → ℕ → Option SmallVec
unfolding carry_through push_each
add_digits ret d256 = and_then (carry_through ret d256) (λ p. push_each p.0 (push_carry 11 p.1))

unfoldable pub add_byte : Progress → ℕ → Option Progress
unfolding add_digits
add_byte p d256 = and_then (add_digits p.ret d256) (λ ret.
    if p.leading_zeroes && (d256 == 0)
    then some (record {
      ret = ret;
      leading_zero_count = suc p.leading_zero_count;
      leading_zeroes = p.leading_zeroes;
    })
    else some
        (record { ret = ret; leading_zero_count = p.leading_zero_count; leading_zeroes = false }))

unfoldable pub add_bytes : Progress → Bytes → Option Progress
add_bytes p [] = some p
add_bytes p (b ∷ bs) = and_then (add_byte p b) (λ q. add_bytes q bs)

abbrev pub base58_chars : Text
base58_chars = codes "123456789ABCDEFGHJKLMNPQRSTUVWXYZabcdefghijkmnopqrstuvwxyz"

-- `for _ in 0..leading_zero_count { ret.push(0) }`, at the end that holds the highest digit.
unfoldable pub push_zeroes : ℕ → SmallVec → Option SmallVec
push_zeroes zero ret = some ret
push_zeroes (suc count) ret = and_then (push ret 0) (λ longer. push_zeroes count longer)

-- `for ch in ret.iter().rev()`: the digits not yet reached stand in front; `none` is the panic of an index out of range.
unfoldable pub write_reversed : List ℕ → Text → Option Text
write_reversed [] written = some written
write_reversed (ch ∷ ret) written = elim (get_elem? base58_chars ch) [
  | none ↦ none
  | some c ↦ write_reversed ret (c ∷ written)
]

-- A list turned around, in front of another.
unfoldable pub onto : List ℕ → List ℕ → List ℕ
onto [] acc = acc
onto (d ∷ ds) acc = onto ds (d ∷ acc)

unfoldable pub encode_slice : Bytes → Option Text
unfolding add_bytes push_zeroes write_reversed
encode_slice bs =
    and_then (add_bytes (record { ret = new; leading_zero_count = 0; leading_zeroes = true }) bs)
      (λ p.
        and_then (push_zeroes p.leading_zero_count p.ret)
          (λ ret. and_then (iter ret) (λ digits. write_reversed digits [])))
