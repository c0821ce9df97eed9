-- ===== src/Filter/Golomb.antt =====
-- util/bip158.rs: Golomb-Rice coding of numbers, and the sets of numbers that are coded so. A shift by
-- 64 or more is a panic, as is an overflow.
pub mod Coding
pub mod Range
use chaintopeslashrust_tapyr.Common.{
  ℕ, zero, suc, ◌+◌, ◌-◌, ◌*◌, ◌/◌, ◌%◌, ◌^◌, ◌<◌, List, [], ◌∷◌, ◌++◌, length, ltb, leb, ◌==◌,
  if◌then◌else◌, Bool, true, false, is_empty, bytes_eq,
}
use Prim.Native.Nat.{min, compare, Ordering}
use chaintopeslashrust_tapyr.Outcome.{Bytes, Result, ok, err, panic, bind}
use chaintopeslashrust_tapyr.Consensus.VarInt.{encode, decode}
use chaintopeslashrust_tapyr.Consensus.Reader.{Error}
use chaintopeslashrust_tapyr.Filter.Stream.{
  FilterError, io, BitStreamWriter, BitStreamReader, new_writer, new_reader, write, read, flush,
}

-- `siphash24` with its two keys, of the crate bitcoin_hashes.
pub record SipHash : Type 0 where
  pub hash : ℕ → ℕ → Bytes → ℕ
  pub hash_small : (k0 k1 : ℕ) (bs : Bytes) → hash k0 k1 bs < 2 ^ 64

-- The sum, the product of `u64`.
abbrev pub plus_u64 : ℕ → ℕ → Result FilterError ℕ
plus_u64 x y = if ltb (x + y) (2 ^ 64) then ok (x + y) else panic

abbrev pub times_u64 : ℕ → ℕ → Result FilterError ℕ
times_u64 x y = if ltb (x * y) (2 ^ 64) then ok (x * y) else panic

-- `n & 0xffffffff` and `n >> 32` are the remainder and the quotient.
unfoldable pub map_to_range : ℕ → ℕ → Result FilterError ℕ
map_to_range hash nm =
    let a : ℕ = hash / 2 ^ 32 in
    let b : ℕ = hash % 2 ^ 32 in
    let c : ℕ = nm / 2 ^ 32 in
    let d : ℕ = nm % 2 ^ 32 in
    bind (times_u64 a c) (λ ac. bind (times_u64 a d) (λ ad. bind (times_u64 c b) (λ cb.
      bind (times_u64 b d) (λ bd.
        bind (plus_u64 ad cb)
          (λ middle. bind (plus_u64 middle (bd / 2 ^ 32)) (λ all. plus_u64 ac (all / 2 ^ 32)))))))

-- `while q > 0` of `golomb_rice_encode`, with as many rounds as `q` says.
unfoldable pub write_ones : ℕ → ℕ → BitStreamWriter → Result FilterError BitStreamWriter
write_ones zero q w = ok w
write_ones (suc rounds) q w =
    let rest : Result FilterError BitStreamWriter =
      bind (write (2 ^ 64 - 1) (min q 64 % 256) w) (write_ones rounds (q - min q 64)) in
    if q == 0 then ok w else rest

unfoldable pub golomb_rice_encode : ℕ → ℕ → BitStreamWriter → Result FilterError BitStreamWriter
unfolding write_ones
golomb_rice_encode p n w =
    if leb 64 p
    then panic
    else bind (write_ones (n / 2 ^ p) (n / 2 ^ p) w) (λ v. bind (write 0 1 v) (write n p))

-- `while reader.read(1)? == 1`. There are as many rounds as there are bits left and one more, in
-- which the read fails.
unfoldable pub read_ones : ℕ → ℕ → BitStreamReader → Result FilterError (ℕ × BitStreamReader)
read_ones zero q r = err io
read_ones (suc rounds) q r = bind (read 1 r) (λ b.
    let rest : Result FilterError (ℕ × BitStreamReader) = read_ones rounds (suc q) (b.1) in
    if b.0 == 1 then rest else ok (q, b.1))

abbrev pub bits_left : BitStreamReader → ℕ
bits_left r = 8 * length r.rest + (8 - r.offset)

unfoldable pub golomb_rice_decode : ℕ → BitStreamReader → Result FilterError (ℕ × BitStreamReader)
unfolding read_ones
golomb_rice_decode p r = bind (read_ones (suc (bits_left r)) 0 r) (λ high.
    bind (read p (high.1)) (λ low.
      if leb 64 p
      then panic
      else bind (plus_u64 (high.0 * 2 ^ p % 2 ^ 64) (low.0)) (λ n. ok (n, low.1))))

-- `sort` and `dedup` of a vector.
unfoldable pub insert : ℕ → List ℕ → List ℕ
insert x [] = x ∷ []
insert x (y ∷ ys) = if leb x y then x ∷ (y ∷ ys) else y ∷ insert x ys

unfoldable pub sort : List ℕ → List ℕ
unfolding insert
sort [] = []
sort (x ∷ xs) = insert x (sort xs)

unfoldable pub dedup_from : ℕ → List ℕ → List ℕ
dedup_from x [] = x ∷ []
dedup_from x (y ∷ ys) = let rest : List ℕ = dedup_from y ys in if x == y then rest else x ∷ rest

unfoldable pub dedup : List ℕ → List ℕ
unfolding dedup_from
dedup [] = []
dedup (x ∷ xs) = dedup_from x xs
