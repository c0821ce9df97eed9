-- ===== src/Endian.antt =====
-- util/endian.rs: fixed-width integers as little-endian byte arrays.
pub mod Laws
use chaintopeslashrust_tapyr.Common.{ℕ, zero, suc, ◌+◌, ◌*◌, ◌/◌, ◌%◌, ◌^◌, List, [], ◌∷◌}
use chaintopeslashrust_tapyr.Common.{length, ◌==◌, if◌then◌else◌, bit_and, bit_or}
use chaintopeslashrust_tapyr.Outcome.{Bytes, Result, ok, panic}

-- `for i in 0..size { res |= (slice[i] as $type) << i*8 }`; the list is what the loop has not
-- reached, `size` the width of `$type` in bytes.
shift_in_le : ℕ → ℕ → ℕ → Bytes → ℕ
shift_in_le size i res [] = res
shift_in_le size i res (b ∷ bs) =
    shift_in_le size (suc i) (bit_or res (b * 2 ^ (i * 8) % 2 ^ (size * 8))) bs

-- The assertion on the length is the first line.
unfoldable pub slice_to_le : {E : Type 0} → ℕ → Bytes → Result E ℕ
unfolding shift_in_le
slice_to_le size slice = if length slice == size then ok (shift_in_le size 0 0 slice) else panic

-- `for i in 0..$byte_len { res[i] = ((val >> i*8) & 0xff) as u8 }`; the first argument counts the
-- rounds left.
bytes_from_le : ℕ → ℕ → ℕ → Bytes
bytes_from_le zero i val = []
bytes_from_le (suc rounds) i val =
    (bit_and (val / 2 ^ (i * 8)) 0xff % 256) ∷ bytes_from_le rounds (suc i) val

unfoldable pub to_array_le : ℕ → ℕ → Bytes
unfolding bytes_from_le
to_array_le byte_len val = bytes_from_le byte_len 0 val
