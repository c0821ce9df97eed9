-- ===== src/Filter/Stream.antt =====
-- util/bip158.rs: the streams of bits. The counts of written bytes that the calls return are left out, as every
-- writer is a vector that takes what it is given; `written` is what a bit writer has given it. Arithmetic is checked, as are shifts.
pub mod Chunks
pub mod Writing
pub mod Reading
use Prim.Native.Nat.{min}
use chaintopeslashrust_tapyr.Common.{
  ℕ, zero, suc, ◌+◌, ◌-◌, ◌*◌, ◌/◌, ◌%◌, ◌^◌, List, [], ◌∷◌, ◌++◌, ltb, ◌==◌, if◌then◌else◌, bit_or,
}
use chaintopeslashrust_tapyr.Outcome.{Bytes, Result, ok, err, bind}
use chaintopeslashrust_tapyr.Transaction.{OutPoint}

pub data FilterError : Type 0 where
  utxo_missing : OutPoint → FilterError
  io : FilterError

pub record BitStreamWriter : Type 0 where
  pub buffer : ℕ
  pub offset : ℕ
  pub written : Bytes

abbrev pub new_writer : Bytes → BitStreamWriter
new_writer written = record { buffer = 0; offset = 0; written = written }

unfoldable pub flush : BitStreamWriter → BitStreamWriter
flush w =
    if ltb 0 w.offset
    then record { buffer = 0; offset = 0; written = w.written ++ (w.buffer ∷ []) }
    else w

-- The bits of `data` that one round of `write` puts into the buffer.
abbrev pub chunk_to_write : ℕ → ℕ → ℕ → ℕ
chunk_to_write content nbits offset = content * 2 ^ (64 - nbits) % 2 ^ 64 / 2 ^ (56 + offset) % 256

abbrev pub put_chunk : ℕ → ℕ → BitStreamWriter → BitStreamWriter
put_chunk content nbits w = record {
  buffer = bit_or w.buffer (chunk_to_write content nbits w.offset);
  offset = w.offset + min (8 - w.offset) nbits;
  written = w.written;
}

unfoldable pub write_round : ℕ → ℕ → BitStreamWriter → BitStreamWriter
unfolding flush
write_round content nbits w =
    if w.offset + min (8 - w.offset) nbits == 8
    then flush (put_chunk content nbits w)
    else put_chunk content nbits w

-- `while nbits > 0`, with as many rounds as there are bits.
unfoldable pub write_rounds : ℕ → ℕ → ℕ → BitStreamWriter → BitStreamWriter
unfolding write_round
write_rounds zero content nbits w = w
write_rounds (suc rounds) content nbits w =
    let rest : BitStreamWriter =
      write_rounds rounds content (nbits - min (8 - w.offset) nbits)
        (write_round content nbits w) in
    if nbits == 0 then w else rest

unfoldable pub write : ℕ → ℕ → BitStreamWriter → Result FilterError BitStreamWriter
unfolding write_rounds
write content nbits w = if ltb 64 nbits then err io else ok (write_rounds nbits content nbits w)

pub record BitStreamReader : Type 0 where
  pub buffer : ℕ
  pub offset : ℕ
  pub rest : Bytes

abbrev pub new_reader : Bytes → BitStreamReader
new_reader bs = record { buffer = 0; offset = 8; rest = bs }

abbrev pub next_buffer : Bytes → Result FilterError BitStreamReader
next_buffer [] = err io
next_buffer (b ∷ bs) = ok (record { buffer = b; offset = 0; rest = bs })

unfoldable pub refill : BitStreamReader → Result FilterError BitStreamReader
refill r = if r.offset == 8 then next_buffer r.rest else ok r

abbrev pub add_chunk : ℕ → ℕ → BitStreamReader → ℕ
add_chunk content bits r =
    bit_or (content * 2 ^ bits % 2 ^ 64) (r.buffer * 2 ^ r.offset % 256 / 2 ^ (8 - bits))

abbrev pub skip_chunk : ℕ → BitStreamReader → BitStreamReader
skip_chunk bits r = record { buffer = r.buffer; offset = r.offset + bits; rest = r.rest }

-- `while nbits > 0`, with as many rounds as there are bits.
unfoldable pub read_rounds : ℕ → ℕ → ℕ → BitStreamReader → Result FilterError (ℕ × BitStreamReader)
unfolding refill
read_rounds zero content nbits r = ok (content, r)
read_rounds (suc rounds) content nbits r =
    let rest : Result FilterError (ℕ × BitStreamReader) = bind (refill r) (λ f.
      let bits : ℕ = min (8 - f.offset) nbits in
      read_rounds rounds (add_chunk content bits f) (nbits - bits) (skip_chunk bits f)) in
    if nbits == 0 then ok (content, r) else rest

unfoldable pub read : ℕ → BitStreamReader → Result FilterError (ℕ × BitStreamReader)
unfolding read_rounds
read nbits r = if ltb 64 nbits then err io else read_rounds nbits 0 nbits r
