-- ===== src/Script/Instructions.antt =====
-- blockdata/script.rs: `read_uint` and the iterator `Instructions`.
pub mod Steps
use chaintopeslashrust_tapyr.Common.{
  ℕ, zero, suc, ◌+◌, ◌*◌, ◌^◌, Bool, true, false, ◌&&◌, ◌||◌, List, [], ◌∷◌, length, take, drop,
  get_or, if◌then◌else◌, ◌==◌, ltb, leb, Option, none, some,
}
use chaintopeslashrust_tapyr.Outcome.{Bytes, Result, ok, err, panic}
use chaintopeslashrust_tapyr.Opcodes.{
  Class, push_num, push_bytes, return_op, illegal_op, no_op, ordinary, panicked, classify,
  op_pushdata1, op_pushdata2, op_pushdata4,
}

pub data ScriptError : Type 0 where
  non_minimal_push : ScriptError
  early_end_of_script : ScriptError
  numeric_overflow : ScriptError

-- `for (i, item) in …enumerate() { ret += (*item as usize) << (i * 8) }`; no sum overflows for the
-- sizes in use, 1, 2 and 4.
unfoldable pub add_shifted : ℕ → Bytes → ℕ → ℕ
add_shifted i [] ret = ret
add_shifted i (b ∷ left) ret = add_shifted (suc i) left (ret + b * 2 ^ (i * 8))

unfoldable pub read_uint : Bytes → ℕ → Result ScriptError ℕ
read_uint left size =
    if ltb (length left) size
    then err early_end_of_script
    else ok (add_shifted 0 (take size left) 0)

pub data Instruction : Type 0 where
  push : Bytes → Instruction
  op : ℕ → Instruction
  error : ScriptError → Instruction

-- What `next` returns, with the data left; `out_of_range` is the panic of an index or of `unwrap`.
pub data Next : Type 0 where
  done : Next
  item : Instruction → Bytes → Next
  out_of_range : Next

-- The iterator is killed so that it does not return an infinite stream of errors.
abbrev pub kill : ScriptError → Next
kill e = item (error e) []

-- `PushBytes(&self.data[header..n + header])`, then `self.data = &self.data[n + header..]`.
unfoldable pub take_push : ℕ → ℕ → Bytes → Next
take_push header n left =
    if ltb (length left) (n + header)
    then out_of_range
    else item (push (take n (drop header left))) (drop (n + header) left)

-- A byte that has an opcode of its own; `data[1]` is in range where it is read.
unfoldable pub has_opcode : ℕ → Bool
has_opcode b = b == 0x81 || (ltb 0 b && leb b 16)

unfoldable pub next_push : Bool → ℕ → Bytes → Next
next_push enforce_minimal n left =
    if ltb (length left) (n + 1)
    then kill early_end_of_script
    else if enforce_minimal && (n == 1 && has_opcode (get_or left 1 0))
    then kill non_minimal_push
    else take_push 1 n left

-- `OP_PUSHDATA1` after its length is read: first the data is tested, then the length.
unfoldable pub next_data1_body : Bool → Bytes → Result ScriptError ℕ → Next
next_data1_body enforce_minimal left (err e) = kill e
next_data1_body enforce_minimal left panic = out_of_range
next_data1_body enforce_minimal left (ok n) =
    if ltb (length left) (n + 2)
    then kill early_end_of_script
    else if enforce_minimal && ltb n 76
    then kill non_minimal_push
    else take_push 2 n left

unfoldable pub next_data1 : Bool → Bytes → Next
next_data1 enforce_minimal left =
    if ltb (length left) 2
    then kill early_end_of_script
    else next_data1_body enforce_minimal left (read_uint (drop 1 left) 1)

-- `OP_PUSHDATA2` and `OP_PUSHDATA4`, whose length takes `size` bytes and is at least `least` in a
-- minimal push: here the length is tested first.
unfoldable pub next_wide_body : ℕ → ℕ → Bool → Bytes → Result ScriptError ℕ → Next
next_wide_body size least enforce_minimal left (err e) = kill e
next_wide_body size least enforce_minimal left panic = out_of_range
next_wide_body size least enforce_minimal left (ok n) =
    if enforce_minimal && ltb n least
    then kill non_minimal_push
    else if ltb (length left) (n + (size + 1))
    then kill early_end_of_script
    else take_push (size + 1) n left

unfoldable pub next_wide : ℕ → ℕ → Bool → Bytes → Next
next_wide size least enforce_minimal left =
    if ltb (length left) (size + 1)
    then kill early_end_of_script
    else next_wide_body size least enforce_minimal left (read_uint (drop 1 left) size)

-- The `match` on the class of the first byte.
unfoldable pub dispatch : Bool → ℕ → Bytes → Class → Next
dispatch enforce_minimal b bs (push_bytes n) = next_push enforce_minimal n (b ∷ bs)
dispatch enforce_minimal b bs (ordinary o) =
    if o == op_pushdata1
    then next_data1 enforce_minimal (b ∷ bs)
    else if o == op_pushdata2
    then next_wide 2 0x100 enforce_minimal (b ∷ bs)
    else if o == op_pushdata4
    then next_wide 4 0x10000 enforce_minimal (b ∷ bs)
    else item (op b) bs
dispatch enforce_minimal b bs (push_num n) = item (op b) bs
dispatch enforce_minimal b bs return_op = item (op b) bs
dispatch enforce_minimal b bs illegal_op = item (op b) bs
dispatch enforce_minimal b bs no_op = item (op b) bs
dispatch enforce_minimal b bs panicked = out_of_range

unfoldable pub next : Bool → Bytes → Next
next enforce_minimal [] = done
next enforce_minimal (b ∷ bs) = dispatch enforce_minimal b bs (classify b)

abbrev pub put_first : Instruction → Option (List Instruction) → Option (List Instruction)
put_first i none = none
put_first i (some is) = some (i ∷ is)

unfoldable pub follow : (Bytes → Option (List Instruction)) → Next → Option (List Instruction)
follow more done = some []
follow more (item i rest) = put_first i (more rest)
follow more out_of_range = none

-- `script.iter(enforce_minimal).collect()` in at most `fuel` calls of `next`; `none` where they do
-- not suffice or one of them panics.
unfoldable pub collect : ℕ → Bool → Bytes → Option (List Instruction)
collect zero enforce_minimal left = none
collect (suc fuel) enforce_minimal left =
    follow (collect fuel enforce_minimal) (next enforce_minimal left)

-- `Script::iter`: a call of `next` for each byte at most, and one that finds the end.
unfoldable pub instructions : Bool → Bytes → Option (List Instruction)
instructions enforce_minimal left = collect (suc (length left)) enforce_minimal left
