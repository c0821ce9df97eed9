-- ===== src/Script/Instructions/Steps.antt =====
-- What a call of `next` of blockdata/script.rs does to the bytes left, and what a whole run gives.
use chaintopeslashrust_tapyr.Common.{
  ℕ, zero, suc, ◌+◌, ◌<◌, ◌≡◌, refl, arith, Bool, List, [], ◌∷◌, length, length-drop, drop, All,
  All-drop, ◌==◌, ◌&&◌, get_or, ltb, le→ltb, ltb→le, ◌≤◌, ◌≢◌, sym, some, Bool-cases, inl, inr, ap,
  ◌∙◌,
}
use chaintopeslashrust_tapyr.Outcome.{Bytes, IsByte, Result, ok, err, panic}
use chaintopeslashrust_tapyr.Opcodes.{
  Class, push_num, push_bytes, return_op, illegal_op, no_op, ordinary, panicked, classify,
  op_pushdata1, op_pushdata2, op_pushdata4, classify-ne-panicked,
}
use chaintopeslashrust_tapyr.Script.Instructions.{
  ScriptError, Instruction, push, op, error, Next, done, item, out_of_range, kill, take_push,
  next_push, next_data1_body, next_data1, next_wide_body, next_wide, dispatch, next, read_uint,
  collect, instructions, put_first, follow, has_opcode, early_end_of_script, non_minimal_push,
}

-- An error is the last instruction.
abbrev pub EndsAfter : Instruction → Bytes → Type 0
EndsAfter (push d) rest = Unit
EndsAfter (op c) rest = Unit
EndsAfter (error e) rest = rest ≡ []

-- A step from `bytes` takes at least one byte, leaves bytes, and never panics.
abbrev pub IsStep : Bytes → Next → Type 0
IsStep left done = left ≡ []
IsStep left (item i rest) = (length rest < length left) × (EndsAfter i rest × All IsByte rest)
IsStep left out_of_range = ⊥

kill_steps : (e : ScriptError) (b : ℕ) (bs : Bytes) → IsStep (b ∷ bs) (kill e)
kill_steps e b bs = (omega arith, (refl, tt))

take_push_steps :
    (header n b : ℕ) (bs : Bytes)
    → 0 < header
    → n + header ≤ length (b ∷ bs)
    → All IsByte (b ∷ bs)
    → IsStep (b ∷ bs) (take_push header n (b ∷ bs))
unfolding take_push
take_push_steps header n b bs pos h v = rw (le→ltb (length (b ∷ bs)) (n + header) h) (
  omega (arith, length-drop (n + header) (b ∷ bs)),
  (tt, All-drop IsByte (n + header) (b ∷ bs) v),
)

next_push_steps :
    (e : Bool) (n b : ℕ) (bs : Bytes)
    → All IsByte (b ∷ bs)
    → IsStep (b ∷ bs) (next_push e n (b ∷ bs))
unfolding next_push
next_push_steps e n b bs v = elim (Bool-cases (ltb (length (b ∷ bs)) (n + 1))) [
  | inl short ↦ rw short (kill_steps early_end_of_script b bs)
  | inr long ↦ elim (Bool-cases (e && (n == 1 && has_opcode (get_or (b ∷ bs) 1 0)))) [
    | inl long_form ↦ rw (long, long_form) (kill_steps non_minimal_push b bs)
    | inr minimal ↦
        rw (long, minimal)
          (take_push_steps 1 n b bs (omega arith) (ltb→le (length (b ∷ bs)) (n + 1) long) v)
  ]
]

read_uint-ne-panic : (left : Bytes) (size : ℕ) → read_uint left size ≢ panic
unfolding read_uint
read_uint-ne-panic left size h = ground arith

next_data1_body_steps :
    (e : Bool) (b : ℕ) (bs : Bytes) (r : Result ScriptError ℕ)
    → All IsByte (b ∷ bs)
    → r ≢ panic
    → IsStep (b ∷ bs) (next_data1_body e (b ∷ bs) r)
unfolding next_data1_body
next_data1_body_steps e b bs panic v h = absurd (h refl)
next_data1_body_steps e b bs (err x) v h = kill_steps x b bs
next_data1_body_steps e b bs (ok n) v h = elim (Bool-cases (ltb (length (b ∷ bs)) (n + 2))) [
  | inl short ↦ rw short (kill_steps early_end_of_script b bs)
  | inr long ↦ elim (Bool-cases (e && ltb n 76)) [
    | inl long_form ↦ rw (long, long_form) (kill_steps non_minimal_push b bs)
    | inr minimal ↦
        rw (long, minimal)
          (take_push_steps 2 n b bs (omega arith) (ltb→le (length (b ∷ bs)) (n + 2) long) v)
  ]
]

next_wide_body_steps :
    (size least : ℕ) (e : Bool) (b : ℕ) (bs : Bytes) (r : Result ScriptError ℕ)
    → All IsByte (b ∷ bs)
    → r ≢ panic
    → IsStep (b ∷ bs) (next_wide_body size least e (b ∷ bs) r)
unfolding next_wide_body
next_wide_body_steps size least e b bs panic v h = absurd (h refl)
next_wide_body_steps size least e b bs (err x) v h = kill_steps x b bs
next_wide_body_steps size least e b bs (ok n) v h = elim (Bool-cases (e && ltb n least)) [
  | inl long_form ↦ rw long_form (kill_steps non_minimal_push b bs)
  | inr minimal ↦ elim (Bool-cases (ltb (length (b ∷ bs)) (n + (size + 1)))) [
    | inl short ↦ rw (minimal, short) (kill_steps early_end_of_script b bs)
    | inr long ↦
        rw (minimal, long)
          (take_push_steps (size + 1) n b bs (omega arith)
            (ltb→le (length (b ∷ bs)) (n + (size + 1)) long) v)
  ]
]

next_data1_steps :
    (e : Bool) (b : ℕ) (bs : Bytes) → All IsByte (b ∷ bs) → IsStep (b ∷ bs) (next_data1 e (b ∷ bs))
unfolding next_data1
next_data1_steps e b bs v = elim (Bool-cases (ltb (length (b ∷ bs)) 2)) [
  | inl short ↦ rw short (kill_steps early_end_of_script b bs)
  | inr long ↦ rw long (next_data1_body_steps e b bs _ v (read_uint-ne-panic (drop 1 (b ∷ bs)) 1))
]

next_wide_steps :
    (size least : ℕ) (e : Bool) (b : ℕ) (bs : Bytes)
    → All IsByte (b ∷ bs)
    → IsStep (b ∷ bs) (next_wide size least e (b ∷ bs))
unfolding next_wide
next_wide_steps size least e b bs v = elim (Bool-cases (ltb (length (b ∷ bs)) (size + 1))) [
  | inl short ↦ rw short (kill_steps early_end_of_script b bs)
  | inr long ↦
      rw long
        (next_wide_body_steps size least e b bs _ v (read_uint-ne-panic (drop 1 (b ∷ bs)) size))
]

op_steps : (b : ℕ) (bs : Bytes) → All IsByte (b ∷ bs) → IsStep (b ∷ bs) (item (op b) bs)
op_steps b bs v = (omega arith, (tt, v.1))

dispatch_steps :
    (e : Bool) (b : ℕ) (bs : Bytes) (c : Class)
    → All IsByte (b ∷ bs)
    → c ≢ panicked
    → IsStep (b ∷ bs) (dispatch e b bs c)
unfolding dispatch
dispatch_steps e b bs (push_bytes n) v h = next_push_steps e n b bs v
dispatch_steps e b bs (ordinary o) v h = elim (Bool-cases (o == op_pushdata1)) [
  | inl one ↦ rw one (next_data1_steps e b bs v)
  | inr not_one ↦ elim (Bool-cases (o == op_pushdata2)) [
    | inl two ↦ rw (not_one, two) (next_wide_steps 2 0x100 e b bs v)
    | inr not_two ↦ elim (Bool-cases (o == op_pushdata4)) [
      | inl four ↦ rw (not_one, not_two, four) (next_wide_steps 4 0x10000 e b bs v)
      | inr not_four ↦ rw (not_one, not_two, not_four) (op_steps b bs v)
    ]
  ]
]
dispatch_steps e b bs (push_num n) v h = op_steps b bs v
dispatch_steps e b bs return_op v h = op_steps b bs v
dispatch_steps e b bs illegal_op v h = op_steps b bs v
dispatch_steps e b bs no_op v h = op_steps b bs v
dispatch_steps e b bs panicked v h = absurd (h refl)

-- A call of `next` on the bytes of a script never panics; it takes at least one byte, and after an
-- error nothing is left.
pub next_steps : (e : Bool) (left : Bytes) → All IsByte left → IsStep left (next e left)
unfolding next
next_steps e [] v = refl
next_steps e (b ∷ bs) v = dispatch_steps e b bs (classify b) v (classify-ne-panicked b v.0)

-- No error stands before another instruction.
abbrev pub ErrorIsLast : List Instruction → Type 0
ErrorIsLast [] = Unit
ErrorIsLast (push d ∷ is) = ErrorIsLast is
ErrorIsLast (op c ∷ is) = ErrorIsLast is
ErrorIsLast (error e ∷ is) = is ≡ []

none_after : (fuel : ℕ) (e : Bool) (is : List Instruction) → collect fuel e [] ≡ some is → is ≡ []
unfolding collect follow next
none_after zero e is k = absurd (ground arith)
none_after (suc fuel) e is k = ground arith

put_step :
    (fuel : ℕ) (e : Bool) (i : Instruction) (rest : Bytes) (is : List Instruction)
    → EndsAfter i rest
    → collect fuel e rest ≡ some is
    → ErrorIsLast is
    → ErrorIsLast (i ∷ is)
put_step fuel e (push d) rest is h k l = l
put_step fuel e (op c) rest is h k l = l
put_step fuel e (error x) rest is h k l = none_after fuel e is (ap (collect fuel e) (sym h) ∙ k)

-- The run of the iterator on `left` succeeds with at most `fuel` calls.
abbrev Runs : ℕ → Bool → Bytes → Type 0
Runs fuel e left = (is : List Instruction) × (collect fuel e left ≡ some is) × ErrorIsLast is

run_step :
    (fuel : ℕ) (e : Bool) (left : Bytes) (n : Next)
    → next e left ≡ n
    → IsStep left n
    → ((rest : Bytes) → All IsByte rest → length rest < length left → Runs fuel e rest)
    → Runs (suc fuel) e left
unfolding collect follow
run_step fuel e left done k s rec = ([], ap (follow (collect fuel e)) k, tt)
run_step fuel e left (item i rest) k s rec =
    let (is, run, l) = rec rest s.1.1 s.0 in
    (
      i ∷ is,
      ap (follow (collect fuel e)) k ∙ ap (put_first i) run,
      put_step fuel e i rest is s.1.0 run l,
    )
run_step fuel e left out_of_range k s rec = absurd s

collect_total :
    (fuel : ℕ) (e : Bool) (left : Bytes) → All IsByte left → length left < fuel → Runs fuel e left
collect_total zero e left v h = absurd (omega arith)
collect_total (suc fuel) e left v h =
    run_step fuel e left (next e left) refl (next_steps e left v)
      (λ rest w shorter. collect_total fuel e rest w (omega arith))

-- The iterator runs to its end on every byte string, minimal pushes demanded or not: no call panics,
-- it ends within one call for each byte and one more, and at most its last instruction is an error.
pub instructions_total :
    (e : Bool) (script : Bytes)
    → All IsByte script
    → (is : List Instruction) × (instructions e script ≡ some is) × ErrorIsLast is
unfolding instructions
instructions_total e script v = collect_total (suc (length script)) e script v (omega arith)
