-- ===== src/Script/Programs.antt =====
-- blockdata/script.rs: a chain of `Builder` calls against the instructions of the script it makes.
use chaintopeslashrust_tapyr.Common.{
  ℕ, zero, suc, ◌<◌, ◌≤◌, ◌≡◌, refl, sym, ap, ◌∙◌, arith, Bool, false, ◌&&◌, List, [], ◌∷◌, ◌++◌,
  append_assoc, append-nil, map, length, length-append, All, lt→ltb, Option, none, some,
}
use chaintopeslashrust_tapyr.Outcome.{Bytes}
use chaintopeslashrust_tapyr.Opcodes.{
  Class, push_num, push_bytes, return_op, illegal_op, no_op, ordinary, panicked, classify,
  push_bytes_inv, ordinary_inv, classify-ne-panicked, op_pushdata4,
}
use chaintopeslashrust_tapyr.Script.Instructions.{
  Instruction, push, op, item, dispatch, next, follow, put_first, collect, instructions,
}
use chaintopeslashrust_tapyr.Script.Builder.{
  Builder, new, push_header, push_slice, push_opcode, last_opcode, with_last, from_bytes,
}
use chaintopeslashrust_tapyr.Script.Pushes.{is_small_push, next-push_header}

-- A call of `push_slice` or of `push_opcode`.
pub data Piece : Type 0 where
  slice : Bytes → Piece
  opcode : ℕ → Piece

abbrev pub then_build : Option Builder → (Builder → Option Builder) → Option Builder
then_build none f = none
then_build (some b) f = f b

unfoldable pub build_from : Builder → List Piece → Option Builder
build_from b [] = some b
build_from b (slice d ∷ ps) = then_build (push_slice b d) (λ c. build_from c ps)
build_from b (opcode c ∷ ps) = build_from (push_opcode b c) ps

-- The calls in their order, on an empty builder.
unfoldable pub build : List Piece → Option Builder
build ps = build_from new ps

unfoldable pub instruction : Piece → Instruction
instruction (slice d) = push d
instruction (opcode c) = op c

-- Data that `push_slice` takes, with no opcode of its own where minimal pushes are demanded; an
-- opcode that pushes no data.
abbrev pub IsPiece : Bool → Piece → Type 0
IsPiece e (slice d) = (length d < 0x100000000) × ((e && is_small_push d) ≡ false)
IsPiece e (opcode c) = (op_pushdata4 < c) × (c < 256)

abbrev piece_bytes : Piece → Bytes
piece_bytes (slice d) = push_header (length d) ++ d
piece_bytes (opcode c) = c ∷ []

abbrev program : List Piece → Bytes
program [] = []
program (p ∷ ps) = piece_bytes p ++ program ps

abbrev last_after : Option ℕ → List Piece → Option ℕ
last_after o [] = o
last_after o (slice d ∷ ps) = last_after none ps
last_after o (opcode c ∷ ps) = last_after (some c) ps

push_slice_fits :
    (b : Builder) (d : Bytes)
    → length d < 0x100000000
    → push_slice b d
      ≡ some (record { bytes = b.bytes ++ (push_header (length d) ++ d); last_op = none })
unfolding push_slice
push_slice_fits b d h = rw (lt→ltb (length d) 0x100000000 h) refl

build_from_lem :
    (e : Bool) (ps : List Piece) (b : Builder)
    → All (IsPiece e) ps
    → build_from b ps
      ≡ some (record { bytes = b.bytes ++ program ps; last_op = last_after b.last_op ps })
unfolding build_from push_opcode
build_from_lem e [] b h = ap (λ k. some (record b { bytes = k })) (sym (append-nil b.bytes))
build_from_lem e (slice d ∷ ps) b h =
    ap (λ c. then_build c (λ c. build_from c ps)) (push_slice_fits b d h.0.0)
    ∙ build_from_lem e ps _ h.1
    ∙ ap (λ k. some (record { bytes = k; last_op = last_after none ps }))
        (append_assoc b.bytes (push_header (length d) ++ d) (program ps))
build_from_lem e (opcode c ∷ ps) b h =
    build_from_lem e ps _ h.1
    ∙ ap (λ k. some (record { bytes = k; last_op = last_after (some c) ps }))
        (append_assoc b.bytes (c ∷ []) (program ps))

dispatch_op :
    (e : Bool) (c : ℕ) (bs : Bytes) (k : Class)
    → op_pushdata4 < c
    → c < 256
    → classify c ≡ k
    → dispatch e c bs k ≡ item (op c) bs
unfolding dispatch
dispatch_op e c bs (push_bytes n) h l k = absurd (omega (arith, (push_bytes_inv c n k).1))
dispatch_op e c bs (ordinary o) h l k = ground (arith, ordinary_inv c o k)
dispatch_op e c bs (push_num n) h l k = refl
dispatch_op e c bs return_op h l k = refl
dispatch_op e c bs illegal_op h l k = refl
dispatch_op e c bs no_op h l k = refl
dispatch_op e c bs panicked h l k = absurd (classify-ne-panicked c l k)

next_piece :
    (e : Bool) (p : Piece) (rest : Bytes)
    → IsPiece e p
    → next e (piece_bytes p ++ rest) ≡ item (instruction p) rest
unfolding instruction next
next_piece e (slice d) rest h =
    ap (next e) (append_assoc (push_header (length d)) d rest) ∙ next-push_header e d rest h.0 h.1
next_piece e (opcode c) rest h = dispatch_op e c rest (classify c) h.0 h.1 refl

collect-program :
    (fuel : ℕ) (e : Bool) (ps : List Piece)
    → All (IsPiece e) ps
    → length ps < fuel
    → collect fuel e (program ps) ≡ some (map instruction ps)
unfolding collect follow next
collect-program zero e ps h l = absurd (omega arith)
collect-program (suc fuel) e [] h l = refl
collect-program (suc fuel) e (p ∷ ps) h l =
    ap (follow (collect fuel e)) (next_piece e p (program ps) h.0)
    ∙ ap (put_first (instruction p)) (collect-program fuel e ps h.1 (omega arith))

header_positive : (n : ℕ) → 0 < length (push_header n)
unfolding push_header
header_positive n = ground arith

short-program : (ps : List Piece) → length ps ≤ length (program ps)
short-program [] = omega arith
short-program (slice d ∷ ps) = omega (
  arith,
  length-append (push_header (length d) ++ d) (program ps),
  length-append (push_header (length d)) d,
  header_positive (length d),
  short-program ps,
)
short-program (opcode c ∷ ps) = omega (arith, short-program ps)

last_opcode-map :
    (p : Piece) (ps : List Piece) (o : Option ℕ)
    → last_opcode (map instruction (p ∷ ps)) ≡ last_after o (p ∷ ps)
unfolding last_opcode instruction
last_opcode-map (slice d) [] o = refl
last_opcode-map (opcode c) [] o = refl
last_opcode-map (slice d) (q ∷ ps) o = last_opcode-map q ps none
last_opcode-map (opcode c) (q ∷ ps) o = last_opcode-map q ps (some c)

any_push : (e : Bool) (p : Piece) → IsPiece e p → IsPiece false p
any_push e (slice d) h = (h.0, refl)
any_push e (opcode c) h = h

any_pushes : (e : Bool) (ps : List Piece) → All (IsPiece e) ps → All (IsPiece false) ps
any_pushes e [] h = tt
any_pushes e (p ∷ ps) h = (any_push e p h.0, any_pushes e ps h.1)

program_runs :
    (e : Bool) (ps : List Piece)
    → All (IsPiece e) ps
    → instructions e (program ps) ≡ some (map instruction ps)
unfolding instructions
program_runs e ps h =
    collect-program (suc (length (program ps))) e ps h (omega (arith, short-program ps))

last_opcode_lem : (ps : List Piece) → last_opcode (map instruction ps) ≡ last_after none ps
unfolding last_opcode
last_opcode_lem [] = refl
last_opcode_lem (p ∷ ps) = last_opcode-map p ps none

from_bytes-program :
    (e : Bool) (ps : List Piece)
    → All (IsPiece e) ps
    → from_bytes (program ps) ≡ some (record { bytes = program ps; last_op = last_after none ps })
unfolding from_bytes
from_bytes-program e ps h =
    ap (with_last (program ps)) (program_runs false ps (any_pushes e ps h))
    ∙ ap (λ o. some (record { bytes = program ps; last_op = o })) (last_opcode_lem ps)

-- A chain of pushes, of data that `push_slice` takes and of opcodes that push no data, never panics;
-- the iterator reads the script that it makes as one instruction for each push, in order, also where
-- minimal pushes are demanded if no data has an opcode of its own; and the builder made from the
-- bytes of that script is the builder that wrote them, its last opcode included.
pub instructions-build :
    (e : Bool) (ps : List Piece)
    → All (IsPiece e) ps
    → (b : Builder) × (build ps ≡ some b)
      × (instructions e b.bytes ≡ some (map instruction ps))
      × (from_bytes b.bytes ≡ some b)
unfolding build
instructions-build e ps h = (
  record { bytes = program ps; last_op = last_after none ps },
  build_from_lem e ps new h,
  program_runs e ps h,
  from_bytes-program e ps h,
)
