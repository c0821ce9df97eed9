-- ===== src/Runs/Scripts.antt =====
-- Runs of blockdata/script.rs and of blockdata/opcodes.rs.
use chaintopeslashrust_tapyr.Common.{◌≡◌, ◌↔◌, refl, arith, true, List, [], ◌∷◌, ◌++◌, map, some}
use chaintopeslashrust_tapyr.Common.{none, ◌-◌, ◌^◌}
use chaintopeslashrust_tapyr.Common.Int.{pos, negsuc}
use chaintopeslashrust_tapyr.Outcome.{Bytes, ok, err}
use chaintopeslashrust_tapyr.Script.Instructions.{
  Instruction, push, item, next, instructions, numeric_overflow,
}
use chaintopeslashrust_tapyr.Script.Instructions.Steps.{ErrorIsLast, instructions_total}
use chaintopeslashrust_tapyr.Script.Builder.{Builder, from_bytes}
use chaintopeslashrust_tapyr.Script.Templates.{
  ColorIdentifier, nft, color_identifier, add_color, is_p2sh, is_p2pkh, is_cp2sh, is_cp2pkh,
  is_colored,
}
use chaintopeslashrust_tapyr.Script.Templates.Colors.{add_color-is_colored}
use chaintopeslashrust_tapyr.Script.Pushes.{is_small_push}
use chaintopeslashrust_tapyr.Script.Minimal.{IsMinimalPush, next_minimal_iff}
use chaintopeslashrust_tapyr.Script.Programs.{
  Piece, slice, opcode, build, instruction, instructions-build,
}
use chaintopeslashrust_tapyr.Script.Numbers.{build_scriptint}
use chaintopeslashrust_tapyr.Script.Numbers.RoundTrip.{read_built, read_scriptint-build_scriptint}
use chaintopeslashrust_tapyr.Runs.Values.{all_bytes_sound, zeros, length-zeros, zeros-IsByte}

-- A push that runs past the end.
abbrev cut_script : Bytes
cut_script = 0x51 ∷ 0x02 ∷ 0x07 ∷ []

instructions_total_example :
    (is : List Instruction) × (instructions true cut_script ≡ some is) × ErrorIsLast is
instructions_total_example = instructions_total true cut_script (all_bytes_sound cut_script refl)

next_minimal_iff_example :
    (next true (0x02 ∷ 0x07 ∷ 0x08 ∷ 0x51 ∷ []) ≡ item (push (0x07 ∷ 0x08 ∷ [])) (0x51 ∷ []))
    ↔ IsMinimalPush (0x02 ∷ 0x07 ∷ 0x08 ∷ 0x51 ∷ []) (0x07 ∷ 0x08 ∷ []) (0x51 ∷ [])
next_minimal_iff_example =
    next_minimal_iff (0x02 ∷ 0x07 ∷ 0x08 ∷ 0x51 ∷ []) (0x07 ∷ 0x08 ∷ []) (0x51 ∷ [])
      (all_bytes_sound (0x02 ∷ 0x07 ∷ 0x08 ∷ 0x51 ∷ []) refl)

-- `OP_DUP`, a push of two bytes, `OP_CHECKSIG`.
abbrev pieces : List Piece
pieces = opcode 0x76 ∷ slice (0x07 ∷ 0x08 ∷ []) ∷ opcode 0xac ∷ []

instructions-build_example :
    (b : Builder) × (build pieces ≡ some b)
    × (instructions true b.bytes ≡ some (map instruction pieces))
    × (from_bytes b.bytes ≡ some b)
unfolding is_small_push
instructions-build_example =
    instructions-build true pieces
      ((omega arith, omega arith), ((omega arith, refl), ((omega arith, omega arith), tt)))

read_scriptint_example : read_built (build_scriptint (negsuc 128)) ≡ some (ok (negsuc 128))
read_scriptint_example = read_scriptint-build_scriptint (negsuc 128) (omega arith)

read_scriptint_overflow :
    read_built (build_scriptint (pos 0x80000000)) ≡ some (err numeric_overflow)
read_scriptint_overflow = read_scriptint-build_scriptint (pos 0x80000000) (omega arith)

least_i64_panics : build_scriptint (negsuc (2 ^ 63 - 1)) ≡ none
unfolding build_scriptint
least_i64_panics = refl

-- `OP_HASH160`, a push of 20 bytes, `OP_EQUAL`.
abbrev p2sh_script : Bytes
p2sh_script = 0xa9 ∷ 0x14 ∷ (zeros 20 ++ (0x87 ∷ []))

abbrev token : ColorIdentifier
token = record { token_type = nft; payload = zeros 32 }

abbrev colored_script : Bytes
colored_script = 0x21 ∷ 0xc3 ∷ (zeros 32 ++ (0xbc ∷ p2sh_script))

add_color_runs : add_color p2sh_script token ≡ some colored_script
unfolding add_color is_p2sh is_p2pkh color_identifier zeros
add_color_runs = refl

add_color-is_colored_example :
    (is_colored colored_script ≡ true)
    × (is_cp2pkh colored_script ≡ is_p2pkh p2sh_script)
    × (is_cp2sh colored_script ≡ is_p2sh p2sh_script)
add_color-is_colored_example =
    add_color-is_colored p2sh_script colored_script token (length-zeros 32, zeros-IsByte 32)
      add_color_runs

-- A version byte and a push of 20 bytes.
abbrev key_program : Bytes
key_program = 0x00 ∷ 0x14 ∷ zeros 20
