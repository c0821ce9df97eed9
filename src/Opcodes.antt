-- ===== src/Opcodes.antt =====
-- blockdata/opcodes.rs: opcodes and their classes. An opcode (`All`) is its byte.
use chaintopeslashrust_tapyr.Common.{
  ap, ℕ, ◌+◌, ◌-◌, ◌<◌, ◌≡◌, ◌≢◌, refl, arith, List, [], ◌∷◌, Bool, false, ◌&&◌, ◌||◌, leb, ◌==◌,
  if◌then◌else◌,
}
use chaintopeslashrust_tapyr.Common.Int.{ℤ, pos, negsuc}
use chaintopeslashrust_tapyr.Common.Bits.{agree_below, agree_below_sound}

abbrev pub op_false : ℕ
op_false = 0x00

abbrev pub op_pushdata1 : ℕ
op_pushdata1 = 0x4c

abbrev pub op_pushdata2 : ℕ
op_pushdata2 = 0x4d

abbrev pub op_pushdata4 : ℕ
op_pushdata4 = 0x4e

abbrev pub op_pushnum_neg1 : ℕ
op_pushnum_neg1 = 0x4f

abbrev pub op_true : ℕ
op_true = 0x51

abbrev pub op_pushnum_16 : ℕ
op_pushnum_16 = 0x60

abbrev pub op_verify : ℕ
op_verify = 0x69

abbrev pub op_return : ℕ
op_return = 0x6a

abbrev pub op_dup : ℕ
op_dup = 0x76

abbrev pub op_equal : ℕ
op_equal = 0x87

abbrev pub op_equalverify : ℕ
op_equalverify = 0x88

abbrev pub op_numequal : ℕ
op_numequal = 0x9c

abbrev pub op_numequalverify : ℕ
op_numequalverify = 0x9d

abbrev pub op_hash160 : ℕ
op_hash160 = 0xa9

abbrev pub op_checksig : ℕ
op_checksig = 0xac

abbrev pub op_checksigverify : ℕ
op_checksigverify = 0xad

abbrev pub op_checkmultisig : ℕ
op_checkmultisig = 0xae

abbrev pub op_checkmultisigverify : ℕ
op_checkmultisigverify = 0xaf

abbrev pub op_color : ℕ
op_color = 0xbc

-- `panicked` is no class of the source: it stands for the `unwrap` of `Ordinary::try_from_all`.
pub data Class : Type 0 where
  push_num : ℤ → Class
  push_bytes : ℕ → Class
  return_op illegal_op no_op : Class
  ordinary : ℕ → Class
  panicked : Class

unfoldable pub any_of : List ℕ → ℕ → Bool
any_of [] code = false
any_of (op ∷ ops) code = code == op || any_of ops code

-- The opcodes of `ordinary_opcode!`, in its order.
abbrev ordinary_opcodes : List ℕ
ordinary_opcodes =
    0x4c ∷ 0x4d ∷ 0x4e ∷ 0x63 ∷ 0x64 ∷ 0x67 ∷ 0x68 ∷ 0x69 ∷ 0x6b ∷ 0x6c ∷ 0x6d ∷ 0x6e ∷ 0x6f ∷ 0x70
    ∷ 0x71 ∷ 0x72 ∷ 0x75 ∷ 0x76 ∷ 0x77 ∷ 0x78 ∷ 0x79 ∷ 0x7a ∷ 0x7b ∷ 0x7c ∷ 0x7d ∷ 0x73 ∷ 0x74
    ∷ 0x82 ∷ 0x87 ∷ 0x88 ∷ 0x8b ∷ 0x8c ∷ 0x8f ∷ 0x90 ∷ 0x91 ∷ 0x92 ∷ 0x93 ∷ 0x94 ∷ 0x9a ∷ 0x9b
    ∷ 0x9c ∷ 0x9d ∷ 0x9e ∷ 0x9f ∷ 0xa2 ∷ 0xa1 ∷ 0xa0 ∷ 0xa3 ∷ 0xa4 ∷ 0xa5 ∷ 0xa6 ∷ 0xa7 ∷ 0xa8
    ∷ 0xa9 ∷ 0xaa ∷ 0xab ∷ 0xac ∷ 0xad ∷ 0xae ∷ 0xaf ∷ 0xbc ∷ []

-- VERIF VERNOTIF CAT SUBSTR LEFT RIGHT INVERT AND OR XOR 2MUL 2DIV MUL DIV MOD LSHIFT RSHIFT
abbrev illegal_opcodes : List ℕ
illegal_opcodes =
    0x65 ∷ 0x66 ∷ 0x7e ∷ 0x7f ∷ 0x80 ∷ 0x81 ∷ 0x83 ∷ 0x84 ∷ 0x85 ∷ 0x86 ∷ 0x8d ∷ 0x8e ∷ 0x95 ∷ 0x96
    ∷ 0x97 ∷ 0x98 ∷ 0x99 ∷ []

-- RESERVED VER RETURN RESERVED1 RESERVED2 RETURN_186 RETURN_187
abbrev return_opcodes : List ℕ
return_opcodes = 0x50 ∷ 0x62 ∷ 0x6a ∷ 0x89 ∷ 0x8a ∷ 0xba ∷ 0xbb ∷ []

-- `All::classify`.
unfoldable pub classify : ℕ → Class
classify code =
    if any_of illegal_opcodes code
    then illegal_op
    else if code == 0x61 || (leb 0xb0 code && leb code 0xb9)
    then no_op
    else if any_of return_opcodes code || leb 0xbd code
    then return_op
    else if code == op_pushnum_neg1
    then push_num (negsuc 0)
    else if leb op_true code && leb code op_pushnum_16
    then push_num (pos (1 + code - op_true))
    else if leb code 0x4b
    then push_bytes code
    else if any_of ordinary_opcodes code
    then ordinary code
    else panicked

push_size : Class → ℕ
push_size (push_bytes n) = n + 1
push_size (push_num n) = 0
push_size return_op = 0
push_size illegal_op = 0
push_size no_op = 0
push_size (ordinary n) = 0
push_size panicked = 0

push_size_sound : (c : Class) (n : ℕ) → push_size c ≡ n + 1 → c ≡ push_bytes n
unfolding push_size
push_size_sound (push_bytes m) n h = ap push_bytes (omega arith)
push_size_sound (push_num m) n h = absurd (omega arith)
push_size_sound return_op n h = absurd (omega arith)
push_size_sound illegal_op n h = absurd (omega arith)
push_size_sound no_op n h = absurd (omega arith)
push_size_sound (ordinary m) n h = absurd (omega arith)
push_size_sound panicked n h = absurd (omega arith)

-- The first 76 opcodes push as many bytes as they say.
pub classify_push : (n : ℕ) → n < 76 → classify n ≡ push_bytes n
unfolding classify any_of push_size agree_below
classify_push n h =
    push_size_sound (classify n) n
      (agree_below_sound 76 (λ c. push_size (classify c)) (λ c. c + 1) refl n h)

-- No other opcode is of that class, and an ordinary opcode is itself.
pub push_bytes_inv : (c n : ℕ) → classify c ≡ push_bytes n → (n ≡ c) × (c < 76)
unfolding classify
push_bytes_inv c n h = ground arith

pub ordinary_inv : (c n : ℕ) → classify c ≡ ordinary n → n ≡ c
unfolding classify
ordinary_inv c n h = ground arith

panic_flag : Class → ℕ
panic_flag panicked = 1
panic_flag _ = 0

-- Every byte has a class: the `unwrap` at the end of `classify` never fails.
pub classify-ne-panicked : (c : ℕ) → c < 256 → classify c ≢ panicked
unfolding classify any_of panic_flag agree_below
classify-ne-panicked c h e =
    let none_flagged = agree_below_sound 256 (λ c. panic_flag (classify c)) (λ c. 0) refl c h in
    absurd (omega (arith, none_flagged, ap panic_flag e))
