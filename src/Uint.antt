-- ===== src/Uint.antt =====
-- util/uint.rs: wide integers, `Uint256` and `Uint128`, as the list of their words, the lowest first; `n_words` is
-- the length of the list. `add` calls itself with the carries, at most once for each word and once more, which are
-- its rounds.
pub mod Sums
pub mod Addition
pub mod Products
pub mod Encoding
pub mod Shifts
pub mod Quotients
pub mod Multiplication
use chaintopeslashrust_tapyr.Common.{take, drop, ◌++◌}
use chaintopeslashrust_tapyr.Common.{
  ℕ, zero, suc, ◌+◌, ◌-◌, ◌*◌, ◌/◌, ◌%◌, ◌^◌, List, [], ◌∷◌, length, Bool, true, false, ◌||◌, not,
  ltb, ◌==◌, if◌then◌else◌, Option, none, some,
}
use chaintopeslashrust_tapyr.Consensus.Reader.{Consensus}
use chaintopeslashrust_tapyr.Consensus.Integers.{u64}
use chaintopeslashrust_tapyr.Consensus.Vectors.{encode_each, decode_times}

-- `consensus_encode` and `consensus_decode` at `n` words, each a `u64`.
abbrev pub wide_int : ℕ → Consensus (List ℕ)
wide_int n = record { consensus_encode = encode_each u64; consensus_decode = decode_times u64 n }

abbrev pub word : ℕ
word = 2 ^ 64

abbrev pub flag : Bool → ℕ
flag true = 1
flag false = 0

-- `ret[i] = me[i].wrapping_add(you[i])`
unfoldable pub sums : List ℕ → List ℕ → List ℕ
sums (x ∷ xs) (y ∷ ys) = (x + y) % word ∷ sums xs ys
sums xs ys = []

-- The array `carry`, from the word `carry` on: the last sum has no word behind it.
unfoldable pub carries : ℕ → List ℕ → List ℕ → List ℕ
carries carry (x ∷ xs) (y ∷ ys) = carry ∷ carries (flag (ltb ((x + y) % word) x)) xs ys
carries carry xs ys = []

-- `b_carry`
unfoldable pub any_carry : List ℕ → Bool
any_carry [] = false
any_carry (c ∷ cs) = not (c == 0) || any_carry cs

-- `add`, which calls itself with the carries. There are rounds left; each sets one more carry to zero.
unfoldable pub add_rounds : ℕ → List ℕ → List ℕ → Option (List ℕ)
unfolding sums carries any_carry
add_rounds zero me you = none
add_rounds (suc rounds) me you =
    let rest : Option (List ℕ) = add_rounds rounds (sums me you) (carries 0 me you) in
    if any_carry (carries 0 me you) then rest else some (sums me you)

unfoldable pub add : List ℕ → List ℕ → Option (List ℕ)
unfolding add_rounds
add me you = add_rounds (suc (length me)) me you

unfoldable pub complement : List ℕ → List ℕ
complement [] = []
complement (x ∷ xs) = (word - 1 - x) ∷ complement xs

unfoldable pub words_zero : ℕ → List ℕ
words_zero zero = []
words_zero (suc n) = 0 ∷ words_zero n

-- `BitArray::one`; the index of the first word is out of range for no words.
unfoldable pub words_one : ℕ → List ℕ
unfolding words_zero
words_one zero = []
words_one (suc n) = 1 ∷ words_zero n

abbrev pub add_some : Option (List ℕ) → List ℕ → Option (List ℕ)
add_some none you = none
add_some (some me) you = add me you

unfoldable pub sub : List ℕ → List ℕ → Option (List ℕ)
unfolding complement words_one
sub me you = add_some (add me (complement you)) (words_one (length me))

-- The loop of `mul_u32`: the words of the product without the carries, and the carries.
unfoldable pub low_products : ℕ → List ℕ → List ℕ
low_products other [] = []
low_products other (x ∷ xs) =
    let upper : ℕ = other * (x / 2 ^ 32) in
    let lower : ℕ = other * (x % 2 ^ 32) in
    (lower + upper * 2 ^ 32 % word) % word ∷ low_products other xs

abbrev pub carry_of_product : ℕ → ℕ → ℕ
carry_of_product other x =
    let upper : ℕ = other * (x / 2 ^ 32) in
    let lower : ℕ = other * (x % 2 ^ 32) in
    upper / 2 ^ 32 + flag (not (ltb (lower + upper * 2 ^ 32 % word) word))

unfoldable pub product_carries : ℕ → ℕ → List ℕ → List ℕ
product_carries other carry [] = []
product_carries other carry (x ∷ xs) = carry ∷ product_carries other (carry_of_product other x) xs

unfoldable pub mul_u32 : List ℕ → ℕ → Option (List ℕ)
unfolding low_products product_carries
mul_u32 me other = add (low_products other me) (product_carries other 0 me)

-- What `shl` carries from a word to the next, where it moves by some bits.
abbrev pub carried_bits : ℕ → ℕ → ℕ
carried_bits bit_shift x = if bit_shift == 0 then 0 else x / 2 ^ (64 - bit_shift)

-- The words from `ret[word_shift]` on, and those that are out of range, behind the bits that the word below carries.
unfoldable pub shifted_words : ℕ → ℕ → List ℕ → List ℕ
shifted_words bit_shift carried [] = []
shifted_words bit_shift carried (x ∷ original) =
    (x * 2 ^ bit_shift % word + carried)
    ∷ shifted_words bit_shift (carried_bits bit_shift x) original

-- `shl`: the words below `ret[word_shift]` stay zero, and those out of range are not written.
unfoldable pub shl : List ℕ → ℕ → List ℕ
unfolding words_zero shifted_words
shl original shift =
    take (length original) (words_zero (shift / 64) ++ shifted_words (shift % 64) 0 original)

-- What `shr` brings to a word from the one above it, where it moves by some bits.
abbrev pub brought_bits : ℕ → ℕ → ℕ
brought_bits bit_shift y = if bit_shift == 0 then 0 else y * 2 ^ (64 - bit_shift) % word

-- The words of `shr` that come from the words from `original[word_shift]` on.
unfoldable pub lowered_words : ℕ → List ℕ → List ℕ
lowered_words bit_shift [] = []
lowered_words bit_shift (x ∷ []) = x / 2 ^ bit_shift ∷ []
lowered_words bit_shift (x ∷ y ∷ original) =
    (x / 2 ^ bit_shift + brought_bits bit_shift y) ∷ lowered_words bit_shift (y ∷ original)

-- `shr`: the words behind stay zero.
unfoldable pub shr : List ℕ → ℕ → List ℕ
unfolding words_zero lowered_words
shr original shift =
    let moved : List ℕ = drop (shift / 64) original in
    lowered_words (shift % 64) moved ++ words_zero (length original - length moved)

-- `arr[0] as u32`
unfoldable pub low_u32 : List ℕ → Option ℕ
low_u32 [] = none
low_u32 (x ∷ xs) = some (x % 2 ^ 32)

infixl 5 ◌>>=◌
abbrev pub ◌>>=◌ : {A B : Type 0} → Option A → (A → Option B) → Option B
none >>= f = none
some a >>= f = f a

-- The loop of `mul` from round `i` on.
unfoldable pub mul_rounds : ℕ → ℕ → List ℕ → List ℕ → List ℕ → Option (List ℕ)
unfolding low_u32 mul_u32 add shl shr
mul_rounds zero i me this other = some me
mul_rounds (suc rounds) i me this other = do
  to_mul ← low_u32 (shr other (32 * i))
  product ← mul_u32 this to_mul
  sum ← add me (shl product (32 * i))
  mul_rounds rounds (suc i) sum this other

unfoldable pub mul : List ℕ → List ℕ → Option (List ℕ)
unfolding mul_rounds words_zero
mul this other = mul_rounds (2 * length this) 0 (words_zero (length this)) this other
