-- ===== src/Derivation.antt =====
-- util/bip32.rs: child numbers and derivation paths, as numbers and as text. The build has overflow checks.
pub mod Paths
pub mod Iterator
use chaintopeslashrust_tapyr.Common.{
  ℕ, suc, ◌+◌, ◌-◌, ◌*◌, ◌^◌, Bool, true, false, not, ◌&&◌, ◌||◌, List, [], ◌∷◌, ◌++◌, length,
  is_empty, bit_and, bit_or, bit_xor, bytes_eq, if◌then◌else◌, ◌==◌, ltb, Option, none, some,
}
use chaintopeslashrust_tapyr.Common.Text.{Text, codes, is_digit, decimal}
use chaintopeslashrust_tapyr.Outcome.{Result, ok, err, panic, bind}

pub data ChildNumber : Type 0 where
  normal hardened : ℕ → ChildNumber

-- The errors of this part.
pub data DerivationError : Type 0 where
  invalid_child_number : ℕ → DerivationError
  invalid_child_number_format invalid_derivation_path_format : DerivationError

unfoldable pub from_normal_idx : ℕ → Result DerivationError ChildNumber
from_normal_idx index =
    if bit_and index (2 ^ 31) == 0 then ok (normal index) else err (invalid_child_number index)

unfoldable pub from_hardened_idx : ℕ → Result DerivationError ChildNumber
from_hardened_idx index =
    if bit_and index (2 ^ 31) == 0 then ok (hardened index) else err (invalid_child_number index)

-- `idx + 1` on a `u32`.
unfoldable pub next_index : ℕ → Result DerivationError ℕ
next_index idx = if ltb (idx + 1) (2 ^ 32) then ok (idx + 1) else panic

unfoldable pub increment : ChildNumber → Result DerivationError ChildNumber
unfolding next_index
increment (normal idx) = bind (next_index idx) from_normal_idx
increment (hardened idx) = bind (next_index idx) from_hardened_idx

-- `From<u32>`, and `From<ChildNumber>` for `u32`.
unfoldable pub child_of_number : ℕ → ChildNumber
child_of_number number =
    if not (bit_and number (2 ^ 31) == 0) then hardened (bit_xor number (2 ^ 31)) else normal number

unfoldable pub number_of_child : ChildNumber → ℕ
number_of_child (normal index) = index
number_of_child (hardened index) = bit_or index (2 ^ 31)

unfoldable pub fmt_child : ChildNumber → Text
fmt_child (hardened index) = decimal index ++ (39 ∷ [])
fmt_child (normal index) = decimal index

-- `str::parse` for `u32`: digits behind a plus sign, if any.
unfoldable pub scan_number : ℕ → Text → Option ℕ
scan_number v [] = some v
scan_number v (c ∷ s) =
    let rest = scan_number (v * 10 + (c - b'0')) s in
    if is_digit c && ltb (v * 10 + (c - b'0')) (2 ^ 32) then rest else none

unfoldable pub parse_number : Text → Option ℕ
unfolding scan_number
parse_number [] = none
parse_number (c ∷ s) =
    if c == b'+' then (if is_empty s then none else scan_number 0 s) else scan_number 0 (c ∷ s)

-- The last character, if it marks a hardened number, and what stands before the last one.
unfoldable pub is_marked : Text → Bool
is_marked [] = false
is_marked (c ∷ []) = c == 39 || c == b'h'
is_marked (c ∷ (d ∷ s)) = is_marked (d ∷ s)

unfoldable pub drop_last : Text → Text
drop_last [] = []
drop_last (c ∷ []) = []
drop_last (c ∷ (d ∷ s)) = c ∷ drop_last (d ∷ s)

abbrev pub ok_number : Option ℕ → Result DerivationError ℕ
ok_number none = err invalid_child_number_format
ok_number (some n) = ok n

unfoldable pub parse_child : Text → Result DerivationError ChildNumber
unfolding is_marked drop_last parse_number
parse_child inp =
    if is_marked inp
    then bind (ok_number (parse_number (drop_last inp))) from_hardened_idx
    else bind (ok_number (parse_number inp)) from_normal_idx

abbrev pub DerivationPath : Type 0
DerivationPath = List ChildNumber

unfoldable pub fmt_children : DerivationPath → Text
fmt_children [] = []
fmt_children (cn ∷ path) = b'/' ∷ (fmt_child cn ++ fmt_children path)

unfoldable pub fmt_path : DerivationPath → Text
unfolding fmt_children
fmt_path path = codes "m" ++ fmt_children path

-- `path.split("/")`: the first part and the others.
unfoldable pub split_slash : Text → Text × List Text
split_slash [] = ([], [])
split_slash (c ∷ s) =
    let rest = split_slash s in if c == b'/' then ([], rest.0 ∷ rest.1) else (c ∷ rest.0, rest.1)

unfoldable pub parse_children : List Text → Result DerivationError DerivationPath
parse_children [] = ok []
parse_children (part ∷ parts) =
    bind (parse_child part) (λ cn. bind (parse_children parts) (λ path. ok (cn ∷ path)))

unfoldable pub parse_path : Text → Result DerivationError DerivationPath
unfolding split_slash parse_children
parse_path s =
    if bytes_eq ((split_slash s).0) (codes "m")
    then parse_children ((split_slash s).1)
    else err invalid_derivation_path_format

unfoldable pub child : DerivationPath → ChildNumber → DerivationPath
child path cn = path ++ (cn ∷ [])

-- `DerivationPathIterator`.
pub record PathIterator : Type 0 where
  pub base : DerivationPath
  pub next_child : Option ChildNumber

abbrev pub ok_child :
    Result DerivationError ChildNumber → Result DerivationError (Option ChildNumber)
ok_child (ok cn) = ok (some cn)
ok_child (err e) = ok none
ok_child panic = panic

-- A path, if there is one more, with the iterator after it.
unfoldable pub next_path :
    PathIterator → Result DerivationError (Option DerivationPath × PathIterator)
next_path it = elim it.next_child [
  | none ↦ ok (none, it)
  | some ret ↦
      bind (ok_child (increment ret))
        (λ after. ok (some (child it.base ret), record { base = it.base; next_child = after }))
]

unfoldable pub normal_children : DerivationPath → PathIterator
normal_children path = record { base = path; next_child = some (normal 0) }

unfoldable pub hardened_children : DerivationPath → PathIterator
hardened_children path = record { base = path; next_child = some (hardened 0) }
