-- ===== src/Merkle/Partial.antt =====
-- util/merkleblock.rs: partial merkle trees. Positions and widths are `u32`s. The sum of `calc_tree_width` can overflow,
-- which `find_height` finds first; below 2 ^ 31 transactions no other sum or shift reaches 2 ^ 32, and every index is in
-- range.
pub mod Nodes
pub mod Widths
pub mod Reading
pub mod Levels
pub mod Counts
pub mod Selection
pub mod Build
pub mod Extract
pub mod Packing
pub mod Unpacking
pub mod Encoding
use chaintopeslashrust_tapyr.Common.{
  ℕ, zero, suc, ◌+◌, ◌-◌, ◌*◌, ◌/◌, ◌%◌, ◌^◌, Bool, true, false, not, ◌||◌, List, [], ◌∷◌, ◌++◌,
  length, get_or, get_elem?, if◌then◌else◌, ltb, ◌==◌, bytes_eq, Option, none, some,
}
use chaintopeslashrust_tapyr.Common.Text.{Text, codes}
use chaintopeslashrust_tapyr.Outcome.{Bytes, Result, ok, err, panic, bind, assert}
use chaintopeslashrust_tapyr.Hashes.{HashFunction}

pub data MerkleBlockError : Type 0 where
  merkle_root_mismatch no_transactions too_many_transactions : MerkleBlockError
  bad_format : Text → MerkleBlockError

pub record PartialMerkleTree : Type 0 where
  pub num_transactions : ℕ
  pub bits : List Bool
  pub hashes : List Bytes

-- `MAX_BLOCK_WEIGHT / MIN_TRANSACTION_WEIGHT`
abbrev pub max_transactions : ℕ
max_transactions = 4000000 / (4 * 60)

-- The width of a level where the sum of `calc_tree_width` fits. This is what the calls below `find_height` return:
-- each is at a height that `find_height` has gone through, with the same number of transactions.
unfoldable pub level_width : ℕ → ℕ → ℕ
level_width num height = (num + 2 ^ height - 1) / 2 ^ height

-- `none` is the panic of a sum that overflows a `u32`.
unfoldable pub calc_tree_width : ℕ → ℕ → Option ℕ
unfolding level_width
calc_tree_width num height =
    if ltb (num + 2 ^ height) (2 ^ 32) then some (level_width num height) else none

-- What one round finds, by the width: the height, or what the rounds above it find.
abbrev pub level_found : Option ℕ → Option ℕ → ℕ → Option ℕ
level_found none rest height = none
level_found (some width) rest height = if ltb 1 width then rest else some height

-- `while calc_tree_width(height) > 1`; a shift by 32 is a panic, as is `none`.
unfoldable pub find_height : ℕ → ℕ → ℕ → Option ℕ
find_height zero num height = none
find_height (suc rounds) num height =
    let rest = find_height rounds num (suc height) in
    level_found (calc_tree_width num height) rest height

-- `while p < (pos + 1) << height && p < num`, from `p` on.
unfoldable pub any_match : ℕ → ℕ → ℕ → List Bool → Bool
any_match zero p num matched = false
any_match (suc rounds) p num matched =
    let rest = any_match rounds (suc p) num matched in
    if ltb p num then get_or matched p false || rest else false

abbrev pub parent_of_match : ℕ → ℕ → ℕ → List Bool → Bool
parent_of_match num height pos matched = any_match (2 ^ height) (pos * 2 ^ height) num matched

-- How far the bits and hashes are used, and what is found.
pub record Cursor : Type 0 where
  pub bits_used : ℕ
  pub hash_used : ℕ
  pub matches : List Bytes
  pub indexes : List ℕ

unfoldable pub next_bit : PartialMerkleTree → Cursor → Result MerkleBlockError (Bool × Cursor)
next_bit t c = elim (get_elem? t.bits c.bits_used) [
  | none ↦ err (bad_format (codes "Overflowed the bits array"))
  | some b ↦ ok (
    b,
    record {
      bits_used = suc c.bits_used;
      hash_used = c.hash_used;
      matches = c.matches;
      indexes = c.indexes;
    },
  )
]

unfoldable pub next_hash : PartialMerkleTree → Cursor → Result MerkleBlockError (Bytes × Cursor)
next_hash t c = elim (get_elem? t.hashes c.hash_used) [
  | none ↦ err (bad_format (codes "Overflowed the hash array"))
  | some h ↦ ok (
    h,
    record {
      bits_used = c.bits_used;
      hash_used = suc c.hash_used;
      matches = c.matches;
      indexes = c.indexes;
    },
  )
]

-- A matched transaction at height 0.
unfoldable pub push_match : Bool → ℕ → Bytes × Cursor → Bytes × Cursor
push_match false pos p = p
push_match true pos p = (
  p.0,
  record {
    bits_used = p.1.bits_used;
    hash_used = p.1.hash_used;
    matches = p.1.matches ++ (p.0 ∷ []);
    indexes = p.1.indexes ++ (pos ∷ []);
  },
)

-- `if` where only one of the branches runs on what is given.
abbrev pub branch {ℓ κ} : {A : Type ℓ} {B : Type κ} → Bool → (A → B) → (A → B) → A → B
branch true f g a = f a
branch false f g a = g a

module _ (hash : HashFunction 32) where
  unfoldable pub parent_hash : Bytes → Bytes → Bytes
  parent_hash left right = hash.hash (left ++ right)

  unfoldable pub calc_hash : ℕ → List Bytes → ℕ → ℕ → Bytes
  calc_hash num txids zero pos = get_or txids pos []
  calc_hash num txids (suc height) pos =
      let left = calc_hash num txids height (pos * 2) in
      let right = calc_hash num txids height (pos * 2 + 1) in
      parent_hash left (if ltb (pos * 2 + 1) (level_width num height) then right else left)

  -- The bits and hashes are pushed to those that are there.
  unfoldable pub traverse_and_build :
      ℕ → List Bytes → List Bool → ℕ → ℕ → List Bool × List Bytes → List Bool × List Bytes
  traverse_and_build num txids matched zero pos t =
      (t.0 ++ (parent_of_match num 0 pos matched ∷ []), t.1 ++ (calc_hash num txids 0 pos ∷ []))
  traverse_and_build num txids matched (suc height) pos t =
      let bit = parent_of_match num (suc height) pos matched in
      branch bit
        (λ u.
          branch (ltb (pos * 2 + 1) (level_width num height))
            (traverse_and_build num txids matched height (pos * 2 + 1)) (λ v. v)
            (traverse_and_build num txids matched height (pos * 2) u))
        (λ u. (u.0, u.1 ++ (calc_hash num txids (suc height) pos ∷ []))) (t.0 ++ (bit ∷ []), t.1)

  unfoldable pub from_txids : List Bytes → List Bool → Result MerkleBlockError PartialMerkleTree
  from_txids txids matched = bind (assert (not (length txids == 0))) (λ u.
      bind (assert (length txids == length matched)) (λ v.
        let num = length txids % 2 ^ 32 in
        elim (find_height 32 num 0) [
          | none ↦ panic
          | some height ↦
              let built = traverse_and_build num txids matched height 0 ([], []) in
              ok (record { num_transactions = num; bits = built.0; hashes = built.1 })
        ]))

  -- The hashes of both subtrees, which must not be identical.
  unfoldable pub join : Bytes → Bytes × Cursor → Result MerkleBlockError (Bytes × Cursor)
  join left p =
      if bytes_eq (p.0) left
      then err (bad_format (codes "Found identical transaction hashes"))
      else ok (parent_hash left (p.0), p.1)

  unfoldable pub traverse_and_extract :
      PartialMerkleTree → ℕ → ℕ → Cursor → Result MerkleBlockError (Bytes × Cursor)
  traverse_and_extract t zero pos c =
      bind (next_bit t c) (λ p. bind (next_hash t (p.1)) (λ q. ok (push_match (p.0) pos q)))
  traverse_and_extract t (suc height) pos c = bind (next_bit t c) (λ p.
      branch (p.0)
        (λ d. bind (traverse_and_extract t height (pos * 2) d) (λ l.
          branch (ltb (pos * 2 + 1) (level_width t.num_transactions height))
            (λ e. bind (traverse_and_extract t height (pos * 2 + 1) e) (join (l.0)))
            (λ e. ok (parent_hash (l.0) (l.0), e)) (l.1)))
        (next_hash t) (p.1))

  -- The last tests, on what is used.
  unfoldable pub finish :
      PartialMerkleTree → Bytes × Cursor → Result MerkleBlockError (Bytes × List Bytes × List ℕ)
  finish t p =
      if not ((p.1.bits_used + 7) / 8 == (length t.bits % 2 ^ 32 + 7) / 8)
      then err (bad_format (codes "Not all bit were consumed"))
      else if not (p.1.hash_used == length t.hashes % 2 ^ 32)
      then err (bad_format (codes "Not all hashes were consumed"))
      else ok (p.0, p.1.matches, p.1.indexes)

  -- The root, with the vectors that are filled; what an error leaves in them is not kept.
  unfoldable pub extract_matches :
      PartialMerkleTree → Result MerkleBlockError (Bytes × List Bytes × List ℕ)
  extract_matches t =
      if t.num_transactions == 0
      then err no_transactions
      else if ltb max_transactions t.num_transactions
      then err too_many_transactions
      else if ltb t.num_transactions (length t.hashes % 2 ^ 32)
      then err (bad_format (codes "Proof contains more hashes than transactions"))
      else if ltb (length t.bits) (length t.hashes)
      then err (bad_format (codes "Proof contains less bits than hashes"))
      else elim (find_height 32 t.num_transactions 0) [
        | none ↦ panic
        | some height ↦
            bind
              (traverse_and_extract t height 0
                (record { bits_used = 0; hash_used = 0; matches = []; indexes = [] }))
              (finish t)
      ]
