-- ===== src/Derivation/Iterator.antt =====
-- util/bip32.rs: the iterator over the children of a path.
use chaintopeslashrust_tapyr.Common.{
  ℕ, zero, suc, ◌+◌, ◌^◌, ◌<◌, ◌≤◌, ◌≡◌, refl, arith, List, [], ◌∷◌, lt→ltb, Option, none, some,
}
use chaintopeslashrust_tapyr.Outcome.{Result, ok, bind}
use chaintopeslashrust_tapyr.Derivation.{
  ChildNumber, normal, hardened, DerivationError, from_normal_idx, from_hardened_idx, next_index,
  increment, DerivationPath, child, PathIterator, ok_child, next_path,
}
use chaintopeslashrust_tapyr.Derivation.Paths.{index_of, low_index}

-- The child number of the same kind with another index.
abbrev pub with_index : ChildNumber → ℕ → ChildNumber
with_index (normal i) index = normal index
with_index (hardened i) index = hardened index

-- A row of calls of `next`, and the paths that they return.
abbrev pub put_path : Option DerivationPath → List DerivationPath → List DerivationPath
put_path none paths = paths
put_path (some path) paths = path ∷ paths

unfoldable pub call_next :
    ℕ → PathIterator → Result DerivationError (List DerivationPath × PathIterator)
call_next zero it = ok ([], it)
call_next (suc calls) it =
    bind (next_path it) (λ p. bind (call_next calls (p.1)) (λ q. ok (put_path (p.0) (q.0), q.1)))

abbrev pub siblings : ℕ → DerivationPath → ChildNumber → ℕ → List DerivationPath
siblings zero path cn index = []
siblings (suc count) path cn index =
    child path (with_index cn index) ∷ siblings count path cn (suc index)

step_on :
    (cn : ChildNumber) (index : ℕ)
    → suc index < 2 ^ 31
    → increment (with_index cn index) ≡ ok (with_index cn (suc index))
unfolding increment next_index from_normal_idx from_hardened_idx
step_on (normal i) index h =
    let same : index + 1 ≡ suc index = omega arith in
    rw (same, lt→ltb (suc index) (2 ^ 32) (omega arith), low_index (suc index) h) refl
step_on (hardened i) index h =
    let same : index + 1 ≡ suc index = omega arith in
    rw (same, lt→ltb (suc index) (2 ^ 32) (omega arith), low_index (suc index) h) refl

last_step :
    (cn : ChildNumber) (index : ℕ)
    → suc index ≡ 2 ^ 31
    → ok_child (increment (with_index cn index)) ≡ ok none
unfolding increment next_index from_normal_idx from_hardened_idx
last_step (normal i) index h = let same : index + 1 ≡ 2 ^ 31 = omega (arith, h) in rw same refl
last_step (hardened i) index h = let same : index + 1 ≡ 2 ^ 31 = omega (arith, h) in rw same refl

calls :
    (count index : ℕ) (path : DerivationPath) (cn : ChildNumber)
    → suc count + index ≡ 2 ^ 31
    → call_next (suc count) (record { base = path; next_child = some (with_index cn index) })
      ≡ ok (siblings (suc count) path cn index, record { base = path; next_child = none })
unfolding call_next next_path
calls zero index path cn h = rw (last_step cn index (omega arith)) refl
calls (suc count) index path cn h =
    rw (step_on cn index (omega arith), calls count (suc index) path cn (omega arith)) refl

-- From a child number with an index below 2 ^ 31, the iterator over the children of a path comes to its end: with one call for each
-- index from that one up to 2 ^ 31 - 1 it returns the children with these indices in order and of the same kind, and from then on nothing.
pub children_end :
    (count : ℕ) (path : DerivationPath) (cn : ChildNumber)
    → 1 ≤ count
    → count + index_of cn ≡ 2 ^ 31
    → (call_next count (record { base = path; next_child = some cn })
        ≡ ok (siblings count path cn (index_of cn), record { base = path; next_child = none }))
      × (next_path (record { base = path; next_child = none })
          ≡ ok (none, record { base = path; next_child = none }))
unfolding next_path
children_end zero path cn full h = absurd (omega arith)
children_end (suc count) path (normal index) full h =
    (calls count index path (normal index) h, refl)
children_end (suc count) path (hardened index) full h =
    (calls count index path (hardened index) h, refl)
