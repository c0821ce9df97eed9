-- ===== src/Base58/Small.antt =====
-- util/base58.rs: `SmallVec`, which holds its first 100 elements on the stack; `none` is the panic of an index or a
-- range that does not fit.
pub mod Laws
use chaintopeslashrust_tapyr.Common.{
  ℕ, zero, suc, List, [], ◌∷◌, ◌++◌, length, take, ltb, leb, if◌then◌else◌, Option, none, some,
}
use chaintopeslashrust_tapyr.Outcome.{and_then}

pub record SmallVec : Type 0 where
  pub len : ℕ
  pub stack : List ℕ
  pub heap : List ℕ

-- `[T::default(); 100]`
unfoldable pub defaults : ℕ → List ℕ
defaults zero = []
defaults (suc n) = 0 ∷ defaults n

unfoldable pub new : SmallVec
unfolding defaults
new = record { len = 0; stack = defaults 100; heap = [] }

-- `self.stack[i] = val`
unfoldable pub stack_set : List ℕ → ℕ → ℕ → Option (List ℕ)
stack_set [] i val = none
stack_set (x ∷ stack) zero val = some (val ∷ stack)
stack_set (x ∷ stack) (suc i) val = and_then (stack_set stack i val) (λ changed. some (x ∷ changed))

unfoldable pub push : SmallVec → ℕ → Option SmallVec
unfolding stack_set
push v val =
    if ltb v.len 100
    then and_then (stack_set v.stack v.len val)
        (λ changed. some (record { len = suc v.len; stack = changed; heap = v.heap }))
    else some (record { len = v.len; stack = v.stack; heap = v.heap ++ (val ∷ []) })

-- The range `stack[0..len]` that both iterators take.
unfoldable pub stack_range : SmallVec → Option (List ℕ)
stack_range v = if leb v.len (length v.stack) then some (take v.len v.stack) else none

unfoldable pub iter : SmallVec → Option (List ℕ)
unfolding stack_range
iter v = and_then (stack_range v) (λ front. some (front ++ v.heap))
