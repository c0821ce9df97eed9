-- ===== src/Base58/Small/Laws.antt =====
-- util/base58.rs: `SmallVec` and the list that it holds.
use chaintopeslashrust_tapyr.Common.{
  ℕ, suc, ◌+◌, ◌<◌, ◌≡◌, refl, sym, ap, ◌∙◌, arith, Bool-cases, inl, inr, true, List, [], ◌∷◌, ◌++◌,
  length, length-append, append_assoc, append-nil, take, take-append, ltb, leb, ltb→lt, ltb→le,
  some,
}
use chaintopeslashrust_tapyr.Outcome.{and_then}
use chaintopeslashrust_tapyr.Base58.Small.{SmallVec, stack_set, push, stack_range, iter}

-- The buffer holds the list: its first 100 elements are on the stack, and the heap is empty until it is full.
pub record Stands (v : SmallVec) (l : List ℕ) : Type 0 where
  pub front : List ℕ
  pub back : List ℕ
  pub stacked : v.stack ≡ front ++ back
  pub reached : length front ≡ v.len
  pub full : length front + length back ≡ 100
  pub beyond : v.len < 100 → v.heap ≡ []
  pub holds : l ≡ front ++ v.heap

stack_set_at :
    (front : List ℕ) (x val : ℕ) (back : List ℕ)
    → stack_set (front ++ (x ∷ back)) (length front) val ≡ some (front ++ (val ∷ back))
unfolding stack_set
stack_set_at [] x val back = refl
stack_set_at (y ∷ front) x val back =
    ap (λ o. and_then o (λ changed. some (y ∷ changed))) (stack_set_at front x val back)

abbrev Pushed : SmallVec → List ℕ → ℕ → Type 0
Pushed v l val = (w : SmallVec) × (push v val ≡ some w) × Stands w (l ++ (val ∷ []))

push_on_stack :
    (v : SmallVec) (l : List ℕ) (val : ℕ) (front back : List ℕ)
    → v.stack ≡ front ++ back
    → length front ≡ v.len
    → length front + length back ≡ 100
    → v.heap ≡ []
    → l ≡ front ++ v.heap
    → ltb v.len 100 ≡ true
    → Pushed v l val
unfolding push
push_on_stack v l val front [] stacked reached full none_there holds low =
    absurd (omega (arith, reached, full, ltb→lt v.len 100 low))
push_on_stack v l val front (x ∷ back) stacked reached full none_there holds low =
    let set : stack_set v.stack v.len val ≡ some (front ++ (val ∷ back)) =
      ap (λ s. stack_set s v.len val) stacked
      ∙ ap (λ i. stack_set (front ++ (x ∷ back)) i val) (sym reached)
      ∙ stack_set_at front x val back in
    let whole : l ++ (val ∷ []) ≡ (front ++ (val ∷ [])) ++ v.heap =
      ap (λ t. t ++ (val ∷ [])) (holds ∙ ap (λ h. front ++ h) none_there ∙ append-nil front)
      ∙ sym (append-nil (front ++ (val ∷ [])))
      ∙ ap (λ h. (front ++ (val ∷ [])) ++ h) (sym none_there) in
    let size : length (front ++ (val ∷ [])) ≡ suc (length front) =
      omega (arith, length-append front (val ∷ [])) in
    (
      record { len = suc v.len; stack = front ++ (val ∷ back); heap = v.heap },
      rw (low, set) refl,
      record {
        front = front ++ (val ∷ []);
        back = back;
        stacked = sym (append_assoc front (val ∷ []) back);
        reached = size ∙ ap suc reached;
        full = omega (arith, size, full);
        beyond = λ h. none_there;
        holds = whole;
      },
    )

pub push_lem : (v : SmallVec) (l : List ℕ) (val : ℕ) → Stands v l → Pushed v l val
unfolding push
push_lem v l val s = elim (Bool-cases (ltb v.len 100)) [
  | inl low ↦
      push_on_stack v l val s.front s.back s.stacked s.reached s.full
        (s.beyond (ltb→lt v.len 100 low)) s.holds low
  | inr high ↦ (
    record { len = v.len; stack = v.stack; heap = v.heap ++ (val ∷ []) },
    rw high refl,
    record {
      front = s.front;
      back = s.back;
      stacked = s.stacked;
      reached = s.reached;
      full = s.full;
      beyond = λ h. absurd (omega (arith, h, ltb→le v.len 100 high));
      holds = ap (λ t. t ++ (val ∷ [])) s.holds ∙ append_assoc s.front v.heap (val ∷ []);
    },
  )
]

pub range_lem : (v : SmallVec) (l : List ℕ) (s : Stands v l) → stack_range v ≡ some s.front
unfolding stack_range
range_lem v l s =
    let taken : take v.len v.stack ≡ s.front =
      ap (λ t. take v.len t) s.stacked
      ∙ ap (λ n. take n (s.front ++ s.back)) (sym s.reached)
      ∙ take-append s.front s.back in
    let size : length v.stack ≡ 100 = ap length s.stacked ∙ length-append s.front s.back ∙ s.full in
    let inside : leb v.len (length v.stack) ≡ true = ground (arith, size, s.reached, s.full) in
    rw (inside, taken) refl

pub iter_lem : (v : SmallVec) (l : List ℕ) → Stands v l → iter v ≡ some l
unfolding iter
iter_lem v l s =
    ap (λ o. and_then o (λ front. some (front ++ v.heap))) (range_lem v l s) ∙ ap some (sym s.holds)
