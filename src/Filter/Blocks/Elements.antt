-- ===== src/Filter/Blocks/Elements.antt =====
-- util/bip158.rs: which elements a set holds after scripts were added to it.
use mathlib.Core.List.{map}
use chaintopeslashrust_tapyr.Common.{
  ℕ, ◌+◌, ◌≤◌, ◌≡◌, refl, sym, ap, ◌∙◌, arith, List, [], ◌∷◌, length, All, Bool, Bool-cases, true,
  false, inl, inr, ◌||◌, ◌==◌, eq→==, if◌then◌else◌, is_empty, bytes_eq, bytes_eq_refl,
  bytes_eq_sound,
}
use chaintopeslashrust_tapyr.Outcome.{Bytes}
use chaintopeslashrust_tapyr.Filter.Sets.{
  GcsFilterWriter, holds_element, insert_element, add_element,
}
use chaintopeslashrust_tapyr.Filter.Sets.Merging.{has, all_meet, any_meets}
use chaintopeslashrust_tapyr.Filter.Blocks.Collected.{nonempty_scripts, add_all}

-- The elements after `add_all`.
abbrev pub element_set : List Bytes → List Bytes → List Bytes
element_set [] es = es
element_set (s ∷ ss) es = element_set ss (if is_empty s then es else insert_element s es)

pub add_all-element_set :
    (ss : List Bytes) (w : GcsFilterWriter)
    → add_all ss w ≡ record {
      filter = w.filter;
      written = w.written;
      elements = element_set ss w.elements;
      m = w.m;
    }
unfolding add_element
add_all-element_set [] w = refl
add_all-element_set (s ∷ ss) w = elim (Bool-cases (is_empty s)) [
  | inl e ↦ rw e (add_all-element_set ss w)
  | inr e ↦ rw e (
      add_all-element_set ss (record {
        filter = w.filter;
        written = w.written;
        elements = insert_element s w.elements;
        m = w.m;
      }))
]

or_true : (b : Bool) → (b || true) ≡ true
or_true true = refl
or_true false = refl

insert-held :
    (s e : Bytes) (es : List Bytes)
    → holds_element s es ≡ true
    → holds_element s (insert_element e es) ≡ true
unfolding insert_element
insert-held s e es h = elim (Bool-cases (holds_element e es)) [
  | inl old ↦ rw old h
  | inr new ↦ rw (new, holds_element, h) (or_true (bytes_eq s e))
]

insert-holds : (s : Bytes) (es : List Bytes) → holds_element s (insert_element s es) ≡ true
unfolding insert_element
insert-holds s es = elim (Bool-cases (holds_element s es)) [
  | inl old ↦ rw old old
  | inr new ↦ rw (new, holds_element, bytes_eq_refl s) refl
]

set-held :
    (s : Bytes) (ss es : List Bytes)
    → holds_element s es ≡ true
    → holds_element s (element_set ss es) ≡ true
set-held s [] es h = h
set-held s (x ∷ ss) es h = elim (Bool-cases (is_empty x)) [
  | inl e ↦ rw e (set-held s ss es h)
  | inr e ↦ rw e (set-held s ss (insert_element x es) (insert-held s x es h))
]

pub set-holds :
    (s : Bytes) (ss es : List Bytes)
    → holds_element s (nonempty_scripts ss) ≡ true
    → holds_element s (element_set ss es) ≡ true
unfolding holds_element
set-holds s [] es h = cc
set-holds s (x ∷ ss) es h = elim (Bool-cases (is_empty x)) [
  | inl e ↦ rw e (set-holds s ss es (rw e at h))
  | inr e ↦
      let here : holds_element s (x ∷ nonempty_scripts ss) ≡ true = rw e at h in
      rw e (elim (Bool-cases (bytes_eq s x)) [
        | inl same ↦
            let equal : s ≡ x = bytes_eq_sound s x same in
            set-held s ss (insert_element x es)
              (ap (λ t. holds_element s (insert_element t es)) (sym equal) ∙ insert-holds s es)
        | inr differ ↦ set-holds s ss (insert_element x es) (rw differ at here)
      ])
]

pub length-element_set : (ss es : List Bytes) → length (element_set ss es) ≤ length es + length ss
unfolding insert_element
length-element_set [] es = omega arith
length-element_set (s ∷ ss) es = elim (Bool-cases (is_empty s)) [
  | inl e ↦ rw e (omega (arith, length-element_set ss es))
  | inr e ↦ rw e (elim (Bool-cases (holds_element s es)) [
    | inl old ↦ rw old (omega (arith, length-element_set ss es))
    | inr new ↦ rw new (omega (arith, length-element_set ss (s ∷ es)))
  ])
]

module _ (g : Bytes → ℕ) where
  held-has : (s : Bytes) (es : List Bytes) → holds_element s es ≡ true → has (map g es) (g s) ≡ true
  unfolding holds_element
  held-has s [] h = cc
  held-has s (e ∷ es) h = elim (Bool-cases (bytes_eq s e)) [
    | inl same ↦ rw (eq→== (g s) (g e) (ap g (bytes_eq_sound s e same))) refl
    | inr differ ↦ rw (held-has s es (rw differ at h)) (or_true (g s == g e))
  ]

  -- What a set holds is found in it, each and any.
  pub held-found :
      (query es : List Bytes)
      → All (λ s. holds_element s es ≡ true) query
      → (all_meet (has (map g es)) (map g query) ≡ true)
        × ((is_empty query || any_meets (has (map g es)) (map g query)) ≡ true)
  held-found [] es h = (refl, refl)
  held-found (q ∷ qs) es (h, hs) =
      let first = held-has q es h in
      let (rest, _) = held-found qs es hs in (rw first rest, rw first refl)
