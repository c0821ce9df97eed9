-- ===== src/Filter/Sets.antt =====
-- util/bip158.rs: Golomb coded sets, written and matched.
pub mod Merging
pub mod Merged
pub mod Decoding
pub mod Matching
pub mod Found
use Prim.Native.Nat.{compare, Ordering}
use chaintopeslashrust_tapyr.Common.{
  ℕ, zero, suc, ◌+◌, ◌-◌, ◌*◌, ◌<◌, ◌^◌, List, [], ◌∷◌, ◌++◌, length, ltb, ◌==◌, if◌then◌else◌,
  Bool, true, false, not, ◌||◌, is_empty, bytes_eq,
}
use chaintopeslashrust_tapyr.Outcome.{Bytes, Result, ok, err, panic, bind}
use chaintopeslashrust_tapyr.Consensus.VarInt.{encode, decode}
use chaintopeslashrust_tapyr.Consensus.Reader.{Error}
use chaintopeslashrust_tapyr.Filter.Stream.{
  FilterError, BitStreamWriter, BitStreamReader, new_writer, new_reader, flush,
}
use chaintopeslashrust_tapyr.Filter.Golomb.{
  SipHash, times_u64, plus_u64, map_to_range, golomb_rice_encode, golomb_rice_decode, sort, dedup,
}

pub record GcsFilter : Type 0 where
  pub k0 : ℕ
  pub k1 : ℕ
  pub p : ℕ

-- The set of elements has no order that the writer uses: it sorts what it computes from them.
pub record GcsFilterWriter : Type 0 where
  pub filter : GcsFilter
  pub written : Bytes
  pub elements : List Bytes
  pub m : ℕ

pub record GcsFilterReader : Type 0 where
  pub filter : GcsFilter
  pub m : ℕ

unfoldable pub holds_element : Bytes → List Bytes → Bool
holds_element element [] = false
holds_element element (e ∷ es) = bytes_eq element e || holds_element element es

unfoldable pub insert_element : Bytes → List Bytes → List Bytes
unfolding holds_element
insert_element element es = if holds_element element es then es else element ∷ es

unfoldable pub add_element : Bytes → GcsFilterWriter → GcsFilterWriter
unfolding insert_element
add_element element w =
    if not (is_empty element)
    then record {
      filter = w.filter;
      written = w.written;
      elements = insert_element element w.elements;
      m = w.m;
    }
    else w

-- `data - last` for each of the sorted values.
unfoldable pub write_deltas : ℕ → ℕ → List ℕ → BitStreamWriter → Result FilterError BitStreamWriter
write_deltas p last [] w = ok w
write_deltas p last (x ∷ xs) w =
    if ltb x last then panic else bind (golomb_rice_encode p (x - last) w) (write_deltas p x xs)

-- The number of elements, and the bits behind it; a count that can not be read is 0, and nothing
-- is read behind it.
abbrev pub count_or_zero : Result Error (ℕ × Bytes) → Result FilterError (ℕ × Bytes)
count_or_zero (ok p) = ok p
count_or_zero (err e) = ok (0, [])
count_or_zero panic = panic

-- The loops of `match_any` over the sorted queries and the `remaining` values behind `value`.
unfoldable pub any_from : ℕ → List ℕ → ℕ → ℕ → BitStreamReader → Result FilterError Bool
any_from p [] value remaining r = ok false
any_from p (q ∷ qs) value zero r = elim (compare value q) [
  | Ordering.eq ↦ ok true
  | Ordering.lt ↦ ok false
  | Ordering.gt ↦ any_from p qs value zero r
]
any_from p (q ∷ qs) value (suc remaining) r = elim (compare value q) [
  | Ordering.eq ↦ ok true
  | Ordering.lt ↦
      bind (golomb_rice_decode p r)
        (λ d. bind (plus_u64 value (d.0)) (λ next. any_from p (q ∷ qs) next remaining (d.1)))
  | Ordering.gt ↦ any_from p qs value (suc remaining) r
]

-- The loops of `match_all`.
unfoldable pub all_from : ℕ → List ℕ → ℕ → ℕ → BitStreamReader → Result FilterError Bool
all_from p [] value remaining r = ok true
all_from p (q ∷ qs) value zero r = elim (compare value q) [
  | Ordering.eq ↦ all_from p qs value zero r
  | Ordering.lt ↦ ok false
  | Ordering.gt ↦ ok false
]
all_from p (q ∷ qs) value (suc remaining) r = elim (compare value q) [
  | Ordering.eq ↦ all_from p qs value (suc remaining) r
  | Ordering.lt ↦
      bind (golomb_rice_decode p r)
        (λ d. bind (plus_u64 value (d.0)) (λ next. all_from p (q ∷ qs) next remaining (d.1)))
  | Ordering.gt ↦ ok false
]

module _ (sip : SipHash) where
  unfoldable pub map_all : GcsFilter → ℕ → List Bytes → Result FilterError (List ℕ)
  map_all f nm [] = ok []
  map_all f nm (e ∷ es) =
      bind (map_to_range (sip.hash f.k0 f.k1 e) nm)
        (λ x. bind (map_all f nm es) (λ xs. ok (x ∷ xs)))

  unfoldable pub finish : GcsFilterWriter → Result FilterError Bytes
  unfolding write_deltas map_all
  finish w = bind (times_u64 (length w.elements) w.m) (λ nm.
      bind (map_all w.filter nm w.elements) (λ mapped.
        bind (write_deltas w.filter.p 0 (sort mapped) (new_writer []))
          (λ v. ok (w.written ++ ((encode (length (sort mapped))).0 ++ (flush v).written)))))

  unfoldable pub match_any : GcsFilterReader → List Bytes → Bytes → Result FilterError Bool
  match_any f query bs = bind (count_or_zero (decode bs)) (λ n. bind (times_u64 (n.0) f.m) (λ nm.
      bind (map_all f.filter nm query) (λ mapped.
        if is_empty mapped
        then ok true
        else if n.0 == 0
        then ok false
        else bind (golomb_rice_decode f.filter.p (new_reader (n.1)))
            (λ d. any_from f.filter.p (sort mapped) (d.0) (n.0 - 1) (d.1)))))

  unfoldable pub match_all : GcsFilterReader → List Bytes → Bytes → Result FilterError Bool
  match_all f query bs = bind (count_or_zero (decode bs)) (λ n. bind (times_u64 (n.0) f.m) (λ nm.
      bind (map_all f.filter nm query) (λ mapped.
        if is_empty mapped
        then ok true
        else if n.0 == 0
        then ok false
        else bind (golomb_rice_decode f.filter.p (new_reader (n.1)))
            (λ d. all_from f.filter.p (dedup (sort mapped)) (d.0) (n.0 - 1) (d.1)))))
