-- ===== src/Amount/Slices.antt =====
-- util/amount.rs: the slice that the parser takes of a text with zeros at its end.
use chaintopeslashrust_tapyr.Common.{
  ℕ, ◌+◌, ◌-◌, ◌≤◌, ◌<◌, ◌≡◌, refl, sym, ap, ◌∙◌, arith, Bool, Bool-cases, inl, inr, true, false,
  [], ◌∷◌, ◌++◌, length, length-drop, take, drop, take-append-drop, ◌||◌, ltb, leb, ltb→lt, ltb→le,
  le→ltb, ◌==◌, ==→eq, ne→==, some,
}
use chaintopeslashrust_tapyr.Common.Text.{Text, utf8_len, byte_len}
use chaintopeslashrust_tapyr.Outcome.{ok}
use chaintopeslashrust_tapyr.Amount.{
  contains, any_but, last_chars, is_too_precise, slice_to, without_last,
}

utf8_len_positive : (c : ℕ) → 1 ≤ utf8_len c
utf8_len_positive c = ground arith

slice_to-append : (front back : Text) → slice_to (byte_len front) (front ++ back) ≡ some front
unfolding slice_to byte_len
slice_to-append [] [] = refl
slice_to-append [] (c ∷ back) = refl
slice_to-append (c ∷ front) back =
    let some_bytes : 1 ≤ utf8_len c = utf8_len_positive c in
    let left : utf8_len c + byte_len front - utf8_len c ≡ byte_len front = omega arith in
    rw
      (
        ne→== (utf8_len c + byte_len front) 0 (λ e. absurd (omega (arith, e, some_bytes))),
        le→ltb (utf8_len c + byte_len front) (utf8_len c) (omega arith),
        left,
        slice_to-append front back,
      )
      refl

byte_len-append : (s t : Text) → byte_len (s ++ t) ≡ byte_len s + byte_len t
unfolding byte_len
byte_len-append [] t = omega arith
byte_len-append (c ∷ s) t = omega (arith, byte_len-append s t)

byte_len_zeros : (s : Text) → any_but b'0' s ≡ false → byte_len s ≡ length s
unfolding byte_len any_but
byte_len_zeros [] h = refl
byte_len_zeros (c ∷ s) h = elim (Bool-cases (c == b'0')) [
  | inr other ↦ absurd (ground (arith, h, other))
  | inl same ↦
      let one : utf8_len c ≡ 1 = ap utf8_len (==→eq c b'0' same) in
      omega (arith, one, byte_len_zeros s (rw same at h))
]

tests_false : (a b c : Bool) → (a || b || c) ≡ false → (b ≡ false) × (c ≡ false)
tests_false false false false h = (refl, refl)
tests_false false false true h = cc
tests_false false true c h = cc
tests_false true b c h = cc

-- What is not too precise is longer than what is cut, which is of characters of one byte.
pub without_last-take :
    (n : ℕ) (s : Text) → is_too_precise s n ≡ false → without_last n s ≡ ok (take (length s - n) s)
unfolding without_last is_too_precise
without_last-take n s h =
    let k : ℕ = length s - n in
    let (more, zeros_behind) =
      tests_false (contains b'.' s) (leb (byte_len s) n) (any_but b'0' (last_chars n s)) h in
    let long : n < byte_len s = ground (arith, more) in
    let behind : byte_len (drop k s) ≡ length (drop k s) = byte_len_zeros (drop k s) zeros_behind in
    let whole : byte_len s ≡ byte_len (take k s) + byte_len (drop k s) =
      ap byte_len (sym (take-append-drop k s)) ∙ byte_len-append (take k s) (drop k s) in
    let enough : n ≤ length s = elim (Bool-cases (ltb (length s) n)) [
      | inr more ↦ ltb→le (length s) n more
      | inl fewer ↦
          let short : length s < n = ltb→lt (length s) n fewer in
          let no_front : k ≡ 0 = omega (arith, short) in
          let nothing : byte_len [] ≡ 0 = unfold byte_len in refl in
          let none_left : byte_len (take k s) ≡ 0 =
            ap (λ j. byte_len (take j s)) no_front ∙ nothing in
          absurd (omega (arith, long, behind, whole, none_left, short, length-drop k s))
    ] in
    let cut : byte_len s - n ≡ byte_len (take k s) =
      omega (arith, behind, whole, enough, length-drop k s) in
    let slice : slice_to (byte_len s - n) s ≡ some (take k s) =
      ap (λ e. slice_to e s) cut
      ∙ ap (λ t. slice_to (byte_len (take k s)) t) (sym (take-append-drop k s))
      ∙ slice_to-append (take k s) (drop k s) in
    rw (le→ltb (byte_len s) n (omega (arith, long)), slice) refl
