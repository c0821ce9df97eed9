-- ===== src/Consensus/Integers/Laws.antt =====
-- The contract of the integers and byte arrays of consensus/encode.rs.
use chaintopeslashrust_tapyr.Common.{ℕ, ◌^◌, ◌<◌, ◌≡◌, ◌≢◌, refl, arith, [], ◌∷◌, ◌++◌}
use chaintopeslashrust_tapyr.Common.{length, All, All-append_left, subst, sym, Bool, true, false}
use chaintopeslashrust_tapyr.Outcome.{Bytes, IsByte, ok, panic, bind_inv}
use chaintopeslashrust_tapyr.Endian.{slice_to_le, to_array_le}
use chaintopeslashrust_tapyr.Endian.Laws.{
  digits_of-IsByte, length-digits_of, to_array_le-digits_of, slice_to_le-value, value,
  slice_to_le-to_array_le, to_array_le-slice_to_le,
}
use chaintopeslashrust_tapyr.Consensus.Reader.{Error, read_exact, lift}
use chaintopeslashrust_tapyr.Consensus.Codec.{
  IsLawful, read_exact-append, read_exact_sound, read_exact-ne-panic, was_read, no_panic,
}
use chaintopeslashrust_tapyr.Consensus.Integers.{
  emit_uint, read_uint, read_u8, uint, u8, byte_array, bool_encode, bool_decode,
}

abbrev pub IsArray : ℕ → Bytes → Type 0
IsArray size v = (length v ≡ size) × All IsByte v

read_array :
    (size : ℕ) (front rest : Bytes)
    → length front ≡ size
    → read_exact size (front ++ rest) ≡ ok (front, rest)
read_array size front rest e =
    subst (λ n. read_exact n (front ++ rest) ≡ ok (front, rest)) e (read_exact-append front rest)

-- An array of `size` bytes.
pub byte_array-IsLawful : (size : ℕ) → IsLawful (byte_array size) (IsArray size)
byte_array-IsLawful size = record {
  reports = λ a. refl;
  writes = λ a v. v.1;
  round_trip = λ a rest v. read_array size a rest v.0;
  canonical = λ bs rest a h e.
      let (same, n) = read_exact_sound size bs rest a e in
      (same, (n, All-append_left IsByte a rest (subst (All IsByte) same h)));
  total = λ bs h. read_exact-ne-panic size bs;
}

length-emit_uint : (size v : ℕ) → length (emit_uint size v) ≡ size
unfolding emit_uint
length-emit_uint size v = rw to_array_le-digits_of (length-digits_of size v)

emit_uint-IsByte : (size v : ℕ) → All IsByte (emit_uint size v)
unfolding emit_uint
emit_uint-IsByte size v = rw to_array_le-digits_of (digits_of-IsByte size v)

read_uint-emit_uint :
    (size v : ℕ) (rest : Bytes)
    → v < 256 ^ size
    → read_uint size (emit_uint size v ++ rest) ≡ ok (v, rest)
unfolding read_uint emit_uint
read_uint-emit_uint size v rest h =
    rw (read_array size (to_array_le size v) rest (length-emit_uint size v))
      (rw (slice_to_le-to_array_le size v h))

array_of_read :
    (size : ℕ) (a : Bytes) (x : ℕ)
    → length a ≡ size
    → All IsByte a
    → slice_to_le {E = Error} size a ≡ ok x
    → (to_array_le size x ≡ a) × (x < 256 ^ size)
array_of_read size a x n h d =
    subst (λ m. (to_array_le m x ≡ a) × (x < 256 ^ m)) n
      (to_array_le-slice_to_le a x h (subst (λ m. slice_to_le {E = Error} m a ≡ ok x) (sym n) d))

read_uint_sound :
    (size : ℕ) (bs rest : Bytes) (v : ℕ)
    → All IsByte bs
    → read_uint size bs ≡ ok (v, rest)
    → (bs ≡ emit_uint size v ++ rest) × (v < 256 ^ size)
unfolding read_uint emit_uint
read_uint_sound size bs rest v h e =
    let (a, r, same, (n, bytes), _, k) =
      was_read (byte_array-IsLawful size) (λ val. lift (slice_to_le size val)) bs rest v h e in
    let (x, d, last) = bind_inv (slice_to_le size a) (λ x. ok (x, r)) k in
    let fit : (to_array_le size x ≡ a) × (x < 256 ^ size) = array_of_read size a x n bytes d in
    let both : (x ≡ v) × (r ≡ rest) = (cc, cc) in
    let image : bs ≡ to_array_le size v ++ rest = cc (same, fit.0, both.0, both.1) in
    (image, subst (λ y. y < 256 ^ size) both.0 fit.1)

read_uint-ne-panic : (size : ℕ) (bs : Bytes) → All IsByte bs → read_uint size bs ≢ panic
unfolding read_uint
read_uint-ne-panic size bs h =
    no_panic (byte_array-IsLawful size) (λ val. lift (slice_to_le size val)) bs h
      (λ a r v hr e.
        cc (subst (λ m. slice_to_le {E = Error} m a ≡ ok (value a)) v.0 (slice_to_le-value a v.1)))

-- An unsigned integer of `size` bytes.
pub uint-IsLawful : (size : ℕ) → IsLawful (uint size) (λ v. v < 256 ^ size)
uint-IsLawful size = record {
  reports = λ v. sym (length-emit_uint size v);
  writes = λ v h. emit_uint-IsByte size v;
  round_trip = λ v rest h. read_uint-emit_uint size v rest h;
  canonical = λ bs rest v h e. read_uint_sound size bs rest v h e;
  total = λ bs h. read_uint-ne-panic size bs h;
}

u8_canonical :
    (bs rest : Bytes) (v : ℕ)
    → All IsByte bs
    → read_u8 bs ≡ ok (v, rest)
    → (bs ≡ v ∷ rest) × (v < 256)
unfolding read_u8 read_exact
u8_canonical [] rest v h e = cc
u8_canonical (b ∷ bs) rest v (hb, hs) e = ground arith

u8_total : (bs : Bytes) → read_u8 bs ≢ panic
unfolding read_u8 read_exact
u8_total [] e = cc
u8_total (b ∷ bs) e = cc

-- One byte.
pub u8-IsLawful : IsLawful u8 IsByte
unfolding read_u8 read_exact
u8-IsLawful = record {
  reports = λ v. refl;
  writes = λ v h. (h, tt);
  round_trip = λ v rest h. refl;
  canonical = u8_canonical;
  total = λ bs h. u8_total bs;
}

-- A boolean reads back, and every byte but 0 reads as `true`.
pub bool_decode-bool_encode :
    (v : Bool) (rest : Bytes) → bool_decode ((bool_encode v).0 ++ rest) ≡ ok (v, rest)
unfolding bool_encode bool_decode read_u8 read_exact
bool_decode-bool_encode true rest = refl
bool_decode-bool_encode false rest = refl
