-- ===== src/Consensus/Codec.antt =====
-- The contract of consensus/encode.rs between `Encodable` and `Decodable`, and its rules for the
-- steps of an implementation.
use chaintopeslashrust_tapyr.Common.{
  ℕ, zero, suc, append_assoc, ap, sym, subst, ◌∙◌, ◌≡◌, ◌≢◌, refl, arith, [], ◌∷◌, ◌++◌,
}
use chaintopeslashrust_tapyr.Common.{length, length-append, All, All-append_right}
use chaintopeslashrust_tapyr.Outcome.{Bytes, IsByte, Result, ok, err, panic, bind, bind_inv}
use chaintopeslashrust_tapyr.Consensus.Reader.{
  Decoder, ◌>>=◌, Consensus, serialize, Encoded, ◌<+>◌, read_exact, put_front, Error,
}

-- What is written is what is counted and is bytes; it reads back in front of anything; whatever
-- is read was written by the encoder for a valid value; and no input makes the decoder panic.
pub record IsLawful {A : Type 0} (c : Consensus A) (IsValid : A → Type 0) : Type 0 where
  pub reports : (a : A) → (c.consensus_encode a).1 ≡ length (serialize c a)
  pub writes : (a : A) → IsValid a → All IsByte (serialize c a)
  pub round_trip :
      (a : A) (rest : Bytes) → IsValid a → c.consensus_decode (serialize c a ++ rest) ≡ ok (a, rest)
  pub canonical :
      (bs rest : Bytes) (a : A)
      → All IsByte bs
      → c.consensus_decode bs ≡ ok (a, rest)
      → (bs ≡ serialize c a ++ rest) × IsValid a
  pub total : (bs : Bytes) → All IsByte bs → c.consensus_decode bs ≢ panic

-- Two steps of an input that was read.
pub joined : (x y rest : Bytes) {bs r : Bytes} → bs ≡ x ++ r → r ≡ y ++ rest → bs ≡ (x ++ y) ++ rest
joined x y rest p q = p ∙ ap (λ t. x ++ t) q ∙ sym (append_assoc x y rest)

abbrev Delivers {κ} : {B : Type 0} → (B → Bytes → Type κ) → Result Error (B × Bytes) → Type κ
Delivers P (ok (b, rest)) = P b rest
Delivers P (err e) = Unit
Delivers P panic = Unit

-- What holds of a result holds of the result that it is equal to.
pub delivered {κ} :
    {B : Type 0} (P : B → Bytes → Type κ) {b b' : B} {r r' : Bytes}
    → ◌≡◌ {A = Result Error (B × Bytes)} (ok (b, r)) (ok (b', r'))
    → P b r
    → P b' r'
delivered P e h = subst (Delivers P) e h

pub reports_both :
    (d e : Encoded) → d.1 ≡ length d.0 → e.1 ≡ length e.0 → (d <+> e).1 ≡ length (d <+> e).0
reports_both d e p q = omega (arith, length-append d.0 e.0)

module _ {A B : Type 0} {c : Consensus A} {IsValid : A → Type 0} (law : IsLawful c IsValid) where
  -- The rest of an implementation, after a field that reads back.
  pub read_back :
      (f : A → Decoder B) (a : A) (rest : Bytes)
      → IsValid a
      → (c.consensus_decode >>= f) (serialize c a ++ rest) ≡ f a rest
  read_back f a rest v = rw (law.round_trip a rest v)

  -- A field in front of the rest of an input that was read.
  pub was_read :
      (f : A → Decoder B) (bs rest : Bytes) (b : B)
      → All IsByte bs
      → (c.consensus_decode >>= f) bs ≡ ok (b, rest)
      → (a : A) × (r : Bytes) × (bs ≡ serialize c a ++ r)
        × IsValid a
        × All IsByte r
        × (f a r ≡ ok (b, rest))
  was_read f bs rest b h e = go (c.consensus_decode bs) refl e
    where
      go :
          (m : Result Error (A × Bytes))
          → c.consensus_decode bs ≡ m
          → bind m (λ p. f p.0 p.1) ≡ ok (b, rest)
          → (a : A) × (r : Bytes) × (bs ≡ serialize c a ++ r)
            × IsValid a
            × All IsByte r
            × (f a r ≡ ok (b, rest))
      go (ok (a, r)) d k =
          let (same, v) = law.canonical bs r a h d in
          (a, r, same, v, All-append_right IsByte (serialize c a) r (rw (← same) h), k)
      go (err x) d k = cc
      go panic d k = cc

  pub no_panic :
      (f : A → Decoder B) (bs : Bytes)
      → All IsByte bs
      → ((a : A) (r : Bytes) → IsValid a → All IsByte r → f a r ≢ panic)
      → (c.consensus_decode >>= f) bs ≢ panic
  no_panic f bs h k = go (c.consensus_decode bs) refl
    where
      go :
          (m : Result Error (A × Bytes))
          → c.consensus_decode bs ≡ m
          → bind m (λ p. f p.0 p.1) ≢ panic
      go (ok (a, r)) d =
          let (same, v) = law.canonical bs r a h d in
          k a r v (All-append_right IsByte (serialize c a) r (rw (← same) h))
      go (err x) d = λ e. cc
      go panic d = λ e. law.total bs h d

-- Reading as many bytes as there are in front.
pub read_exact-append :
    (front rest : Bytes) → read_exact (length front) (front ++ rest) ≡ ok (front, rest)
unfolding read_exact
read_exact-append [] rest = refl
read_exact-append (b ∷ bs) rest = rw (read_exact-append bs rest)

pub read_exact_sound :
    (n : ℕ) (bs rest front : Bytes)
    → read_exact n bs ≡ ok (front, rest)
    → (bs ≡ front ++ rest) × (length front ≡ n)
unfolding read_exact
read_exact_sound zero bs rest front h = (cc, cc)
read_exact_sound (suc n) [] rest front h = cc
read_exact_sound (suc n) (b ∷ bs) rest front h =
    let ((f, r), d, k) = bind_inv (read_exact n bs) (put_front b) h in
    ground (arith, read_exact_sound n bs r f d)

pub read_exact-ne-panic : (n : ℕ) (bs : Bytes) → read_exact n bs ≢ panic
unfolding read_exact
read_exact-ne-panic zero bs e = cc
read_exact-ne-panic (suc n) [] e = cc
read_exact-ne-panic (suc n) (b ∷ bs) e = ground (arith, read_exact-ne-panic n bs)
