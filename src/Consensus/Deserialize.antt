-- ===== src/Consensus/Deserialize.antt =====
-- consensus/encode.rs: `deserialize` and `deserialize_partial`.
use chaintopeslashrust_tapyr.Common.{
  ℕ, ◌-◌, ◌≡◌, ◌≢◌, refl, sym, ◌∙◌, ap, arith, [], ◌∷◌, ◌++◌, append-nil, length, length-append,
  All, if◌then◌else◌, ◌==◌,
}
use chaintopeslashrust_tapyr.Outcome.{Bytes, IsByte, Result, ok, err, panic, bind, bind_inv}
use chaintopeslashrust_tapyr.Consensus.Reader.{Error, Consensus, serialize, parse_failed}
use chaintopeslashrust_tapyr.Consensus.Codec.{IsLawful}

module _ {A : Type 0} (c : Consensus A) where
  -- The position of the cursor is what was taken from the front.
  deserialize_partial : Bytes → Result Error (A × ℕ)
  deserialize_partial input =
      bind (c.consensus_decode input) (λ p. ok (p.0, length input - length p.1))

  pub deserialize : Bytes → Result Error A
  unfolding deserialize_partial
  deserialize input = bind (deserialize_partial input) (λ p.
      if p.1 == length input
      then ok p.0
      else err (parse_failed "data not consumed entirely when explicitly deserializing"))

no_rest :
    (front rest : Bytes) → length (front ++ rest) - length rest ≡ length (front ++ rest) → rest ≡ []
no_rest front [] h = refl
no_rest front (x ∷ rest) h = absurd (omega (arith, length-append front (x ∷ rest)))

module _ {A : Type 0} (c : Consensus A) where
  accepts : (bs : Bytes) (a : A) → c.consensus_decode bs ≡ ok (a, []) → deserialize c bs ≡ ok a
  unfolding deserialize
  accepts bs a e = ground arith

  accepted :
      (bs : Bytes) (a : A)
      → deserialize c bs ≡ ok a
      → (rest : Bytes) × (c.consensus_decode bs ≡ ok (a, rest))
        × (length bs - length rest ≡ length bs)
  unfolding deserialize
  accepted bs a e =
      let ((b, n), d, k) = bind_inv (deserialize_partial c bs) _ e in
      let ((b', rest), d', k') = bind_inv (c.consensus_decode bs) _ d in
      (rest, ground arith, ground arith)

module _ {A : Type 0} {c : Consensus A} {IsValid : A → Type 0} (law : IsLawful c IsValid) where
  pub deserialize-serialize : (a : A) → IsValid a → deserialize c (serialize c a) ≡ ok a
  deserialize-serialize a h =
      accepts c (serialize c a) a
        (ap c.consensus_decode (sym (append-nil (serialize c a))) ∙ law.round_trip a [] h)

  pub deserialize_sound :
      (bs : Bytes) (a : A)
      → All IsByte bs
      → deserialize c bs ≡ ok a
      → (bs ≡ serialize c a) × IsValid a
  deserialize_sound bs a h e =
      let (rest, d, n) = accepted c bs a e in
      let (image, valid) = law.canonical bs rest a h d in
      let none_left : rest ≡ [] =
        no_rest (serialize c a) rest
          (ap (λ t. length t - length rest) (sym image) ∙ n ∙ ap length image) in
      (image ∙ ap (λ t. serialize c a ++ t) none_left ∙ append-nil (serialize c a), valid)

  pub deserialize-ne-panic : (bs : Bytes) → All IsByte bs → deserialize c bs ≢ panic
  unfolding deserialize
  deserialize-ne-panic bs h e = ground (arith, law.total bs h)
