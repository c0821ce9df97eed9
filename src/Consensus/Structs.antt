-- ===== src/Consensus/Structs.antt =====
-- consensus/encode.rs (`tuple_encode`) and internal_macros.rs (`impl_consensus_encoding`): fields
-- one after the other. A structure keeps the contract if its fields do.
use chaintopeslashrust_tapyr.Common.{◌≡◌, refl, ap, sym, ◌∙◌, subst, ◌++◌, append_assoc}
use chaintopeslashrust_tapyr.Common.{length, All, All-append}
use chaintopeslashrust_tapyr.Outcome.{Bytes, IsByte, Result, ok, err, panic, bind}
use chaintopeslashrust_tapyr.Consensus.Reader.{Consensus, ◌>>=◌, serialize, Decoder, pure, ◌<+>◌}
use chaintopeslashrust_tapyr.Consensus.Codec.{
  IsLawful, reports_both, was_read, no_panic, read_back, joined, delivered,
}

-- `tuple_encode` at two components; the longer tuples are read and written in the same order.
abbrev pub pair : {A B : Type 0} → Consensus A → Consensus B → Consensus (A × B)
pair c d = record {
  consensus_encode = λ p. c.consensus_encode p.0 <+> d.consensus_encode p.1;
  consensus_decode = do
    a ← c.consensus_decode
    b ← d.consensus_decode
    pure (a, b);
}

-- For `simp`: the steps of a nested implementation in one row.
pub bind_assoc {ℓ κ μ} :
    {E : Type 0} {A : Type ℓ} {B : Type κ} {C : Type μ} (m : Result E A) (f : A → Result E B)
    (g : B → Result E C)
    → bind (bind m f) g ≡ bind m (λ a. bind (f a) g)
bind_assoc (ok a) f g = refl
bind_assoc (err e) f g = refl
bind_assoc panic f g = refl

module _ {A B : Type 0} {c : Consensus A} {d : Consensus B} {V : A → Type 0} {W : B → Type 0}
    (lc : IsLawful c V) (ld : IsLawful d W) where
  second : A → Decoder (A × B)
  second a = d.consensus_decode >>= λ b. pure (a, b)

  pub pair-IsLawful : IsLawful (pair c d) (λ p. V p.0 × W p.1)
  unfolding second
  pair-IsLawful = record {
    reports = λ p.
        reports_both (c.consensus_encode p.0) (d.consensus_encode p.1) (lc.reports p.0)
          (ld.reports p.1);
    writes = λ p h.
        All-append IsByte (serialize c p.0) (serialize d p.1) (lc.writes p.0 h.0)
          (ld.writes p.1 h.1);
    round_trip = λ p rest h.
        rw (
          append_assoc,
          lc.round_trip p.0 (serialize d p.1 ++ rest) h.0,
          ld.round_trip p.1 rest h.1,
        );
    canonical = λ bs rest p h e.
        let (a, r, same, va, hr, k) = was_read lc second bs rest p h e in
        let (b, r', image, wb, _, last) = was_read ld (λ b. pure (a, b)) r rest p hr k in
        delivered (λ q t. (bs ≡ serialize (pair c d) q ++ t) × (V q.0 × W q.1)) last
          (joined (serialize c a) (serialize d b) r' same image, (va, wb));
    total = λ bs h.
        no_panic lc second bs h
          (λ a r _ hr. no_panic ld (λ b. pure (a, b)) r hr (λ b r' _ _. λ e. cc));
  }

-- A structure `B` whose encoded fields are those of the nested tuple `A`, for the values `W`.
module _ {A B : Type 0} {c : Consensus A} {V : A → Type 0} (law : IsLawful c V) (d : Consensus B)
    (W : B → Type 0) (to : A → B) (from : B → A) (valid_from : (b : B) → W b → V (from b))
    (valid_to : (a : A) → V a → W (to a)) (to-from : (b : B) → W b → to (from b) ≡ b)
    (from-to : (a : A) → from (to a) ≡ a)
    (encodes : (b : B) → d.consensus_encode b ≡ c.consensus_encode (from b))
    (decodes : (bs : Bytes)
      → d.consensus_decode bs ≡ (c.consensus_decode >>= λ a. pure (to a)) bs) where
  image : (b : B) → serialize d b ≡ serialize c (from b)
  image b = ap (λ e. e.0) (encodes b)

  pub struct-IsLawful : IsLawful d W
  struct-IsLawful = record {
    reports = λ b. ap (λ e. e.1) (encodes b) ∙ law.reports (from b) ∙ ap length (sym (image b));
    writes = λ b h. subst (All IsByte) (sym (image b)) (law.writes (from b) (valid_from b h));
    round_trip = λ b rest h.
        ap (λ t. d.consensus_decode (t ++ rest)) (image b)
        ∙ decodes (serialize c (from b) ++ rest)
        ∙ read_back law (λ a. pure (to a)) (from b) rest (valid_from b h)
        ∙ ap (λ t. ok (t, rest)) (to-from b h);
    canonical = λ bs rest b h e.
        let (a, r, same, va, _, last) =
          was_read law (λ a. pure (to a)) bs rest b h (sym (decodes bs) ∙ e) in
        let back : serialize c a ≡ serialize d (to a) =
          ap (serialize c) (sym (from-to a)) ∙ sym (image (to a)) in
        delivered (λ q t. (bs ≡ serialize d q ++ t) × W q) last
          (same ∙ ap (λ t. t ++ r) back, valid_to a va);
    total =
        λ bs h e. no_panic law (λ a. pure (to a)) bs h (λ a r _ _. λ x. cc) (sym (decodes bs) ∙ e);
  }
