-- ===== src/Base58/Stacked.antt =====
-- util/base58.rs: the encoder over `SmallVec` against the one over lists.
use chaintopeslashrust_tapyr.Common.{
  ℕ, zero, suc, ◌+◌, ◌≡◌, refl, sym, ap, ◌∙◌, arith, Bool-cases, inl, inr, true, false, List, [],
  ◌∷◌, ◌++◌, length, length-append, length-drop, append_assoc, append-nil, drop, ◌&&◌, ◌==◌, some,
  subst, ◌*◌, ◌/◌, ◌%◌,
}
use chaintopeslashrust_tapyr.Outcome.{Bytes, and_then}
use chaintopeslashrust_tapyr.Base58.Small.{SmallVec, defaults, new, iter}
use chaintopeslashrust_tapyr.Base58.{
  carry_into, push_carry, carry_through, push_each, add_digits, Progress, add_byte, add_bytes,
  push_zeroes, write_reversed, encode_slice,
}
use chaintopeslashrust_tapyr.Base58.Plain.{
  Plain, plain_digits, plain_byte, plain_bytes, plain_zeroes, plain_encode,
}
use chaintopeslashrust_tapyr.Base58.Small.Laws.{Stands, push_lem, range_lem, iter_lem}

carry_into-append :
    (front heap : List ℕ) (carry : ℕ)
    → carry_into (front ++ heap) carry ≡ (
      (carry_into front carry).0 ++ (carry_into heap (carry_into front carry).1).0,
      (carry_into heap (carry_into front carry).1).1,
    )
unfolding carry_into
carry_into-append [] heap carry = refl
carry_into-append (ch ∷ front) heap carry =
    ap (λ p. ((ch * 256 + carry) % 58 ∷ p.0, p.1))
      (carry_into-append front heap ((ch * 256 + carry) / 58))

length-carry_into : (ret : List ℕ) (carry : ℕ) → length (carry_into ret carry).0 ≡ length ret
unfolding carry_into
length-carry_into [] carry = refl
length-carry_into (ch ∷ ret) carry = ap suc (length-carry_into ret ((ch * 256 + carry) / 58))

carry_through_lem :
    (v : SmallVec) (l : List ℕ) (carry : ℕ)
    → Stands v l
    → (w : SmallVec) × (carry_through v carry ≡ some (w, (carry_into l carry).1))
      × Stands w (carry_into l carry).0
unfolding carry_through
carry_through_lem v l carry s =
    let low : List ℕ × ℕ = carry_into s.front carry in
    let high : List ℕ × ℕ = carry_into v.heap low.1 in
    let w : SmallVec = record { len = v.len; stack = low.0 ++ drop v.len v.stack; heap = high.0 } in
    let parts : carry_into l carry ≡ (low.0 ++ high.0, high.1) =
      ap (λ t. carry_into t carry) s.holds ∙ carry_into-append s.front v.heap carry in
    let same : length low.0 ≡ length s.front = length-carry_into s.front carry in
    (
      w,
      rw (range_lem v l s) (ap (λ n. some (w, n)) (sym (ap (λ p. p.1) parts))),
      record {
        front = low.0;
        back = drop v.len v.stack;
        stacked = refl;
        reached = same ∙ s.reached;
        full = omega (
          arith,
          same,
          s.reached,
          s.full,
          length-drop v.len v.stack,
          ap length s.stacked,
          length-append s.front s.back,
        );
        beyond = λ h. ap (λ t. (carry_into t low.1).0) (s.beyond h) ∙ nothing low.1;
        holds = ap (λ p. p.0) parts;
      },
    )
  where
    nothing : (c : ℕ) → (carry_into [] c).0 ≡ []
    nothing c = unfold carry_into in refl

push_each_lem :
    (v : SmallVec) (l ds : List ℕ)
    → Stands v l
    → (w : SmallVec) × (push_each v ds ≡ some w) × Stands w (l ++ ds)
unfolding push_each
push_each_lem v l [] s = (v, refl, subst (Stands v) (sym (append-nil l)) s)
push_each_lem v l (d ∷ ds) s =
    let (u, pushed, t) = push_lem v l d s in
    let (w, rest, r) = push_each_lem u (l ++ (d ∷ [])) ds t in
    (
      w,
      ap (λ o. and_then o (λ longer. push_each longer ds)) pushed ∙ rest,
      subst (Stands w) (append_assoc l (d ∷ []) ds) r,
    )

push_zeroes_lem :
    (count : ℕ) (v : SmallVec) (l : List ℕ)
    → Stands v l
    → (w : SmallVec) × (push_zeroes count v ≡ some w) × Stands w (plain_zeroes count l)
unfolding push_zeroes plain_zeroes
push_zeroes_lem zero v l s = (v, refl, s)
push_zeroes_lem (suc count) v l s =
    let (u, pushed, t) = push_lem v l 0 s in
    let (w, rest, r) = push_zeroes_lem count u (l ++ (0 ∷ [])) t in
    (w, ap (λ o. and_then o (λ longer. push_zeroes count longer)) pushed ∙ rest, r)

add_digits_lem :
    (v : SmallVec) (l : List ℕ) (d256 : ℕ)
    → Stands v l
    → (w : SmallVec) × (add_digits v d256 ≡ some w) × Stands w (plain_digits l d256)
unfolding add_digits
add_digits_lem v l d256 s =
    let (u, through, t) = carry_through_lem v l d256 s in
    let (w, pushed, r) =
      push_each_lem u (carry_into l d256).0 (push_carry 11 (carry_into l d256).1) t in
    (w, ap (λ o. and_then o (λ p. push_each p.0 (push_carry 11 p.1))) through ∙ pushed, r)

pub record Follows (p : Progress) (q : Plain) : Type 0 where
  pub buffer : Stands p.ret q.ret
  pub count : p.leading_zero_count ≡ q.leading_zero_count
  pub zeroes : p.leading_zeroes ≡ q.leading_zeroes

add_byte_lem :
    (p : Progress) (q : Plain) (b : ℕ)
    → Follows p q
    → (r : Progress) × (add_byte p b ≡ some r) × Follows r (plain_byte q b)
unfolding add_byte plain_byte
add_byte_lem p q b f =
    let (w, added, s) = add_digits_lem p.ret q.ret b f.buffer in
    let test : (p.leading_zeroes && (b == 0)) ≡ (q.leading_zeroes && (b == 0)) =
      ap (λ z. z && (b == 0)) f.zeroes in
    elim (Bool-cases (q.leading_zeroes && (b == 0))) [
      | inl e ↦ (
        record {
          ret = w;
          leading_zero_count = suc p.leading_zero_count;
          leading_zeroes = p.leading_zeroes;
        },
        rw (added, test, e) refl,
        rw e (record { buffer = s; count = ap suc f.count; zeroes = f.zeroes }),
      )
      | inr e ↦ (
        record { ret = w; leading_zero_count = p.leading_zero_count; leading_zeroes = false },
        rw (added, test, e) refl,
        rw e (record { buffer = s; count = f.count; zeroes = refl }),
      )
    ]

add_bytes_lem :
    (p : Progress) (q : Plain) (bs : Bytes)
    → Follows p q
    → (r : Progress) × (add_bytes p bs ≡ some r) × Follows r (plain_bytes q bs)
unfolding add_bytes plain_bytes
add_bytes_lem p q [] f = (p, refl, f)
add_bytes_lem p q (b ∷ bs) f =
    let (u, added, g) = add_byte_lem p q b f in
    let (r, rest, h) = add_bytes_lem u (plain_byte q b) bs g in
    (r, ap (λ o. and_then o (λ s. add_bytes s bs)) added ∙ rest, h)

new_lem : Stands new []
unfolding new defaults
new_lem = record {
  front = [];
  back = defaults 100;
  stacked = refl;
  reached = refl;
  full = refl;
  beyond = λ h. refl;
  holds = refl;
}

-- The encoder writes what it writes with a list in place of its buffer.
pub encode_slice-plain_encode : (bs : Bytes) → encode_slice bs ≡ plain_encode bs
unfolding encode_slice plain_encode
encode_slice-plain_encode bs =
    let first : Progress = record { ret = new; leading_zero_count = 0; leading_zeroes = true } in
    let q : Plain =
      plain_bytes (record { ret = []; leading_zero_count = 0; leading_zeroes = true }) bs in
    let (p, added, f) =
      add_bytes_lem first (record { ret = []; leading_zero_count = 0; leading_zeroes = true }) bs
        (record { buffer = new_lem; count = refl; zeroes = refl }) in
    let (w, pushed, s) = push_zeroes_lem q.leading_zero_count p.ret q.ret f.buffer in
    ap
      (λ o. and_then o (λ r.
        and_then (push_zeroes r.leading_zero_count r.ret)
          (λ ret. and_then (iter ret) (λ digits. write_reversed digits []))))
      added
    ∙ ap
        (λ n.
          and_then (push_zeroes n p.ret)
            (λ ret. and_then (iter ret) (λ digits. write_reversed digits [])))
        f.count
    ∙ ap (λ o. and_then o (λ ret. and_then (iter ret) (λ digits. write_reversed digits []))) pushed
    ∙ ap (λ o. and_then o (λ digits. write_reversed digits []))
        (iter_lem w (plain_zeroes q.leading_zero_count q.ret) s)
