-- ===== src/Keys.antt =====
-- util/key.rs: public keys as bytes. The crate secp256k1 is a parameter.
use chaintopeslashrust_tapyr.Common.{
  ℕ, ◌≡◌, refl, Bool, true, false, length, All, if◌then◌else◌, ◌==◌, Option, none, some,
}
use chaintopeslashrust_tapyr.Outcome.{Bytes, IsByte, Result, ok, err}

-- Points, and their encodings, which are documented to be read back and to have 33 and 65 bytes.
pub record Curve : Type 1 where
  pub Point : Type 0
  pub parse : Bytes → Option Point
  pub compress : Point → Bytes
  pub expand : Point → Bytes
  pub parse-compress : (p : Point) → parse (compress p) ≡ some p
  pub parse-expand : (p : Point) → parse (expand p) ≡ some p
  pub length-compress : (p : Point) → length (compress p) ≡ 33
  pub length-expand : (p : Point) → length (expand p) ≡ 65
  pub compress-IsByte : (p : Point) → All IsByte (compress p)
  pub expand-IsByte : (p : Point) → All IsByte (expand p)

pub data KeyError : Type 0 where
  invalid_length : ℕ → KeyError
  invalid_point : KeyError

module _ (curve : Curve) where
  pub record PublicKey : Type 0 where
    pub compressed : Bool
    pub key : curve.Point

  unfoldable pub to_bytes : PublicKey → Bytes
  to_bytes pk = if pk.compressed then curve.compress pk.key else curve.expand pk.key

  unfoldable pub with_key : Bool → Bytes → Result KeyError PublicKey
  with_key compressed bs = elim (curve.parse bs) [
    | none ↦ err invalid_point
    | some p ↦ ok (record { compressed = compressed; key = p })
  ]

  unfoldable pub from_slice : Bytes → Result KeyError PublicKey
  unfolding with_key
  from_slice bs =
      if length bs == 33
      then with_key true bs
      else if length bs == 65
      then with_key false bs
      else err (invalid_length (length bs))

  -- A public key is read back from its bytes, in the form that it has, and they are 33 or 65 bytes.
  pub from_slice-to_bytes :
      (pk : PublicKey)
      → (from_slice (to_bytes pk) ≡ ok pk)
        × (length (to_bytes pk) ≡ (if pk.compressed then 33 else 65))
        × All IsByte (to_bytes pk)
  unfolding from_slice to_bytes with_key
  from_slice-to_bytes pk = go pk.compressed pk.key
    where
      go :
          (c : Bool) (p : curve.Point)
          → (from_slice (to_bytes (record { compressed = c; key = p }))
              ≡ ok (record { compressed = c; key = p }))
            × (length (to_bytes (record { compressed = c; key = p })) ≡ (if c then 33 else 65))
            × All IsByte (to_bytes (record { compressed = c; key = p }))
      go true p = (
        rw (curve.length-compress p, with_key, curve.parse-compress p) refl,
        curve.length-compress p,
        curve.compress-IsByte p,
      )
      go false p = (
        rw (curve.length-expand p, with_key, curve.parse-expand p) refl,
        curve.length-expand p,
        curve.expand-IsByte p,
      )
