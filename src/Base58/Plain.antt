-- ===== src/Base58/Plain.antt =====
-- util/base58.rs: the encoder with a list in place of the buffer `SmallVec`, as a reference for it.
use chaintopeslashrust_tapyr.Common.{
  ℕ, zero, suc, Bool, true, false, List, [], ◌∷◌, ◌++◌, if◌then◌else◌, ◌&&◌, ◌==◌, Option,
}
use chaintopeslashrust_tapyr.Common.Text.{Text}
use chaintopeslashrust_tapyr.Outcome.{Bytes}
use chaintopeslashrust_tapyr.Base58.{carry_into, push_carry, write_reversed}

pub record Plain : Type 0 where
  pub ret : List ℕ
  pub leading_zero_count : ℕ
  pub leading_zeroes : Bool

abbrev pub plain_digits : List ℕ → ℕ → List ℕ
plain_digits ret d256 = (carry_into ret d256).0 ++ push_carry 11 (carry_into ret d256).1

unfoldable pub plain_byte : Plain → ℕ → Plain
plain_byte p d256 =
    if p.leading_zeroes && (d256 == 0)
    then record {
      ret = plain_digits p.ret d256;
      leading_zero_count = suc p.leading_zero_count;
      leading_zeroes = p.leading_zeroes;
    }
    else record {
      ret = plain_digits p.ret d256;
      leading_zero_count = p.leading_zero_count;
      leading_zeroes = false;
    }

unfoldable pub plain_bytes : Plain → Bytes → Plain
plain_bytes p [] = p
plain_bytes p (b ∷ bs) = plain_bytes (plain_byte p b) bs

unfoldable pub plain_zeroes : ℕ → List ℕ → List ℕ
plain_zeroes zero ret = ret
plain_zeroes (suc count) ret = plain_zeroes count (ret ++ (0 ∷ []))

unfoldable pub plain_encode : Bytes → Option Text
unfolding plain_bytes plain_zeroes
plain_encode bs =
    let p : Plain =
      plain_bytes (record { ret = []; leading_zero_count = 0; leading_zeroes = true }) bs in
    write_reversed (plain_zeroes p.leading_zero_count p.ret) []
