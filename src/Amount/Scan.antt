-- ===== src/Amount/Scan.antt =====
-- util/amount.rs: the loops of the parser on the texts that the printer writes.
use chaintopeslashrust_tapyr.Common.{
  ℕ, suc, ◌+◌, ◌-◌, ◌*◌, ◌^◌, ◌<◌, ◌≤◌, ◌≡◌, refl, sym, ap, ◌∙◌, arith, Bool, [], ◌∷◌, ◌++◌,
  append-nil, length, All, Option, none, some,
}
use chaintopeslashrust_tapyr.Common.Text.{Text, IsDigit, spelled, spelled-append, le-spelled}
use chaintopeslashrust_tapyr.Outcome.{Result, ok, bind}
use chaintopeslashrust_tapyr.Amount.{
  scan_char, scan, scale, parse_decimals, unwrap_or, ParseAmountError,
}

char_before :
    (m v c : ℕ)
    → IsDigit c
    → v * 10 + (c - b'0') < 2 ^ 64
    → scan_char m none v c ≡ ok (none, v * 10 + (c - b'0'))
unfolding scan_char
char_before m v c h fits = ground arith

char_after :
    (m d v c : ℕ)
    → IsDigit c
    → v * 10 + (c - b'0') < 2 ^ 64
    → d < m
    → scan_char m (some d) v c ≡ ok (some (d + 1), v * 10 + (c - b'0'))
unfolding scan_char
char_after m d v c h fits room = ground arith

-- Digits before the point.
pub scan_whole :
    (m v : ℕ) (s t : Text)
    → All IsDigit s
    → spelled v s < 2 ^ 64
    → scan m none v (s ++ t) ≡ scan m none (spelled v s) t
unfolding scan
scan_whole m v [] t h fits = refl
scan_whole m v (c ∷ s) t h fits =
    let w : ℕ = v * 10 + (c - b'0') in
    ap (λ r. bind r (λ p. scan m p.0 p.1 (s ++ t)))
      (char_before m v c h.0 (omega (arith, le-spelled s w)))
    ∙ scan_whole m w s t h.1 fits

-- Digits behind the point.
pub scan_fraction :
    (m d v : ℕ) (s : Text)
    → All IsDigit s
    → spelled v s < 2 ^ 64
    → d + length s ≤ m
    → scan m (some d) v s ≡ ok (some (d + length s), spelled v s)
unfolding scan
scan_fraction m d v [] h fits room =
    let same : d ≡ d + 0 = omega arith in ap (λ k. ok (some k, v)) same
scan_fraction m d v (c ∷ s) h fits room =
    let w : ℕ = v * 10 + (c - b'0') in
    let moved : d + 1 + length s ≡ d + suc (length s) = omega arith in
    ap (λ r. bind r (λ p. scan m p.0 p.1 s))
      (char_after m d v c h.0 (omega (arith, le-spelled s w)) (omega arith))
    ∙ scan_fraction m (d + 1) w s h.1 fits (omega arith)
    ∙ ap (λ k. ok (some k, spelled w s)) moved

point : (m v : ℕ) (t : Text) → scan m none v (b'.' ∷ t) ≡ scan m (some 0) v t
unfolding scan scan_char
point m v t = refl

-- What follows the scan.
scaled : Bool → ℕ → Result ParseAmountError (Option ℕ × ℕ) → Result ParseAmountError (Bool × ℕ)
scaled is_negative m r =
    bind r (λ p. bind (scale (m - unwrap_or p.0 0) p.1) (λ v. ok (is_negative, v)))

-- A whole part, a point, and as many decimals as are allowed.
pub parse_point :
    (is_negative : Bool) (m : ℕ) (s t : Text)
    → All IsDigit s
    → All IsDigit t
    → spelled 0 (s ++ t) < 2 ^ 64
    → length t ≡ m
    → parse_decimals is_negative m (s ++ (b'.' ∷ t)) ≡ ok (is_negative, spelled 0 (s ++ t))
unfolding parse_decimals scan scale scaled
parse_point is_negative m s t hs ht fits room =
    let whole : spelled (spelled 0 s) t ≡ spelled 0 (s ++ t) = sym (spelled-append s t 0) in
    let scanned : scan m none 0 (s ++ (b'.' ∷ t))
        ≡ ok (some (0 + length t), spelled (spelled 0 s) t) =
      scan_whole m 0 s (b'.' ∷ t) hs (omega (arith, le-spelled t (spelled 0 s), whole))
      ∙ point m (spelled 0 s) t
      ∙ scan_fraction m 0 (spelled 0 s) t ht (omega (arith, whole)) (omega arith) in
    let none_left : m - (0 + length t) ≡ 0 = omega arith in
    ap (scaled is_negative m) scanned
    ∙ ap (λ k. bind (scale k (spelled (spelled 0 s) t)) (λ v. ok (is_negative, v))) none_left
    ∙ ap (λ v. ok (is_negative, v)) whole

-- A whole number where no decimals are allowed.
pub parse_whole :
    (is_negative : Bool) (s : Text)
    → All IsDigit s
    → spelled 0 s < 2 ^ 64
    → parse_decimals is_negative 0 s ≡ ok (is_negative, spelled 0 s)
unfolding parse_decimals scan scale scaled
parse_whole is_negative s h fits =
    ap (scaled is_negative 0) (ap (scan 0 none 0) (sym (append-nil s)) ∙ scan_whole 0 0 s [] h fits)
