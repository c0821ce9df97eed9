-- ===== src/Transaction/SigHash/Laws.antt =====
-- blockdata/transaction.rs: what a signature hash depends on.
use chaintopeslashrust_tapyr.Common.{
  ℕ, zero, suc, ◌<◌, ◌≡◌, refl, sym, ap, ◌∙◌, arith, Bool, true, false, ◌&&◌, List, [], ◌∷◌, length,
  take, get_elem?, leb, lt→ltb, some, Bool-cases, inl, inr,
}
use chaintopeslashrust_tapyr.Outcome.{Bytes}
use chaintopeslashrust_tapyr.Hashes.{HashFunction}
use chaintopeslashrust_tapyr.Transaction.{Sizes, OutPoint, TxIn, TxOut, Transaction}
use chaintopeslashrust_tapyr.Transaction.SigHash.{
  SigHashType, sign_all, sign_none, sign_single, all_plus_anyone_can_pay, none_plus_anyone_can_pay,
  single_plus_anyone_can_pay, split_anyonecanpay_flag, type_of_flags, from_u32, as_u32,
  inputs_to_sign, outputs_to_sign, hash_to_sign, sign_with, sign_inputs, erase_others,
  signature_hash, is_single, bare_input, one_hash,
}

-- A signature hash type is the one that is read from its code.
from_u32-as_u32 : (t : SigHashType) → from_u32 (as_u32 t) ≡ t
unfolding from_u32 as_u32 type_of_flags
from_u32-as_u32 sign_all = refl
from_u32-as_u32 sign_none = refl
from_u32-as_u32 sign_single = refl
from_u32-as_u32 all_plus_anyone_can_pay = refl
from_u32-as_u32 none_plus_anyone_can_pay = refl
from_u32-as_u32 single_plus_anyone_can_pay = refl

found : {A : Type 0} (xs : List A) (i : ℕ) → i < length xs → (a : A) × (get_elem? xs i ≡ some a)
found [] i h = absurd (omega arith)
found (x ∷ xs) zero h = (x, refl)
found (x ∷ xs) (suc i) h = found xs i (omega arith)

inputs_found :
    (anyone : Bool) (i : ℕ) (script : Bytes) (t : SigHashType) (ts : List TxIn)
    → i < length ts
    → (ins : List TxIn) × (inputs_to_sign anyone i script t ts ≡ some ins)
unfolding inputs_to_sign
inputs_found false i script t ts h = (sign_inputs i script t 0 ts, refl)
inputs_found true i script t ts h =
    let (found_input, k) = found ts i h in
    (bare_input script found_input.sequence found_input ∷ [], rw k refl)

outputs_found :
    (t : SigHashType) (i : ℕ) (outs : List TxOut)
    → (kept : List TxOut) × (outputs_to_sign (split_anyonecanpay_flag t).0 i outs ≡ some kept)
unfolding outputs_to_sign split_anyonecanpay_flag
outputs_found sign_all i outs = (outs, refl)
outputs_found sign_none i outs = ([], refl)
outputs_found sign_single i outs = (erase_others i 0 (take (suc i) outs), refl)
outputs_found all_plus_anyone_can_pay i outs = (outs, refl)
outputs_found none_plus_anyone_can_pay i outs = ([], refl)
outputs_found single_plus_anyone_can_pay i outs = (erase_others i 0 (take (suc i) outs), refl)

module _ (sizes : Sizes) (sha256d : HashFunction 32) where
  hashed :
      (tx : Transaction) (n : ℕ) (ins : List TxIn) (outs : List TxOut)
      → (h : Bytes) × (hash_to_sign sizes sha256d tx n (some ins) (some outs) ≡ some h)
  unfolding hash_to_sign
  hashed tx n ins outs = (_, refl)

  signed :
      (tx : Transaction) (i : ℕ) (script : Bytes) (n : ℕ) (p : SigHashType × Bool) (ins : List TxIn)
      (outs : List TxOut)
      → inputs_to_sign p.1 i script p.0 tx.input ≡ some ins
      → outputs_to_sign p.0 i tx.output ≡ some outs
      → (h : Bytes) × (sign_with sizes sha256d tx i script n p ≡ some h)
  unfolding sign_with
  signed tx i script n p ins outs k l =
      elim (Bool-cases (is_single p.0 && leb (length tx.output) i)) [
        | inl one ↦ (one_hash, rw one refl)
        | inr other ↦ let (h, e) = hashed tx n ins outs in (h, rw (other, k, l) e)
      ]

  -- The hash to sign is defined for every input of a transaction, whatever the flag: after the
  -- assertion on the index no index is out of range, and the arm meant to be unreachable is.
  pub signature_hash_total :
      (tx : Transaction) (i : ℕ) (script : Bytes) (n : ℕ)
      → i < length tx.input
      → (h : Bytes) × (signature_hash sizes sha256d tx i script n ≡ some h)
  unfolding signature_hash
  signature_hash_total tx i script n h =
      let p = split_anyonecanpay_flag (from_u32 n) in
      let (ins, k) = inputs_found p.1 i script p.0 tx.input h in
      let (outs, l) = outputs_found (from_u32 n) i tx.output in
      let (sum, e) = signed tx i script n p ins outs k l in
      (sum, rw (lt→ltb i (length tx.input) h) e)

  alone :
      (tx : Transaction) (i : ℕ) (script : Bytes) (n : ℕ) (t : TxIn)
      → split_anyonecanpay_flag (from_u32 n) ≡ (sign_none, true)
      → i < length tx.input
      → get_elem? tx.input i ≡ some t
      → signature_hash sizes sha256d tx i script n
        ≡ hash_to_sign sizes sha256d tx n (some (bare_input script t.sequence t ∷ [])) (some [])
  unfolding signature_hash sign_with inputs_to_sign outputs_to_sign
  alone tx i script n t f h k = rw (f, lt→ltb i (length tx.input) h, k) refl

  of_version :
      (tx tx' : Transaction) (n : ℕ) (ins : List TxIn) (outs : List TxOut)
      → tx.version ≡ tx'.version
      → tx.lock_time ≡ tx'.lock_time
      → hash_to_sign sizes sha256d tx n (some ins) (some outs)
        ≡ hash_to_sign sizes sha256d tx' n (some ins) (some outs)
  unfolding hash_to_sign
  of_version tx tx' n ins outs v l =
      ap
        (λ (p : ℕ × ℕ).
          hash_to_sign sizes sha256d
            (record { version = p.0; lock_time = p.1; input = []; output = [] }) n (some ins)
            (some outs))
        (λ i. (v i, l i))

  same_input :
      (t t' : TxIn) (script : Bytes)
      → t.previous_output ≡ t'.previous_output
      → t.sequence ≡ t'.sequence
      → bare_input script t.sequence t ≡ bare_input script t'.sequence t'
  same_input t t' script p s =
      ap
        (λ (q : OutPoint × ℕ).
          bare_input script q.1
            (record { previous_output = q.0; script_sig = []; sequence = 0; witness = [] }))
        (λ i. (p i, s i))

  -- A hash with the flags of NONE and ANYONECANPAY depends, but for the script and the flag, only on
  -- the version, the lock time, and the outpoint and the sequence number of the input that it signs:
  -- two transactions that agree on these have the same hash, whatever else they hold.
  pub signature_hash_alone :
      (tx tx' : Transaction) (i i' : ℕ) (script : Bytes) (n : ℕ) (t t' : TxIn)
      → split_anyonecanpay_flag (from_u32 n) ≡ (sign_none, true)
      → i < length tx.input
      → i' < length tx'.input
      → get_elem? tx.input i ≡ some t
      → get_elem? tx'.input i' ≡ some t'
      → tx.version ≡ tx'.version
      → tx.lock_time ≡ tx'.lock_time
      → t.previous_output ≡ t'.previous_output
      → t.sequence ≡ t'.sequence
      → signature_hash sizes sha256d tx i script n ≡ signature_hash sizes sha256d tx' i' script n
  signature_hash_alone tx tx' i i' script n t t' f h h' k k' v l p s =
      alone tx i script n t f h k
      ∙ ap (λ b. hash_to_sign sizes sha256d tx n (some (b ∷ [])) (some []))
          (same_input t t' script p s)
      ∙ of_version tx tx' n (bare_input script t'.sequence t' ∷ []) [] v l
      ∙ sym (alone tx' i' script n t' f h' k')
