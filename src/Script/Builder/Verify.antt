-- ===== src/Script/Builder/Verify.antt =====
-- blockdata/script.rs: `push_verify`.
use chaintopeslashrust_tapyr.Common.{
  ℕ, ◌-◌, ◌≡◌, refl, ap, ◌∙◌, arith, [], ◌∷◌, ◌++◌, length, length-append, take, take-append, ◌==◌,
  if◌then◌else◌, Option, some, none,
}
use chaintopeslashrust_tapyr.Outcome.{Bytes}
use chaintopeslashrust_tapyr.Opcodes.{
  op_equal, op_equalverify, op_numequal, op_numequalverify, op_checksig, op_checksigverify,
  op_checkmultisig, op_checkmultisigverify, op_verify,
}
use chaintopeslashrust_tapyr.Script.Builder.{
  Builder, pop, push_opcode, push_verify, push_verify_after,
}

-- The opcode that does the work of `op` and of `OP_VERIFY`.
unfoldable verify_form : ℕ → Option ℕ
verify_form op =
    if op == op_equal
    then some op_equalverify
    else if op == op_numequal
    then some op_numequalverify
    else if op == op_checksig
    then some op_checksigverify
    else if op == op_checkmultisig
    then some op_checkmultisigverify
    else none

-- `b` with the opcode `op` and `OP_VERIFY`, merged where there is one opcode for both.
unfoldable verified : Builder → ℕ → Option ℕ → Builder
verified b op none = push_opcode (push_opcode b op) op_verify
verified b op (some merged) = push_opcode b merged

pop-push : (bs : Bytes) (op : ℕ) → take (length (bs ++ (op ∷ [])) - 1) (bs ++ (op ∷ [])) ≡ bs
pop-push bs op =
    ap (λ n. take n (bs ++ (op ∷ []))) (omega (arith, length-append bs (op ∷ [])))
    ∙ take-append bs (op ∷ [])

replaced :
    (b : Builder) (op new_op : ℕ)
    → push_opcode (pop (push_opcode b op)) new_op ≡ push_opcode b new_op
unfolding push_opcode pop
replaced b op new_op = rw (pop-push b.bytes op) refl

last_pushed :
    (b : Builder) (op : ℕ)
    → push_verify (push_opcode b op) ≡ push_verify_after (push_opcode b op) (some op)
unfolding push_verify push_opcode
last_pushed b op = refl

-- After an opcode with a verifying form, `push_verify` leaves the builder that pushed that form
-- instead; after any other opcode it adds `OP_VERIFY`.
push_verify-push_opcode :
    (b : Builder) (op : ℕ) → push_verify (push_opcode b op) ≡ verified b op (verify_form op)
unfolding push_verify_after verified verify_form
push_verify-push_opcode b op =
    last_pushed b op
    ∙ ground (
      arith,
      replaced b op op_equalverify,
      replaced b op op_numequalverify,
      replaced b op op_checksigverify,
      replaced b op op_checkmultisigverify,
    )
