-- ===== src/Filter/Blocks/Collected.antt =====
-- util/bip158.rs: the elements that the writer of a block filter collects.
use chaintopeslashrust_tapyr.Common.{
  ◌≡◌, refl, sym, ap, ◌∙◌, List, [], ◌∷◌, ◌++◌, Bool-cases, inl, inr, if◌then◌else◌, is_empty,
}
use chaintopeslashrust_tapyr.Outcome.{Bytes, Result, ok, bind, bind_inv}
use chaintopeslashrust_tapyr.Transaction.{OutPoint, TxOut, Transaction}
use chaintopeslashrust_tapyr.Script.Templates.{is_op_return}
use chaintopeslashrust_tapyr.Filter.Stream.{FilterError}
use chaintopeslashrust_tapyr.Filter.Sets.{GcsFilterWriter, add_element}
use chaintopeslashrust_tapyr.Filter.Blocks.{add_outputs, add_output_scripts, add_coins}

-- Scripts that a filter takes: none is empty.
abbrev pub nonempty_scripts : List Bytes → List Bytes
nonempty_scripts [] = []
nonempty_scripts (s ∷ ss) = if is_empty s then nonempty_scripts ss else s ∷ nonempty_scripts ss

-- The scripts of outputs but those that begin with OP_RETURN.
abbrev pub scripts_of : List TxOut → List Bytes
scripts_of [] = []
scripts_of (o ∷ os) =
    if is_op_return o.script_pubkey then scripts_of os else o.script_pubkey ∷ scripts_of os

abbrev pub output_scripts : List Transaction → List Bytes
output_scripts [] = []
output_scripts (t ∷ ts) = scripts_of t.output ++ output_scripts ts

abbrev pub add_all : List Bytes → GcsFilterWriter → GcsFilterWriter
add_all [] w = w
add_all (s ∷ ss) w = add_all ss (add_element s w)

pub add_all-append :
    (xs ys : List Bytes) (w : GcsFilterWriter) → add_all (xs ++ ys) w ≡ add_all ys (add_all xs w)
add_all-append [] ys w = refl
add_all-append (x ∷ xs) ys w = add_all-append xs ys (add_element x w)

add_outputs-add_all :
    (os : List TxOut) (w : GcsFilterWriter) → add_outputs os w ≡ add_all (scripts_of os) w
unfolding add_outputs
add_outputs-add_all [] w = refl
add_outputs-add_all (o ∷ os) w = elim (Bool-cases (is_op_return o.script_pubkey)) [
  | inl e ↦ rw e (add_outputs-add_all os w)
  | inr e ↦ rw e (add_outputs-add_all os (add_element o.script_pubkey w))
]

pub add_output_scripts-add_all :
    (ts : List Transaction) (w : GcsFilterWriter)
    → add_output_scripts ts w ≡ add_all (output_scripts ts) w
unfolding add_output_scripts
add_output_scripts-add_all [] w = refl
add_output_scripts-add_all (t ∷ ts) w =
    add_output_scripts-add_all ts (add_outputs t.output w)
    ∙ ap (add_all (output_scripts ts)) (add_outputs-add_all t.output w)
    ∙ sym (add_all-append (scripts_of t.output) (output_scripts ts) w)

-- The scripts that coins have, if all are found.
abbrev pub find_scripts :
    (OutPoint → Result FilterError Bytes) → List OutPoint → Result FilterError (List Bytes)
find_scripts script_for_coin [] = ok []
find_scripts script_for_coin (c ∷ cs) =
    bind (script_for_coin c) (λ s. bind (find_scripts script_for_coin cs) (λ ss. ok (s ∷ ss)))

pub add_coins-add_all :
    (script_for_coin : OutPoint → Result FilterError Bytes) (cs : List OutPoint) (ss : List Bytes)
    (w : GcsFilterWriter)
    → find_scripts script_for_coin cs ≡ ok ss
    → add_coins script_for_coin cs w ≡ ok (add_all ss w)
unfolding add_coins
add_coins-add_all script_for_coin [] ss w e = ap (λ l. ok (add_all l w)) (found e)
  where
    found : ◌≡◌ {A = Result FilterError (List Bytes)} (ok []) (ok ss) → [] ≡ ss
    found e = cc
add_coins-add_all script_for_coin (c ∷ cs) ss w e =
    let (s, first, after) =
      bind_inv (script_for_coin c) (λ s. bind (find_scripts script_for_coin cs) (λ ss. ok (s ∷ ss)))
        e in
    let (rest, later, all) = bind_inv (find_scripts script_for_coin cs) (λ ss. ok (s ∷ ss)) after in
    rw first (
      add_coins-add_all script_for_coin cs rest (add_element s w) later
      ∙ ap (λ l. ok (add_all l w)) (found s rest all))
  where
    found :
        (s : Bytes) (rest : List Bytes)
        → ◌≡◌ {A = Result FilterError (List Bytes)} (ok (s ∷ rest)) (ok ss)
        → s ∷ rest ≡ ss
    found s rest e = cc
