-- ===== src/Runs/Derivations.antt =====
-- Runs of util/bip32.rs.
use chaintopeslashrust_tapyr.Common.{◌≡◌, refl, arith, [], ◌∷◌, none, some}
use chaintopeslashrust_tapyr.Common.Text.{codes, decimal}
use chaintopeslashrust_tapyr.Outcome.{ok, err}
use chaintopeslashrust_tapyr.Derivation.{
  normal, hardened, DerivationPath, fmt_path, parse_path, next_path, invalid_child_number,
  fmt_child, parse_child, from_normal_idx,
}
use chaintopeslashrust_tapyr.Derivation.Paths.{parse-fmt_path}
use chaintopeslashrust_tapyr.Derivation.Iterator.{call_next, siblings, children_end}

abbrev a_path : DerivationPath
a_path = hardened 44 ∷ normal 0 ∷ normal 7 ∷ []

printed_path : fmt_path a_path ≡ codes "m/44'/0/7"
unfolding fmt_path fmt_child decimal
printed_path = refl

large_index : parse_path (codes "m/2147483648") ≡ err (invalid_child_number 2147483648)
unfolding parse_path parse_child from_normal_idx
large_index = refl

parse-fmt_path_example : parse_path (fmt_path a_path) ≡ ok a_path
parse-fmt_path_example = parse-fmt_path a_path (omega arith, (omega arith, (omega arith, tt)))

children_end_example :
    (call_next 2 (record { base = a_path; next_child = some (normal 2147483646) })
      ≡ ok (
        siblings 2 a_path (normal 2147483646) 2147483646,
        record { base = a_path; next_child = none },
      ))
    × (next_path (record { base = a_path; next_child = none })
        ≡ ok (none, record { base = a_path; next_child = none }))
children_end_example = children_end 2 a_path (normal 2147483646) (omega arith) (omega arith)
