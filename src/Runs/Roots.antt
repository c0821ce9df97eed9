-- ===== src/Runs/Roots.antt =====
-- Runs of util/hash.rs.
use chaintopeslashrust_tapyr.Common.{◌≡◌, List, [], ◌∷◌, some}
use chaintopeslashrust_tapyr.Outcome.{Bytes}
use chaintopeslashrust_tapyr.Merkle.{bitcoin_merkle_root_inline, bitcoin_merkle_root}
use chaintopeslashrust_tapyr.Merkle.Root.{merkle_roots_agree}
use chaintopeslashrust_tapyr.Runs.Values.{toy, zeros}

abbrev three_hashes : List Bytes
three_hashes = zeros 32 ∷ (1 ∷ zeros 31) ∷ (2 ∷ zeros 31) ∷ []

merkle_roots_agree_example :
    (r : Bytes) × (bitcoin_merkle_root_inline toy (zeros 32) three_hashes ≡ some r)
    × (bitcoin_merkle_root toy (zeros 32) three_hashes ≡ some r)
merkle_roots_agree_example = merkle_roots_agree toy (zeros 32) three_hashes
