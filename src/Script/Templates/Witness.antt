-- ===== src/Script/Templates/Witness.antt =====
-- blockdata/script.rs: the tests of witness programs.
use chaintopeslashrust_tapyr.Common.{◌≡◌, arith, true, ◌||◌}
use chaintopeslashrust_tapyr.Outcome.{Bytes}
use chaintopeslashrust_tapyr.Script.Templates.{is_witness_program, is_v0_p2wsh, is_v0_p2wpkh}

-- A script that is taken for one of the two forms of version 0, to a script hash or to a key hash, is
-- taken for a witness program.
v0_programs :
    (script : Bytes)
    → (is_v0_p2wsh script || is_v0_p2wpkh script) ≡ true
    → is_witness_program script ≡ true
unfolding is_witness_program is_v0_p2wsh is_v0_p2wpkh
v0_programs script h = ground arith
