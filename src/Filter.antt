-- ===== src/Filter.antt =====
-- util/bip158.rs: compact filters of blocks.
pub mod Stream
pub mod Golomb
pub mod Sets
pub mod Blocks
