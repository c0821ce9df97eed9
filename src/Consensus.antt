-- ===== src/Consensus.antt =====
-- consensus/encode.rs: the errors, the reader and the writer, and what a pair of `Encodable` and
-- `Decodable` implementations promises. The children model the implementations.
pub mod Reader
pub mod Codec
pub mod Integers
pub mod VarInt
pub mod Vectors
pub mod Structs
pub mod Deserialize
pub mod Contract
