-- ===== src/Lib.antt =====
-- A Rust library for the Tapyrus chain: data types of the chain with their consensus encoding, scripts,
-- and tools over them. Paths are from the repository's root.
--
-- Common       notation, tests on numbers, lists and bits; no code of the repository
-- Outcome      byte strings, and results with a third case for a panic
-- Endian       src/util/endian.rs: little-endian integers (`slice_to_le`, `to_array_le`)
-- Hashes       a hash function of the crate bitcoin_hashes, as a parameter
-- Consensus    src/consensus/encode.rs: `Encodable` and `Decodable` are the record `Consensus`; an
--              encoder returns the bytes written with the length it reports, a decoder is a function
--              from the bytes left. Integers, VarInt and Vectors hold the implementations. Codec has
--              the contract `IsLawful` of an implementation, Structs combines contracts,
--              Deserialize has `deserialize`, Contract what follows from the contract.
-- Transaction  src/blockdata/transaction.rs: the four types and their encoding, with and without
--              witnesses; Ids has the ids and SigHash the signature hash
-- Opcodes      src/blockdata/opcodes.rs: the constants and `All::classify`
-- Script       src/blockdata/script.rs: Instructions is the iterator, whose state is the bytes left and
--              whose panics are a case of its result; Builder the builder; Numbers the numbers on the
--              stack; Templates the forms of a script and colored coins. Pushes, Minimal and Programs
--              set the builder against the iterator.
-- Merkle       src/util/hash.rs: the merkle root, from an iterator and in place; the hash type is a
--              hash function and its default value. Partial is src/util/merkleblock.rs: Nodes what a node
--              writes, Reading how it is read, Widths and Counts the sizes of the tree, Levels the top
--              hash against the root, Selection the matches, Build when a tree is built, Extract what is read
--              back from it; Packing and Unpacking have
--              the bits in bytes, Encoding the encoding.
-- Amount       src/util/amount.rs: denominations, and amounts as text; Unsigned is the type `Amount`, Signed
--              the type `SignedAmount`. Slices has the slice of bytes that the parser takes. Operators by assignment are the data `Arithmetic`.
-- Base58       src/util/base58.rs: bytes as text and back. Small is the buffer `SmallVec`; Plain is the encoder
--              with a list in its place, and Stacked sets the two against each other. Value has the number that the
--              digits stand for, Encoder the text; Decoder is the decoder with the checksum, Capacity and Buffer its
--              buffer, RoundTrip and Checksum set the two against each other.
-- Filter       src/util/bip158.rs: Stream has the streams of bits, Golomb the code of a number, the map of a
--              hash to a range and the sorting, Sets the coded sets (`GCSFilterWriter`, `GCSFilterReader`),
--              Blocks the filter of a block, which uses Transaction and Script. Writing and Reading say what
--              bits pass, Merging and Decoding split the loops that match from the bits that they read.
-- Uint         src/util/uint.rs: wide integers as lists of words, the lowest first. Sums has the number of a list of
--              words, Addition the sums, Products the differences and the products by 32 bits,
--              Shifts and Quotients the shifts to the left and to the right, Multiplication the product,
--              Encoding the bytes.
-- Keys         src/util/key.rs: public keys to bytes and back; the curve library is the record `Curve`
-- Block        src/blockdata/block.rs: blocks, headers and the extra field, with `Option` of encode.rs. Header has
--              the encoding of a header, Proofs the one of a block and `MerkleBlock` of merkleblock.rs, which uses
--              Transaction.Ids, Merkle and Merkle.Partial.
-- Derivation   src/util/bip32.rs: child numbers and derivation paths; Paths has them as numbers and as text,
--              Iterator the iterator over the children of a path
-- Runs         concrete inputs
--
-- The proofs about transactions use the vectors and integers of Consensus by their contracts. Loops are
-- structural, over the list they walk or the count they count down, but for three on fuel. The
-- recursion of the merkle root has as many calls as there are hashes, as each call halves them. The
-- script iterator has one call for each byte and one more, as each call takes a byte. The loop that
-- splits the magnitude of a script number has seven rounds, as a `usize` has eight bytes. The target
-- is a little-endian machine with a 64-bit `usize`. The sizes in memory that the vector limit
-- multiplies by are a parameter (`Sizes`). The height of a partial tree
-- is sought in 32 rounds, as a shift by 32 is a panic. Decimal digits are printed with 20 rounds, as a `u64` has at most 20 digits. A sum of wide
-- integers calls itself at most once for each word and once more, as each call sets one more carry to zero. A carry of the base-58
-- encoder is split in eleven rounds, as 58 ^ 11 exceeds 2 ^ 64. The rounds of the bit streams are as many as the
-- bits they are asked for, and a unary code is read with as many rounds as bits are left. A writer does not fail, as a `Vec` does not; a reader is a byte slice.
--
-- Not modelled: the witness commitment of a block, quotients of wide integers, addresses,
-- private keys, extended keys, signing, partially signed transactions and network messages, and all display and serde code.
pub mod Amount
pub mod Base58
pub mod Block
pub mod Common
pub mod Consensus
pub mod Derivation
pub mod Endian
pub mod Filter
pub mod Hashes
pub mod Keys
pub mod Merkle
pub mod Opcodes
pub mod Outcome
pub mod Runs
pub mod Script
pub mod Transaction
pub mod Uint
