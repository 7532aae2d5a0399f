-- ===== src/Lib.antt =====
-- A verification library for a standalone blockchain in Go: accounts and their execution, the
-- transaction pool, the block maker and the Merkle Patricia trie.
--
-- How the parts interact: `NewTx` brings a transaction into the pool, which orders it by the
-- nonce of its sender's account. The block maker pops transactions from the pool, executes
-- each on the account database, and collects those that succeed in a block. The account
-- database writes to a key-value store. The trie is a component of its own over the same kind
-- of store.
--
-- Base: shared names; byte strings and maps keyed by them (Base/ByteMaps), lists by native
-- numbers (Base/Lists), laws of `&`, `|` and `^` (Base/Bits), a sort (Base/Sort).
-- Types: types/account.go, types/address.go, types/transaction.go. A uint64 is a number, and
-- sums and products are taken modulo 2 ^ 64 where the code computes them.
-- KvStore: the interface of kvstore/kvstore.go as operations with laws, and `MemDB` of
-- main.go, which fills it.
-- StatDb: `DefaultStatDB` of statdb/stat.go (`Load`, `Store`, `IncNonce`, `SetStatRoot`) over
-- any such store, and the interface that its clients see, for a store whose writes succeed;
-- StatDb/Laws has the laws, and what holds where a write fails.
-- StateMachine: `StateMachine.Execute` of statemachine/machine.go; StateMachine/Execute has
-- what it writes, StateMachine/Conservation the balances and nonces.
-- TxPool: txpool/default.go. SortedTxs has the boxes, Pool the state and the operations behind
-- `NewTx`, Pop the pops and `CleanExpiredTxs`. View, Promote and NewTx relate them to a
-- specification over the two lists that an address shows; Invariant, Queue, Taken, Clean,
-- Count and Price have the properties.
-- Blockchain: blockchain/block.go.
-- Maker: maker/blockmaker.go (`NewBlock`, `pack`, `Pack`, `Interupt`, `Finalize`); Maker/Pack
-- and Maker/Finish have the proofs.
-- Mpt: mpt/trie.go and mpt/node.go (`Get`, `Insert`, `Delete`, `keyToHex`); Mpt/Trie adds the
-- node store of mpt/database.go, Mpt/Hex `hexPrefix` of mpt/encoding.go. Shape, Split, Insert,
-- Delete and Lost have the proofs.
-- Secp256k1: crypto/secp256k1/libsecp256k1/src, as crypto/secp256k1/secp256.go compiles it:
-- four limbs of 64 bits, five limbs of 52 bits, 128-bit products, no assembly, and inverses
-- without GMP.
-- Secp256k1/Scalar: scalar_4x64_impl.h; Carry, Reduce, Halves and Bytes are about sums, the
-- comparison with the order, the selection of parts and the encoding, BitSum about `cadd_bit`,
-- Shift about `shr_int`, Accumulator about the macros of the products, Mul about the products,
-- Inverse about the power that scalar_impl.h computes.
-- Secp256k1/Field: field_5x52_impl.h, with the magnitudes that its VERIFY checks as
-- hypotheses; Value has the number that limbs stand for, Normalize and Zero the
-- normalizations, Storage and Bytes the encodings, Mul the products of
-- field_5x52_int128_impl.h, Inverse the inverse and the square root of field_impl.h.
-- Secp256k1/Group: group_impl.h, points in affine and in Jacobian coordinates. Residue has
-- field elements as differences modulo the prime, Curve the equation and what doubling and the
-- chord do to it, Valid the tests of the equation, Double, Sum and Mixed the sums, Affine the
-- conversions, Decompress the point of a first coordinate.
-- Secp256k1/Der: the DER form of signatures in ecdsa_impl.h; Integers is about leading zeros
-- and the sign bit, RoundTrip about what is written and read back.
-- Secp256k1/Ecdsa: signing and verification in ecdsa_impl.h, over functions for the
-- multiplication of points; Encoding is about the bytes that a scalar and a field element
-- share, Verify about the test of the coordinate, Sign about the equation of a signature,
-- RoundTrip about the verification of what is signed.
-- Secp256k1/Eckey: public keys as bytes and the tweaks of keys in eckey_impl.h, over such a
-- function too; RoundTrip is about both forms of a key.
-- Secp256k1/Sha256, Secp256k1/Hmac: hash_impl.h; Fips is a specification of SHA-256 after FIPS
-- 180-4, Choice and Rounds are about the bitwise functions and the rounds, Stream and Padding
-- about the chunks of the whole message; Spec HMAC and the generator of nonces to RFC 2104 and
-- RFC 6979.
-- Secp256k1/Powers: what the addition chains of both share.
-- Examples: tests, and the theorems at concrete inputs.
--
-- Fuel and bounds: the loop of `promoteQueueToPending` runs on fuel, one more than the queue
-- is long; each round takes a transaction from the queue, so the loop ends before the fuel
-- does, and `NewTx` never runs out. `Pack` runs on fuel above the number of pending
-- transactions; each round that goes on takes one away. A round of the loop of SHA-256's
-- `write` takes a byte at least, one of `generate` gives one, and the fuel is the number of
-- bytes.
--
-- Go leaves the order of a range over a map open: `Pop` takes that order as an argument, and
-- the theorems hold for every order. The order of equal elements in a sort is open too; the
-- model keeps it. It shows only in the list `txs` of the pool, which nothing reads.
--
-- What the program calls and does not define is a parameter: RLP (the copy of another project
-- in utils/rlp) with its round trip, the hash of a header, JSON and SHA-256 in the trie, the
-- clock, the key-value store. The sender of a transaction is a function that the models of the
-- pool and the state machine take.
--
-- Not modelled: log output; the field `all` of the pool, which nothing uses; slices that share
-- memory; the decoding of the trie's nodes; the recovery of the sender from a signature;
-- goleveldb; of the C library, the constant-time sum of points, the tables of multiples and
-- the multiplication of points (signing and verification take it as a function, of which
-- RoundTrip states what it needs), recovery, the variable-time inverse of many field elements,
-- and of the scalars the bit windows, `eq`, `is_one` and `mul_shift_var`. The pool's lists
-- hold the transactions themselves, so a transaction object that the caller changes after
-- `NewTx` is not covered.
pub mod Base
pub mod Types
pub mod KvStore
pub mod StatDb
pub mod StateMachine
pub mod TxPool
pub mod Blockchain
pub mod Maker
pub mod Mpt
mod Examples
pub mod Secp256k1
