-- ===== src/Examples.antt =====
-- Tests on concrete inputs, and the theorems at inputs that meet their hypotheses.
mod Setup
mod Accounts
mod Pool
mod Blocks
mod Tries
mod Scalars
mod Fields
mod Hashes
mod Points
mod Signatures
mod Keys
