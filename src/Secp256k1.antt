-- ===== src/Secp256k1.antt =====
-- The scalars, the field, the points, the hash, signatures and public keys of
-- crypto/secp256k1/libsecp256k1/src, as crypto/secp256k1/secp256.go compiles them.
pub mod Powers
pub mod Scalar
pub mod Field
pub mod Sha256
pub mod Hmac
pub mod Group
pub mod Der
pub mod Ecdsa
pub mod Eckey
