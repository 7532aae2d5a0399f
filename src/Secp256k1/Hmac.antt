-- ===== src/Secp256k1/Hmac.antt =====
-- HMAC with SHA-256, and the deterministic generator of RFC 6979
-- (crypto/secp256k1/libsecp256k1/src/hash_impl.h).
pub mod Spec
use simple_standalone_versio.Base.{
  ℕ, zero, suc, ◌+◌, ◌-◌, ◌*◌, bit_xor, Bool, true, false, leb, if◌then◌else◌, List, [], ◌∷◌, ◌++◌,
  map, length, take,
}
use simple_standalone_versio.Secp256k1.Sha256
use simple_standalone_versio.Secp256k1.Sha256.{Sha256, finalize, zeros}

pub record Hmac : Type 0 where
  pub inner : Sha256
  pub outer : Sha256

-- `rkey`: the key, or its hash, filled up with zeros to 64 bytes
unfoldable pub block_key : List ℕ → List ℕ
block_key key =
    if leb (length key) 64
    then key ++ zeros (64 - length key)
    else finalize (Sha256.write Sha256.initialize key) ++ zeros 32

unfoldable pub initialize : List ℕ → Hmac
initialize key =
    let rkey = map (λ x. bit_xor x 0x5c) (block_key key) in
    let outer = Sha256.write Sha256.initialize rkey in
    let rkey = map (λ x. bit_xor x (bit_xor 0x5c 0x36)) rkey in
    record { inner = Sha256.write Sha256.initialize rkey; outer = outer }

unfoldable pub write : Hmac → List ℕ → Hmac
write hash input = record hash { inner = Sha256.write hash.inner input }

unfoldable pub digest : Hmac → List ℕ
digest hash = finalize (Sha256.write hash.outer (finalize hash.inner))

abbrev pub repeated : ℕ → ℕ → List ℕ
repeated zero x = []
repeated (suc n) x = x ∷ repeated n x

-- the generator of nonces
pub record Rng : Type 0 where
  pub v : List ℕ
  pub k : List ℕ
  pub retry : Bool

unfoldable pub rng_initialize : List ℕ → Rng
rng_initialize key =
    let v = repeated 32 1 in
    let k = repeated 32 0 in
    let k = digest (write (write (write (initialize k) v) (0 ∷ [])) key) in
    let v = digest (write (initialize k) v) in
    let k = digest (write (write (write (initialize k) v) (1 ∷ [])) key) in
    let v = digest (write (initialize k) v) in record { v = v; k = k; retry = false }

-- the change of `k` and `v` before a further nonce
unfoldable pub retried : Rng → Rng
retried rng =
    let k = digest (write (write (initialize rng.k) rng.v) (0 ∷ [])) in
    record rng { k = k; v = digest (write (initialize k) rng.v) }

-- The loop of `generate`, on fuel: a round gives 32 bytes, or what is left to give.
unfoldable pub generate_loop : ℕ → ℕ → Rng → List ℕ × Rng
generate_loop zero outlen rng = ([], rng)
generate_loop (suc fuel) zero rng = ([], rng)
generate_loop (suc fuel) (suc left) rng =
    let v = digest (write (initialize rng.k) rng.v) in
    let now = if leb (suc left) 32 then suc left else 32 in
    let (out, rng) = generate_loop fuel (suc left - now) (record rng { v = v }) in
    (take now v ++ out, rng)

-- A round gives a byte at least, so that `outlen` rounds are enough.
unfoldable pub generate : Rng → ℕ → List ℕ × Rng
generate rng outlen =
    let start = if rng.retry then retried rng else rng in
    let (out, rng) = generate_loop outlen outlen start in (out, record rng { retry = true })

unfoldable pub rng_finalize : Rng → Rng
rng_finalize rng = record { v = zeros 32; k = zeros 32; retry = false }
