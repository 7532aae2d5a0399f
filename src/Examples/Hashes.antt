-- ===== src/Examples/Hashes.antt =====
-- SHA-256 at the test vector "abc" of FIPS 180, and the theorems about the hashes at concrete inputs.
use simple_standalone_versio.Base.{ℕ, ◌%◌, ◌≡◌, refl, List, [], ◌∷◌, length, arith}
use simple_standalone_versio.Secp256k1.Sha256.{
  initialize, write, finalize, absorb, transform, rounds, next_word, round,
}
use simple_standalone_versio.Secp256k1.Sha256.Fips.{
  padded, sha256, compress, steps, round_constants, round_step,
}
use simple_standalone_versio.Secp256k1.Sha256.Padding.{finalize-write}
use simple_standalone_versio.Secp256k1.Hmac.{rng_initialize}
use simple_standalone_versio.Secp256k1.Hmac.Spec.{rng_spec, rng_initialize_lem}

abc :
    finalize (write initialize (97 ∷ 98 ∷ 99 ∷ []))
    ≡ 0xba ∷ 0x78 ∷ 0x16 ∷ 0xbf ∷ 0x8f ∷ 0x01 ∷ 0xcf ∷ 0xea ∷ 0x41 ∷ 0x41 ∷ 0x40 ∷ 0xde ∷ 0x5d
      ∷ 0xae ∷ 0x22 ∷ 0x23 ∷ 0xb0 ∷ 0x03 ∷ 0x61 ∷ 0xa3 ∷ 0x96 ∷ 0x17 ∷ 0x7a ∷ 0x9c ∷ 0xb4 ∷ 0x10
      ∷ 0xff ∷ 0x61 ∷ 0xf2 ∷ 0x00 ∷ 0x15 ∷ 0xad ∷ []
unfolding finalize write absorb transform rounds next_word round
abc = refl

abbrev abc_bytes : List ℕ
abc_bytes = 97 ∷ 98 ∷ 99 ∷ []

finalize-write_example :
    (finalize (write initialize abc_bytes) ≡ sha256 abc_bytes)
    × (length (padded abc_bytes) % 64 ≡ 0)
finalize-write_example = finalize-write abc_bytes (omega arith)

-- The specification gives the test vector, too.
sha256_abc : sha256 abc_bytes ≡ finalize (write initialize abc_bytes)
unfolding compress steps round_constants round_step finalize write absorb transform rounds next_word
    round
sha256_abc = refl

rng_initialize_lem_example : rng_initialize abc_bytes ≡ rng_spec abc_bytes
rng_initialize_lem_example = rng_initialize_lem abc_bytes
