-- ===== src/Secp256k1/Scalar/Carry.antt =====
-- The number that four limbs stand for, and the carry chain (scalar_4x64_impl.h).
use simple_standalone_versio.Base.{ℕ, ◌+◌, ◌*◌, ◌^◌, ◌<◌, ◌≡◌, u64_mod, arith}
use simple_standalone_versio.Secp256k1.Scalar.{Scalar, carry}

abbrev pub value : Scalar → ℕ
value s = s.d0 + u64_mod * s.d1 + 2 ^ 128 * s.d2 + 2 ^ 192 * s.d3

-- each limb fits in 64 bits
abbrev pub AreLimbs : Scalar → Type 0
AreLimbs s = (s.d0 < u64_mod) × (s.d1 < u64_mod) × (s.d2 < u64_mod) × (s.d3 < u64_mod)

pub carry-AreLimbs : (x0 x1 x2 x3 : ℕ) → AreLimbs (carry x0 x1 x2 x3).0
unfolding carry
carry-AreLimbs x0 x1 x2 x3 = (omega arith, omega arith, omega arith, omega arith)

-- no carry is lost
pub value-carry :
    (x0 x1 x2 x3 : ℕ)
    → x0 < 2 ^ 127
    → x1 < 2 ^ 127
    → x2 < 2 ^ 127
    → x3 < 2 ^ 127
    → value (carry x0 x1 x2 x3).0 + 2 ^ 256 * (carry x0 x1 x2 x3).1
      ≡ x0 + u64_mod * x1 + 2 ^ 128 * x2 + 2 ^ 192 * x3
unfolding carry
value-carry x0 x1 x2 x3 b0 b1 b2 b3 = omega arith
