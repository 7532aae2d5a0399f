-- ===== src/Secp256k1/Scalar/BitSum.antt =====
-- `cadd_bit` (crypto/secp256k1/libsecp256k1/src/scalar_4x64_impl.h).
use native.Mathlib.Nat.{pow-suc, pow-le-pow_right}
use simple_standalone_versio.Base.{
  ℕ, zero, suc, ◌+◌, ◌*◌, ◌/◌, ◌%◌, ◌^◌, ◌<◌, ◌≤◌, ◌≡◌, sym, ap, ◌∙◌, Bool, true, false, ◌==◌,
  if◌then◌else◌, u64_mod, arith,
}
use simple_standalone_versio.Secp256k1.Scalar.{Scalar, carry}
use simple_standalone_versio.Secp256k1.Scalar.Carry.{value, AreLimbs, carry-AreLimbs, value-carry}
use simple_standalone_versio.Secp256k1.Scalar.Halves.{carry_same}

-- `((bit >> 6) == i) << (bit & 0x3F)`
abbrev pub limb_bit : ℕ → ℕ → ℕ
limb_bit i bit = if bit / 64 == i then 2 ^ (bit % 64) else 0

-- The flag is 1 for true. Without it, 256 is added to `bit`, so that no limb has it.
unfoldable pub cadd_bit : Scalar → ℕ → Bool → Scalar
cadd_bit r bit flag =
    let bit = if flag then bit else bit + 256 in
    (carry (r.d0 + limb_bit 0 bit) (r.d1 + limb_bit 1 bit) (r.d2 + limb_bit 2 bit)
      (r.d3 + limb_bit 3 bit)).0

pub pow_add : (c o : ℕ) → 2 ^ (c + o) ≡ 2 ^ c * 2 ^ o
pow_add zero o = ap (λ k. 2 ^ k) {x = zero + o} {y = o} (omega arith) ∙ omega arith
pow_add (suc c) o =
    ap (λ k. 2 ^ k) {x = suc c + o} {y = suc (c + o)} (omega arith)
    ∙ pow-suc 2 (c + o)
    ∙ ap (λ t. t * 2) (pow_add c o)
    ∙ omega (arith, ap (λ t. t * 2 ^ o) (pow-suc 2 c))

limb_bit_small : (i bit : ℕ) → limb_bit i bit < 2 ^ 64
limb_bit_small i bit =
    let p : 2 ^ (bit % 64) ≤ 2 ^ 63 =
      pow-le-pow_right {n = 2} (omega arith) {i = bit % 64} {j = 63} (omega arith) in
    ground arith

at_limb :
    (q p : ℕ)
    → q < 4
    → (if q == 0 then p else 0)
        + u64_mod * (if q == 1 then p else 0)
        + 2 ^ 128 * (if q == 2 then p else 0)
        + 2 ^ 192 * (if q == 3 then p else 0)
      ≡ 2 ^ (64 * q) * p
at_limb zero p q_small = omega arith
at_limb (suc zero) p q_small = omega arith
at_limb (suc (suc zero)) p q_small = omega arith
at_limb (suc (suc (suc zero))) p q_small = omega arith
at_limb (suc (suc (suc (suc q)))) p q_small = absurd (omega arith)

-- the sum of the limbs' bits
limb_bits :
    (bit : ℕ)
    → bit < 256
    → limb_bit 0 bit
        + u64_mod * limb_bit 1 bit
        + 2 ^ 128 * limb_bit 2 bit
        + 2 ^ 192 * limb_bit 3 bit
      ≡ 2 ^ bit
limb_bits bit small =
    at_limb (bit / 64) (2 ^ (bit % 64)) (omega arith)
    ∙ sym (pow_add (64 * (bit / 64)) (bit % 64))
    ∙ ap (λ k. 2 ^ k) {x = 64 * (bit / 64) + bit % 64} {y = bit} (omega arith)

no_limb_bit : (i bit : ℕ) → i < 4 → limb_bit i (bit + 256) ≡ 0
no_limb_bit i bit small = ground arith

-- With the flag, `cadd_bit` adds a power of two that leaves the sum below 2 ^ 256; without it, the
-- scalar stays as it is. The limbs fit in 64 bits.
pub value-cadd_bit :
    (r : Scalar) (bit : ℕ)
    → AreLimbs r
    → bit < 256
    → value r + 2 ^ bit < 2 ^ 256
    → (value (cadd_bit r bit true) ≡ value r + 2 ^ bit)
      × AreLimbs (cadd_bit r bit true)
      × (cadd_bit r bit false ≡ r)
unfolding cadd_bit carry
value-cadd_bit r bit limbs small room =
    let (b0, b1, b2, b3) = limbs in
    let s0 = limb_bit_small 0 bit in
    let s1 = limb_bit_small 1 bit in
    let s2 = limb_bit_small 2 bit in
    let s3 = limb_bit_small 3 bit in
    let total = limb_bits bit small in
    let sum =
      value-carry (r.d0 + limb_bit 0 bit) (r.d1 + limb_bit 1 bit) (r.d2 + limb_bit 2 bit)
        (r.d3 + limb_bit 3 bit) (omega arith) (omega arith) (omega arith) (omega arith) in
    (
      omega arith,
      carry-AreLimbs _ _ _ _,
      rw
          (
            no_limb_bit 0 bit (omega arith),
            no_limb_bit 1 bit (omega arith),
            no_limb_bit 2 bit (omega arith),
            no_limb_bit 3 bit (omega arith),
          )
          (carry_same r limbs),
    )
