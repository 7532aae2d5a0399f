-- ===== src/Secp256k1/Scalar/Halves.antt =====
-- `cond_negate` and `split_128` (scalar_4x64_impl.h).
use simple_standalone_versio.Base.{
  ◌+◌, ◌*◌, ◌^◌, ◌<◌, ◌≡◌, refl, ap, true, false, Bool-cases, inl, inr, arith,
}
use simple_standalone_versio.Secp256k1.Scalar.{
  Scalar, n_0, n_1, n_2, n_3, complement, masked, is_zero, carry, negate, cond_negate, split_128,
}
use simple_standalone_versio.Secp256k1.Scalar.Carry.{value, AreLimbs, carry-AreLimbs, value-carry}
use simple_standalone_versio.Secp256k1.Scalar.Reduce.{is_zero_lem, value_injective}

pub carry_same :
    (r : Scalar) → AreLimbs r → (carry (r.d0 + 0) (r.d1 + 0) (r.d2 + 0) (r.d3 + 0)).0 ≡ r
carry_same r (b0, b1, b2, b3) =
    let limbs = carry-AreLimbs (r.d0 + 0) (r.d1 + 0) (r.d2 + 0) (r.d3 + 0) in
    let e =
      value-carry (r.d0 + 0) (r.d1 + 0) (r.d2 + 0) (r.d3 + 0) (omega arith) (omega arith)
        (omega arith) (omega arith) in
    value_injective _ r limbs (b0, b1, b2, b3) (omega arith)

zero_same : (r : Scalar) → AreLimbs r → is_zero r ≡ true → masked true r ≡ r
zero_same r limbs c =
    let z = is_zero_lem r in
    let none : AreLimbs (masked true r) = omega arith in
    value_injective (masked true r) r none limbs (ground arith)

-- `cond_negate` on limbs of 64 bits: with the flag it is `negate` and returns -1, without the flag it
-- leaves the scalar and returns 1.
pub cond_negate_lem :
    (r : Scalar)
    → AreLimbs r
    → (cond_negate r true ≡ (negate r, false)) × (cond_negate r false ≡ (r, true))
unfolding cond_negate negate
cond_negate_lem r limbs =
    let e : complement r.d0 + (n_0 + 1) ≡ complement r.d0 + n_0 + 1 = omega arith in
    (
      ap
          (λ x. (
            masked (is_zero r)
                (carry x (complement r.d1 + n_1) (complement r.d2 + n_2) (complement r.d3 + n_3)).0,
            false,
          ))
          e,
      elim (Bool-cases (is_zero r)) [
        | inl c ↦ rw c (ap (λ x. (x, true)) (zero_same r limbs c))
        | inr c ↦ rw (c, carry_same r limbs) refl
      ],
    )

-- The two halves of `split_128` stay below 2 ^ 128, and make up the scalar again, for limbs of 64
-- bits.
pub split_128_lem :
    (a : Scalar)
    → AreLimbs a
    → (value (split_128 a).0 + 2 ^ 128 * value (split_128 a).1 ≡ value a)
      × (value (split_128 a).0 < 2 ^ 128)
      × (value (split_128 a).1 < 2 ^ 128)
unfolding split_128
split_128_lem a (b0, b1, b2, b3) = (omega arith, omega arith, omega arith)
