-- ===== src/Secp256k1/Scalar/Shift.antt =====
-- `shr_int` (crypto/secp256k1/libsecp256k1/src/scalar_4x64_impl.h). The mask `(1 << n) - 1` is a remainder.
use native.Mathlib.Nat.{
  div-add-mod, div-lt_iff_lt-mul, div-le_self, mod-lt, mul-le-mul_right, pow-le-pow_right,
}
use simple_standalone_versio.Base.{
  ℕ, ◌+◌, ◌-◌, ◌*◌, ◌/◌, ◌%◌, ◌^◌, ◌<◌, ◌≤◌, ◌≡◌, sym, ap, ◌∙◌, u64_mod, arith,
}
use simple_standalone_versio.Secp256k1.Scalar.{Scalar}
use simple_standalone_versio.Secp256k1.Scalar.Carry.{value, AreLimbs}
use simple_standalone_versio.Secp256k1.Scalar.BitSum.{pow_add}

-- `(d >> n) + (e << (64 - n))` on 64 bits
unfoldable pub shifted_limb : ℕ → ℕ → ℕ → ℕ
shifted_limb n d e = (d / 2 ^ n + e * 2 ^ (64 - n) % u64_mod) % u64_mod

-- the scalar without its last `n` bits, and these bits
unfoldable pub shr_int : Scalar → ℕ → Scalar × ℕ
shr_int r n = (
  record {
    d0 = shifted_limb n r.d0 r.d1;
    d1 = shifted_limb n r.d1 r.d2;
    d2 = shifted_limb n r.d2 r.d3;
    d3 = r.d3 / 2 ^ n;
  },
  r.d0 % 2 ^ n,
)

-- what a limb takes over from the next one
limb_lem :
    (p q d e : ℕ)
    → p * q ≡ 2 ^ 64
    → 0 < p
    → d < 2 ^ 64
    → (p * ((d / p + e * q % 2 ^ 64) % 2 ^ 64) + d % p ≡ d + 2 ^ 64 * (e % p)) × (d / p < q)
limb_lem p q d e full some_p small =
    let de = div-add-mod d p in
    let ee = div-add-mod e p in
    let few : d / p < q = (div-lt_iff_lt-mul some_p).1 (omega arith) in
    let t : ℕ = (e % p) * q in
    let split : e * q ≡ 2 ^ 64 * (e / p) + t =
      ap (λ x. x * q) (sym ee) ∙ omega (arith, ap (λ x. x * (e / p)) full) in
    let m : e % p < p = mod-lt e some_p in
    let most : (e % p + 1) * q ≤ p * q = mul-le-mul_right q (omega arith) in
    let limb : (d / p + e * q % 2 ^ 64) % 2 ^ 64 ≡ d / p + t = omega arith in
    let carried : p * t ≡ 2 ^ 64 * (e % p) = omega (arith, ap (λ x. x * (e % p)) full) in
    (ap (λ x. p * x + d % p) limb ∙ omega arith, few)

-- The scalar's number is made up of the shifted one's and the bits that were shifted out, for a shift of
-- less than 64 bits. The limbs fit in 64 bits.
pub value-shr_int :
    (r : Scalar) (n : ℕ)
    → AreLimbs r
    → n < 64
    → (2 ^ n * value (shr_int r n).0 + (shr_int r n).1 ≡ value r)
      × ((shr_int r n).1 < 2 ^ n)
      × AreLimbs (shr_int r n).0
unfolding shr_int shifted_limb
value-shr_int r n (b0, b1, b2, b3) small =
    let full : 2 ^ n * 2 ^ (64 - n) ≡ 2 ^ 64 =
      sym (pow_add n (64 - n)) ∙ ap (λ k. 2 ^ k) {x = n + (64 - n)} {y = 64} (omega arith) in
    let some_p : 2 ^ 0 ≤ 2 ^ n =
      pow-le-pow_right {n = 2} (omega arith) {i = 0} {j = n} (omega arith) in
    let l0 = (limb_lem (2 ^ n) (2 ^ (64 - n)) r.d0 r.d1 full (omega arith) b0).0 in
    let l1 = (limb_lem (2 ^ n) (2 ^ (64 - n)) r.d1 r.d2 full (omega arith) b1).0 in
    let l2 = (limb_lem (2 ^ n) (2 ^ (64 - n)) r.d2 r.d3 full (omega arith) b2).0 in
    let l3 = div-add-mod r.d3 (2 ^ n) in
    let last : r.d3 / 2 ^ n ≤ r.d3 = div-le_self r.d3 (2 ^ n) in
    (omega arith, mod-lt r.d0 (omega arith), (omega arith, omega arith, omega arith, omega arith))
