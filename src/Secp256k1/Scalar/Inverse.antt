-- ===== src/Secp256k1/Scalar/Inverse.antt =====
-- The inverse of a scalar as a power
-- (crypto/secp256k1/libsecp256k1/src/scalar_impl.h, without EXHAUSTIVE_TEST_ORDER).
use simple_standalone_versio.Base.{
  ℕ, ◌+◌, ◌-◌, ◌%◌, ◌≡◌, sym, ap, ◌∙◌, Bool, bit_and, ◌==◌, not, arith,
}
use simple_standalone_versio.Secp256k1.Powers.{
  Powers, power, power_one, power_add, mul_cong, squares, window-IsPower,
}
use simple_standalone_versio.Secp256k1.Scalar.{Scalar}
use simple_standalone_versio.Secp256k1.Scalar.Carry.{value, AreLimbs}
use simple_standalone_versio.Secp256k1.Scalar.Reduce.{order}
use simple_standalone_versio.Secp256k1.Scalar.Mul.{mul, sqr}
use simple_standalone_versio.Secp256k1.Scalar.Mul.Fold.{value-mul}
use simple_standalone_versio.Secp256k1.Scalar.Mul.Square.{value-sqr}

-- `n` squarings of `t` in place, then `mul(t, t, s)`
abbrev pub window : ℕ → Scalar → Scalar → Scalar
window n t s = mul (squares sqr n t) s

-- the powers `x ^ (2 ^ n - 1)` that `inverse` computes first
pub record Blocks : Type 0 where
  x2 : Scalar
  x3 : Scalar
  x4 : Scalar
  x6 : Scalar
  x8 : Scalar
  x127 : Scalar

unfoldable pub blocks : Scalar → Blocks
blocks x =
    let x2 = window 1 x x in
    let x3 = window 1 x2 x in
    let x4 = window 1 x3 x in
    let x6 = window 2 x4 x2 in
    let x7 = window 1 x6 x in
    let x8 = window 1 x7 x in
    let x15 = window 7 x8 x7 in
    let x30 = window 15 x15 x15 in
    let x60 = window 30 x30 x30 in
    let x120 = window 60 x60 x60 in
    let x127 = window 7 x120 x7 in
    record { x2 = x2; x3 = x3; x4 = x4; x6 = x6; x8 = x8; x127 = x127 }

unfoldable pub accumulate : Scalar → Blocks → Scalar
accumulate x b =
    let t = window 2 b.x127 x in
    let t = window 4 t b.x3 in
    let t = window 2 t x in
    let t = window 2 t x in
    let t = window 2 t x in
    let t = window 4 t b.x3 in
    let t = window 3 t b.x2 in
    let t = window 4 t b.x3 in
    let t = window 5 t b.x3 in
    let t = window 4 t b.x2 in
    let t = window 2 t x in
    let t = window 2 t x in
    let t = window 5 t b.x4 in
    let t = window 2 t x in
    let t = window 3 t x in
    let t = window 4 t x in
    let t = window 2 t x in
    let t = window 10 t b.x3 in
    let t = window 4 t b.x3 in
    let t = window 9 t b.x8 in
    let t = window 2 t x in
    let t = window 3 t x in
    let t = window 3 t x in
    let t = window 5 t b.x4 in
    let t = window 2 t x in
    let t = window 5 t b.x2 in
    let t = window 4 t b.x2 in
    let t = window 2 t x in
    let t = window 8 t b.x2 in
    let t = window 3 t b.x2 in let t = window 3 t x in let t = window 6 t x in window 8 t b.x6

unfoldable pub inverse : Scalar → Scalar
inverse x = accumulate x (blocks x)

-- with USE_SCALAR_INV_BUILTIN
unfoldable pub inverse_var : Scalar → Scalar
inverse_var x = inverse x

unfoldable pub is_even : Scalar → Bool
is_even a = not (bit_and a.d0 1 == 1)

module _ (x : Scalar) (limbs : AreLimbs x) where
  unfoldable IsPower : Scalar → ℕ → Type 0
  IsPower s e = AreLimbs s × (value s % order ≡ power (value x) e % order)

  mul-IsPower : (s t : Scalar) (e f : ℕ) → IsPower s e → IsPower t f → IsPower (mul s t) (e + f)
  unfolding IsPower
  mul-IsPower s t e f (ls, p) (lt, q) =
      let (v, done) = value-mul s t ls lt in
      (
        done,
        omega (arith, v)
            ∙ mul_cong order (value s) (value t) (power (value x) e) (power (value x) f) p q
            ∙ ap (λ y. y % order) (sym (power_add (value x) e f)),
      )

  sqr-IsPower : (s : Scalar) (e : ℕ) → IsPower s e → IsPower (sqr s) (e + e)
  unfolding IsPower
  sqr-IsPower s e (ls, p) =
      let (v, done) = value-sqr s ls in
      (
        done,
        omega (arith, v)
            ∙ mul_cong order (value s) (value s) (power (value x) e) (power (value x) e) p p
            ∙ ap (λ y. y % order) (sym (power_add (value x) e e)),
      )

  abbrev powers : Powers Scalar
  powers = record {
    sqr = sqr;
    mul = mul;
    IsPower = IsPower;
    sqr-IsPower = sqr-IsPower;
    mul-IsPower = mul-IsPower;
  }

  itself : IsPower x 1
  unfolding IsPower
  itself = (limbs, ap (λ y. y % order) (sym (power_one (value x))))

  -- The powers of `blocks`, and the power that `accumulate` makes of them.
  inverse-IsPower : IsPower (inverse x) (order - 2)
  unfolding inverse blocks accumulate
  inverse-IsPower =
      let p = powers in
      let p1 = itself in
      let p2 = window-IsPower p 1 p1 p1 in
      let p3 = window-IsPower p 1 p2 p1 in
      let p4 = window-IsPower p 1 p3 p1 in
      let p6 = window-IsPower p 2 p4 p2 in
      let p7 = window-IsPower p 1 p6 p1 in
      let p8 = window-IsPower p 1 p7 p1 in
      let p15 = window-IsPower p 7 p8 p7 in
      let p30 = window-IsPower p 15 p15 p15 in
      let p60 = window-IsPower p 30 p30 p30 in
      let p120 = window-IsPower p 60 p60 p60 in
      let t = window-IsPower p 7 p120 p7 in
      let t = window-IsPower p 2 t p1 in
      let t = window-IsPower p 4 t p3 in
      let t = window-IsPower p 2 t p1 in
      let t = window-IsPower p 2 t p1 in
      let t = window-IsPower p 2 t p1 in
      let t = window-IsPower p 4 t p3 in
      let t = window-IsPower p 3 t p2 in
      let t = window-IsPower p 4 t p3 in
      let t = window-IsPower p 5 t p3 in
      let t = window-IsPower p 4 t p2 in
      let t = window-IsPower p 2 t p1 in
      let t = window-IsPower p 2 t p1 in
      let t = window-IsPower p 5 t p4 in
      let t = window-IsPower p 2 t p1 in
      let t = window-IsPower p 3 t p1 in
      let t = window-IsPower p 4 t p1 in
      let t = window-IsPower p 2 t p1 in
      let t = window-IsPower p 10 t p3 in
      let t = window-IsPower p 4 t p3 in
      let t = window-IsPower p 9 t p8 in
      let t = window-IsPower p 2 t p1 in
      let t = window-IsPower p 3 t p1 in
      let t = window-IsPower p 3 t p1 in
      let t = window-IsPower p 5 t p4 in
      let t = window-IsPower p 2 t p1 in
      let t = window-IsPower p 5 t p2 in
      let t = window-IsPower p 4 t p2 in
      let t = window-IsPower p 2 t p1 in
      let t = window-IsPower p 8 t p2 in
      let t = window-IsPower p 3 t p2 in
      let t = window-IsPower p 3 t p1 in let t = window-IsPower p 6 t p1 in window-IsPower p 8 t p6

  -- `inverse` of any scalar on limbs of 64 bits is its power order - 2, and the product with the
  -- scalar is its power order - 1: by Fermat's theorem 1, where the order is prime and the scalar no
  -- multiple of it.
  pub value-inverse :
      (value (inverse x) % order ≡ power (value x) (order - 2) % order)
      × (value (mul x (inverse x)) % order ≡ power (value x) (order - 1) % order)
      × AreLimbs (inverse x)
  unfolding IsPower
  value-inverse =
      let (done, e) = inverse-IsPower in
      (e, (mul-IsPower x (inverse x) 1 (order - 2) itself inverse-IsPower).1, done)
