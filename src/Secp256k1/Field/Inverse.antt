-- ===== src/Secp256k1/Field/Inverse.antt =====
-- Equality, inverse and square root of field elements
-- (crypto/secp256k1/libsecp256k1/src/field_impl.h, with USE_FIELD_INV_BUILTIN and USE_NUM_NONE).
use mathlib.Core.Path.{subst}
use simple_standalone_versio.Base.{
  ℕ, ◌+◌, ◌-◌, ◌*◌, ◌/◌, ◌%◌, ◌^◌, ◌≤◌, ◌≡◌, refl, sym, ap, ◌∙◌, Bool, ◌==◌, arith,
}
use simple_standalone_versio.Secp256k1.Powers.{
  Powers, power, power_one, power_add, mul_cong, squares, squares-IsPower, window-IsPower,
}
use simple_standalone_versio.Secp256k1.Field.{
  Fe, add, negate, normalizes_to_zero, normalizes_to_zero_var,
}
use simple_standalone_versio.Secp256k1.Field.Value.{
  value, prime, HasMagnitude, value-add, negate-HasMagnitude,
}
use simple_standalone_versio.Secp256k1.Field.Zero.{
  normalizes_to_zero_lem, normalizes_to_zero_var_lem,
}
use simple_standalone_versio.Secp256k1.Field.Mul.{mul, sqr}
use simple_standalone_versio.Secp256k1.Field.Mul.Product.{value-mul_inner, sqr_inner-mul_inner}

unfoldable pub equal : Fe → Fe → Bool
equal a b = normalizes_to_zero (add (negate a 1) b)

unfoldable pub equal_var : Fe → Fe → Bool
equal_var a b = normalizes_to_zero_var (add (negate a 1) b)

-- `n` squarings of `t` in place, then `mul(t, t, s)`
abbrev pub window : ℕ → Fe → Fe → Fe
window n t s = mul (squares sqr n t) s

-- the powers `a ^ (2 ^ n - 1)` that `inv` and `sqrt` compute first
pub record Blocks : Type 0 where
  x2 : Fe
  x22 : Fe
  x223 : Fe

unfoldable pub blocks : Fe → Blocks
blocks a =
    let x2 = window 1 a a in
    let x3 = window 1 x2 a in
    let x6 = window 3 x3 x3 in
    let x9 = window 3 x6 x3 in
    let x11 = window 2 x9 x2 in
    let x22 = window 11 x11 x11 in
    let x44 = window 22 x22 x22 in
    let x88 = window 44 x44 x44 in
    let x176 = window 88 x88 x88 in
    let x220 = window 44 x176 x44 in
    let x223 = window 3 x220 x3 in record { x2 = x2; x22 = x22; x223 = x223 }

-- The root, and whether its square is the operand.
unfoldable pub sqrt : Fe → Fe × Bool
sqrt a =
    let b = blocks a in
    let t1 = window 23 b.x223 b.x22 in
    let t1 = window 6 t1 b.x2 in let r = sqr (sqr t1) in (r, equal (sqr r) a)

unfoldable pub inv : Fe → Fe
inv a =
    let b = blocks a in
    let t1 = window 23 b.x223 b.x22 in
    let t1 = window 5 t1 a in let t1 = window 3 t1 b.x2 in mul a (squares sqr 2 t1)

unfoldable pub inv_var : Fe → Fe
inv_var a = inv a

unfoldable pub is_quad_var : Fe → Bool
is_quad_var a = (sqrt a).1

pub weaker : (m n : ℕ) (a : Fe) → m ≤ n → HasMagnitude m a → HasMagnitude n a
weaker m n a less (a0, a1, a2, a3, a4) =
    (omega arith, omega arith, omega arith, omega arith, omega arith)

-- `equal` says whether the two numbers agree modulo the prime, for a first operand of magnitude 1 and a
-- second one of magnitude at most 1000; `equal_var` says the same.
pub equal_lem :
    (a b : Fe)
    → HasMagnitude 1 a
    → HasMagnitude 1000 b
    → (equal a b ≡ (value a % prime == value b % prime)) × (equal_var a b ≡ equal a b)
unfolding equal equal_var
equal_lem a b ma mb =
    let (e, mn) = negate-HasMagnitude a 1 ma (omega arith) in
    let (f, ms) = value-add (negate a 1) b 2 1000 mn mb (omega arith) in
    let m = weaker 1002 1024 (add (negate a 1) b) (omega arith) ms in
    (normalizes_to_zero_lem _ m ∙ ground arith, normalizes_to_zero_var_lem _ m)

pub sqr-mul : (s : Fe) → HasMagnitude 8 s → sqr s ≡ mul s s
unfolding sqr mul
sqr-mul s m = sqr_inner-mul_inner s m

value-sqr :
    (s : Fe)
    → HasMagnitude 8 s
    → (value (sqr s) % prime ≡ (value s * value s) % prime) × HasMagnitude 1 (sqr s)
unfolding mul
value-sqr s m = rw (sqr-mul s m) (value-mul_inner s s m m)

module _ (a : Fe) (limbs : HasMagnitude 8 a) where
  unfoldable IsPower : Fe → ℕ → Type 0
  IsPower s e = HasMagnitude 8 s × (value s % prime ≡ power (value a) e % prime)

  mul-IsPower : (s t : Fe) (e f : ℕ) → IsPower s e → IsPower t f → IsPower (mul s t) (e + f)
  unfolding IsPower mul
  mul-IsPower s t e f (ms, p) (mt, q) =
      let (v, done) = value-mul_inner s t ms mt in
      (
        weaker 1 8 (mul s t) (omega arith) done,
        v
            ∙ mul_cong prime (value s) (value t) (power (value a) e) (power (value a) f) p q
            ∙ ap (λ y. y % prime) (sym (power_add (value a) e f)),
      )

  sqr-IsPower : (s : Fe) (e : ℕ) → IsPower s e → IsPower (sqr s) (e + e)
  unfolding IsPower
  sqr-IsPower s e h = subst (λ t. IsPower t (e + e)) (sym (sqr-mul s h.0)) (mul-IsPower s s e e h h)

  abbrev powers : Powers Fe
  powers = record {
    sqr = sqr;
    mul = mul;
    IsPower = IsPower;
    sqr-IsPower = sqr-IsPower;
    mul-IsPower = mul-IsPower;
  }

  itself : IsPower a 1
  unfolding IsPower
  itself = (limbs, ap (λ y. y % prime) (sym (power_one (value a))))

  -- the three blocks, as powers
  ArePowers : Type 0
  ArePowers =
      IsPower (blocks a).x2 3
      × IsPower (blocks a).x22 (2 ^ 22 - 1)
      × IsPower (blocks a).x223 (2 ^ 223 - 1)

  blocks-ArePowers : ArePowers
  unfolding ArePowers blocks
  blocks-ArePowers =
      let p = powers in
      let p1 = itself in
      let p2 = window-IsPower p 1 p1 p1 in
      let p3 = window-IsPower p 1 p2 p1 in
      let p6 = window-IsPower p 3 p3 p3 in
      let p9 = window-IsPower p 3 p6 p3 in
      let p11 = window-IsPower p 2 p9 p2 in
      let p22 = window-IsPower p 11 p11 p11 in
      let p44 = window-IsPower p 22 p22 p22 in
      let p88 = window-IsPower p 44 p44 p44 in
      let p176 = window-IsPower p 88 p88 p88 in
      let p220 = window-IsPower p 44 p176 p44 in
      let p223 = window-IsPower p 3 p220 p3 in (p2, p22, p223)

  inv-IsPower : IsPower (inv a) (prime - 2)
  unfolding ArePowers inv
  inv-IsPower =
      let p = powers in
      let (p2, p22, p223) = blocks-ArePowers in
      let t = window-IsPower p 23 p223 p22 in
      let t = window-IsPower p 5 t itself in
      let t = window-IsPower p 3 t p2 in mul-IsPower _ _ _ _ itself (squares-IsPower p 2 _ _ t)

  root-IsPower : IsPower (sqrt a).0 ((prime + 1) / 4)
  unfolding ArePowers sqrt
  root-IsPower =
      let p = powers in
      let (p2, p22, p223) = blocks-ArePowers in
      let t = window-IsPower p 23 p223 p22 in
      let t = window-IsPower p 6 t p2 in sqr-IsPower _ _ (sqr-IsPower _ _ t)

  -- `inv` of an element of magnitude at most 8 is its power prime - 2, and the product with the element
  -- is its power prime - 1: by Fermat's theorem 1, where the element is no multiple of the prime.
  pub value-inv :
      (value (inv a) % prime ≡ power (value a) (prime - 2) % prime)
      × (value (mul a (inv a)) % prime ≡ power (value a) (prime - 1) % prime)
      × HasMagnitude 8 (inv a)
  unfolding IsPower
  value-inv =
      let (done, e) = inv-IsPower in
      (e, (mul-IsPower a (inv a) 1 (prime - 2) itself inv-IsPower).1, done)

  pub sqrt-HasMagnitude : HasMagnitude 8 (sqrt a).0
  unfolding IsPower
  sqrt-HasMagnitude = root-IsPower.0

  -- `sqrt` of an element of magnitude at most 8 gives its power (prime + 1) / 4, and says whether the
  -- square of that is the element modulo the prime; `is_quad_var` says the same.
  pub sqrt_lem :
      (value (sqrt a).0 % prime ≡ power (value a) ((prime + 1) / 4) % prime)
      × ((sqrt a).1 ≡ ((value (sqrt a).0 * value (sqrt a).0) % prime == value a % prime))
      × (is_quad_var a ≡ (sqrt a).1)
  unfolding IsPower sqrt is_quad_var
  sqrt_lem =
      let (done, e) = root-IsPower in
      let (v, m) = value-sqr (sqrt a).0 done in
      let (f, g) = equal_lem (sqr (sqrt a).0) a m (weaker 8 1000 a (omega arith) limbs) in
      (e, f ∙ ap (λ y. y == value a % prime) v, refl)
