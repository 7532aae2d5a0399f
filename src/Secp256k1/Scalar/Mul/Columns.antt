-- ===== src/Secp256k1/Scalar/Mul/Columns.antt =====
-- The product of two scalars on eight limbs is the product of the numbers that they stand for.
use simple_standalone_versio.Base.{
  ℕ, ◌+◌, ◌*◌, ◌/◌, ◌%◌, ◌^◌, ◌<◌, ◌≤◌, ◌≡◌, ◌∙◌, sym, u64_mod, arith,
}
use simple_standalone_versio.Secp256k1.Scalar.{Scalar}
use simple_standalone_versio.Secp256k1.Scalar.Carry.{value, AreLimbs}
use simple_standalone_versio.Secp256k1.Scalar.Accumulator.Laws.{
  c0_lem, cleared-IsSum, column_2, column_3, muladd-IsSum, muladd_fast-IsSum, extract-IsSum,
  extract_fast-IsSum, product_bound, max_product,
}
use simple_standalone_versio.Secp256k1.Scalar.Mul.{Wide, mul_512}

abbrev pub wide_value : Wide → ℕ
wide_value l =
    l.l0
    + 2 ^ 64 * l.l1
    + 2 ^ 128 * l.l2
    + 2 ^ 192 * l.l3
    + 2 ^ 256 * l.l4
    + 2 ^ 320 * l.l5
    + 2 ^ 384 * l.l6
    + 2 ^ 448 * l.l7

-- each limb fits in 64 bits
abbrev pub AreWideLimbs : Wide → Type 0
AreWideLimbs l =
    (l.l0 < u64_mod)
    × (l.l1 < u64_mod)
    × (l.l2 < u64_mod)
    × (l.l3 < u64_mod)
    × (l.l4 < u64_mod)
    × (l.l5 < u64_mod)
    × (l.l6 < u64_mod)
    × (l.l7 < u64_mod)

-- a product on the limbs, column by column
pub value_product :
    (a b : Scalar)
    → value a * value b
      ≡ a.d0 * b.d0
        + 2 ^ 64 * (a.d0 * b.d1 + a.d1 * b.d0)
        + 2 ^ 128 * (a.d0 * b.d2 + a.d1 * b.d1 + a.d2 * b.d0)
        + 2 ^ 192 * (a.d0 * b.d3 + a.d1 * b.d2 + a.d2 * b.d1 + a.d3 * b.d0)
        + 2 ^ 256 * (a.d1 * b.d3 + a.d2 * b.d2 + a.d3 * b.d1)
        + 2 ^ 320 * (a.d2 * b.d3 + a.d3 * b.d2)
        + 2 ^ 384 * (a.d3 * b.d3)
value_product a b = omega arith

-- the columns' sums
abbrev pub Bounded : Scalar → Scalar → Type 0
Bounded a b =
    (a.d0 * b.d0 ≤ max_product)
    × (a.d0 * b.d1 + a.d1 * b.d0 ≤ 2 * max_product)
    × (a.d0 * b.d2 + a.d1 * b.d1 + a.d2 * b.d0 ≤ 3 * max_product)
    × (a.d0 * b.d3 + a.d1 * b.d2 + a.d2 * b.d1 + a.d3 * b.d0 ≤ 4 * max_product)
    × (a.d1 * b.d3 + a.d2 * b.d2 + a.d3 * b.d1 ≤ 3 * max_product)
    × (a.d2 * b.d3 + a.d3 * b.d2 ≤ 2 * max_product)
    × (a.d3 * b.d3 ≤ max_product)

pub products-Bounded : (a b : Scalar) → AreLimbs a → AreLimbs b → Bounded a b
products-Bounded a b (a0, a1, a2, a3) (b0, b1, b2, b3) = (
  product_bound _ _ a0 b0,
  omega (arith, product_bound _ _ a0 b1, product_bound _ _ a1 b0),
  omega (arith, product_bound _ _ a0 b2, product_bound _ _ a1 b1, product_bound _ _ a2 b0),
  omega (
    arith,
    product_bound _ _ a0 b3,
    product_bound _ _ a1 b2,
    product_bound _ _ a2 b1,
    product_bound _ _ a3 b0,
  ),
  omega (arith, product_bound _ _ a1 b3, product_bound _ _ a2 b2, product_bound _ _ a3 b1),
  omega (arith, product_bound _ _ a2 b3, product_bound _ _ a3 b2),
  product_bound _ _ a3 b3,
)

-- eight limbs taken from the columns' numbers
pub wide_value_lem :
    (l : Wide) (v0 v1 v2 v3 v4 v5 v6 : ℕ)
    → l.l0 ≡ v0 % u64_mod
    → l.l1 ≡ v1 % u64_mod
    → l.l2 ≡ v2 % u64_mod
    → l.l3 ≡ v3 % u64_mod
    → l.l4 ≡ v4 % u64_mod
    → l.l5 ≡ v5 % u64_mod
    → l.l6 ≡ v6 % u64_mod
    → l.l7 ≡ v6 / u64_mod
    → v6 < 2 ^ 128
    → AreWideLimbs l
      × (wide_value l
          ≡ v0 % u64_mod
            + 2 ^ 64 * (v1 % u64_mod)
            + 2 ^ 128 * (v2 % u64_mod)
            + 2 ^ 192 * (v3 % u64_mod)
            + 2 ^ 256 * (v4 % u64_mod)
            + 2 ^ 320 * (v5 % u64_mod)
            + 2 ^ 384 * v6)
wide_value_lem l v0 v1 v2 v3 v4 v5 v6 e0 e1 e2 e3 e4 e5 e6 e7 fits = (
  (
    omega arith,
    omega arith,
    omega arith,
    omega arith,
    omega arith,
    omega arith,
    omega arith,
    omega arith,
  ),
  omega arith,
)

-- The carries between the columns `s0` to `s6`.
module _ (s0 s1 s2 s3 s4 s5 s6 : ℕ) (m0 : s0 ≤ max_product) (m1 : s1 ≤ 2 * max_product)
    (m2 : s2 ≤ 3 * max_product) (m3 : s3 ≤ 4 * max_product) (m4 : s4 ≤ 3 * max_product)
    (m5 : s5 ≤ 2 * max_product) (m6 : s6 ≤ max_product) where
  pub column_sum :
      (v0 v1 v2 v3 v4 v5 v6 : ℕ)
      → v0 ≡ s0
      → v1 ≡ v0 / u64_mod + s1
      → v2 ≡ v1 / u64_mod + s2
      → v3 ≡ v2 / u64_mod + s3
      → v4 ≡ v3 / u64_mod + s4
      → v5 ≡ v4 / u64_mod + s5
      → v6 ≡ v5 / u64_mod + s6
      → (v6 < 2 ^ 128)
        × (v0 % u64_mod
              + 2 ^ 64 * (v1 % u64_mod)
              + 2 ^ 128 * (v2 % u64_mod)
              + 2 ^ 192 * (v3 % u64_mod)
              + 2 ^ 256 * (v4 % u64_mod)
              + 2 ^ 320 * (v5 % u64_mod)
              + 2 ^ 384 * v6
            ≡ s0
              + 2 ^ 64 * s1
              + 2 ^ 128 * s2
              + 2 ^ 192 * s3
              + 2 ^ 256 * s4
              + 2 ^ 320 * s5
              + 2 ^ 384 * s6)
  column_sum v0 v1 v2 v3 v4 v5 v6 e0 e1 e2 e3 e4 e5 e6 = (omega arith, omega arith)

-- What the accumulator holds at the `extract` of each limb.
module _ (a b : Scalar) where
  abbrev at_0 : ℕ
  at_0 = 0 + a.d0 * b.d0

  abbrev at_1 : ℕ
  at_1 = at_0 / u64_mod + a.d0 * b.d1 + a.d1 * b.d0

  abbrev at_2 : ℕ
  at_2 = at_1 / u64_mod + a.d0 * b.d2 + a.d1 * b.d1 + a.d2 * b.d0

  abbrev at_3 : ℕ
  at_3 = at_2 / u64_mod + a.d0 * b.d3 + a.d1 * b.d2 + a.d2 * b.d1 + a.d3 * b.d0

  abbrev at_4 : ℕ
  at_4 = at_3 / u64_mod + a.d1 * b.d3 + a.d2 * b.d2 + a.d3 * b.d1

  abbrev at_5 : ℕ
  at_5 = at_4 / u64_mod + a.d2 * b.d3 + a.d3 * b.d2

  abbrev at_6 : ℕ
  at_6 = at_5 / u64_mod + a.d3 * b.d3

-- `mul_512` gives the product, without loss: the eight limbs of l stand for value a * value b.
module _ (a b : Scalar) (la : AreLimbs a) (lb : AreLimbs b) where
  pub mul_512_lem : AreWideLimbs (mul_512 a b) × (wide_value (mul_512 a b) ≡ value a * value b)
  unfolding mul_512
  mul_512_lem =
      let (a0, a1, a2, a3) = la in
      let (b0, b1, b2, b3) = lb in
      let (m0, m1, m2, m3, m4, m5, m6) = products-Bounded a b la lb in
      let s0 = muladd_fast-IsSum (omega arith) cleared-IsSum a.d0 b.d0 a0 b0 (omega arith) in
      let (l0, x0) = extract_fast-IsSum (omega arith) s0 (omega arith) in
      let (l1, x1) = column_2 x0 a.d0 b.d1 a.d1 b.d0 a0 b1 a1 b0 in
      let (l2, x2) = column_3 x1 a.d0 b.d2 a.d1 b.d1 a.d2 b.d0 a0 b2 a1 b1 a2 b0 in
      let s3 = muladd-IsSum (omega arith) x2 a.d0 b.d3 a0 b3 in
      let s3 = muladd-IsSum (omega arith) s3 a.d1 b.d2 a1 b2 in
      let s3 = muladd-IsSum (omega arith) s3 a.d2 b.d1 a2 b1 in
      let s3 = muladd-IsSum (omega arith) s3 a.d3 b.d0 a3 b0 in
      let (l3, x3) = extract-IsSum (omega arith) s3 in
      let (l4, x4) = column_3 x3 a.d1 b.d3 a.d2 b.d2 a.d3 b.d1 a1 b3 a2 b2 a3 b1 in
      let (l5, x5) = column_2 x4 a.d2 b.d3 a.d3 b.d2 a2 b3 a3 b2 in
      let (fits, total) =
        column_sum _ _ _ _ _ _ _ m0 m1 m2 m3 m4 m5 m6 (at_0 a b) (at_1 a b) (at_2 a b) (at_3 a b)
          (at_4 a b) (at_5 a b) (at_6 a b) (omega arith) (omega arith) (omega arith) (omega arith)
          (omega arith) (omega arith) (omega arith) in
      let s6 = muladd_fast-IsSum (omega arith) x5 a.d3 b.d3 a3 b3 fits in
      let (l6, x6) = extract_fast-IsSum (omega arith) s6 fits in
      let l7 = c0_lem x6 (omega arith) in
      let (limbs, e) =
        wide_value_lem _ (at_0 a b) (at_1 a b) (at_2 a b) (at_3 a b) (at_4 a b) (at_5 a b)
          (at_6 a b) l0 l1 l2 l3 l4 l5 l6 l7 fits in
      (limbs, e ∙ total ∙ sym (value_product a b))
