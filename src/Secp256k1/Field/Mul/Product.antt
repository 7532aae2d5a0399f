-- ===== src/Secp256k1/Field/Mul/Product.antt =====
-- `mul_inner` and `sqr_inner` multiply modulo the prime.
use simple_standalone_versio.Base.{ℕ, ◌+◌, ◌*◌, ◌%◌, ◌^◌, ◌<◌, ◌≤◌, ◌≡◌, ◌∙◌, ap, sym, arith}
use native.Mathlib.Nat.{mul-le-mul}
use simple_standalone_versio.Secp256k1.Field.{Fe, mul64}
use simple_standalone_versio.Secp256k1.Field.Value.{value, prime, HasMagnitude}
use simple_standalone_versio.Secp256k1.Field.Mul.{reduce_columns, mul_inner, sqr_inner}
use simple_standalone_versio.Secp256k1.Field.Mul.Fold.{AreColumns, value-reduce_columns}

-- the products of two limbs, by whether one of them is the highest
low_product : {x y : ℕ} → x < 2 ^ 56 → y < 2 ^ 56 → x * y ≤ 5192296858534827484415308253364225
low_product p q =
    mul-le-mul {n₂ = 72057594037927935} {m₂ = 72057594037927935} (omega arith) (omega arith)

side_product : {x y : ℕ} → x < 2 ^ 56 → y < 2 ^ 52 → x * y ≤ 324518553658426650221962355277825
side_product p q =
    mul-le-mul {n₂ = 72057594037927935} {m₂ = 4503599627370495} (omega arith) (omega arith)

high_product : {x y : ℕ} → x < 2 ^ 52 → y < 2 ^ 52 → x * y ≤ 20282409603651661416747996545025
high_product p q =
    mul-le-mul {n₂ = 4503599627370495} {m₂ = 4503599627370495} (omega arith) (omega arith)

abbrev Fits : Fe → Type 0
Fits a = (a.n0 < 2 ^ 56) × (a.n1 < 2 ^ 56) × (a.n2 < 2 ^ 56) × (a.n3 < 2 ^ 56) × (a.n4 < 2 ^ 52)

fits : (a : Fe) → HasMagnitude 8 a → Fits a
fits a (a0, a1, a2, a3, a4) = (omega arith, omega arith, omega arith, omega arith, omega arith)

columns_cong :
    {p0 p1 p2 p3 p4 p5 p6 p7 p8 q0 q1 q2 q3 q4 q5 q6 q7 q8 : ℕ}
    → p0 ≡ q0
    → p1 ≡ q1
    → p2 ≡ q2
    → p3 ≡ q3
    → p4 ≡ q4
    → p5 ≡ q5
    → p6 ≡ q6
    → p7 ≡ q7
    → p8 ≡ q8
    → reduce_columns p0 p1 p2 p3 p4 p5 p6 p7 p8 ≡ reduce_columns q0 q1 q2 q3 q4 q5 q6 q7 q8
columns_cong e0 e1 e2 e3 e4 e5 e6 e7 e8 =
    λ i. reduce_columns (e0 i) (e1 i) (e2 i) (e3 i) (e4 i) (e5 i) (e6 i) (e7 i) (e8 i)

-- the nine columns of a product
module _ (a b : Fe) where
  abbrev p_0 : ℕ
  p_0 = a.n0 * b.n0

  abbrev p_1 : ℕ
  p_1 = a.n0 * b.n1 + a.n1 * b.n0

  abbrev p_2 : ℕ
  p_2 = a.n0 * b.n2 + a.n1 * b.n1 + a.n2 * b.n0

  abbrev p_3 : ℕ
  p_3 = a.n0 * b.n3 + a.n1 * b.n2 + a.n2 * b.n1 + a.n3 * b.n0

  abbrev p_4 : ℕ
  p_4 = a.n0 * b.n4 + a.n1 * b.n3 + a.n2 * b.n2 + a.n3 * b.n1 + a.n4 * b.n0

  abbrev p_5 : ℕ
  p_5 = a.n1 * b.n4 + a.n2 * b.n3 + a.n3 * b.n2 + a.n4 * b.n1

  abbrev p_6 : ℕ
  p_6 = a.n2 * b.n4 + a.n3 * b.n3 + a.n4 * b.n2

  abbrev p_7 : ℕ
  p_7 = a.n3 * b.n4 + a.n4 * b.n3

  abbrev p_8 : ℕ
  p_8 = a.n4 * b.n4

  abbrev exact : Fe
  exact = reduce_columns p_0 p_1 p_2 p_3 p_4 p_5 p_6 p_7 p_8

  value_product :
      value a * value b
      ≡ p_0
        + 2 ^ 52 * p_1
        + 2 ^ 104 * p_2
        + 2 ^ 156 * p_3
        + 2 ^ 208 * p_4
        + 2 ^ 260 * p_5
        + 2 ^ 312 * p_6
        + 2 ^ 364 * p_7
        + 2 ^ 416 * p_8
  value_product = omega arith

  -- `a4 * b0` and the like have the highest limb in front
  flipped : (x y : ℕ) → x < 2 ^ 52 → y < 2 ^ 56 → x * y < 2 ^ 108
  flipped x y p q = omega (arith, side_product q p)

  columns : Fits a → Fits b → AreColumns p_0 p_1 p_2 p_3 p_4 p_5 p_6 p_7 p_8
  columns (a0, a1, a2, a3, a4) (b0, b1, b2, b3, b4) = (
    omega (arith, low_product a0 b0),
    omega (arith, low_product a0 b1, low_product a1 b0),
    omega (arith, low_product a0 b2, low_product a1 b1, low_product a2 b0),
    omega (arith, low_product a0 b3, low_product a1 b2, low_product a2 b1, low_product a3 b0),
    omega (
      arith,
      side_product a0 b4,
      low_product a1 b3,
      low_product a2 b2,
      low_product a3 b1,
      flipped _ _ a4 b0,
    ),
    omega (arith, side_product a1 b4, low_product a2 b3, low_product a3 b2, flipped _ _ a4 b1),
    omega (arith, side_product a2 b4, low_product a3 b3, flipped _ _ a4 b2),
    omega (arith, side_product a3 b4, flipped _ _ a4 b3),
    omega (arith, high_product a4 b4),
  )

  value-exact :
      Fits a → Fits b → (value exact % prime ≡ (value a * value b) % prime) × HasMagnitude 1 exact
  value-exact fa fb =
      let (e, m) = value-reduce_columns p_0 p_1 p_2 p_3 p_4 p_5 p_6 p_7 p_8 (columns fa fb) in
      (e ∙ ap (λ x. x % prime) (sym value_product), m)

  mul_inner-exact : Fits a → Fits b → mul_inner a b ≡ exact
  unfolding mul_inner
  mul_inner-exact fa fb =
      let (c0, c1, c2, c3, c4, c5, c6, c7, c8) = columns fa fb in
      columns_cong (omega arith) (omega arith) (omega arith) (omega arith) (omega arith)
        (omega arith) (omega arith) (omega arith) (omega arith)

-- The product of two elements of magnitude at most 8 is their product modulo the prime, of magnitude 1.
pub value-mul_inner :
    (a b : Fe)
    → HasMagnitude 8 a
    → HasMagnitude 8 b
    → (value (mul_inner a b) % prime ≡ (value a * value b) % prime) × HasMagnitude 1 (mul_inner a b)
value-mul_inner a b ma mb =
    rw (mul_inner-exact a b (fits a ma) (fits b mb)) (value-exact a b (fits a ma) (fits b mb))

-- `sqr_inner` computes what `mul_inner` does on two equal operands of magnitude at most 8.
pub sqr_inner-mul_inner : (a : Fe) → HasMagnitude 8 a → sqr_inner a ≡ mul_inner a a
unfolding sqr_inner
sqr_inner-mul_inner a m =
    let f = fits a m in
    let (a0, a1, a2, a3, a4) = f in
    let (c0, c1, c2, c3, c4, c5, c6, c7, c8) = columns a a f f in
    let d0 : mul64 a.n0 2 ≡ a.n0 * 2 = omega arith in
    let d1 : mul64 a.n1 2 ≡ a.n1 * 2 = omega arith in
    let d2 : mul64 a.n2 2 ≡ a.n2 * 2 = omega arith in
    let d4 : mul64 a.n4 2 ≡ a.n4 * 2 = omega arith in
    let e : sqr_inner a ≡ exact a a =
      rw (d0, d1, d2, d4)
        (columns_cong (omega arith) (omega arith) (omega arith) (omega arith) (omega arith)
          (omega arith) (omega arith) (omega arith) (omega arith)) in
    e ∙ sym (mul_inner-exact a a f f)
