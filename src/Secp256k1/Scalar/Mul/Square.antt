-- ===== src/Secp256k1/Scalar/Mul/Square.antt =====
-- `sqr_512` and `sqr` compute what `mul_512` and `mul` do on two equal operands.
use simple_standalone_versio.Base.{ℕ, ◌+◌, ◌*◌, ◌/◌, ◌%◌, ◌≡◌, ◌∙◌, ap, sym, u64_mod, arith}
use simple_standalone_versio.Secp256k1.Scalar.{Scalar}
use simple_standalone_versio.Secp256k1.Scalar.Carry.{value, AreLimbs}
use simple_standalone_versio.Secp256k1.Scalar.Reduce.{order}
use simple_standalone_versio.Secp256k1.Scalar.Accumulator.Laws.{
  c0_lem, cleared-IsSum, muladd-IsSum, muladd2-IsSum, muladd_fast-IsSum, extract-IsSum,
  extract_fast-IsSum,
}
use simple_standalone_versio.Secp256k1.Scalar.Mul.{sqr_512, sqr}
use simple_standalone_versio.Secp256k1.Scalar.Mul.Columns.{
  wide_value, AreWideLimbs, wide_value_lem, products-Bounded, column_sum, value_product,
}
use simple_standalone_versio.Secp256k1.Scalar.Mul.Fold.{reduce_512_lem}

-- What the accumulator holds at the `extract` of each limb.
module _ (a : Scalar) where
  abbrev at_0 : ℕ
  at_0 = 0 + a.d0 * a.d0

  abbrev at_1 : ℕ
  at_1 = at_0 / u64_mod + 2 * (a.d0 * a.d1)

  abbrev at_2 : ℕ
  at_2 = at_1 / u64_mod + 2 * (a.d0 * a.d2) + a.d1 * a.d1

  abbrev at_3 : ℕ
  at_3 = at_2 / u64_mod + 2 * (a.d0 * a.d3) + 2 * (a.d1 * a.d2)

  abbrev at_4 : ℕ
  at_4 = at_3 / u64_mod + 2 * (a.d1 * a.d3) + a.d2 * a.d2

  abbrev at_5 : ℕ
  at_5 = at_4 / u64_mod + 2 * (a.d2 * a.d3)

  abbrev at_6 : ℕ
  at_6 = at_5 / u64_mod + a.d3 * a.d3

module _ (a : Scalar) (la : AreLimbs a) where
  -- `sqr_512` gives the square, without loss.
  pub sqr_512_lem : AreWideLimbs (sqr_512 a) × (wide_value (sqr_512 a) ≡ value a * value a)
  unfolding sqr_512
  sqr_512_lem =
      let (a0, a1, a2, a3) = la in
      let (m0, m1, m2, m3, m4, m5, m6) = products-Bounded a a la la in
      let s0 = muladd_fast-IsSum (omega arith) cleared-IsSum a.d0 a.d0 a0 a0 (omega arith) in
      let (l0, x0) = extract_fast-IsSum (omega arith) s0 (omega arith) in
      let s1 = muladd2-IsSum (omega arith) x0 a.d0 a.d1 a0 a1 in
      let (l1, x1) = extract-IsSum (omega arith) s1 in
      let s2 = muladd2-IsSum (omega arith) x1 a.d0 a.d2 a0 a2 in
      let s2 = muladd-IsSum (omega arith) s2 a.d1 a.d1 a1 a1 in
      let (l2, x2) = extract-IsSum (omega arith) s2 in
      let s3 = muladd2-IsSum (omega arith) x2 a.d0 a.d3 a0 a3 in
      let s3 = muladd2-IsSum (omega arith) s3 a.d1 a.d2 a1 a2 in
      let (l3, x3) = extract-IsSum (omega arith) s3 in
      let s4 = muladd2-IsSum (omega arith) x3 a.d1 a.d3 a1 a3 in
      let s4 = muladd-IsSum (omega arith) s4 a.d2 a.d2 a2 a2 in
      let (l4, x4) = extract-IsSum (omega arith) s4 in
      let s5 = muladd2-IsSum (omega arith) x4 a.d2 a.d3 a2 a3 in
      let (l5, x5) = extract-IsSum (omega arith) s5 in
      let (fits, total) =
        column_sum _ _ _ _ _ _ _ m0 m1 m2 m3 m4 m5 m6 (at_0 a) (at_1 a) (at_2 a) (at_3 a) (at_4 a)
          (at_5 a) (at_6 a) (omega arith) (omega arith) (omega arith) (omega arith) (omega arith)
          (omega arith) (omega arith) in
      let s6 = muladd_fast-IsSum (omega arith) x5 a.d3 a.d3 a3 a3 fits in
      let (l6, x6) = extract_fast-IsSum (omega arith) s6 fits in
      let l7 = c0_lem x6 (omega arith) in
      let (limbs, e) =
        wide_value_lem _ (at_0 a) (at_1 a) (at_2 a) (at_3 a) (at_4 a) (at_5 a) (at_6 a) l0 l1 l2 l3
          l4 l5 l6 l7 fits in
      (limbs, e ∙ total ∙ sym (value_product a a))

  -- The square of any number on four limbs of 64 bits is its square modulo the order, on limbs of 64
  -- bits.
  pub value-sqr : (value (sqr a) ≡ (value a * value a) % order) × AreLimbs (sqr a)
  unfolding sqr
  value-sqr =
      let (limbs, e) = sqr_512_lem in
      let (v, done) = reduce_512_lem (sqr_512 a) limbs in (v ∙ ap (λ x. x % order) e, done)
