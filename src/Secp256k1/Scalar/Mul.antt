-- ===== src/Secp256k1/Scalar/Mul.antt =====
-- Products of scalars (`mul_512`, `sqr_512`, `reduce_512`, `mul` and `sqr` of scalar_4x64_impl.h),
-- the C code that is compiled without USE_ASM_X86_64.
pub mod Columns
pub mod Fold
pub mod Square
use simple_standalone_versio.Base.{ℕ, ◌+◌, ◌*◌, ◌/◌, ◌%◌, ◌^◌, u64_mod}
use simple_standalone_versio.Secp256k1.Scalar.{
  Scalar, n_c_0, n_c_1, to_bit, check_overflow, carry, reduce,
}
use simple_standalone_versio.Secp256k1.Scalar.Accumulator.{
  Accumulator, cleared, add32, sumadd, sumadd_fast, muladd, muladd_fast, muladd2, extract,
  extract_fast,
}

-- `uint64_t l[8]`
pub record Wide : Type 0 where
  l0 : ℕ
  l1 : ℕ
  l2 : ℕ
  l3 : ℕ
  l4 : ℕ
  l5 : ℕ
  l6 : ℕ
  l7 : ℕ

-- The accumulator before each `extract` of `mul_512`, from the one that the `extract` before left.
module _ (a b : Scalar) where
  unfoldable pub mul_512 : Wide
  mul_512 =
      let k0 = muladd_fast a.d0 b.d0 cleared in
      let k1 = muladd a.d1 b.d0 (muladd a.d0 b.d1 (extract_fast k0)) in
      let k2 = muladd a.d2 b.d0 (muladd a.d1 b.d1 (muladd a.d0 b.d2 (extract k1))) in
      let k3 =
        muladd a.d3 b.d0 (muladd a.d2 b.d1 (muladd a.d1 b.d2 (muladd a.d0 b.d3 (extract k2)))) in
      let k4 = muladd a.d3 b.d1 (muladd a.d2 b.d2 (muladd a.d1 b.d3 (extract k3))) in
      let k5 = muladd a.d3 b.d2 (muladd a.d2 b.d3 (extract k4)) in
      let k6 = muladd_fast a.d3 b.d3 (extract k5) in
      record {
        l0 = k0.c0;
        l1 = k1.c0;
        l2 = k2.c0;
        l3 = k3.c0;
        l4 = k4.c0;
        l5 = k5.c0;
        l6 = k6.c0;
        l7 = (extract_fast k6).c0;
      }

module _ (a : Scalar) where
  unfoldable pub sqr_512 : Wide
  sqr_512 =
      let k0 = muladd_fast a.d0 a.d0 cleared in
      let k1 = muladd2 a.d0 a.d1 (extract_fast k0) in
      let k2 = muladd a.d1 a.d1 (muladd2 a.d0 a.d2 (extract k1)) in
      let k3 = muladd2 a.d1 a.d2 (muladd2 a.d0 a.d3 (extract k2)) in
      let k4 = muladd a.d2 a.d2 (muladd2 a.d1 a.d3 (extract k3)) in
      let k5 = muladd2 a.d2 a.d3 (extract k4) in
      let k6 = muladd_fast a.d3 a.d3 (extract k5) in
      record {
        l0 = k0.c0;
        l1 = k1.c0;
        l2 = k2.c0;
        l3 = k3.c0;
        l4 = k4.c0;
        l5 = k5.c0;
        l6 = k6.c0;
        l7 = (extract_fast k6).c0;
      }

-- 385 bits: `m[0..6]`
pub record Wide385 : Type 0 where
  m0 : ℕ
  m1 : ℕ
  m2 : ℕ
  m3 : ℕ
  m4 : ℕ
  m5 : ℕ
  m6 : ℕ

-- 258 bits: `p[0..4]`
pub record Wide258 : Type 0 where
  p0 : ℕ
  p1 : ℕ
  p2 : ℕ
  p3 : ℕ
  p4 : ℕ

-- The three parts of `reduce_512`. Its `c2` is a uint64, and no number that it holds here reaches the
-- 32 bits of the accumulator's.
unfoldable pub reduce_385 : Wide → Wide385
reduce_385 l =
    let k0 = muladd_fast l.l4 n_c_0 (record { c0 = l.l0; c1 = 0; c2 = 0 }) in
    let k1 = muladd l.l4 n_c_1 (muladd l.l5 n_c_0 (sumadd_fast l.l1 (extract_fast k0))) in
    let k2 = sumadd l.l4 (muladd l.l5 n_c_1 (muladd l.l6 n_c_0 (sumadd l.l2 (extract k1)))) in
    let k3 = sumadd l.l5 (muladd l.l6 n_c_1 (muladd l.l7 n_c_0 (sumadd l.l3 (extract k2)))) in
    let k4 = sumadd l.l6 (muladd l.l7 n_c_1 (extract k3)) in
    let k5 = sumadd_fast l.l7 (extract k4) in
    record {
      m0 = k0.c0;
      m1 = k1.c0;
      m2 = k2.c0;
      m3 = k3.c0;
      m4 = k4.c0;
      m5 = k5.c0;
      m6 = (extract_fast k5).c0 % 2 ^ 32;
    }

unfoldable pub reduce_258 : Wide385 → Wide258
reduce_258 m =
    let k0 = muladd_fast m.m4 n_c_0 (record { c0 = m.m0; c1 = 0; c2 = 0 }) in
    let k1 = muladd m.m4 n_c_1 (muladd m.m5 n_c_0 (sumadd_fast m.m1 (extract_fast k0))) in
    let k2 = sumadd m.m4 (muladd m.m5 n_c_1 (muladd m.m6 n_c_0 (sumadd m.m2 (extract k1)))) in
    let k3 = sumadd_fast m.m5 (muladd_fast m.m6 n_c_1 (sumadd_fast m.m3 (extract k2))) in
    record { p0 = k0.c0; p1 = k1.c0; p2 = k2.c0; p3 = k3.c0; p4 = add32 (extract_fast k3).c0 m.m6 }

unfoldable pub reduce_256 : Wide258 → Scalar
reduce_256 p =
    let (r, c) = carry (p.p0 + n_c_0 * p.p4) (p.p1 + n_c_1 * p.p4) (p.p2 + p.p4) p.p3 in
    reduce r (c + to_bit (check_overflow r))

unfoldable pub reduce_512 : Wide → Scalar
reduce_512 l = reduce_256 (reduce_258 (reduce_385 l))

unfoldable pub mul : Scalar → Scalar → Scalar
mul a b = reduce_512 (mul_512 a b)

unfoldable pub sqr : Scalar → Scalar
sqr a = reduce_512 (sqr_512 a)
