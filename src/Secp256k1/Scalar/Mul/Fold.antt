-- ===== src/Secp256k1/Scalar/Mul/Fold.antt =====
-- `reduce_512` folds the high half of a product in by 2 ^ 256 ≡ n_c modulo the order.
use simple_standalone_versio.Base.{
  ℕ, ◌+◌, ◌*◌, ◌/◌, ◌%◌, ◌^◌, ◌<◌, ◌≤◌, ◌≡◌, ◌∙◌, ap, u64_mod, arith,
}
use simple_standalone_versio.Secp256k1.Scalar.{Scalar, n_c_0, n_c_1, carry}
use simple_standalone_versio.Secp256k1.Scalar.Carry.{value, AreLimbs, value-carry, carry-AreLimbs}
use simple_standalone_versio.Secp256k1.Scalar.Reduce.{order, value-reduce, reduce-AreLimbs}
use simple_standalone_versio.Secp256k1.Scalar.Accumulator.Laws.{
  c0_lem, loaded-IsSum, muladd-IsSum, muladd_fast-IsSum, sumadd-IsSum, sumadd_fast-IsSum,
  extract-IsSum, extract_fast-IsSum,
}
use simple_standalone_versio.Secp256k1.Scalar.Mul.{
  Wide, Wide385, Wide258, mul_512, reduce_385, reduce_258, reduce_256, reduce_512, mul,
}
use simple_standalone_versio.Secp256k1.Scalar.Mul.Columns.{wide_value, AreWideLimbs, mul_512_lem}

-- 2 ^ 256 modulo the order
abbrev n_c : ℕ
n_c = n_c_0 + u64_mod * n_c_1 + 2 ^ 128

abbrev high_385 : Wide385 → ℕ
high_385 m = m.m4 + 2 ^ 64 * m.m5 + 2 ^ 128 * m.m6

abbrev value_385 : Wide385 → ℕ
value_385 m = m.m0 + 2 ^ 64 * m.m1 + 2 ^ 128 * m.m2 + 2 ^ 192 * m.m3 + 2 ^ 256 * high_385 m

abbrev value_258 : Wide258 → ℕ
value_258 p = p.p0 + 2 ^ 64 * p.p1 + 2 ^ 128 * p.p2 + 2 ^ 192 * p.p3 + 2 ^ 256 * p.p4

abbrev wide_high : Wide → ℕ
wide_high l = l.l4 + 2 ^ 64 * l.l5 + 2 ^ 128 * l.l6 + 2 ^ 192 * l.l7

abbrev Are385 : Wide385 → Type 0
Are385 m =
    (m.m0 < u64_mod)
    × (m.m1 < u64_mod)
    × (m.m2 < u64_mod)
    × (m.m3 < u64_mod)
    × (m.m4 < u64_mod)
    × (m.m5 < u64_mod)
    × (m.m6 ≤ 1)
    × (high_385 m ≤ n_c)

abbrev Are258 : Wide258 → Type 0
Are258 p = (p.p0 < u64_mod) × (p.p1 < u64_mod) × (p.p2 < u64_mod) × (p.p3 < u64_mod) × (p.p4 ≤ 2)

-- What the accumulator holds at the `extract` of each limb.
module _ (l : Wide) where
  abbrev at_0 : ℕ
  at_0 = l.l0 + l.l4 * n_c_0

  abbrev at_1 : ℕ
  at_1 = at_0 / u64_mod + l.l1 + l.l5 * n_c_0 + l.l4 * n_c_1

  abbrev at_2 : ℕ
  at_2 = at_1 / u64_mod + l.l2 + l.l6 * n_c_0 + l.l5 * n_c_1 + l.l4

  abbrev at_3 : ℕ
  at_3 = at_2 / u64_mod + l.l3 + l.l7 * n_c_0 + l.l6 * n_c_1 + l.l5

  abbrev at_4 : ℕ
  at_4 = at_3 / u64_mod + l.l7 * n_c_1 + l.l6

  abbrev at_5 : ℕ
  at_5 = at_4 / u64_mod + l.l7

fold_385 :
    (l : Wide) (m : Wide385)
    → AreWideLimbs l
    → m.m0 ≡ at_0 l % u64_mod
    → m.m1 ≡ at_1 l % u64_mod
    → m.m2 ≡ at_2 l % u64_mod
    → m.m3 ≡ at_3 l % u64_mod
    → m.m4 ≡ at_4 l % u64_mod
    → m.m5 ≡ at_5 l % u64_mod
    → m.m6 ≡ at_5 l / u64_mod % 2 ^ 32
    → (at_5 l / u64_mod ≤ 1) × Are385 m × (value_385 m + wide_high l * order ≡ wide_value l)
fold_385 l m (b0, b1, b2, b3, b4, b5, b6, b7) e0 e1 e2 e3 e4 e5 e6 = (
  omega arith,
  (
    omega arith,
    omega arith,
    omega arith,
    omega arith,
    omega arith,
    omega arith,
    omega arith,
    omega arith,
  ),
  omega arith,
)

reduce_385_lem :
    (l : Wide)
    → AreWideLimbs l
    → Are385 (reduce_385 l) × (value_385 (reduce_385 l) + wide_high l * order ≡ wide_value l)
unfolding reduce_385
reduce_385_lem l limbs =
    let (b0, b1, b2, b3, b4, b5, b6, b7) = limbs in
    let c0 : n_c_0 < u64_mod = omega arith in
    let c1 : n_c_1 < u64_mod = omega arith in
    let s0 =
      muladd_fast-IsSum (omega arith) (loaded-IsSum l.l0 b0) l.l4 n_c_0 b4 c0 (omega arith) in
    let (e0, x0) = extract_fast-IsSum (omega arith) s0 (omega arith) in
    let s1 = sumadd_fast-IsSum (omega arith) x0 l.l1 b1 (omega arith) in
    let s1 = muladd-IsSum (omega arith) s1 l.l5 n_c_0 b5 c0 in
    let s1 = muladd-IsSum (omega arith) s1 l.l4 n_c_1 b4 c1 in
    let (e1, x1) = extract-IsSum (omega arith) s1 in
    let s2 = sumadd-IsSum (omega arith) x1 l.l2 b2 in
    let s2 = muladd-IsSum (omega arith) s2 l.l6 n_c_0 b6 c0 in
    let s2 = muladd-IsSum (omega arith) s2 l.l5 n_c_1 b5 c1 in
    let s2 = sumadd-IsSum (omega arith) s2 l.l4 b4 in
    let (e2, x2) = extract-IsSum (omega arith) s2 in
    let s3 = sumadd-IsSum (omega arith) x2 l.l3 b3 in
    let s3 = muladd-IsSum (omega arith) s3 l.l7 n_c_0 b7 c0 in
    let s3 = muladd-IsSum (omega arith) s3 l.l6 n_c_1 b6 c1 in
    let s3 = sumadd-IsSum (omega arith) s3 l.l5 b5 in
    let (e3, x3) = extract-IsSum (omega arith) s3 in
    let s4 = muladd-IsSum (omega arith) x3 l.l7 n_c_1 b7 c1 in
    let s4 = sumadd-IsSum (omega arith) s4 l.l6 b6 in
    let (e4, x4) = extract-IsSum (omega arith) s4 in
    let s5 = sumadd_fast-IsSum (omega arith) x4 l.l7 b7 (omega arith) in
    let (e5, x5) = extract_fast-IsSum (omega arith) s5 (omega arith) in
    let e6 = ap (λ x. x % 2 ^ 32) (c0_lem x5 (omega arith)) in
    let (carried, done, e) = fold_385 l (reduce_385 l) limbs e0 e1 e2 e3 e4 e5 e6 in (done, e)

-- What the accumulator holds at the `extract` of each limb, in the second part.
module _ (m : Wide385) where
  abbrev in_0 : ℕ
  in_0 = m.m0 + m.m4 * n_c_0

  abbrev in_1 : ℕ
  in_1 = in_0 / u64_mod + m.m1 + m.m5 * n_c_0 + m.m4 * n_c_1

  abbrev in_2 : ℕ
  in_2 = in_1 / u64_mod + m.m2 + m.m6 * n_c_0 + m.m5 * n_c_1 + m.m4

  abbrev in_3 : ℕ
  in_3 = in_2 / u64_mod + m.m3 + m.m6 * n_c_1 + m.m5

fold_258 :
    (m : Wide385) (p : Wide258)
    → Are385 m
    → p.p0 ≡ in_0 m % u64_mod
    → p.p1 ≡ in_1 m % u64_mod
    → p.p2 ≡ in_2 m % u64_mod
    → p.p3 ≡ in_3 m % u64_mod
    → p.p4 ≡ (in_3 m / u64_mod + m.m6) % 2 ^ 32
    → Are258 p × (value_258 p + high_385 m * order ≡ value_385 m)
fold_258 m p (b0, b1, b2, b3, b4, b5, b6, b7) e0 e1 e2 e3 e4 =
    ((omega arith, omega arith, omega arith, omega arith, omega arith), omega arith)

reduce_258_lem :
    (m : Wide385)
    → Are385 m
    → Are258 (reduce_258 m) × (value_258 (reduce_258 m) + high_385 m * order ≡ value_385 m)
unfolding reduce_258
reduce_258_lem m limbs =
    let (b0, b1, b2, b3, b4, b5, b6, b7) = limbs in
    let c0 : n_c_0 < u64_mod = omega arith in
    let c1 : n_c_1 < u64_mod = omega arith in
    let t6 : m.m6 < u64_mod = omega arith in
    let s0 =
      muladd_fast-IsSum (omega arith) (loaded-IsSum m.m0 b0) m.m4 n_c_0 b4 c0 (omega arith) in
    let (e0, x0) = extract_fast-IsSum (omega arith) s0 (omega arith) in
    let s1 = sumadd_fast-IsSum (omega arith) x0 m.m1 b1 (omega arith) in
    let s1 = muladd-IsSum (omega arith) s1 m.m5 n_c_0 b5 c0 in
    let s1 = muladd-IsSum (omega arith) s1 m.m4 n_c_1 b4 c1 in
    let (e1, x1) = extract-IsSum (omega arith) s1 in
    let s2 = sumadd-IsSum (omega arith) x1 m.m2 b2 in
    let s2 = muladd-IsSum (omega arith) s2 m.m6 n_c_0 t6 c0 in
    let s2 = muladd-IsSum (omega arith) s2 m.m5 n_c_1 b5 c1 in
    let s2 = sumadd-IsSum (omega arith) s2 m.m4 b4 in
    let (e2, x2) = extract-IsSum (omega arith) s2 in
    let s3 = sumadd_fast-IsSum (omega arith) x2 m.m3 b3 (omega arith) in
    let s3 = muladd_fast-IsSum (omega arith) s3 m.m6 n_c_1 t6 c1 (omega arith) in
    let s3 = sumadd_fast-IsSum (omega arith) s3 m.m5 b5 (omega arith) in
    let (e3, x3) = extract_fast-IsSum (omega arith) s3 (omega arith) in
    let e4 = ap (λ x. (x + m.m6) % 2 ^ 32) (c0_lem x3 (omega arith)) in
    fold_258 m (reduce_258 m) limbs e0 e1 e2 e3 e4

reduce_256_lem :
    (p : Wide258)
    → Are258 p
    → (value (reduce_256 p) ≡ value_258 p % order) × AreLimbs (reduce_256 p)
unfolding reduce_256
reduce_256_lem p (b0, b1, b2, b3, b4) =
    let (r, c) = carry (p.p0 + n_c_0 * p.p4) (p.p1 + n_c_1 * p.p4) (p.p2 + p.p4) p.p3 in
    let e : value r + 2 ^ 256 * c + p.p4 * order ≡ value_258 p = omega (
      arith,
      value-carry (p.p0 + n_c_0 * p.p4) (p.p1 + n_c_1 * p.p4) (p.p2 + p.p4) p.p3 (omega arith)
          (omega arith) (omega arith) (omega arith),
    ) in
    let (v, o) = value-reduce r c (carry-AreLimbs _ _ _ _) (omega arith) in
    (v ∙ omega arith, reduce-AreLimbs _ _)

pub reduce_512_lem :
    (l : Wide)
    → AreWideLimbs l
    → (value (reduce_512 l) ≡ wide_value l % order) × AreLimbs (reduce_512 l)
unfolding reduce_512
reduce_512_lem l limbs =
    let (a, e) = reduce_385_lem l limbs in
    let (b, f) = reduce_258_lem (reduce_385 l) a in
    let (v, done) = reduce_256_lem (reduce_258 (reduce_385 l)) b in (v ∙ omega arith, done)

-- The product of any two numbers on four limbs of 64 bits is their product modulo the order, on
-- limbs of 64 bits.
pub value-mul :
    (a b : Scalar)
    → AreLimbs a
    → AreLimbs b
    → (value (mul a b) ≡ (value a * value b) % order) × AreLimbs (mul a b)
unfolding mul
value-mul a b la lb =
    let (limbs, e) = mul_512_lem a b la lb in
    let (v, done) = reduce_512_lem (mul_512 a b) limbs in (v ∙ ap (λ x. x % order) e, done)
