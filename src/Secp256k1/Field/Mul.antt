-- ===== src/Secp256k1/Field/Mul.antt =====
-- Products and squares of field elements
-- (crypto/secp256k1/libsecp256k1/src/field_5x52_int128_impl.h). `c` and `d` are 128-bit accumulators,
-- and a name is bound again where the code assigns to it.
pub mod Fold
pub mod Product
use simple_standalone_versio.Base.{ℕ, ◌+◌, ◌*◌, ◌/◌, ◌%◌, ◌^◌, bit_or, u64_mod}
use simple_standalone_versio.Secp256k1.Field.{Fe, mul64}

abbrev pub add128 : ℕ → ℕ → ℕ
add128 a b = (a + b) % 2 ^ 128

abbrev pub mul128 : ℕ → ℕ → ℕ
mul128 a b = (a * b) % 2 ^ 128

-- `R`
abbrev pub fold_260 : ℕ
fold_260 = 68719492368

-- What `mul_inner` and `sqr_inner` do with the sums of products: `p0` is the sum that goes with
-- 2 ^ 0, and so on in steps of 52 bits up to `p8`.
unfoldable pub reduce_columns : (p0 p1 p2 p3 p4 p5 p6 p7 p8 : ℕ) → Fe
reduce_columns p0 p1 p2 p3 p4 p5 p6 p7 p8 =
    let d = p3 in
    let c = p8 in
    let d = add128 d (mul128 (c % 2 ^ 52) fold_260) in
    let c = c / 2 ^ 52 in
    let t3 = d % 2 ^ 52 in
    let d = d / 2 ^ 52 in
    let d = add128 d p4 in
    let d = add128 d (mul128 c fold_260) in
    let t4 = d % 2 ^ 52 in
    let d = d / 2 ^ 52 in
    let tx = t4 / 2 ^ 48 in
    let t4 = t4 % 2 ^ 48 in
    let c = p0 in
    let d = add128 d p5 in
    let u0 = d % 2 ^ 52 in
    let d = d / 2 ^ 52 in
    let u0 = bit_or (mul64 u0 16) tx in
    let c = add128 c (mul128 u0 (fold_260 / 16)) in
    let r0 = c % 2 ^ 52 in
    let c = c / 2 ^ 52 in
    let c = add128 c p1 in
    let d = add128 d p6 in
    let c = add128 c (mul128 (d % 2 ^ 52) fold_260) in
    let d = d / 2 ^ 52 in
    let r1 = c % 2 ^ 52 in
    let c = c / 2 ^ 52 in
    let c = add128 c p2 in
    let d = add128 d p7 in
    let c = add128 c (mul128 (d % 2 ^ 52) fold_260) in
    let d = d / 2 ^ 52 in
    let r2 = c % 2 ^ 52 in
    let c = c / 2 ^ 52 in
    let c = add128 c (add128 (mul128 d fold_260) t3) in
    let r3 = c % 2 ^ 52 in
    let c = c / 2 ^ 52 in
    let c = add128 c t4 in record { n0 = r0; n1 = r1; n2 = r2; n3 = r3; n4 = c % u64_mod }

unfoldable pub mul_inner : Fe → Fe → Fe
mul_inner a b =
    reduce_columns (mul128 a.n0 b.n0) (add128 (mul128 a.n0 b.n1) (mul128 a.n1 b.n0))
      (add128 (add128 (mul128 a.n0 b.n2) (mul128 a.n1 b.n1)) (mul128 a.n2 b.n0))
      (add128 (add128 (add128 (mul128 a.n0 b.n3) (mul128 a.n1 b.n2)) (mul128 a.n2 b.n1))
        (mul128 a.n3 b.n0))
      (add128
        (add128 (add128 (add128 (mul128 a.n0 b.n4) (mul128 a.n1 b.n3)) (mul128 a.n2 b.n2))
          (mul128 a.n3 b.n1))
        (mul128 a.n4 b.n0))
      (add128 (add128 (add128 (mul128 a.n1 b.n4) (mul128 a.n2 b.n3)) (mul128 a.n3 b.n2))
        (mul128 a.n4 b.n1))
      (add128 (add128 (mul128 a.n2 b.n4) (mul128 a.n3 b.n3)) (mul128 a.n4 b.n2))
      (add128 (mul128 a.n3 b.n4) (mul128 a.n4 b.n3)) (mul128 a.n4 b.n4)

-- `a4 *= 2` and `a0 *= 2` stand between the columns that use the old and the new value.
unfoldable pub sqr_inner : Fe → Fe
sqr_inner a =
    let a0 = mul64 a.n0 2 in
    let a4 = mul64 a.n4 2 in
    reduce_columns (mul128 a.n0 a.n0) (mul128 a0 a.n1) (add128 (mul128 a0 a.n2) (mul128 a.n1 a.n1))
      (add128 (mul128 (mul64 a.n0 2) a.n3) (mul128 (mul64 a.n1 2) a.n2))
      (add128 (add128 (mul128 a.n0 a4) (mul128 (mul64 a.n1 2) a.n3)) (mul128 a.n2 a.n2))
      (add128 (mul128 a.n1 a4) (mul128 (mul64 a.n2 2) a.n3))
      (add128 (mul128 a.n2 a4) (mul128 a.n3 a.n3)) (mul128 a.n3 a4) (mul128 a.n4 a.n4)

-- `mul` and `sqr` of field_5x52_impl.h
unfoldable pub mul : Fe → Fe → Fe
mul a b = mul_inner a b

unfoldable pub sqr : Fe → Fe
sqr a = sqr_inner a
