-- ===== src/Secp256k1/Field/Mul/Fold.antt =====
-- The reduction that `mul_inner` and `sqr_inner` share, over the nine columns `p0` to `p8` of a
-- product. No accumulator wraps, and what is folded is a multiple of the prime.
use simple_standalone_versio.Base.{
  ℕ, ◌+◌, ◌*◌, ◌/◌, ◌%◌, ◌^◌, ◌<◌, ◌≡◌, refl, ◌∙◌, ap, bit_or, bit_or_fields, u64_mod, arith,
}
use simple_standalone_versio.Secp256k1.Field.{Fe, mul64}
use simple_standalone_versio.Secp256k1.Field.Value.{value, prime, HasMagnitude}
use simple_standalone_versio.Secp256k1.Field.Mul.{add128, mul128, fold_260, reduce_columns}

-- the columns of a product of elements of magnitude at most 8
abbrev pub AreColumns : (p0 p1 p2 p3 p4 p5 p6 p7 p8 : ℕ) → Type 0
AreColumns p0 p1 p2 p3 p4 p5 p6 p7 p8 =
    (p0 < 2 ^ 112)
    × (p1 < 2 ^ 113)
    × (p2 < 2 ^ 114)
    × (p3 < 2 ^ 114)
    × (p4 < 2 ^ 114)
    × (p5 < 2 ^ 114)
    × (p6 < 2 ^ 113)
    × (p7 < 2 ^ 109)
    × (p8 < 2 ^ 104)

join_nibble : (u tx : ℕ) → u < 2 ^ 52 → tx < 16 → bit_or (mul64 u 16) tx ≡ u * 16 + tx
join_nibble u tx p q =
    ap (λ x. bit_or x tx) {x = mul64 u 16} {y = u * 2 ^ 4} (omega arith) ∙ bit_or_fields 4 u tx q

-- One accumulation, where it does not wrap.
accumulated :
    (d p x : ℕ)
    → d < 2 ^ 66
    → p < 2 ^ 114
    → x < 2 ^ 66
    → add128 (add128 d p) (mul128 x fold_260) ≡ d + p + x * fold_260
accumulated d p x a b c = omega arith

module _ (p0 p1 p2 p3 p4 p5 p6 p7 p8 : ℕ) (columns : AreColumns p0 p1 p2 p3 p4 p5 p6 p7 p8) where
  -- the same steps without wrap-around
  unfoldable folded : Fe
  folded =
      let d1 = p3 + p8 % 2 ^ 52 * fold_260 in
      let d2 = d1 / 2 ^ 52 + p4 + p8 / 2 ^ 52 * fold_260 in
      let t4 = d2 % 2 ^ 52 in
      let d3 = d2 / 2 ^ 52 + p5 in
      let u = d3 % 2 ^ 52 * 16 + t4 / 2 ^ 48 in
      let c1 = p0 + u * (fold_260 / 16) in
      let d4 = d3 / 2 ^ 52 + p6 in
      let c2 = c1 / 2 ^ 52 + p1 + d4 % 2 ^ 52 * fold_260 in
      let d5 = d4 / 2 ^ 52 + p7 in
      let c3 = c2 / 2 ^ 52 + p2 + d5 % 2 ^ 52 * fold_260 in
      let c4 = c3 / 2 ^ 52 + (d5 / 2 ^ 52 * fold_260 + d1 % 2 ^ 52) in
      record {
        n0 = c1 % 2 ^ 52;
        n1 = c2 % 2 ^ 52;
        n2 = c3 % 2 ^ 52;
        n3 = c4 % 2 ^ 52;
        n4 = c4 / 2 ^ 52 + t4 % 2 ^ 48;
      }

  value-folded :
      (value folded % prime
        ≡ (p0
            + 2 ^ 52 * p1
            + 2 ^ 104 * p2
            + 2 ^ 156 * p3
            + 2 ^ 208 * p4
            + 2 ^ 260 * p5
            + 2 ^ 312 * p6
            + 2 ^ 364 * p7
            + 2 ^ 416 * p8)
          % prime)
      × HasMagnitude 1 folded
  unfolding folded
  value-folded =
      let (b0, b1, b2, b3, b4, b5, b6, b7, b8) = columns in
      (omega arith, (omega arith, omega arith, omega arith, omega arith, omega arith))

  reduce_columns-folded : reduce_columns p0 p1 p2 p3 p4 p5 p6 p7 p8 ≡ folded
  unfolding reduce_columns folded
  reduce_columns-folded =
      let (b0, b1, b2, b3, b4, b5, b6, b7, b8) = columns in
      let d1 = p3 + p8 % 2 ^ 52 * fold_260 in
      let e1 : add128 p3 (mul128 (p8 % 2 ^ 52) fold_260) ≡ d1 = omega arith in
      let f1 : d1 / 2 ^ 52 < 2 ^ 64 = omega arith in
      let e2 = accumulated (d1 / 2 ^ 52) p4 (p8 / 2 ^ 52) (omega arith) b4 (omega arith) in
      let d2 = d1 / 2 ^ 52 + p4 + p8 / 2 ^ 52 * fold_260 in
      let f2 : d2 / 2 ^ 52 < 2 ^ 66 = omega arith in
      let e3 : add128 (d2 / 2 ^ 52) p5 ≡ d2 / 2 ^ 52 + p5 = omega arith in
      let d3 = d2 / 2 ^ 52 + p5 in
      let f3 : d3 / 2 ^ 52 < 2 ^ 65 = omega arith in
      let j = join_nibble (d3 % 2 ^ 52) (d2 % 2 ^ 52 / 2 ^ 48) (omega arith) (omega arith) in
      let u = d3 % 2 ^ 52 * 16 + d2 % 2 ^ 52 / 2 ^ 48 in
      let e4 : add128 p0 (mul128 u (fold_260 / 16)) ≡ p0 + u * (fold_260 / 16) = omega arith in
      let c1 = p0 + u * (fold_260 / 16) in
      let g1 : c1 / 2 ^ 52 < 2 ^ 62 = omega arith in
      let e5 : add128 (d3 / 2 ^ 52) p6 ≡ d3 / 2 ^ 52 + p6 = omega arith in
      let d4 = d3 / 2 ^ 52 + p6 in
      let f4 : d4 / 2 ^ 52 < 2 ^ 62 = omega arith in
      let e6 =
        accumulated (c1 / 2 ^ 52) p1 (d4 % 2 ^ 52) (omega arith) (omega arith) (omega arith) in
      let c2 = c1 / 2 ^ 52 + p1 + d4 % 2 ^ 52 * fold_260 in
      let g2 : c2 / 2 ^ 52 < 2 ^ 64 = omega arith in
      let e7 : add128 (d4 / 2 ^ 52) p7 ≡ d4 / 2 ^ 52 + p7 = omega arith in
      let d5 = d4 / 2 ^ 52 + p7 in
      let f5 : d5 / 2 ^ 52 < 2 ^ 60 = omega arith in
      let e8 =
        accumulated (c2 / 2 ^ 52) p2 (d5 % 2 ^ 52) (omega arith) (omega arith) (omega arith) in
      let c3 = c2 / 2 ^ 52 + p2 + d5 % 2 ^ 52 * fold_260 in
      let g3 : c3 / 2 ^ 52 < 2 ^ 64 = omega arith in
      let e9 : add128 (c3 / 2 ^ 52) (add128 (mul128 (d5 / 2 ^ 52) fold_260) (d1 % 2 ^ 52))
          ≡ c3 / 2 ^ 52 + (d5 / 2 ^ 52 * fold_260 + d1 % 2 ^ 52) =
        omega arith in
      let c4 = c3 / 2 ^ 52 + (d5 / 2 ^ 52 * fold_260 + d1 % 2 ^ 52) in
      let e10 : add128 (c4 / 2 ^ 52) (d2 % 2 ^ 52 % 2 ^ 48) % u64_mod
          ≡ c4 / 2 ^ 52 + d2 % 2 ^ 52 % 2 ^ 48 =
        omega arith in
      rw (e1, e2, e3, j, e4, e5, e6, e7, e8, e9, e10) refl

  pub value-reduce_columns :
      (value (reduce_columns p0 p1 p2 p3 p4 p5 p6 p7 p8) % prime
        ≡ (p0
            + 2 ^ 52 * p1
            + 2 ^ 104 * p2
            + 2 ^ 156 * p3
            + 2 ^ 208 * p4
            + 2 ^ 260 * p5
            + 2 ^ 312 * p6
            + 2 ^ 364 * p7
            + 2 ^ 416 * p8)
          % prime)
      × HasMagnitude 1 (reduce_columns p0 p1 p2 p3 p4 p5 p6 p7 p8)
  value-reduce_columns = rw reduce_columns-folded value-folded
