-- ===== src/Secp256k1/Group/Affine.antt =====
-- The operations between the two kinds of coordinates, and those on one point.
use simple_standalone_versio.Base.{
  ℕ, ◌+◌, ◌-◌, ◌*◌, ◌%◌, ◌≡◌, inl, inr, refl, sym, ap, ◌∙◌, false, Bool-cases, ◌==◌, arith,
}
use simple_standalone_versio.Secp256k1.Powers.{power, mul_cong}
use simple_standalone_versio.Secp256k1.Field.{Fe}
use simple_standalone_versio.Secp256k1.Field.Inverse.{inv, value-inv}
use simple_standalone_versio.Secp256k1.Field.Value.{value, prime, HasMagnitude}
use simple_standalone_versio.Secp256k1.Group.{
  Ge, Gej, ge_set_gej, gej_neg, gej_rescale, gej_eq_x_var, ge_mul_lambda, beta,
}
use simple_standalone_versio.Secp256k1.Group.Curve.{
  AreOnCurve, square_negated, cube_cong, congruent-AreOnCurve,
}
use simple_standalone_versio.Secp256k1.Group.Residue.{
  ◌≈◌, itself-Stands, weaker-Stands, mul-Stands_plain, sqr-Stands_plain, normalize_weak-Stands,
  negate-Stands, plain-Stands, equal_var-Stands,
}
use simple_standalone_versio.Secp256k1.Group.Valid.{
  AreBounded, IsPoint, IsGePoint, on_curve-IsPoint, IsPoint-on_curve, on_curve-IsGePoint,
  IsGePoint-on_curve,
}
use simple_standalone_versio.Secp256k1.Group.Sum.{scaled_curve}
use simple_standalone_versio.Secp256k1.Group.Mixed.{moved_curve}

-- `gej_eq_x_var` compares `x * z ^ 2` with the first coordinate: that is, `x` with the point's, without an
-- inverse.
pub gej_eq_x_var_lem :
    (x : Fe) (a : Gej)
    → HasMagnitude 8 x
    → AreBounded a
    → gej_eq_x_var x a ≡ ((value a.z * value a.z * value x) % prime == value a.x % prime)
unfolding gej_eq_x_var
gej_eq_x_var_lem x a bx (ax, ay, az) =
    equal_var-Stands (omega arith)
      (mul-Stands_plain (omega arith) (omega arith)
        (sqr-Stands_plain (omega arith) (itself-Stands 8 a.z az)) (itself-Stands 8 x bx))
      (normalize_weak-Stands (omega arith) (itself-Stands 8 a.x ax))

negated_curve : (x y z v : ℕ) → v + y ≈ 0 → AreOnCurve x y z → AreOnCurve x v z
negated_curve x y z v e curve = square_negated v y e ∙ curve

-- The opposite of a point is a point, with the opposite second coordinate.
pub gej_neg-IsPoint :
    (a : Gej) → IsPoint a → IsPoint (gej_neg a) × (value (gej_neg a).y + value a.y ≈ 0)
unfolding gej_neg
gej_neg-IsPoint a pa =
    let y =
      negate-Stands 1 (omega arith)
        (normalize_weak-Stands (omega arith) (itself-Stands 8 a.y pa.0.1)) in
    let bounded : AreBounded (gej_neg a) =
      (pa.0.0, (weaker-Stands 8 (omega arith) y).limbs, pa.0.2) in
    (
      elim (Bool-cases a.infinity) [
        | inl e ↦ (bounded, inl e)
        | inr e ↦
            on_curve-IsPoint (gej_neg a) bounded e
              (negated_curve _ (value a.y) _ _ y.difference (IsPoint-on_curve a pa e))
      ],
      y.difference,
    )

-- `gej_rescale` keeps a point a point.
pub gej_rescale-IsPoint :
    (a : Gej) (s : Fe) → IsPoint a → HasMagnitude 8 s → IsPoint (gej_rescale a s)
unfolding gej_rescale
gej_rescale-IsPoint a s pa bs =
    let i = itself-Stands 8 s bs in
    let i2 = sqr-Stands_plain (omega arith) i in
    let x = mul-Stands_plain (omega arith) (omega arith) (itself-Stands 8 a.x pa.0.0) i2 in
    let y0 = mul-Stands_plain (omega arith) (omega arith) (itself-Stands 8 a.y pa.0.1) i2 in
    let y = mul-Stands_plain (omega arith) (omega arith) y0 i in
    let z = mul-Stands_plain (omega arith) (omega arith) (itself-Stands 8 a.z pa.0.2) i in
    let bounded : AreBounded (gej_rescale a s) = (
      (weaker-Stands 8 (omega arith) x).limbs,
      (weaker-Stands 8 (omega arith) y).limbs,
      (weaker-Stands 8 (omega arith) z).limbs,
    ) in
    elim (Bool-cases a.infinity) [
      | inl e ↦ (bounded, inl e)
      | inr e ↦ on_curve-IsPoint (gej_rescale a s) bounded e (
          congruent-AreOnCurve _ _ _ _ _ _ (plain-Stands x) (plain-Stands y) (plain-Stands z)
            (scaled_curve _ _ _ (value s) (IsPoint-on_curve a pa e)))
    ]

-- undoing a division by `z ^ 2` and `z ^ 3`
undo_square : (x u z i : ℕ) → z * i ≈ 1 → u ≈ x * (i * i) → u * (z * z) ≈ x
undo_square x u z i e f =
    let g = mul_cong prime u (z * z) (x * (i * i)) (z * z) f (omega arith) in
    let s = mul_cong prime (z * i) (z * i) 1 1 e e in
    let t = mul_cong prime x (z * i * (z * i)) x 1 (omega arith) s in omega arith

undo_cube : (y v z i : ℕ) → z * i ≈ 1 → v ≈ y * (i * (i * i)) → v * (z * z * z) ≈ y
undo_cube y v z i e f =
    let g = mul_cong prime v (z * z * z) (y * (i * (i * i))) (z * z * z) f (omega arith) in
    let c = cube_cong (z * i) 1 e in
    let t = mul_cong prime y (z * i * (z * i) * (z * i)) y 1 (omega arith) c in omega arith

regroup : (y i : ℕ) → y * (i * (i * i)) ≡ y * (i * i) * i
regroup y i = omega arith

-- Where the power prime - 1 of `z` is 1, as Fermat's theorem says of a `z` that is no multiple of the prime,
-- `ge_set_gej` gives the point in affine coordinates: `x * z ^ 2` and `y * z ^ 3` are the old coordinates
-- modulo the prime, and the result is on the curve.
pub ge_set_gej_lem :
    (a : Gej)
    → IsPoint a
    → a.infinity ≡ false
    → power (value a.z) (prime - 1) ≈ 1
    → let g = (ge_set_gej a).0 in
      let z = value a.z in
      IsGePoint g
      × (g.infinity ≡ false)
      × (value g.x * (z * z) ≈ value a.x)
      × (value g.y * (z * z * z) ≈ value a.y)
unfolding ge_set_gej
ge_set_gej_lem a pa finite fermat =
    let (e, product, bi) = value-inv a.z pa.0.2 in
    let i = itself-Stands 8 (inv a.z) bi in
    let i2 = sqr-Stands_plain (omega arith) i in
    let i3 = mul-Stands_plain (omega arith) (omega arith) i i2 in
    let one = mul-Stands_plain (omega arith) (omega arith) (itself-Stands 8 a.z pa.0.2) i in
    let inverse : value a.z * value (inv a.z) ≈ 1 = sym (plain-Stands one) ∙ product ∙ fermat in
    let x = mul-Stands_plain (omega arith) (omega arith) (itself-Stands 8 a.x pa.0.0) i2 in
    let y = mul-Stands_plain (omega arith) (omega arith) (itself-Stands 8 a.y pa.0.1) i3 in
    let curve =
      congruent-AreOnCurve _ _ 1 _ _ 1 (plain-Stands x)
        (plain-Stands y ∙ ap (λ t. t % prime) (regroup (value a.y) (value (inv a.z)))) refl
        (moved_curve _ _ _ (value (inv a.z)) 1 (IsPoint-on_curve a pa finite) inverse) in
    (
      on_curve-IsGePoint (ge_set_gej a).0 (weaker-Stands 8 (omega arith) x).limbs
          (weaker-Stands 8 (omega arith) y).limbs finite curve,
      finite,
      undo_square _ _ (value a.z) _ inverse (plain-Stands x),
      undo_cube _ _ (value a.z) _ inverse (plain-Stands y),
    )

lambda_curve : (x y u b : ℕ) → b * b * b ≈ 1 → u ≈ x * b → AreOnCurve x y 1 → AreOnCurve u y 1
lambda_curve x y u b e f curve =
    let c = cube_cong u (x * b) f in
    let t = mul_cong prime (x * x * x) (b * b * b) (x * x * x) 1 (omega arith) e in omega arith

-- `ge_mul_lambda` keeps a point a point: `beta` is a cube root of 1.
pub ge_mul_lambda-IsGePoint : (a : Ge) → IsGePoint a → IsGePoint (ge_mul_lambda a)
unfolding ge_mul_lambda
ge_mul_lambda-IsGePoint a pa =
    let cube : value beta * value beta * value beta ≈ 1 = refl in
    let b =
      itself-Stands 8 beta (omega arith, omega arith, omega arith, omega arith, omega arith) in
    let x = mul-Stands_plain (omega arith) (omega arith) (itself-Stands 8 a.x pa.0.0) b in
    let bx = (weaker-Stands 8 (omega arith) x).limbs in
    elim (Bool-cases a.infinity) [
      | inl e ↦ ((bx, pa.0.1), inl e)
      | inr e ↦ on_curve-IsGePoint (ge_mul_lambda a) bx pa.0.1 e (
          lambda_curve (value a.x) (value a.y) _ (value beta) cube (plain-Stands x)
            (IsGePoint-on_curve a pa e))
    ]
