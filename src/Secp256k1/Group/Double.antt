-- ===== src/Secp256k1/Group/Double.antt =====
-- `gej_double_var`: the coordinates of the double, their magnitudes, and that it is on the curve.
use mathlib.Core.Path.{subst}
use simple_standalone_versio.Base.{
  ℕ, ◌+◌, ◌*◌, ◌%◌, ◌≡◌, inl, inr, refl, sym, ap, Bool, true, false, Bool-cases, if◌then◌else◌,
  arith,
}
use simple_standalone_versio.Secp256k1.Powers.{mul_cong}
use simple_standalone_versio.Secp256k1.Field.{Fe, set_int, mul_int, normalize_weak}
use simple_standalone_versio.Secp256k1.Field.Value.{value, prime}
use simple_standalone_versio.Secp256k1.Group.{Gej, doubled, gej_double_var}
use simple_standalone_versio.Secp256k1.Group.Curve.{double-AreOnCurve}
use simple_standalone_versio.Secp256k1.Group.Residue.{
  ◌≈◌, Stands, itself-Stands, as-Stands, weaker-Stands, mul-Stands, mul-Stands_plain,
  sqr-Stands_plain, mul_int-Stands, add-Stands, negate-Stands, normalize_weak-Stands, plain-Stands,
}
use simple_standalone_versio.Secp256k1.Group.Valid.{
  AreBounded, IsPoint, on_curve-IsPoint, IsPoint-on_curve,
}

-- The coordinates of the double: `9 * x ^ 4 - 8 * x * y ^ 2`, `36 * x ^ 3 * y ^ 2 - 27 * x ^ 6 - 8 * y ^ 4`
-- and `2 * y * z`.
doubled-Stands :
    (a : Gej) (x y z : ℕ)
    → Stands 8 a.x x 0
    → Stands 8 a.y y 0
    → Stands 8 a.z z 0
    → Stands 6 (doubled a).x (9 * (x * x * (x * x))) (8 * (x * (y * y)))
      × Stands 4
          (doubled a).y
          (36 * (x * x * x * (y * y)))
          (27 * (x * x * x * (x * x * x)) + 8 * (y * y * (y * y)))
      × Stands 2 (doubled a).z (2 * (y * z)) 0
unfolding doubled
doubled-Stands a x y z sx sy sz =
    let t1 =
      as-Stands (3 * (x * x)) 0 (mul_int-Stands 3 (omega arith) (sqr-Stands_plain (omega arith) sx))
        (ap (λ t. t % prime) (omega arith)) in
    let t2 = sqr-Stands_plain (omega arith) t1 in
    let t3 =
      as-Stands (2 * (y * y)) 0 (mul_int-Stands 2 (omega arith) (sqr-Stands_plain (omega arith) sy))
        (ap (λ t. t % prime) (omega arith)) in
    let t4 = mul_int-Stands 2 (omega arith) (sqr-Stands_plain (omega arith) t3) in
    let xyy = mul-Stands_plain (omega arith) (omega arith) t3 sx in
    let x' =
      add-Stands (omega arith) (negate-Stands 4 (omega arith) (mul_int-Stands 4 (omega arith) xyy))
        t2 in
    let m =
      add-Stands (omega arith) (mul_int-Stands 6 (omega arith) xyy)
        (negate-Stands 1 (omega arith) t2) in
    let y' =
      add-Stands (omega arith) (mul-Stands (omega arith) (omega arith) t1 m)
        (negate-Stands 2 (omega arith) t4) in
    let z' = mul_int-Stands 2 (omega arith) (mul-Stands_plain (omega arith) (omega arith) sz sy) in
    (
      as-Stands _ _ x' (ap (λ t. t % prime) (omega arith)),
      as-Stands _ _ y' (ap (λ t. t % prime) (omega arith)),
      as-Stands _ _ z' (ap (λ t. t % prime) (omega arith)),
    )

pub doubled-IsPoint : (a : Gej) → IsPoint a → a.infinity ≡ false → IsPoint (doubled a)
unfolding doubled
doubled-IsPoint a point finite =
    let (x, y, z) =
      doubled-Stands a (value a.x) (value a.y) (value a.z) (itself-Stands 8 a.x point.0.0)
        (itself-Stands 8 a.y point.0.1) (itself-Stands 8 a.z point.0.2) in
    on_curve-IsPoint (doubled a)
      (
        (weaker-Stands 8 (omega arith) x).limbs,
        (weaker-Stands 8 (omega arith) y).limbs,
        (weaker-Stands 8 (omega arith) z).limbs,
      )
      refl
      (double-AreOnCurve (value a.x) (value a.y) (value a.z) _ _ _ (IsPoint-on_curve a point finite)
        x.difference y.difference (plain-Stands z))

ratio_lem : (v z y r : ℕ) → v ≈ 2 * (y * z) → r ≈ y * 2 → v ≈ z * r
ratio_lem v z y r e f = let g = mul_cong prime z r z (y * 2) (omega arith) f in omega arith

-- The double of a point that is not infinity is on the curve. Its coordinates are
-- `9 * x ^ 4 - 8 * x * y ^ 2`, `36 * x ^ 3 * y ^ 2 - 27 * x ^ 6 - 8 * y ^ 4` and `2 * y * z` modulo the
-- prime, and `rzr` is the factor from `z` to the last one.
pub gej_double_var_lem :
    (r a : Gej)
    → IsPoint a
    → a.infinity ≡ false
    → let x = value a.x in
      let y = value a.y in
      let d = (gej_double_var r a).0 in
      IsPoint d
      × (d.infinity ≡ false)
      × (value d.x + 8 * (x * (y * y)) ≈ 9 * (x * x * (x * x)))
      × (value d.y + (27 * (x * x * x * (x * x * x)) + 8 * (y * y * (y * y)))
          ≈ 36 * (x * x * x * (y * y)))
      × (value d.z ≈ 2 * (y * value a.z))
      × (value d.z ≈ value a.z * value (gej_double_var r a).1)
unfolding gej_double_var doubled
gej_double_var_lem r a point finite =
    let sy = itself-Stands 8 a.y point.0.1 in
    let sz = itself-Stands 8 a.z point.0.2 in
    let (x, y, z) =
      doubled-Stands a (value a.x) (value a.y) (value a.z) (itself-Stands 8 a.x point.0.0) sy sz in
    let ratio = mul_int-Stands 2 (omega arith) (normalize_weak-Stands (omega arith) sy) in
    rw finite (
      doubled-IsPoint a point finite,
      refl,
      x.difference,
      y.difference,
      plain-Stands z,
      ratio_lem _ (value a.z) (value a.y) _ (plain-Stands z) (plain-Stands ratio),
    )

-- Infinity included, and with any old result of bounded magnitudes.
pub gej_double_var-IsPoint : (r a : Gej) → AreBounded r → IsPoint a → IsPoint (gej_double_var r a).0
unfolding gej_double_var
gej_double_var-IsPoint r a bounded point =
    let result : Bool → Gej × Fe = λ b.
      if b
      then (record r { infinity = true }, set_int 1)
      else (doubled a, mul_int (normalize_weak a.y) 2) in
    elim (Bool-cases a.infinity) [
      | inl e ↦ subst (λ b. IsPoint (result b).0) (sym e) (bounded, inl refl)
      | inr e ↦ subst (λ b. IsPoint (result b).0) (sym e) (doubled-IsPoint a point e)
    ]
