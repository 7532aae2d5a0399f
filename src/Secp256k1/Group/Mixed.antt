-- ===== src/Secp256k1/Group/Mixed.antt =====
-- The additions of a point in affine coordinates: the sum is a point.
use simple_standalone_versio.Base.{
  ℕ, ◌+◌, ◌*◌, ◌%◌, ◌≡◌, refl, sym, ap, ◌∙◌, Bool, true, false, if◌then◌else◌, arith,
}
use simple_standalone_versio.Secp256k1.Powers.{mul_cong}
use simple_standalone_versio.Secp256k1.Field.{Fe, set_int}
use simple_standalone_versio.Secp256k1.Field.Mul.{mul, sqr}
use simple_standalone_versio.Secp256k1.Field.Value.{value, prime, HasMagnitude}
use simple_standalone_versio.Secp256k1.Group.{Ge, Gej, gej_set_ge, gej_add_ge_var, gej_add_zinv_var}
use simple_standalone_versio.Secp256k1.Group.Curve.{
  sixth, AreOnCurve, sixth_equal, congruent-AreOnCurve,
}
use simple_standalone_versio.Secp256k1.Group.Residue.{
  ◌≈◌, itself-Stands, as-Stands, weaker-Stands, mul-Stands_plain, sqr-Stands_plain,
  normalize_weak-Stands, value-Stands, plain-Stands,
}
use simple_standalone_versio.Secp256k1.Group.Valid.{
  AreBounded, IsPoint, IsGePoint, on_curve-IsPoint, IsPoint-on_curve, gej_set_ge-IsPoint,
  set_int_one, value_one,
}
use simple_standalone_versio.Secp256k1.Group.Sum.{
  sum_of-IsPoint, scaled_curve, difference_lem, pick, sum_cong,
}

-- A point's coordinates moved to another number for `z`.
pub moved_curve :
    (x y z w v : ℕ) → AreOnCurve x y z → z * w ≈ v → AreOnCurve (x * (w * w)) (y * (w * w) * w) v
moved_curve x y z w v e f =
    scaled_curve x y z w e
    ∙ sum_cong (x * (w * w) * (x * (w * w)) * (x * (w * w))) (7 * sixth v) (7 * sixth (z * w))
        (sym (sixth_equal (z * w) v f))

swap : (a b : ℕ) → a * b ≡ b * a
swap a b = omega arith

one_lem : (v z : ℕ) → v ≡ 1 → v * z ≈ z
one_lem v z e = ap (λ t. t % prime) (ap (λ t. t * z) e ∙ omega arith)

-- The sum of a point and a point in affine coordinates is a point, whichever of them is infinity, equal to
-- the other or its opposite. The old result has bounded magnitudes.
pub gej_add_ge_var-IsPoint :
    (r a : Gej) (b : Ge) → AreBounded r → IsPoint a → IsGePoint b → IsPoint (gej_add_ge_var r a b).0
unfolding gej_add_ge_var gej_set_ge
gej_add_ge_var-IsPoint r a b bounded pa pb =
    let pb' = gej_set_ge-IsPoint b pb in
    let za = itself-Stands 8 a.z pa.0.2 in
    let z12 = sqr-Stands_plain (omega arith) za in
    let u1 = normalize_weak-Stands (omega arith) (itself-Stands 8 a.x pa.0.0) in
    let s1 = normalize_weak-Stands (omega arith) (itself-Stands 8 a.y pa.0.1) in
    let u2 = mul-Stands_plain (omega arith) (omega arith) (itself-Stands 8 b.x pb.0.0) z12 in
    let s2 =
      mul-Stands_plain (omega arith) (omega arith)
        (mul-Stands_plain (omega arith) (omega arith) (itself-Stands 8 b.y pb.0.1) z12) za in
    let h = difference_lem u1 u2 in
    let i = difference_lem s1 s2 in
    let z =
      as-Stands _ 0 (mul-Stands_plain (omega arith) (omega arith) za (value-Stands h))
        (ap (λ t. (t + 0) % prime) (swap (value a.z) _)) in
    pick a.infinity b.infinity _ _ _ pb' pa (λ e f.
      sum_of-IsPoint _ _ _ _ (value a.z) (IsPoint-on_curve a pa e)
        (moved_curve _ _ _ (value a.z) (value a.z) (IsPoint-on_curve (gej_set_ge b) pb' f)
          (one_lem _ (value a.z) value_one))
        r a _ bounded pa u1 s1 h i z)

pick_zinv :
    (s t : Bool) (p q w : Gej)
    → IsPoint p
    → (s ≡ false → IsPoint q)
    → (t ≡ false → IsPoint w)
    → IsPoint (if s then p else (if t then q else w))
pick_zinv true t p q w a b c = a
pick_zinv false true p q w a b c = b refl
pick_zinv false false p q w a b c = c refl

inverse_lem : (w z v : ℕ) → w * v ≈ 1 → w * (z * v) ≈ z
inverse_lem w z v e =
    let f = mul_cong prime z (w * v) z 1 (omega arith) e in
    ap (λ t. t % prime) (omega arith) ∙ f ∙ ap (λ t. t % prime) (omega arith)

regroup : (y i : ℕ) → y * (i * i * i) ≡ y * (i * i) * i
regroup y i = omega arith

-- the coordinates in affine form, for a point over a number with the given inverse
unscaled-IsPoint :
    (b : Ge) (bzinv : Fe) (w : ℕ)
    → HasMagnitude 8 b.x
    → HasMagnitude 8 b.y
    → HasMagnitude 8 bzinv
    → AreOnCurve (value b.x) (value b.y) w
    → w * value bzinv ≈ 1
    → b.infinity ≡ false
    → IsPoint (record {
      x = mul b.x (sqr bzinv);
      y = mul b.y (mul (sqr bzinv) bzinv);
      z = set_int 1;
      infinity = b.infinity;
    })
unscaled-IsPoint b bzinv w bx by bi curve inverse finite =
    let i = itself-Stands 8 bzinv bi in
    let i2 = sqr-Stands_plain (omega arith) i in
    let x = mul-Stands_plain (omega arith) (omega arith) (itself-Stands 8 b.x bx) i2 in
    let y =
      mul-Stands_plain (omega arith) (omega arith) (itself-Stands 8 b.y by)
        (mul-Stands_plain (omega arith) (omega arith) i2 i) in
    on_curve-IsPoint _
      (
        (weaker-Stands 8 (omega arith) x).limbs,
        (weaker-Stands 8 (omega arith) y).limbs,
        (weaker-Stands 8 (omega arith) set_int_one).limbs,
      )
      finite
      (congruent-AreOnCurve _ _ 1 _ _ _ (plain-Stands x)
        (plain-Stands y ∙ ap (λ t. t % prime) (regroup (value b.y) (value bzinv)))
        (plain-Stands set_int_one) (moved_curve _ _ w (value bzinv) 1 curve inverse))

-- The sum of a point and one that is given by coordinates over `w`, where `bzinv` is the inverse of `w`
-- modulo the prime, is a point, whichever of them is infinity, equal to the other or its opposite.
pub gej_add_zinv_var-IsPoint :
    (r a : Gej) (b : Ge) (bzinv : Fe) (w : ℕ)
    → AreBounded r
    → IsPoint a
    → HasMagnitude 8 b.x
    → HasMagnitude 8 b.y
    → HasMagnitude 8 bzinv
    → AreOnCurve (value b.x) (value b.y) w
    → w * value bzinv ≈ 1
    → IsPoint (gej_add_zinv_var r a b bzinv)
unfolding gej_add_zinv_var
gej_add_zinv_var-IsPoint r a b bzinv w bounded pa bx by bi curve inverse =
    let za = itself-Stands 8 a.z pa.0.2 in
    let az = mul-Stands_plain (omega arith) (omega arith) za (itself-Stands 8 bzinv bi) in
    let z12 = sqr-Stands_plain (omega arith) az in
    let u1 = normalize_weak-Stands (omega arith) (itself-Stands 8 a.x pa.0.0) in
    let s1 = normalize_weak-Stands (omega arith) (itself-Stands 8 a.y pa.0.1) in
    let u2 = mul-Stands_plain (omega arith) (omega arith) (itself-Stands 8 b.x bx) z12 in
    let s2 =
      mul-Stands_plain (omega arith) (omega arith)
        (mul-Stands_plain (omega arith) (omega arith) (itself-Stands 8 b.y by) z12) az in
    let h = difference_lem u1 u2 in
    let i = difference_lem s1 s2 in
    let z =
      as-Stands _ 0 (mul-Stands_plain (omega arith) (omega arith) za (value-Stands h))
        (ap (λ t. (t + 0) % prime) (swap (value a.z) _)) in
    pick_zinv b.infinity a.infinity _ _ _ pa (unscaled-IsPoint b bzinv w bx by bi curve inverse)
      (λ e.
        sum_of-IsPoint _ _ _ _ (value a.z) (IsPoint-on_curve a pa e)
          (moved_curve _ _ w _ (value a.z) curve (inverse_lem w (value a.z) (value bzinv) inverse))
          r a _ bounded pa u1 s1 h i z)
