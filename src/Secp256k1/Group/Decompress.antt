-- ===== src/Secp256k1/Group/Decompress.antt =====
-- `ge_set_xo_var`: the point with a given first coordinate and the parity of the second.
use mathlib.Core.Path.{subst}
use simple_standalone_versio.Base.{
  ℕ, ◌+◌, ◌-◌, ◌*◌, ◌/◌, ◌%◌, ◌≡◌, inl, inr, refl, sym, ap, ◌∙◌, Bool, true, false, Bool-cases,
  ◌==◌, ==_iff, same_bool, if◌then◌else◌, bit_and, bit_and_step, bit_and_le, not, ◌<◌, arith,
}
use simple_standalone_versio.Secp256k1.Field.{
  Fe, is_odd, normalize, normalize_var, negate, set_int, add,
}
use simple_standalone_versio.Secp256k1.Field.Mul.{mul, sqr}
use simple_standalone_versio.Secp256k1.Field.Inverse.{sqrt_lem, sqrt-HasMagnitude, weaker}
use simple_standalone_versio.Secp256k1.Field.Value.{
  value, prime, HasMagnitude, IsNormalized, negate-HasMagnitude,
}
use simple_standalone_versio.Secp256k1.Field.Normalize.{value-normalize, normalize_var-normalize}
use simple_standalone_versio.Secp256k1.Group.{Ge, ge_set_xquad, ge_set_xo_var}
use simple_standalone_versio.Secp256k1.Group.Curve.{
  AreOnCurve, square_negated, congruent-AreOnCurve,
}
use simple_standalone_versio.Secp256k1.Group.Residue.{
  ◌≈◌, itself-Stands, weaker-Stands, mul-Stands_plain, sqr-Stands_plain, add-Stands, set_int-Stands,
  negate-Stands, plain-Stands,
}
use simple_standalone_versio.Secp256k1.Group.Valid.{IsGePoint, on_curve-IsGePoint}

and_one : (n : ℕ) → bit_and n 1 ≡ n % 2
and_one n = omega (arith, bit_and_step n 1, (bit_and_le (n / 2) 0).1)

-- `is_odd` of a normalized element
is_odd_lem : (a : Fe) → is_odd a ≡ (value a % 2 == 1)
unfolding is_odd
is_odd_lem a = ap (λ t. t == 1) (and_one a.n0 ∙ omega arith)

order_terms : (x : ℕ) → 7 + x * (x * x) ≈ x * x * x + 7
order_terms x = ap (λ t. t % prime) (omega arith)

-- The `y` of the result of `ge_set_xquad` is a root of `x ^ 3 + 7`, where there is one.
xquad_lem :
    (x : Fe)
    → HasMagnitude 8 x
    → (ge_set_xquad x).1 ≡ true
    → AreOnCurve (value x) (value (ge_set_xquad x).0.y) 1 × HasMagnitude 8 (ge_set_xquad x).0.y
unfolding ge_set_xquad
xquad_lem x bx found =
    let sx = itself-Stands 8 x bx in
    let x3 = mul-Stands_plain (omega arith) (omega arith) sx (sqr-Stands_plain (omega arith) sx) in
    let c = add-Stands (omega arith) (set_int-Stands 7 (omega arith)) x3 in
    let bc = (weaker-Stands 8 (omega arith) c).limbs in
    let (power, root, quad) = sqrt_lem (add (set_int 7) (mul x (sqr x))) bc in
    (
      (==_iff _ _).0 (sym root ∙ found) ∙ plain-Stands c ∙ order_terms (value x),
      sqrt-HasMagnitude (add (set_int 7) (mul x (sqr x))) bc,
    )

-- the parity of a number below the prime and of its opposite
opposite_parity :
    (n : ℕ) → n < prime → 0 < n → ((4 * prime - n) % prime % 2 == 1) ≡ not (n % 2 == 1)
opposite_parity n below some = ground arith

below_lem : (v : ℕ) → v < prime → v % prime ≡ v
below_lem v e = omega arith

complement_lem : (v w : ℕ) → v + w ≡ 2 * (1 + 1) * prime → v ≡ 4 * prime - w
complement_lem v w e = omega arith

same_bool-true : (a b : Bool) → same_bool a b ≡ true → a ≡ b
same_bool-true true b e = sym e
same_bool-true false true e = absurd (cc)
same_bool-true false false e = refl

same_bool-false : (a b : Bool) → same_bool a b ≡ false → not a ≡ b
same_bool-false true b e = sym e
same_bool-false false true e = refl
same_bool-false false false e = absurd (cc)

-- Of a normalized element that is not 0, itself and its opposite: one of the given parity.
chosen : Fe → Bool → Fe
chosen y odd = if same_bool (is_odd y) odd then y else negate y 1

chosen_lem :
    (x : ℕ) (y : Fe) (odd : Bool)
    → IsNormalized y
    → 0 < value y
    → AreOnCurve x (value y) 1
    → HasMagnitude 8 (chosen y odd)
      × AreOnCurve x (value (chosen y odd)) 1
      × (is_odd (normalize (chosen y odd)) ≡ odd)
unfolding chosen
chosen_lem x y odd normalized some curve =
    let (y0, y1, y2, y3, y4) = normalized.0 in
    let small : HasMagnitude 1 y =
      (omega arith, omega arith, omega arith, omega arith, omega arith) in
    let big = weaker 1 1024 y (omega arith) small in
    let s = itself-Stands 1 y small in
    let opposite = negate-Stands 1 (omega arith) s in
    let (e, done) = negate-HasMagnitude y 1 small (omega arith) in
    let n = value-normalize y big in
    let m = value-normalize (negate y 1) (weaker 2 1024 (negate y 1) (omega arith) done) in
    elim (Bool-cases (same_bool (is_odd y) odd)) [
      | inl f ↦ rw f (
        weaker 1 8 y (omega arith) small,
        curve,
        is_odd_lem (normalize y)
            ∙ ap (λ t. t % 2 == 1) (n.0 ∙ below_lem (value y) normalized.1)
            ∙ sym (is_odd_lem y)
            ∙ same_bool-true (is_odd y) odd f,
      )
      | inr f ↦ rw f (
        (weaker-Stands 8 (omega arith) opposite).limbs,
        square_negated _ (value y) opposite.difference ∙ curve,
        is_odd_lem (normalize (negate y 1))
            ∙ ap (λ t. t % 2 == 1)
                (m.0 ∙ ap (λ t. t % prime) {y = 4 * prime - value y} (complement_lem _ (value y) e))
            ∙ opposite_parity (value y) normalized.1 some
            ∙ ap not (sym (is_odd_lem y))
            ∙ same_bool-false (is_odd y) odd f,
      )
    ]

twice_lem : (v : ℕ) → v % prime % prime ≡ v % prime
twice_lem v = omega arith

-- what `ge_set_xo_var` makes of the result of `ge_set_xquad`
abbrev result : Ge → Bool → Bool → Ge × Bool
result q odd found =
    if found then (record q { y = chosen (normalize_var q.y) odd }, true) else (q, false)

was_found : (q : Ge) (odd found : Bool) → (result q odd found).1 ≡ true → found ≡ true
was_found q odd true e = refl
was_found q odd false e = e

-- a point of the curve with the first coordinate `x` and a second one of the given parity
abbrev pub IsMatch : Fe → Bool → Ge → Type 0
IsMatch x odd g = IsGePoint g × (g.x ≡ x) × (is_odd (normalize g.y) ≡ odd)

-- The point that `ge_set_xo_var` finds has the given first coordinate, is on the curve, and its second
-- coordinate has the given parity, where that is not 0, as it never is on this curve.
pub ge_set_xo_var_lem :
    (x : Fe) (odd : Bool)
    → HasMagnitude 8 x
    → (ge_set_xo_var x odd).1 ≡ true
    → 0 < value (ge_set_xquad x).0.y % prime
    → IsMatch x odd (ge_set_xo_var x odd).0
unfolding ge_set_xo_var ge_set_xquad chosen
ge_set_xo_var_lem x odd bx found some =
    let q = (ge_set_xquad x).0 in
    let root = was_found q odd (ge_set_xquad x).1 found in
    let (curve, by) = xquad_lem x bx root in
    let big = weaker 8 1024 q.y (omega arith) by in
    let n = value-normalize q.y big in
    let same = normalize_var-normalize q.y big in
    let (bc, on, parity) =
      chosen_lem (value x) (normalize q.y) odd n.1 (subst (λ t. 0 < t) (sym n.0) some) (
        congruent-AreOnCurve (value x) (value q.y) 1 _ _ 1 refl
          (ap (λ t. t % prime) n.0 ∙ twice_lem (value q.y)) refl curve) in
    subst (λ b. IsMatch x odd (result q odd b).0) (sym root)
      (subst (λ y. IsMatch x odd (record q { y = chosen y odd })) (sym same)
        (
          on_curve-IsGePoint (record q { y = chosen (normalize q.y) odd }) bx bc refl on,
          refl,
          parity,
        ))
