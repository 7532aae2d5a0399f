-- ===== src/Secp256k1/Group/Valid.antt =====
-- What `gej_is_valid_var` and `ge_is_valid_var` test.
use simple_standalone_versio.Base.{
  ◌+◌, ◌*◌, ◌%◌, ◌≡◌, inl, inr, refl, ◌⊎◌, sym, ap, ◌∙◌, true, false, ◌==◌, ==_refl, ==_iff,
  Bool-cases, arith,
}
use simple_standalone_versio.Secp256k1.Field.Value.{value, prime, HasMagnitude}
use simple_standalone_versio.Secp256k1.Field.{set_int}
use simple_standalone_versio.Secp256k1.Group.{
  Ge, Gej, gej_is_valid_var, ge_is_valid_var, gej_set_ge,
}
use simple_standalone_versio.Secp256k1.Group.Curve.{sixth, AreOnCurve}
use simple_standalone_versio.Secp256k1.Group.Residue.{
  itself-Stands, as-Stands, mul-Stands_plain, sqr-Stands_plain, mul_int-Stands, add-Stands,
  normalize_weak-Stands, equal_var-Stands, set_int-Stands, weaker-Stands, Stands,
}

-- the magnitudes that the products take
abbrev pub AreBounded : Gej → Type 0
AreBounded a = HasMagnitude 8 a.x × HasMagnitude 8 a.y × HasMagnitude 8 a.z

-- The point is infinity, or its coordinates are on the curve.
abbrev pub IsPoint : Gej → Type 0
IsPoint a = AreBounded a × ((a.infinity ≡ true) ⊎ (gej_is_valid_var a ≡ true))

-- `gej_is_valid_var` tests the equation of the curve.
pub gej_is_valid_var_lem :
    (a : Gej)
    → AreBounded a
    → a.infinity ≡ false
    → gej_is_valid_var a ≡ (
        value a.y * value a.y % prime
        == (value a.x * value a.x * value a.x + 7 * sixth (value a.z)) % prime)
unfolding gej_is_valid_var
gej_is_valid_var_lem a (bx, by, bz) finite =
    let x = itself-Stands 8 a.x bx in
    let y = itself-Stands 8 a.y by in
    let z = itself-Stands 8 a.z bz in
    let y2 = sqr-Stands_plain (omega arith) y in
    let x3 = mul-Stands_plain (omega arith) (omega arith) (sqr-Stands_plain (omega arith) x) x in
    let z2 = sqr-Stands_plain (omega arith) z in
    let z6 = mul-Stands_plain (omega arith) (omega arith) (sqr-Stands_plain (omega arith) z2) z2 in
    let sum = add-Stands (omega arith) x3 (mul_int-Stands 7 (omega arith) z6) in
    let whole =
      as-Stands (value a.x * value a.x * value a.x + 7 * sixth (value a.z)) 0
        (normalize_weak-Stands (omega arith) sum) (ap (λ t. t % prime) (omega arith)) in
    rw finite (equal_var-Stands (omega arith) y2 whole)

pub on_curve-IsPoint :
    (a : Gej)
    → AreBounded a
    → a.infinity ≡ false
    → AreOnCurve (value a.x) (value a.y) (value a.z)
    → IsPoint a
on_curve-IsPoint a bounded finite curve = (
  bounded,
  inr (
      gej_is_valid_var_lem a bounded finite
      ∙ ap (λ t. t == (value a.x * value a.x * value a.x + 7 * sixth (value a.z)) % prime) curve
      ∙ ==_refl _),
)

pub IsPoint-on_curve :
    (a : Gej) → IsPoint a → a.infinity ≡ false → AreOnCurve (value a.x) (value a.y) (value a.z)
IsPoint-on_curve a (bounded, inl infinite) finite = absurd (cc)
IsPoint-on_curve a (bounded, inr valid) finite =
    (==_iff _ _).0 (sym (gej_is_valid_var_lem a bounded finite) ∙ valid)

-- the same of a point in affine coordinates
abbrev pub IsGePoint : Ge → Type 0
IsGePoint a =
    (HasMagnitude 8 a.x × HasMagnitude 8 a.y) × ((a.infinity ≡ true) ⊎ (ge_is_valid_var a ≡ true))

-- `ge_is_valid_var` tests the equation of the curve.
pub ge_is_valid_var_lem :
    (a : Ge)
    → HasMagnitude 8 a.x
    → HasMagnitude 8 a.y
    → a.infinity ≡ false
    → ge_is_valid_var a
      ≡ (value a.y * value a.y % prime == (value a.x * value a.x * value a.x + 7) % prime)
unfolding ge_is_valid_var
ge_is_valid_var_lem a bx by finite =
    let x = itself-Stands 8 a.x bx in
    let y = itself-Stands 8 a.y by in
    let x3 = mul-Stands_plain (omega arith) (omega arith) (sqr-Stands_plain (omega arith) x) x in
    let sum = add-Stands (omega arith) x3 (set_int-Stands 7 (omega arith)) in
    rw finite (
      equal_var-Stands (omega arith) (sqr-Stands_plain (omega arith) y)
        (normalize_weak-Stands (omega arith) sum))

pub value_one : value (set_int 1) ≡ 1
unfolding set_int
value_one = refl

pub set_int_one : Stands 1 (set_int 1) 1 0
set_int_one = set_int-Stands 1 (omega arith)

-- `gej_set_ge` keeps a point a point.
pub gej_set_ge-IsPoint : (a : Ge) → IsGePoint a → IsPoint (gej_set_ge a)
unfolding gej_set_ge
gej_set_ge-IsPoint a ((bx, by), inl infinite) =
    ((bx, by, (weaker-Stands 8 (omega arith) set_int_one).limbs), inl infinite)
gej_set_ge-IsPoint a ((bx, by), inr valid) = elim (Bool-cases a.infinity) [
  | inl e ↦ ((bx, by, (weaker-Stands 8 (omega arith) set_int_one).limbs), inl e)
  | inr e ↦
      on_curve-IsPoint (gej_set_ge a) (bx, by, (weaker-Stands 8 (omega arith) set_int_one).limbs) e
        ((==_iff _ _).0 (sym (ge_is_valid_var_lem a bx by e) ∙ valid)
          ∙ ap (λ t. (value a.x * value a.x * value a.x + 7 * sixth t) % prime) {x = 1}
              (sym value_one))
]

pub on_curve-IsGePoint :
    (a : Ge)
    → HasMagnitude 8 a.x
    → HasMagnitude 8 a.y
    → a.infinity ≡ false
    → AreOnCurve (value a.x) (value a.y) 1
    → IsGePoint a
on_curve-IsGePoint a bx by finite curve = (
  (bx, by),
  inr (
      ge_is_valid_var_lem a bx by finite
      ∙ ap (λ t. t == (value a.x * value a.x * value a.x + 7) % prime) curve
      ∙ ==_refl _),
)

pub IsGePoint-on_curve :
    (a : Ge) → IsGePoint a → a.infinity ≡ false → AreOnCurve (value a.x) (value a.y) 1
IsGePoint-on_curve a (bounded, inl infinite) finite = absurd (cc)
IsGePoint-on_curve a ((bx, by), inr valid) finite =
    (==_iff _ _).0 (sym (ge_is_valid_var_lem a bx by finite) ∙ valid)
