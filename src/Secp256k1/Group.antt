-- ===== src/Secp256k1/Group.antt =====
-- Points of the curve `y ^ 2 = x ^ 3 + 7` (crypto/secp256k1/libsecp256k1/src/group.h and group_impl.h). A
-- result that the code leaves unset keeps what was there before: an operation that can leave one takes
-- the old result first. Every result may be one of the operands, which are read before it is written.
pub mod Residue
pub mod Curve
pub mod Valid
pub mod Double
pub mod Sum
pub mod Mixed
pub mod Affine
pub mod Decompress
use simple_standalone_versio.Base.{
  ℕ, Bool, true, false, same_bool, if◌then◌else◌, Option, none, some,
}
use simple_standalone_versio.Secp256k1.Field.{
  Fe, normalize, normalize_weak, normalize_var, normalizes_to_zero_var, set_int, is_odd, negate,
  mul_int, add,
}
use simple_standalone_versio.Secp256k1.Field.Mul.{mul, sqr}
use simple_standalone_versio.Secp256k1.Field.Inverse.{equal_var, inv, inv_var, sqrt, is_quad_var}

-- affine coordinates
pub record Ge : Type 0 where
  pub x : Fe
  pub y : Fe
  pub infinity : Bool

-- Jacobian coordinates: the point is `x / z ^ 2` and `y / z ^ 3`.
pub record Gej : Type 0 where
  pub x : Fe
  pub y : Fe
  pub z : Fe
  pub infinity : Bool

abbrev pub curve_b : ℕ
curve_b = 7

unfoldable pub ge_set_gej_zinv : Gej → Fe → Ge
ge_set_gej_zinv a zi =
    let zi2 = sqr zi in
    let zi3 = mul zi2 zi in record { x = mul a.x zi2; y = mul a.y zi3; infinity = a.infinity }

unfoldable pub ge_set_xy : Fe → Fe → Ge
ge_set_xy x y = record { x = x; y = y; infinity = false }

unfoldable pub ge_neg : Ge → Ge
ge_neg a = record a { y = negate (normalize_weak a.y) 1 }

-- The code sets `a` to the same point with `z` 1, too.
unfoldable pub ge_set_gej : Gej → Ge × Gej
ge_set_gej a =
    let z = inv a.z in
    let z2 = sqr z in
    let z3 = mul z z2 in
    let x = mul a.x z2 in
    let y = mul a.y z3 in
    (
      record { x = x; y = y; infinity = a.infinity },
      record { x = x; y = y; z = set_int 1; infinity = a.infinity },
    )

unfoldable pub ge_set_gej_var : Ge → Gej → Ge × Gej
ge_set_gej_var r a =
    if a.infinity
    then (record r { infinity = true }, a)
    else (let z = inv_var a.z in
        let z2 = sqr z in
        let z3 = mul z z2 in
        let x = mul a.x z2 in
        let y = mul a.y z3 in
        (
          record { x = x; y = y; infinity = false },
          record { x = x; y = y; z = set_int 1; infinity = false },
        ))

unfoldable pub gej_set_infinity : Gej
gej_set_infinity = record { x = set_int 0; y = set_int 0; z = set_int 0; infinity = true }

-- the point with the first coordinate `x`, and whether there is one
unfoldable pub ge_set_xquad : Fe → Ge × Bool
ge_set_xquad x =
    let x2 = sqr x in
    let x3 = mul x x2 in
    let c = add (set_int curve_b) x3 in
    let (y, found) = sqrt c in (record { x = x; y = y; infinity = false }, found)

unfoldable pub ge_set_xo_var : Fe → Bool → Ge × Bool
ge_set_xo_var x odd =
    let (r, found) = ge_set_xquad x in
    let y = normalize_var r.y in
    if found
    then (record r { y = if same_bool (is_odd y) odd then y else negate y 1 }, true)
    else (r, false)

unfoldable pub gej_set_ge : Ge → Gej
gej_set_ge a = record { x = a.x; y = a.y; z = set_int 1; infinity = a.infinity }

unfoldable pub gej_eq_x_var : Fe → Gej → Bool
gej_eq_x_var x a = equal_var (mul (sqr a.z) x) (normalize_weak a.x)

unfoldable pub gej_neg : Gej → Gej
gej_neg a = record a { y = negate (normalize_weak a.y) 1 }

-- `Y ^ 2 = X ^ 3 + 7 * Z ^ 6`
unfoldable pub gej_is_valid_var : Gej → Bool
gej_is_valid_var a =
    let y2 = sqr a.y in
    let x3 = mul (sqr a.x) a.x in
    let z2 = sqr a.z in
    let z6 = mul_int (mul (sqr z2) z2) curve_b in
    let x3 = normalize_weak (add x3 z6) in if a.infinity then false else equal_var y2 x3

unfoldable pub ge_is_valid_var : Ge → Bool
ge_is_valid_var a =
    let y2 = sqr a.y in
    let x3 = mul (sqr a.x) a.x in
    let x3 = normalize_weak (add x3 (set_int curve_b)) in
    if a.infinity then false else equal_var y2 x3

-- The coordinates of the double of a point that is not infinity.
unfoldable pub doubled : Gej → Gej
doubled a =
    let z = mul_int (mul a.z a.y) 2 in
    let t1 = mul_int (sqr a.x) 3 in
    let t2 = sqr t1 in
    let t3 = mul_int (sqr a.y) 2 in
    let t4 = mul_int (sqr t3) 2 in
    let t3 = mul t3 a.x in
    let x = add (negate (mul_int t3 4) 4) t2 in
    let t2 = negate t2 1 in
    let t3 = add (mul_int t3 6) t2 in
    let y = mul t1 t3 in
    let t2 = negate t4 2 in record { x = x; y = add y t2; z = z; infinity = false }

-- The second component is what `rzr` is set to: the factor from the old `z` to the new one.
unfoldable pub gej_double_var : Gej → Gej → Gej × Fe
gej_double_var r a =
    if a.infinity
    then (record r { infinity = true }, set_int 1)
    else (doubled a, mul_int (normalize_weak a.y) 2)

-- What the additions share: the coordinates `x` and `y` of the sum, from `u1`, `s1` and the differences
-- `h` and `i`.
unfoldable pub chord : Fe → Fe → Fe → Fe → Fe × Fe
chord u1 s1 h i =
    let i2 = sqr i in
    let h2 = sqr h in
    let h3 = mul h h2 in
    let t = mul u1 h2 in
    let x = add (negate (add (mul_int t 2) h3) 3) i2 in
    let y = mul (add (negate x 5) t) i in (x, add y (negate (mul h3 s1) 1))

-- What they do on the two differences; `z` is that of the sum and `ratio` what goes to `rzr`.
unfoldable pub sum_of : Gej → Gej → Fe → Fe → Fe → Fe → Fe → Fe → Gej × Fe
sum_of r a u1 s1 h i z ratio =
    let (x, y) = chord u1 s1 h i in
    if normalizes_to_zero_var h
    then (if normalizes_to_zero_var i
        then gej_double_var r a
        else (record r { infinity = true }, set_int 0))
    else (record { x = x; y = y; z = z; infinity = false }, ratio)

-- The second component is what `rzr` is set to, if it is set.
unfoldable pub gej_add_var : Gej → Gej → Gej → Gej × Option Fe
gej_add_var r a b =
    let z22 = sqr b.z in
    let z12 = sqr a.z in
    let u1 = mul a.x z22 in
    let u2 = mul b.x z12 in
    let s1 = mul (mul a.y z22) b.z in
    let s2 = mul (mul b.y z12) a.z in
    let h = add (negate u1 1) u2 in
    let i = add (negate s1 1) s2 in
    let ratio = mul h b.z in
    let (sum, rzr) = sum_of r a u1 s1 h i (mul a.z ratio) ratio in
    if a.infinity
    then (b, none)
    else (if b.infinity then (a, some (set_int 1)) else (sum, some rzr))

unfoldable pub gej_add_ge_var : Gej → Gej → Ge → Gej × Option Fe
gej_add_ge_var r a b =
    let z12 = sqr a.z in
    let u1 = normalize_weak a.x in
    let u2 = mul b.x z12 in
    let s1 = normalize_weak a.y in
    let s2 = mul (mul b.y z12) a.z in
    let h = add (negate u1 1) u2 in
    let i = add (negate s1 1) s2 in
    let (sum, rzr) = sum_of r a u1 s1 h i (mul a.z h) h in
    if a.infinity
    then (gej_set_ge b, none)
    else (if b.infinity then (a, some (set_int 1)) else (sum, some rzr))

-- `b` has the `z` whose inverse is `bzinv`.
unfoldable pub gej_add_zinv_var : Gej → Gej → Ge → Fe → Gej
gej_add_zinv_var r a b bzinv =
    let bzinv2 = sqr bzinv in
    let bzinv3 = mul bzinv2 bzinv in
    let az = mul a.z bzinv in
    let z12 = sqr az in
    let u1 = normalize_weak a.x in
    let u2 = mul b.x z12 in
    let s1 = normalize_weak a.y in
    let s2 = mul (mul b.y z12) az in
    let h = add (negate u1 1) u2 in
    let i = add (negate s1 1) s2 in
    let (sum, rzr) = sum_of r a u1 s1 h i (mul a.z h) h in
    if b.infinity
    then a
    else (if a.infinity
        then record { x = mul b.x bzinv2; y = mul b.y bzinv3; z = set_int 1; infinity = b.infinity }
        else sum)

unfoldable pub gej_rescale : Gej → Fe → Gej
gej_rescale r s =
    let zz = sqr s in record r { x = mul r.x zz; y = mul (mul r.y zz) s; z = mul r.z s }

abbrev pub beta : Fe
beta = record {
  n0 = 0x96c28719501ee;
  n1 = 0x7512f58995c13;
  n2 = 0xc3434e99cf049;
  n3 = 0x7106e64479ea;
  n4 = 0x7ae96a2b657c;
}

unfoldable pub ge_mul_lambda : Ge → Ge
ge_mul_lambda a = record a { x = mul a.x beta }

unfoldable pub gej_has_quad_y_var : Gej → Bool
gej_has_quad_y_var a = if a.infinity then false else is_quad_var (mul a.y a.z)
