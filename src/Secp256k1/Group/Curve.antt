-- ===== src/Secp256k1/Group/Curve.antt =====
-- The equation of the curve modulo the prime, and what doubling and the chord do to it.
use simple_standalone_versio.Base.{ℕ, ◌+◌, ◌-◌, ◌*◌, ◌%◌, ap, ◌∙◌, arith}
use simple_standalone_versio.Secp256k1.Powers.{mul_cong}
use simple_standalone_versio.Secp256k1.Field.Value.{prime}
use simple_standalone_versio.Secp256k1.Group.Residue.{◌≈◌, mul_lem}

abbrev pub sixth : ℕ → ℕ
sixth z = z * z * (z * z) * (z * z)

-- `y ^ 2 = x ^ 3 + 7 * z ^ 6` modulo the prime
abbrev pub AreOnCurve : ℕ → ℕ → ℕ → Type 0
AreOnCurve x y z = y * y ≈ x * x * x + 7 * sixth z

pub cube_cong : (a b : ℕ) → a ≈ b → a * a * a ≈ b * b * b
cube_cong a b e = mul_cong prime (a * a) a (b * b) b (mul_cong prime a a b b e e) e

pub sixth_equal : (z w : ℕ) → z ≈ w → 7 * sixth z ≈ 7 * sixth w
sixth_equal z w e = let c = cube_cong (z * z) (w * w) (mul_cong prime z z w w e e) in omega arith

-- With `c` for `7 * z ^ 6`, the coordinates of the double are `x * (x ^ 3 - 8 * c)` and
-- `x ^ 6 + 20 * x ^ 3 * c - 8 * c ^ 2`.
double_x :
    (x b c u : ℕ)
    → b ≈ x * x * x + c
    → u + 8 * (x * b) ≈ 9 * (x * x * (x * x))
    → u + 8 * (x * c) ≈ x * x * (x * x)
double_x x b c u e f = let g = mul_cong prime x b x (x * x * x + c) (omega arith) e in omega arith

double_y :
    (a b c v : ℕ)
    → b ≈ a + c
    → v + (27 * (a * a) + 8 * (b * b)) ≈ 36 * (a * b)
    → v + 8 * (c * c) ≈ a * a + 20 * (a * c)
double_y a b c v e f =
    let g = mul_cong prime a b a (a + c) (omega arith) e in
    let h = mul_cong prime b b (a + c) (a + c) e e in omega arith

cube_lem :
    (v p n : ℕ)
    → v + n ≈ p
    → v * v * v + (3 * (p * p * n) + n * n * n) ≈ p * p * p + 3 * (p * n * n)
cube_lem v p n e =
    let s = mul_lem v v p p n n e e in
    let t = mul_lem (v * v) v (p * p + n * n) p (p * n + n * p) n s e in omega arith

double_identity :
    (x c u v w : ℕ)
    → u + 8 * (x * c) ≈ x * x * (x * x)
    → v + 8 * (c * c) ≈ x * x * x * (x * x * x) + 20 * (x * x * x * c)
    → w ≈ 64 * ((x * x * x + c) * (x * x * x + c) * (x * x * x + c) * c)
    → v * v ≈ u * u * u + w
double_identity x c u v w e f g =
    let s = cube_lem u (x * x * (x * x)) (8 * (x * c)) e in
    let t = mul_lem v v _ _ (8 * (c * c)) (8 * (c * c)) f f in omega arith

-- A point's coordinates and those of its double, as differences.
pub double-AreOnCurve :
    (x y z u v w : ℕ)
    → AreOnCurve x y z
    → u + 8 * (x * (y * y)) ≈ 9 * (x * x * (x * x))
    → v + (27 * (x * x * x * (x * x * x)) + 8 * (y * y * (y * y))) ≈ 36 * (x * x * x * (y * y))
    → w ≈ 2 * (y * z)
    → AreOnCurve u v w
double-AreOnCurve x y z u v w curve e f g =
    let c : ℕ = 7 * sixth z in
    let cx = double_x x (y * y) c u curve e in
    let cy = double_y (x * x * x) (y * y) c v curve f in
    let w6 = cube_cong (w * w) _ (mul_cong prime w w (2 * (y * z)) (2 * (y * z)) g g) in
    let b3 = cube_cong (y * y) (x * x * x + c) curve in
    let whole = mul_cong prime (64 * c) _ (64 * c) _ (omega arith) b3 in
    double_identity x c u v (7 * sixth w) cx cy (omega arith)

-- Two points on the curve with the same `c`, and the line through them: `h` and `i` are the differences of
-- the coordinates, `w` is `i ^ 2 - h ^ 3 - 3 * u * h ^ 2`.
chord_identity :
    (u s h i w : ℕ)
    → w + (h * h * h + 3 * (u * (h * h))) ≈ i * i
    → w + 2 * (s * i) ≈ 3 * (u * u * h)
    → (w + u * (h * h)) * (w + u * (h * h)) * (w + u * (h * h)) + s * s * (h * h * h * (h * h * h))
      ≈ (i * w + s * (h * h * h)) * (i * w + s * (h * h * h))
        + u * u * u * (h * h * h * (h * h * h))
chord_identity u s h i w e f =
    let p =
      mul_cong prime (w * w) (w + (h * h * h + 3 * (u * (h * h)))) (w * w) (i * i) (omega arith)
        e in
    let q =
      mul_cong prime (w * (h * h * h)) (w + 2 * (s * i)) (w * (h * h * h)) (3 * (u * u * h))
        (omega arith) f in
    omega arith

-- the square of a number and of its negation
pub square_negated : (y q : ℕ) → y + q ≈ 0 → y * y ≈ q * q
square_negated y q e =
    let l = mul_cong prime (y + q) y 0 y e (omega arith) in
    let r = mul_cong prime (y + q) q 0 q e (omega arith) in omega arith

slope_lem :
    (u s d h i u2 s2 : ℕ)
    → s * s ≈ u * u * u + d
    → s2 * s2 ≈ u2 * u2 * u2 + d
    → h + u ≈ u2
    → i + s ≈ s2
    → i * i + 2 * (s * i) ≈ h * h * h + 3 * (u * (h * h)) + 3 * (u * u * h)
slope_lem u s d h i u2 s2 e f g k =
    let c = cube_cong (h + u) u2 g in
    let q = mul_cong prime (i + s) (i + s) s2 s2 k k in omega arith

gather :
    (yy q w xxx sh uh dh : ℕ) → yy ≈ q → w ≈ xxx → sh ≈ uh + dh → w + sh ≈ q + uh → yy ≈ xxx + dh
gather yy q w xxx sh uh dh e f g k = omega arith

-- The sum of two points with the coordinates `u` and `s`, `u2` and `s2` over the same `z`, whose `7 * z ^ 6`
-- is `d`, by the differences `h` and `i`.
pub chord-AreOnCurve :
    (u s d h i u2 s2 x y : ℕ)
    → s * s ≈ u * u * u + d
    → s2 * s2 ≈ u2 * u2 * u2 + d
    → h + u ≈ u2
    → i + s ≈ s2
    → x + (h * h * h + 2 * (u * (h * h))) ≈ i * i
    → y + (i * x + s * (h * h * h)) ≈ i * (u * (h * h))
    → y * y ≈ x * x * x + d * (h * h * h * (h * h * h))
chord-AreOnCurve u s d h i u2 s2 x y e f g k ex ey =
    let w : ℕ = x + (prime - 1) * (u * (h * h)) in
    let same : w + u * (h * h) ≈ x = omega arith in
    let ew : w + (h * h * h + 3 * (u * (h * h))) ≈ i * i = omega arith in
    let slope = slope_lem u s d h i u2 s2 e f g k in
    let identity = chord_identity u s h i w ew (omega arith) in
    let iw = mul_cong prime i (w + u * (h * h)) i x (omega arith) same in
    let square = square_negated y (i * w + s * (h * h * h)) (omega arith) in
    let cube = cube_cong (w + u * (h * h)) x same in
    let h6 : ℕ = h * h * h * (h * h * h) in
    let scaled : s * s * h6 ≈ u * u * u * h6 + d * h6 =
      mul_cong prime (s * s) h6 (u * u * u + d) h6 e (omega arith)
      ∙ ap (λ t. t % prime) (omega arith) in
    gather (y * y) _ _ (x * x * x) (s * s * h6) (u * u * u * h6) (d * h6) square cube scaled
      identity

-- The equation depends on the numbers modulo the prime only.
pub congruent-AreOnCurve :
    (x y z u v w : ℕ) → u ≈ x → v ≈ y → w ≈ z → AreOnCurve x y z → AreOnCurve u v w
congruent-AreOnCurve x y z u v w e f g curve =
    let y2 = mul_cong prime v v y y f f in
    let x3 = cube_cong u x e in let z6 = sixth_equal w z g in omega arith
