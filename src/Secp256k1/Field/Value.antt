-- ===== src/Secp256k1/Field/Value.antt =====
-- The number that five limbs stand for, and the bounds on limbs that field_5x52_impl.h calls the
-- magnitude.
use simple_standalone_versio.Base.{ℕ, ◌+◌, ◌*◌, ◌^◌, ◌<◌, ◌≤◌, ◌≡◌, arith}
use native.Mathlib.Nat.{mul-le-mul_right}
use simple_standalone_versio.Secp256k1.Field.{Fe, p_0, ones_52, ones_48, mul_int, add, negate}

abbrev pub value : Fe → ℕ
value a = a.n0 + 2 ^ 52 * a.n1 + 2 ^ 104 * a.n2 + 2 ^ 156 * a.n3 + 2 ^ 208 * a.n4

-- the field's prime
abbrev pub prime : ℕ
prime = p_0 + 2 ^ 52 * ones_52 + 2 ^ 104 * ones_52 + 2 ^ 156 * ones_52 + 2 ^ 208 * ones_48

-- what `secp256k1_fe_verify` checks of an element of magnitude `m`
abbrev pub HasMagnitude : ℕ → Fe → Type 0
HasMagnitude m a =
    (a.n0 ≤ 2 * m * ones_52)
    × (a.n1 ≤ 2 * m * ones_52)
    × (a.n2 ≤ 2 * m * ones_52)
    × (a.n3 ≤ 2 * m * ones_52)
    × (a.n4 ≤ 2 * m * ones_48)

-- the limbs hold the digits of one number below 2 ^ 256
abbrev pub AreDigits : Fe → Type 0
AreDigits a =
    (a.n0 < 2 ^ 52) × (a.n1 < 2 ^ 52) × (a.n2 < 2 ^ 52) × (a.n3 < 2 ^ 52) × (a.n4 < 2 ^ 48)

-- what it checks of a normalized element
abbrev pub IsNormalized : Fe → Type 0
IsNormalized a = AreDigits a × (value a < prime)

pub value_injective : (a b : Fe) → AreDigits a → AreDigits b → value a ≡ value b → a ≡ b
value_injective a b (a0, a1, a2, a3, a4) (b0, b1, b2, b3, b4) e =
    let e0 : a.n0 ≡ b.n0 = omega arith in
    let e1 : a.n1 ≡ b.n1 = omega arith in
    let e2 : a.n2 ≡ b.n2 = omega arith in
    let e3 : a.n3 ≡ b.n3 = omega arith in
    let e4 : a.n4 ≡ b.n4 = omega arith in
    λ i. record { n0 = e0 i; n1 = e1 i; n2 = e2 i; n3 = e3 i; n4 = e4 i }

-- Addition of elements of magnitude `m` and `n`, together at most 2048, adds the numbers and the
-- magnitudes; no limb wraps.
pub value-add :
    (a b : Fe) (m n : ℕ)
    → HasMagnitude m a
    → HasMagnitude n b
    → m + n ≤ 2048
    → (value (add a b) ≡ value a + value b) × HasMagnitude (m + n) (add a b)
unfolding add
value-add a b m n (a0, a1, a2, a3, a4) (b0, b1, b2, b3, b4) small =
    (omega arith, (omega arith, omega arith, omega arith, omega arith, omega arith))

-- `negate` of an element of magnitude at most `m` gives a number that makes up a multiple of the prime
-- with it, of magnitude `m + 1`; no limb wraps.
pub negate-HasMagnitude :
    (a : Fe) (m : ℕ)
    → HasMagnitude m a
    → m + 1 ≤ 2047
    → (value (negate a m) + value a ≡ 2 * (m + 1) * prime) × HasMagnitude (m + 1) (negate a m)
unfolding negate
negate-HasMagnitude a m (a0, a1, a2, a3, a4) small =
    (omega arith, (omega arith, omega arith, omega arith, omega arith, omega arith))

-- `mul_int` by a number that keeps the magnitude at most 2048 multiplies the number and the magnitude;
-- no limb wraps.
pub value-mul_int :
    (r : Fe) (m a : ℕ)
    → HasMagnitude m r
    → m * a ≤ 2048
    → (value (mul_int r a) ≡ value r * a) × HasMagnitude (m * a) (mul_int r a)
unfolding mul_int
value-mul_int r m a (r0, r1, r2, r3, r4) small =
    let b0 : r.n0 * a ≤ 2 * m * ones_52 * a = mul-le-mul_right a r0 in
    let b1 : r.n1 * a ≤ 2 * m * ones_52 * a = mul-le-mul_right a r1 in
    let b2 : r.n2 * a ≤ 2 * m * ones_52 * a = mul-le-mul_right a r2 in
    let b3 : r.n3 * a ≤ 2 * m * ones_52 * a = mul-le-mul_right a r3 in
    let b4 : r.n4 * a ≤ 2 * m * ones_48 * a = mul-le-mul_right a r4 in
    (omega arith, (omega arith, omega arith, omega arith, omega arith, omega arith))
