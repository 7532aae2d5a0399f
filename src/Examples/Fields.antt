-- ===== src/Examples/Fields.antt =====
-- The field operations, and the inverses, at concrete limbs.
use simple_standalone_versio.Base.{◌+◌, ◌-◌, ◌*◌, ◌/◌, ◌%◌, ◌==◌, ◌≡◌, arith}
use simple_standalone_versio.Secp256k1.Powers.{power}
use simple_standalone_versio.Secp256k1.Field.{Fe, negate, normalize, ones_52, ones_48}
use simple_standalone_versio.Secp256k1.Field.Value.{
  value, prime, HasMagnitude, AreDigits, IsNormalized, negate-HasMagnitude,
}
use simple_standalone_versio.Secp256k1.Field.Normalize.{value-normalize}
use simple_standalone_versio.Secp256k1.Field.Mul.{mul_inner}
use simple_standalone_versio.Secp256k1.Field.Mul.Product.{value-mul_inner}
use simple_standalone_versio.Secp256k1.Field.Inverse.{sqrt, is_quad_var, sqrt_lem}
use simple_standalone_versio.Secp256k1.Scalar.{Scalar}
use simple_standalone_versio.Secp256k1.Scalar.Carry
use simple_standalone_versio.Secp256k1.Scalar.Carry.{AreLimbs}
use simple_standalone_versio.Secp256k1.Scalar.Reduce.{order}
use simple_standalone_versio.Secp256k1.Scalar.Mul
use simple_standalone_versio.Secp256k1.Scalar.Inverse.{inverse, value-inverse}

-- the greatest normalized element
abbrev minus_one : Fe
minus_one = record { n0 = 4503595332402222; n1 = ones_52; n2 = ones_52; n3 = ones_52; n4 = ones_48 }

-- the prime itself, on unnormalized limbs
abbrev wide_zero : Fe
wide_zero = record {
  n0 = 9007190664804446;
  n1 = 9007199254740990;
  n2 = 9007199254740990;
  n3 = 9007199254740990;
  n4 = 562949953421310;
}

digits : AreDigits minus_one
digits = omega arith

minus_one-IsNormalized : IsNormalized minus_one
minus_one-IsNormalized = (digits, omega arith)

minus_one_1 : HasMagnitude 1 minus_one
minus_one_1 = omega arith

minus_one_8 : HasMagnitude 8 minus_one
minus_one_8 = omega arith

wide_zero_1024 : HasMagnitude 1024 wide_zero
wide_zero_1024 = omega arith

abbrev seven : Scalar
seven = record { d0 = 7; d1 = 0; d2 = 0; d3 = 0 }

seven-AreLimbs : AreLimbs seven
seven-AreLimbs = omega arith

value-mul_inner_example :
    (value (mul_inner minus_one minus_one) % prime ≡ 1)
    × HasMagnitude 1 (mul_inner minus_one minus_one)
value-mul_inner_example = value-mul_inner minus_one minus_one minus_one_8 minus_one_8

value-normalize_example : (value (normalize wide_zero) ≡ 0) × IsNormalized (normalize wide_zero)
value-normalize_example = value-normalize wide_zero wide_zero_1024

negate-HasMagnitude_example :
    (value (negate minus_one 1) + value minus_one ≡ 2 * (1 + 1) * prime)
    × HasMagnitude (1 + 1) (negate minus_one 1)
negate-HasMagnitude_example = negate-HasMagnitude minus_one 1 minus_one_1 (omega arith)

sqrt_lem_example :
    (value (sqrt minus_one).0 % prime ≡ power (value minus_one) ((prime + 1) / 4) % prime)
    × ((sqrt minus_one).1 ≡ (
        (value (sqrt minus_one).0 * value (sqrt minus_one).0) % prime == value minus_one % prime))
    × (is_quad_var minus_one ≡ (sqrt minus_one).1)
sqrt_lem_example = sqrt_lem minus_one minus_one_8

value-inverse_example :
    (Carry.value (inverse seven) % order ≡ power 7 (order - 2) % order)
    × (Carry.value (Mul.mul seven (inverse seven)) % order ≡ power 7 (order - 1) % order)
    × AreLimbs (inverse seven)
value-inverse_example = value-inverse seven seven-AreLimbs
