-- ===== src/Examples/Scalars.antt =====
-- The scalar operations at concrete limbs.
use simple_standalone_versio.Secp256k1.Der.{ecdsa_sig_parse, ecdsa_sig_serialize}
use simple_standalone_versio.Secp256k1.Der.RoundTrip.{written, ecdsa_sig_parse-ecdsa_sig_serialize}
use simple_standalone_versio.Base.{ltb, if◌then◌else◌, none, some, length, ◌≤◌, ◌<◌, ◌≡◌, arith}
use simple_standalone_versio.Secp256k1.Scalar.{Scalar, n_1, n_2, n_3}
use simple_standalone_versio.Secp256k1.Scalar.Carry.{value, AreLimbs}
use simple_standalone_versio.Secp256k1.Scalar.Reduce.{order}
use simple_standalone_versio.Secp256k1.Scalar.Mul.{mul}
use simple_standalone_versio.Secp256k1.Scalar.Mul.Fold.{value-mul}

-- the greatest reduced scalar
abbrev minus_one : Scalar
minus_one = record { d0 = 13822214165235122496; d1 = n_1; d2 = n_2; d3 = n_3 }

abbrev three : Scalar
three = record { d0 = 3; d1 = 0; d2 = 0; d3 = 0 }

minus_one-AreLimbs : AreLimbs minus_one
minus_one-AreLimbs = omega arith

three-AreLimbs : AreLimbs three
three-AreLimbs = omega arith

minus_one_below : value minus_one < order
minus_one_below = omega arith

three_below : value three < order
three_below = omega arith

value-mul_example : (value (mul minus_one minus_one) ≡ 1) × AreLimbs (mul minus_one minus_one)
value-mul_example = value-mul minus_one minus_one minus_one-AreLimbs minus_one-AreLimbs

ecdsa_sig_parse-ecdsa_sig_serialize_example :
    (ecdsa_sig_parse (written minus_one three) ≡ some (minus_one, three))
    × (length (written minus_one three) ≤ 72)
    × (ecdsa_sig_serialize 72 minus_one three ≡ (
      if ltb 72 (length (written minus_one three)) then none else some (written minus_one three),
      length (written minus_one three),
    ))
ecdsa_sig_parse-ecdsa_sig_serialize_example =
    ecdsa_sig_parse-ecdsa_sig_serialize 72 minus_one three minus_one-AreLimbs minus_one_below
      three-AreLimbs three_below
