-- ===== src/Examples/Points.antt =====
-- The operations on points at the generator of the group and its double.
use simple_standalone_versio.Base.{
  ℕ, zero, suc, ◌+◌, ◌-◌, ◌*◌, ◌%◌, ◌≡◌, refl, ap, true, false, arith,
}
use simple_standalone_versio.Secp256k1.Powers.{power, squares}
use simple_standalone_versio.Secp256k1.Field.{
  Fe, set_int, normalize_weak, settle, add, negate, normalizes_to_zero, zero_tests,
}
use simple_standalone_versio.Secp256k1.Field.Value.{value, prime}
use simple_standalone_versio.Secp256k1.Field.Mul.{mul, sqr, mul_inner, sqr_inner, reduce_columns}
use simple_standalone_versio.Secp256k1.Field.Inverse.{inv, sqrt, blocks, equal}
use simple_standalone_versio.Secp256k1.Group.{
  Ge, Gej, gej_double_var, gej_add_var, ge_set_gej, ge_set_xquad, ge_set_xo_var,
}
use simple_standalone_versio.Secp256k1.Group.Residue.{◌≈◌}
use simple_standalone_versio.Secp256k1.Group.Valid.{
  AreBounded, IsPoint, IsGePoint, on_curve-IsPoint, on_curve-IsGePoint,
}
use simple_standalone_versio.Secp256k1.Group.Double.{gej_double_var_lem}
use simple_standalone_versio.Secp256k1.Group.Sum.{gej_add_var-IsPoint}
use simple_standalone_versio.Secp256k1.Group.Affine.{ge_set_gej_lem}
use simple_standalone_versio.Secp256k1.Group.Decompress.{IsMatch, ge_set_xo_var_lem}

abbrev pub generator_x : Fe
generator_x = record {
  n0 = 0x2815b16f81798;
  n1 = 0xdb2dce28d959f;
  n2 = 0xe870b07029bfc;
  n3 = 0xbbac55a06295c;
  n4 = 0x79be667ef9dc;
}

abbrev pub generator_y : Fe
generator_y = record {
  n0 = 0x7d08ffb10d4b8;
  n1 = 0x48a68554199c4;
  n2 = 0xe1108a8fd17b4;
  n3 = 0xc4655da4fbfc0;
  n4 = 0x483ada7726a3;
}

abbrev one : Fe
one = record { n0 = 1; n1 = 0; n2 = 0; n3 = 0; n4 = 0 }

-- `secp256k1_ge_const_g`
abbrev pub generator : Ge
generator = record { x = generator_x; y = generator_y; infinity = false }

abbrev pub generator_j : Gej
generator_j = record { x = generator_x; y = generator_y; z = one; infinity = false }

pub generator-AreBounded : AreBounded generator_j
generator-AreBounded = omega arith

pub generator_j-IsPoint : IsPoint generator_j
generator_j-IsPoint = on_curve-IsPoint generator_j generator-AreBounded refl refl

pub generator-IsGePoint : IsGePoint generator
generator-IsGePoint = on_curve-IsGePoint generator (omega arith) (omega arith) refl refl

gej_double_var_lem_example :
    let d = (gej_double_var generator_j generator_j).0 in
    let x = value generator_x in
    let y = value generator_y in
    IsPoint d
    × (d.infinity ≡ false)
    × (value d.x + 8 * (x * (y * y)) ≈ 9 * (x * x * (x * x)))
    × (value d.y + (27 * (x * x * x * (x * x * x)) + 8 * (y * y * (y * y)))
        ≈ 36 * (x * x * x * (y * y)))
    × (value d.z ≈ 2 * (y * value one))
    × (value d.z ≈ value one * value (gej_double_var generator_j generator_j).1)
gej_double_var_lem_example = gej_double_var_lem generator_j generator_j generator_j-IsPoint refl

abbrev doubled_generator : Gej
doubled_generator = (gej_double_var generator_j generator_j).0

doubled_generator-IsPoint : IsPoint doubled_generator
doubled_generator-IsPoint = (gej_double_var_lem generator_j generator_j generator_j-IsPoint refl).0

gej_add_var-IsPoint_example : IsPoint (gej_add_var generator_j generator_j doubled_generator).0
gej_add_var-IsPoint_example =
    gej_add_var-IsPoint generator_j generator_j doubled_generator generator-AreBounded
      generator_j-IsPoint doubled_generator-IsPoint

-- the generator over 2
abbrev scaled : Ge
scaled = record {
  x = record {
    n0 = 0xa056d5be06231;
    n1 = 0x6cb738a36567c;
    n2 = 0xa1c2c1c0a6ff3;
    n3 = 0xeeb156818a573;
    n4 = 0xe6f999fbe772;
  };
  y = record {
    n0 = 0xe8481d886ad62;
    n1 = 0x45342aa0cce23;
    n2 = 0x884547e8bda2;
    n3 = 0x232aed27dfe07;
    n4 = 0x41d6d3b9351e;
  };
  infinity = false;
}

abbrev half : Fe
half = record {
  n0 = 0xfffff7ffffe18;
  n1 = 0xfffffffffffff;
  n2 = 0xfffffffffffff;
  n3 = 0xfffffffffffff;
  n4 = 0x7fffffffffff;
}

pub power_of_one : (n : ℕ) → power 1 n ≡ 1
unfolding power
power_of_one zero = refl
power_of_one (suc n) = omega (arith, power_of_one n)

pub affine_generator : (ge_set_gej generator_j).0 ≡ generator
unfolding ge_set_gej inv blocks squares sqr mul mul_inner sqr_inner reduce_columns
affine_generator = refl

ge_set_gej_lem_example :
    let g = (ge_set_gej generator_j).0 in
    IsGePoint g
    × (g.infinity ≡ false)
    × (value g.x * (value one * value one) ≈ value generator_x)
    × (value g.y * (value one * value one * value one) ≈ value generator_y)
ge_set_gej_lem_example =
    ge_set_gej_lem generator_j generator_j-IsPoint refl
      (ap (λ t. t % prime) (power_of_one (prime - 1)))

found : (ge_set_xo_var generator_x true).1 ≡ true
unfolding ge_set_xo_var ge_set_xquad sqrt blocks equal squares sqr mul mul_inner sqr_inner
    reduce_columns add negate normalizes_to_zero zero_tests normalize_weak settle set_int
found = refl

root :
    value (ge_set_xquad generator_x).0.y % prime
    ≡ 0x483ada7726a3c4655da4fbfc0e1108a8fd17b448a68554199c47d08ffb10d4b8
unfolding ge_set_xquad sqrt blocks squares sqr mul mul_inner sqr_inner reduce_columns add set_int
root = refl

ge_set_xo_var_lem_example : IsMatch generator_x true (ge_set_xo_var generator_x true).0
ge_set_xo_var_lem_example =
    ge_set_xo_var_lem generator_x true (omega arith) found (omega (arith, root))
