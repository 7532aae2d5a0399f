-- ===== src/Examples/Signatures.antt =====
-- Signing and verification with the key 1 and the nonce 1, whose points are the generator.
use mathlib.Core.Path.{subst}
use simple_standalone_versio.Base.{◌-◌, ◌*◌, ◌%◌, ◌≡◌, refl, sym, ap, ◌∙◌, true, ◌==◌, arith}
use simple_standalone_versio.Secp256k1.Powers.{power, squares}
use simple_standalone_versio.Secp256k1.Scalar.{
  carry, check_overflow, reduce, is_zero, is_high, negate,
}
use simple_standalone_versio.Secp256k1.Scalar
use simple_standalone_versio.Secp256k1.Scalar.Accumulator.{
  muladd, muladd_fast, muladd2, sumadd, sumadd_fast, extract, extract_fast,
}
use simple_standalone_versio.Secp256k1.Scalar.Mul.{reduce_385, reduce_258, reduce_256, reduce_512}
use simple_standalone_versio.Secp256k1.Scalar.Mul
use simple_standalone_versio.Secp256k1.Scalar.Inverse.{accumulate, inverse, inverse_var}
use simple_standalone_versio.Secp256k1.Scalar.Inverse
use simple_standalone_versio.Secp256k1.Scalar.Bytes.{set_b32}
use simple_standalone_versio.Secp256k1.Field.{
  normalize, normalize_weak, settle, final_x, final_pass, is_odd,
}
use simple_standalone_versio.Secp256k1.Field.Bytes.{get_b32}
use simple_standalone_versio.Secp256k1.Scalar.{Scalar}
use simple_standalone_versio.Secp256k1.Scalar.Carry
use simple_standalone_versio.Secp256k1.Scalar.Inverse.{value-inverse}
use simple_standalone_versio.Secp256k1.Scalar.Reduce.{order}
use simple_standalone_versio.Secp256k1.Field.Value.{value, prime, HasMagnitude}
use simple_standalone_versio.Secp256k1.Group.{Gej, ge_set_gej}
use simple_standalone_versio.Secp256k1.Ecdsa.{Signed, low_s, ecdsa_sig_sign, ecdsa_sig_verify}
use simple_standalone_versio.Secp256k1.Ecdsa.Sign.{IsSignature, ecdsa_sig_sign_lem}
use simple_standalone_versio.Secp256k1.Ecdsa.Verify.{HasCoordinate, ecdsa_sig_verify_lem}
use simple_standalone_versio.Secp256k1.Ecdsa.RoundTrip.{ecdsa_sig_verify-ecdsa_sig_sign}
use simple_standalone_versio.Examples.Points.{
  generator_x, generator, generator-AreBounded, generator_j, power_of_one, affine_generator,
}

abbrev one_scalar : Scalar
one_scalar = record { d0 = 1; d1 = 0; d2 = 0; d3 = 0 }

abbrev text : Scalar
text = record { d0 = 1234567; d1 = 89; d2 = 3; d3 = 0x6000000000000000 }

abbrev signed : Signed
signed = ecdsa_sig_sign (λ _. generator_j) one_scalar text one_scalar

abbrev first_half : Scalar
first_half = record {
  d0 = 6481385041966929816;
  d1 = 188021827762530521;
  d2 = 6170039885052185351;
  d3 = 8772561819708210092;
}

abbrev second_half : Scalar
second_half = record {
  d0 = 7340829123266958114;
  d1 = 13263910192581080841;
  d2 = 12276704188657366260;
  d3 = 2756653226360259667;
}

-- The second half is made low here, and the identifier flipped.
signed_lem :
    ecdsa_sig_sign (λ _. generator_j) one_scalar text one_scalar
    ≡ record { sigr = first_half; sigs = second_half; recid = 1; ok = true }
unfolding ecdsa_sig_sign low_s inverse Inverse.blocks accumulate squares Mul.mul Mul.sqr reduce_385
    reduce_258 reduce_256 reduce_512 carry check_overflow reduce muladd muladd_fast muladd2 sumadd
    sumadd_fast extract extract_fast is_zero is_high negate Scalar.add Mul.mul_512 Mul.sqr_512
    set_b32 get_b32 normalize normalize_weak settle final_x final_pass is_odd
signed_lem = rw affine_generator refl

small : HasMagnitude 8 (ge_set_gej generator_j).0.x
small = subst (λ g. HasMagnitude 8 g.x) (sym affine_generator) (omega arith)

fermat_one : power 1 (order - 1) % order ≡ 1
fermat_one = ap (λ t. t % order) (power_of_one (order - 1))

second_inverse : Carry.value (Mul.mul second_half (inverse second_half)) % order ≡ 1
unfolding inverse Inverse.blocks accumulate squares Mul.mul Mul.sqr reduce_385 reduce_258 reduce_256
    reduce_512 carry check_overflow reduce muladd muladd_fast muladd2 sumadd sumadd_fast extract
    extract_fast Mul.mul_512 Mul.sqr_512
second_inverse = refl

fermat_second : power (Carry.value second_half) (order - 1) % order ≡ 1
fermat_second = sym (value-inverse second_half (omega arith)).1 ∙ second_inverse

coordinate_lem : value (ge_set_gej generator_j).0.x % prime ≡ value generator_x
coordinate_lem = ap (λ g. value g.x % prime) affine_generator

generator_j-HasCoordinate : HasCoordinate generator_j (value (ge_set_gej generator_j).0.x % prime)
generator_j-HasCoordinate = record {
  bounded = generator-AreBounded;
  small = omega arith;
  inverse_z = 1;
  inverted = refl;
  coordinate = ap (λ x. (x * (1 * 1)) % prime) (sym coordinate_lem);
}

ecdsa_sig_sign_lem_example :
    IsSignature
      (ecdsa_sig_sign (λ _. generator_j) one_scalar text one_scalar)
      (value (ge_set_gej generator_j).0.x % prime)
      1
      (Carry.value text)
      1
ecdsa_sig_sign_lem_example =
    ecdsa_sig_sign_lem (λ _. generator_j) one_scalar text one_scalar (omega arith) (omega arith)
      (omega arith) (omega arith) small fermat_one

ecdsa_sig_verify_lem_example :
    let ecmult : Gej → Scalar → Scalar → Gej = λ _ _ _. generator_j in
    let u1 = Mul.mul (inverse_var second_half) text in
    let u2 = Mul.mul (inverse_var second_half) first_half in
    (ecdsa_sig_verify ecmult first_half second_half generator text
      ≡ (value (ge_set_gej generator_j).0.x % prime % order == Carry.value first_half))
    × ((Carry.value u1 * Carry.value second_half) % order
        ≡ (power (Carry.value second_half) (order - 1) * Carry.value text) % order)
    × ((Carry.value u2 * Carry.value second_half) % order
        ≡ (power (Carry.value second_half) (order - 1) * Carry.value first_half) % order)
ecdsa_sig_verify_lem_example =
    ecdsa_sig_verify_lem (λ _ _ _. generator_j) first_half second_half generator text
      (value (ge_set_gej generator_j).0.x % prime) (omega arith) (omega arith) (omega arith)
      (omega arith) (λ _. generator_j-HasCoordinate)

sigs_lem :
    power
        (Carry.value (ecdsa_sig_sign (λ _. generator_j) one_scalar text one_scalar).sigs)
        (order - 1)
      % order
    ≡ 1
sigs_lem = ap (λ o. power (Carry.value o.sigs) (order - 1) % order) signed_lem ∙ fermat_second

ecdsa_sig_verify-ecdsa_sig_sign_example :
    let out = ecdsa_sig_sign (λ _. generator_j) one_scalar text one_scalar in
    ecdsa_sig_verify (λ _ _ _. generator_j) out.sigr out.sigs generator text ≡ true
ecdsa_sig_verify-ecdsa_sig_sign_example =
    ecdsa_sig_verify-ecdsa_sig_sign (λ _. generator_j) (λ _ _ _. generator_j) one_scalar text
      one_scalar generator (omega arith) (omega arith) (omega arith) (omega arith) small fermat_one
      (λ _ _ _. (refl, generator_j-HasCoordinate)) sigs_lem (ap (λ o. o.ok) signed_lem)
      (ap (λ o. Carry.value o.sigr == 0) signed_lem)
