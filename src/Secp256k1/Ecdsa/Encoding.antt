-- ===== src/Secp256k1/Ecdsa/Encoding.antt =====
-- The 32 bytes of a scalar and of a field element that stand for one number.
use mathlib.Core.Path.{subst}
use simple_standalone_versio.Base.{
  ℕ, ◌+◌, ◌*◌, ◌/◌, ◌%◌, ◌^◌, ◌≡◌, refl, sym, ap, ap₂, ◌∙◌, List, ◌∷◌, leb, arith,
}
use simple_standalone_versio.Secp256k1.Scalar.{Scalar, check_overflow, reduce, to_bit}
use simple_standalone_versio.Secp256k1.Scalar.Carry
use simple_standalone_versio.Secp256k1.Scalar.Carry.{AreLimbs}
use simple_standalone_versio.Secp256k1.Scalar.Bytes.{get_b32, set_b32, loaded, loaded-get_b32}
use simple_standalone_versio.Secp256k1.Scalar.Reduce.{order, value-reduce, reduce-AreLimbs}
use simple_standalone_versio.Secp256k1.Field.{Fe}
use simple_standalone_versio.Secp256k1.Field.Bytes
use simple_standalone_versio.Secp256k1.Field.Bytes.{set_bytes, zero_fe, set_bytes-get_b32}
use simple_standalone_versio.Secp256k1.Field.Value.{value, value_injective, AreDigits}

-- a scalar's number on limbs of 52 bits, and a field element's on limbs of 64 bits
abbrev pub as_fe : Scalar → Fe
as_fe a = record {
  n0 = a.d0 % 2 ^ 52;
  n1 = a.d0 / 2 ^ 52 + a.d1 % 2 ^ 40 * 2 ^ 12;
  n2 = a.d1 / 2 ^ 40 + a.d2 % 2 ^ 28 * 2 ^ 24;
  n3 = a.d2 / 2 ^ 28 + a.d3 % 2 ^ 16 * 2 ^ 36;
  n4 = a.d3 / 2 ^ 16;
}

abbrev pub as_scalar : Fe → Scalar
as_scalar a = record {
  d0 = a.n0 + a.n1 % 2 ^ 12 * 2 ^ 52;
  d1 = a.n1 / 2 ^ 12 + a.n2 % 2 ^ 24 * 2 ^ 40;
  d2 = a.n2 / 2 ^ 24 + a.n3 % 2 ^ 36 * 2 ^ 28;
  d3 = a.n3 / 2 ^ 36 + a.n4 * 2 ^ 16;
}

pub value-as_fe :
    (a : Scalar) → AreLimbs a → (value (as_fe a) ≡ Carry.value a) × AreDigits (as_fe a)
value-as_fe a (b0, b1, b2, b3) =
    (omega arith, (omega arith, omega arith, omega arith, omega arith, omega arith))

pub value-as_scalar :
    (a : Fe) → AreDigits a → (Carry.value (as_scalar a) ≡ value a) × AreLimbs (as_scalar a)
value-as_scalar a (b0, b1, b2, b3, b4) =
    (omega arith, (omega arith, omega arith, omega arith, omega arith))

cons_eq : {x y : ℕ} {xs ys : List ℕ} → x ≡ y → xs ≡ ys → x ∷ xs ≡ y ∷ ys
cons_eq p q = ap₂ ◌∷◌ p q

-- Both write the same bytes.
same_bytes : (a : Scalar) → AreLimbs a → Bytes.get_b32 (as_fe a) ≡ get_b32 a
unfolding Bytes.get_b32 get_b32
same_bytes a (b0, b1, b2, b3) = cons_eq (omega arith) (
    cons_eq (omega arith) (
      cons_eq (omega arith) (
        cons_eq (omega arith) (
          cons_eq (omega arith) (
            cons_eq (omega arith) (
              cons_eq (omega arith) (
                cons_eq (omega arith) (
                  cons_eq (omega arith) (
                    cons_eq (omega arith) (
                      cons_eq (omega arith) (
                        cons_eq (omega arith) (
                          cons_eq (omega arith) (
                            cons_eq (omega arith) (
                              cons_eq (omega arith) (
                                cons_eq (omega arith) (
                                  cons_eq (omega arith) (
                                    cons_eq (omega arith) (
                                      cons_eq (omega arith) (
                                        cons_eq (omega arith) (
                                          cons_eq (omega arith) (
                                            cons_eq (omega arith) (
                                              cons_eq (omega arith) (
                                                cons_eq (omega arith) (
                                                  cons_eq (omega arith) (
                                                    cons_eq (omega arith) (
                                                      cons_eq (omega arith) (
                                                        cons_eq (omega arith) (
                                                          cons_eq (omega arith) (
                                                            cons_eq (omega arith) (
                                                            cons_eq (omega arith) (
                                                            cons_eq (omega arith)
                                                            refl)))))))))))))))))))))))))))))))

-- A scalar's bytes, read as a field element.
pub read_as_fe : (a : Scalar) → AreLimbs a → (Bytes.set_b32 (get_b32 a)).0 ≡ as_fe a
unfolding Bytes.set_b32
read_as_fe a limbs =
    ap (λ b. set_bytes b 32 0 zero_fe) (sym (same_bytes a limbs))
    ∙ set_bytes-get_b32 (as_fe a) (value-as_fe a limbs).1

loaded_fe : (a : Fe) → AreDigits a → loaded (Bytes.get_b32 a) ≡ as_scalar a
loaded_fe a digits =
    let (e, limbs) = value-as_scalar a digits in
    let (f, digits') = value-as_fe (as_scalar a) limbs in
    let back = value_injective (as_fe (as_scalar a)) a digits' digits (f ∙ e) in
    ap (λ x. loaded (Bytes.get_b32 x)) (sym back)
    ∙ ap loaded (same_bytes (as_scalar a) limbs)
    ∙ loaded-get_b32 (as_scalar a) limbs

reduced_lem :
    (s : Scalar)
    → AreLimbs s
    → (Carry.value (reduce s (to_bit (check_overflow s))) ≡ Carry.value s % order)
      × AreLimbs (reduce s (to_bit (check_overflow s)))
      × (to_bit (check_overflow s) ≡ to_bit (leb order (Carry.value s)))
reduced_lem s (b0, b1, b2, b3) =
    let (v, o) = value-reduce s 0 (b0, b1, b2, b3) (omega arith) in
    let whole : Carry.value s + 2 ^ 256 * 0 ≡ Carry.value s = omega arith in
    (
      ap (λ k. Carry.value (reduce s k)) {y = 0 + to_bit (check_overflow s)} (omega arith)
          ∙ v
          ∙ ap (λ n. n % order) whole,
      reduce-AreLimbs s _,
      omega arith ∙ o ∙ ap (λ n. to_bit (leb order n)) whole,
    )

-- A field element's bytes, read as a scalar: its number modulo the order, and whether it reached that.
pub read_as_scalar :
    (a : Fe)
    → AreDigits a
    → let (r, over) = set_b32 (Bytes.get_b32 a) in
      (Carry.value r ≡ value a % order) × AreLimbs r × (over ≡ to_bit (leb order (value a)))
unfolding set_b32
read_as_scalar a digits =
    let (e, limbs) = value-as_scalar a digits in
    let l = loaded_fe a digits in
    let reduced = reduced_lem (as_scalar a) limbs in
    subst
      (λ t.
        (Carry.value (reduce t (to_bit (check_overflow t))) ≡ value a % order)
        × AreLimbs (reduce t (to_bit (check_overflow t)))
        × (to_bit (check_overflow t) ≡ to_bit (leb order (value a))))
      (sym l)
      (reduced.0 ∙ ap (λ n. n % order) e, reduced.1, reduced.2 ∙ ap (λ n. to_bit (leb order n)) e)
