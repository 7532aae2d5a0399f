-- ===== src/Secp256k1/Field/Zero.antt =====
-- The tests for zero (`normalizes_to_zero` and its variant of field_5x52_impl.h).
use simple_standalone_versio.Base.{
  not, ℕ, ◌+◌, ◌*◌, ◌/◌, ◌%◌, ◌^◌, ◌<◌, ◌≤◌, ◌≡◌, inl, inr, refl, sym, ap, ap₂, ◌∙◌, bit_and,
  bit_or, bit_xor, bit_and_le, bit_or_ge, bit_xor_twice, bit_xor_below, false, Bool-cases, ◌&&◌,
  ◌||◌, ◌==◌, if◌then◌else◌, arith,
}
use simple_standalone_versio.Secp256k1.Field.{
  Fe, p_0, ones_52, ones_48, settle, normalize_weak, normalizes_to_zero, normalizes_to_zero_var,
  zero_tests,
}
use simple_standalone_versio.Secp256k1.Field.Value.{value, prime, HasMagnitude}
use simple_standalone_versio.Secp256k1.Field.Normalize.{IsWeak, normalize_weak_lem}

-- `a | b | c | d | e` is 0 where all of them are.
or_zero :
    (a b c d e : ℕ)
    → (bit_or (bit_or (bit_or (bit_or a b) c) d) e == 0)
      ≡ (a == 0 && (b == 0 && (c == 0 && (d == 0 && e == 0))))
or_zero a b c d e =
    let (p1, p2, p3) = bit_or_ge a b in
    let (q1, q2, q3) = bit_or_ge (bit_or a b) c in
    let (r1, r2, r3) = bit_or_ge (bit_or (bit_or a b) c) d in
    let (s1, s2, s3) = bit_or_ge (bit_or (bit_or (bit_or a b) c) d) e in ground arith

-- `(x ^ u) == v` where `x` is `v ^ u`
xor_test : (x u v w : ℕ) → bit_xor v u ≡ w → bit_xor w u ≡ v → (bit_xor x u == v) ≡ (x == w)
xor_test x u v w e f = elim (Bool-cases (x == w)) [
  | inl t ↦
      let g : x ≡ w = ground arith in
      let h : bit_xor x u ≡ v = ap (λ y. bit_xor y u) g ∙ f in ground arith
  | inr t ↦ elim (Bool-cases (bit_xor x u == v)) [
    | inl s ↦
        let g : x ≡ w = sym (bit_xor_twice x u) ∙ ap (λ y. bit_xor y u) (ground arith) ∙ e in
        ground arith
    | inr s ↦ ground arith
  ]
]

and_all :
    (a b c d e : ℕ)
    → a ≤ ones_52
    → b ≤ ones_52
    → c ≤ ones_52
    → d ≤ ones_52
    → e ≤ ones_52
    → (bit_and (bit_and (bit_and (bit_and a b) c) d) e == ones_52)
      ≡ (a == ones_52 && (b == ones_52 && (c == ones_52 && (d == ones_52 && e == ones_52))))
and_all a b c d e pa pb pc pd pe =
    let (p1, p2) = bit_and_le a b in
    let (q1, q2) = bit_and_le (bit_and a b) c in
    let (r1, r2) = bit_and_le (bit_and (bit_and a b) c) d in
    let (s1, s2) = bit_and_le (bit_and (bit_and (bit_and a b) c) d) e in
    elim (Bool-cases
      (a == ones_52 && (b == ones_52 && (c == ones_52 && (d == ones_52 && e == ones_52))))) [
        | inl t ↦
            let ea : a ≡ ones_52 = ground arith in
            let eb : b ≡ ones_52 = ground arith in
            let ec : c ≡ ones_52 = ground arith in
            let ed : d ≡ ones_52 = ground arith in
            let ee : e ≡ ones_52 = ground arith in rw (ea, eb, ec, ed, ee) refl
        | inr t ↦ ground arith
      ]

-- The test for the prime: every limb but the two that are changed first is all ones.
and_prime :
    (t0 t1 t2 t3 t4 : ℕ)
    → t1 ≤ ones_52
    → t2 ≤ ones_52
    → t3 ≤ ones_52
    → t0 ≤ ones_52
    → t4 < 2 ^ 49
    → (bit_and
          (bit_and (bit_and (bit_and (bit_xor t0 4294968272) t1) t2) t3)
          (bit_xor t4 4222124650659840)
        == ones_52)
      ≡ (t0 == p_0 && (t1 == ones_52 && (t2 == ones_52 && (t3 == ones_52 && t4 == ones_48))))
and_prime t0 t1 t2 t3 t4 p q r s t =
    let u = bit_xor t0 4294968272 in
    let v = bit_xor t4 4222124650659840 in
    let bu : u < 2 ^ 52 = bit_xor_below 52 t0 4294968272 (omega arith) (omega arith) in
    let bv : v < 2 ^ 52 = bit_xor_below 52 t4 4222124650659840 (omega arith) (omega arith) in
    rw⁻¹ (xor_test t0 4294968272 ones_52 p_0 refl refl) (
      rw⁻¹ (xor_test t4 4222124650659840 ones_52 ones_48 refl refl)
        (and_all u t1 t2 t3 v (omega arith) p q r (omega arith)))

zero_test :
    (t : Fe)
    → (t.n0 == 0 && (t.n1 == 0 && (t.n2 == 0 && (t.n3 == 0 && t.n4 == 0)))) ≡ (value t == 0)
zero_test t = ground arith

prime_test :
    (t : Fe)
    → IsWeak t
    → (t.n0 == p_0
        && (t.n1 == ones_52 && (t.n2 == ones_52 && (t.n3 == ones_52 && t.n4 == ones_48))))
      ≡ (value t == prime)
prime_test t (t0, t1, t2, t3, below) = ground arith

two_values :
    (v w x : ℕ) → v < 2 * prime → v + x * prime ≡ w → (v == 0 || v == prime) ≡ (w % prime == 0)
two_values v w x below e = ground arith

-- `normalizes_to_zero` says whether the number is a multiple of the prime.
pub normalizes_to_zero_lem :
    (r : Fe) → HasMagnitude 1024 r → normalizes_to_zero r ≡ (value r % prime == 0)
unfolding normalizes_to_zero zero_tests
normalizes_to_zero_lem r limbs =
    let t = normalize_weak r in
    let (weak, e) = normalize_weak_lem r limbs in
    let (t0, t1, t2, t3, below) = weak in
    rw
      (
        or_zero t.n0 t.n1 t.n2 t.n3 t.n4,
        and_prime t.n0 t.n1 t.n2 t.n3 t.n4 (omega arith) (omega arith) (omega arith) (omega arith)
            (omega arith),
      )
      (ap₂ ◌||◌ (zero_test t) (prime_test t weak)
        ∙ two_values (value t) (value r) (r.n4 / 2 ^ 48) below e)

early_zero :
    (t : Fe)
    → IsWeak t
    → (if not (t.n0 == 0) && not (bit_xor t.n0 4294968272 == ones_52) then false else zero_tests t)
      ≡ zero_tests t
unfolding zero_tests
early_zero t weak =
    let (t0, t1, t2, t3, below) = weak in
    rw
      (
        or_zero t.n0 t.n1 t.n2 t.n3 t.n4,
        and_prime t.n0 t.n1 t.n2 t.n3 t.n4 (omega arith) (omega arith) (omega arith) (omega arith)
            (omega arith),
        xor_test t.n0 4294968272 ones_52 p_0 refl refl,
      )
      (ground arith)

-- `normalizes_to_zero_var`, which returns early, computes what `normalizes_to_zero` does.
pub normalizes_to_zero_var_lem :
    (r : Fe) → HasMagnitude 1024 r → normalizes_to_zero_var r ≡ normalizes_to_zero r
unfolding normalizes_to_zero_var normalizes_to_zero normalize_weak settle
normalizes_to_zero_var_lem r limbs =
    let (weak, e) = normalize_weak_lem r limbs in early_zero (normalize_weak r) weak
