-- ===== src/Secp256k1/Scalar/Reduce.antt =====
-- Comparison with the order, reduction, addition and negation (scalar_4x64_impl.h).
use simple_standalone_versio.Base.{
  ℕ, zero, suc, ◌+◌, ◌-◌, ◌*◌, ◌/◌, ◌%◌, ◌^◌, ◌<◌, ◌≤◌, ◌≡◌, inl, inr, Bool-cases, leb, ltb, ap,
  ◌∙◌, u64_mod, arith,
}
use simple_standalone_versio.Secp256k1.Scalar.{
  Scalar, n_0, n_1, n_2, n_3, carry, check_overflow, reduce, add, negate, is_zero, is_high, to_bit,
}
use simple_standalone_versio.Secp256k1.Scalar.Carry.{value, AreLimbs, carry-AreLimbs, value-carry}

-- the group order
abbrev pub order : ℕ
order = n_0 + u64_mod * n_1 + 2 ^ 128 * n_2 + 2 ^ 192 * n_3

-- `check_overflow` compares with the order.
pub check_overflow_lem : (s : Scalar) → AreLimbs s → check_overflow s ≡ leb order (value s)
unfolding check_overflow
check_overflow_lem s (b0, b1, b2, b3) = ground arith

-- `is_high` says whether the number is above half the order, for any limbs of 64 bits.
pub is_high_lem : (s : Scalar) → AreLimbs s → is_high s ≡ ltb (order / 2) (value s)
unfolding is_high
is_high_lem s (b0, b1, b2, b3) = ground arith

pub is_zero_lem : (s : Scalar) → is_zero s ≡ leb (value s) 0
unfolding is_zero
is_zero_lem s = ground arith

pub reduce-AreLimbs : (s : Scalar) (overflow : ℕ) → AreLimbs (reduce s overflow)
unfolding reduce
reduce-AreLimbs s overflow = carry-AreLimbs _ _ _ _

-- With the flag set, `reduce` takes the order away, modulo 2 ^ 256.
value-reduce_one :
    (s : Scalar) → AreLimbs s → order ≤ value s → value (reduce s 1) + order ≡ value s
unfolding reduce carry
value-reduce_one s (b0, b1, b2, b3) over = omega arith

-- Without it, the limbs stay.
value-reduce_zero : (s : Scalar) → AreLimbs s → value (reduce s 0) ≡ value s
unfolding reduce carry
value-reduce_zero s (b0, b1, b2, b3) = omega arith

value-wrapped_one :
    (s : Scalar) → AreLimbs s → value s < order → value (reduce s 1) + order ≡ value s + 2 ^ 256
unfolding reduce carry
value-wrapped_one s (b0, b1, b2, b3) below = omega arith

-- The reduction of a sum: limbs and a carry that stand for less than twice the order.
pub value-reduce :
    (r : Scalar) (t : ℕ)
    → AreLimbs r
    → value r + 2 ^ 256 * t < 2 * order
    → (value (reduce r (t + to_bit (check_overflow r))) ≡ (value r + 2 ^ 256 * t) % order)
      × (t + to_bit (check_overflow r) ≡ to_bit (leb order (value r + 2 ^ 256 * t)))
value-reduce r zero b below =
    let e = check_overflow_lem r b in
    elim (Bool-cases (check_overflow r)) [
      | inl c ↦ let x = value-reduce_one r b (ground arith) in rw c (omega arith, ground arith)
      | inr c ↦ let x = value-reduce_zero r b in rw c (ground arith, ground arith)
    ]
value-reduce r (suc zero) b below =
    let e = check_overflow_lem r b in
    let x = value-wrapped_one r b (omega arith) in
    elim (Bool-cases (check_overflow r)) [
      | inl c ↦ ground arith
      | inr c ↦ rw c (omega arith, ground arith)
    ]
value-reduce r (suc (suc t)) b below = ground arith

-- The sum of two reduced scalars is their sum modulo the order, on limbs of 64 bits, and the flag
-- says whether the sum reached the order.
pub value-add :
    (a b : Scalar)
    → AreLimbs a
    → AreLimbs b
    → value a < order
    → value b < order
    → (value (add a b).0 ≡ (value a + value b) % order)
      × ((add a b).1 ≡ to_bit (leb order (value a + value b)))
      × AreLimbs (add a b).0
unfolding add
value-add a b (a0, a1, a2, a3) (b0, b1, b2, b3) a_below b_below =
    let (r, t) = carry (a.d0 + b.d0) (a.d1 + b.d1) (a.d2 + b.d2) (a.d3 + b.d3) in
    let e : value r + 2 ^ 256 * t ≡ value a + value b =
      value-carry _ _ _ _ (omega arith) (omega arith) (omega arith) (omega arith) ∙ omega arith in
    let (v, o) = value-reduce r t (carry-AreLimbs _ _ _ _) (omega arith) in
    (v ∙ ap (λ x. x % order) e, o ∙ ap (λ x. to_bit (leb order x)) e, reduce-AreLimbs _ _)

-- The negation of a reduced scalar is what is missing to the order, and 0 for 0.
pub value-negate :
    (a : Scalar) → AreLimbs a → value a < order → value (negate a) ≡ (order - value a) % order
unfolding negate carry
value-negate a (a0, a1, a2, a3) below =
    let z = is_zero_lem a in
    elim (Bool-cases (is_zero a)) [
      | inl c ↦ rw c (ground arith)
      | inr c ↦ let p : 0 < value a = ground arith in rw c (omega arith)
    ]

-- limbs are determined by the number that they stand for
pub value_injective : (a b : Scalar) → AreLimbs a → AreLimbs b → value a ≡ value b → a ≡ b
value_injective a b (a0, a1, a2, a3) (b0, b1, b2, b3) e =
    let e0 : a.d0 ≡ b.d0 = omega arith in
    let e1 : a.d1 ≡ b.d1 = omega arith in
    let e2 : a.d2 ≡ b.d2 = omega arith in
    let e3 : a.d3 ≡ b.d3 = omega arith in λ i. record { d0 = e0 i; d1 = e1 i; d2 = e2 i; d3 = e3 i }

pub reduce_zero_lem : (s : Scalar) → AreLimbs s → reduce s 0 ≡ s
reduce_zero_lem s limbs =
    value_injective (reduce s 0) s (reduce-AreLimbs s 0) limbs (value-reduce_zero s limbs)
