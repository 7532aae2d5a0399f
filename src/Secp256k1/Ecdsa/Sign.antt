-- ===== src/Secp256k1/Ecdsa/Sign.antt =====
-- What signing computes: the equation of the signature, and its low second half.
use mathlib.Core.Path.{subst}
use simple_standalone_versio.Base.{
  ℕ, ◌+◌, ◌-◌, ◌*◌, ◌/◌, ◌%◌, ◌<◌, ◌≤◌, ◌≡◌, ◌⊎◌, refl, sym, ap, ◌∙◌, false, inl, inr, Bool-cases,
  ◌==◌, not, arith,
}
use simple_standalone_versio.Secp256k1.Powers.{mul_cong, power}
use simple_standalone_versio.Secp256k1.Scalar.{Scalar, is_zero, is_high, add, negate}
use simple_standalone_versio.Secp256k1.Scalar.Carry
use simple_standalone_versio.Secp256k1.Scalar.Carry.{AreLimbs, carry-AreLimbs}
use simple_standalone_versio.Secp256k1.Scalar.Mul.{mul}
use simple_standalone_versio.Secp256k1.Scalar.Mul.Fold.{value-mul}
use simple_standalone_versio.Secp256k1.Scalar.Inverse.{inverse, value-inverse}
use simple_standalone_versio.Secp256k1.Scalar.Reduce.{
  order, is_zero_lem, is_high_lem, value-add, value-negate,
}
use simple_standalone_versio.Secp256k1.Field.{normalize}
use simple_standalone_versio.Secp256k1.Field.Value.{value, prime, HasMagnitude}
use simple_standalone_versio.Secp256k1.Field.Normalize.{value-normalize}
use simple_standalone_versio.Secp256k1.Field.Inverse.{weaker}
use simple_standalone_versio.Secp256k1.Group.{Gej, ge_set_gej}
use simple_standalone_versio.Secp256k1.Ecdsa.{Signed, low_s, ecdsa_sig_sign}
use simple_standalone_versio.Secp256k1.Ecdsa.Encoding.{read_as_scalar}

-- `s` solves the equation of a signature, up to the sign of the nonce's point.
pub record Solves (s k n : ℕ) : Type 0 where
  pub solution : ((s * k) % order ≡ n % order) ⊎ ((s * k + n) % order ≡ 0)

-- what holds of the end of signing, where `s` is the second half before it is made low
pub record IsLow (r s : Scalar) (out : Signed) (k n : ℕ) : Type 0 where
  pub kept : out.sigr ≡ r
  pub result : out.ok ≡ not (Carry.value s == 0)
  pub not_zero : (Carry.value out.sigs == 0) ≡ not out.ok
  pub limbs : AreLimbs out.sigs
  pub low : Carry.value out.sigs ≤ order / 2
  pub solves : Solves (Carry.value out.sigs) k n

negate-AreLimbs : (a : Scalar) → is_zero a ≡ false → AreLimbs (negate a)
unfolding negate
negate-AreLimbs a e = rw e (carry-AreLimbs _ _ _ _)

negated_product :
    (s t k n : ℕ) → t + s ≡ order → (s * k) % order ≡ n % order → (t * k + n) % order ≡ 0
negated_product s t k n e f =
    let whole : t * k + s * k ≡ order * k = omega (arith, ap (λ x. x * k) e) in omega arith

negated_sum : (s t : ℕ) → t ≡ (order - s) % order → s < order → 0 < s → t + s ≡ order
negated_sum s t e below more = omega arith

low_s-IsLow :
    (r s : Scalar) (recid k n : ℕ)
    → AreLimbs s
    → Carry.value s < order
    → (Carry.value s * k) % order ≡ n % order
    → IsLow r s (low_s r s recid) k n
unfolding low_s
low_s-IsLow r s recid k n limbs below e =
    let zero_test = is_zero_lem s in
    let high_test = is_high_lem s limbs in
    elim (Bool-cases (is_zero s)) [
      | inl z ↦ rw z (record {
        kept = refl;
        result = ground arith;
        not_zero = ground arith;
        limbs = limbs;
        low = ground arith;
        solves = record { solution = inl e };
      })
      | inr z ↦
          let more : 0 < Carry.value s = ground arith in
          elim (Bool-cases (is_high s)) [
            | inl h ↦
                let sum = negated_sum _ _ (value-negate s limbs below) below more in
                let high : order / 2 < Carry.value s = ground arith in
                rw (z, h)
                  (record {
                    kept = refl;
                    result = ground arith;
                    not_zero = ground arith;
                    limbs = negate-AreLimbs s z;
                    low = omega arith;
                    solves = record { solution = inr (negated_product _ _ k n sum e) };
                  })
            | inr h ↦
                rw (z, h)
                  (record {
                    kept = refl;
                    result = ground arith;
                    not_zero = ground arith;
                    limbs = limbs;
                    low = ground arith;
                    solves = record { solution = inl e };
                  })
          ]
    ]

-- `i` is the inverse of the nonce up to a power that is 1.
solution_lem :
    (s i k n t p : ℕ)
    → s ≡ (i * n) % order
    → t ≡ (k * i) % order
    → t % order ≡ p % order
    → p % order ≡ 1
    → (s * k) % order ≡ n % order
solution_lem s i k n t p e f g fermat =
    let left = mul_cong order s k (i * n) k (omega arith) refl in
    let right = mul_cong order (k * i) n 1 n (omega arith) refl in omega arith

-- `r * d + m`, as signing computes it
message_lem :
    (r d m t n : ℕ) → t ≡ (r * d) % order → n ≡ (t + m) % order → n % order ≡ (r * d + m) % order
message_lem r d m t n e f = omega arith

zero_lem :
    (s i k n n' : ℕ)
    → s ≡ (i * n') % order
    → n' % order ≡ n % order
    → (s * k) % order ≡ n % order
    → (s == 0) ≡ (n % order == 0)
zero_lem s i k n n' e f g = elim (Bool-cases (s == 0)) [
  | inl c ↦
      let none : s ≡ 0 = ground arith in
      let product : s * k ≡ 0 = ap (λ t. t * k) none ∙ omega arith in
      let z : n % order ≡ 0 = omega (arith, g, product) in ground arith
  | inr c ↦ elim (Bool-cases (n % order == 0)) [
    | inl z ↦
        let m : n' % order ≡ 0 % order = ground arith in
        let product = mul_cong order i n' i 0 refl m in
        let none : s ≡ 0 = omega (arith, e, product) in absurd (ground arith)
    | inr z ↦ c ∙ sym z
  ]
]

-- the second half before it is made low
pub record IsSecond (s : Scalar) (k n : ℕ) : Type 0 where
  pub limbs : AreLimbs s
  pub below : Carry.value s < order
  pub solution : (Carry.value s * k) % order ≡ n % order
  pub zero_test : (Carry.value s == 0) ≡ (n % order == 0)

second_lem :
    (r d m k : Scalar)
    → AreLimbs r
    → AreLimbs d
    → AreLimbs m
    → AreLimbs k
    → Carry.value m < order
    → power (Carry.value k) (order - 1) % order ≡ 1
    → IsSecond
        (mul (inverse k) (add (mul r d) m).0)
        (Carry.value k)
        (Carry.value r * Carry.value d + Carry.value m)
second_lem r d m k lr ld lm lk m_below fermat =
    let (_, e, li) = value-inverse k lk in
    let (f, lp) = value-mul r d lr ld in
    let (g, _, ln) = value-add (mul r d) m lp lm (omega (arith, f)) m_below in
    let (h, ls) = value-mul (inverse k) (add (mul r d) m).0 li ln in
    let (j, _) = value-mul k (inverse k) lk li in
    let same = message_lem (Carry.value r) (Carry.value d) (Carry.value m) _ _ f g in
    let solution = solution_lem _ _ (Carry.value k) _ _ _ h j e (fermat ∙ omega arith) ∙ same in
    record {
      limbs = ls;
      below = omega (arith, h);
      solution = solution;
      zero_test = zero_lem _ _ (Carry.value k) _ _ h same solution;
    }

-- A signature of `m` by `d`, with the nonce `k` whose point has the first coordinate `x`.
pub record IsSignature (out : Signed) (x d m k : ℕ) : Type 0 where
  pub first : Carry.value out.sigr ≡ x % order
  pub first_limbs : AreLimbs out.sigr
  pub second_limbs : AreLimbs out.sigs
  pub low : Carry.value out.sigs ≤ order / 2
  pub not_zero : (Carry.value out.sigs == 0) ≡ not out.ok
  pub result : out.ok ≡ not ((Carry.value out.sigr * d + m) % order == 0)
  pub solves : Solves (Carry.value out.sigs) k (Carry.value out.sigr * d + m)

from_IsLow :
    (r s : Scalar) (out : Signed) (x d m k : ℕ)
    → Carry.value r ≡ x % order
    → AreLimbs r
    → IsSecond s k (Carry.value r * d + m)
    → IsLow r s out k (Carry.value r * d + m)
    → IsSignature out x d m k
from_IsLow r s out x d m k e limbs second low =
    let same = sym low.kept in
    record {
      first = ap Carry.value low.kept ∙ e;
      first_limbs = subst AreLimbs same limbs;
      second_limbs = low.limbs;
      low = low.low;
      not_zero = low.not_zero;
      result =
          low.result
          ∙ ap not second.zero_test
          ∙ ap (λ t. not ((Carry.value t * d + m) % order == 0)) same;
      solves = subst (λ t. Solves (Carry.value out.sigs) k (Carry.value t * d + m)) same low.solves;
    }

-- For scalars on limbs of 64 bits, a message below the order, and a nonce whose power order - 1 is 1, as Fermat's theorem says of one
-- that is no multiple of the order, signing gives `r`, the first coordinate modulo the order of the nonce's
-- point, and an `s` of at most half the order with `s * k` equal to `r * d + m` or to its negation modulo the
-- order. It succeeds exactly where `r * d + m` is not 0 modulo the order, and then `s` is not 0.
pub ecdsa_sig_sign_lem :
    (ecmult_gen : Scalar → Gej) (seckey message nonce : Scalar)
    → AreLimbs seckey
    → AreLimbs message
    → AreLimbs nonce
    → Carry.value message < order
    → HasMagnitude 8 (ge_set_gej (ecmult_gen nonce)).0.x
    → power (Carry.value nonce) (order - 1) % order ≡ 1
    → IsSignature
        (ecdsa_sig_sign ecmult_gen seckey message nonce)
        (value (ge_set_gej (ecmult_gen nonce)).0.x % prime)
        (Carry.value seckey)
        (Carry.value message)
        (Carry.value nonce)
unfolding ecdsa_sig_sign
ecdsa_sig_sign_lem ecmult_gen seckey message nonce ld lm lk m_below bx fermat =
    let r = (ge_set_gej (ecmult_gen nonce)).0 in
    let (e, normalized) = value-normalize r.x (weaker 8 1024 _ (omega arith) bx) in
    let (er, lr, over) = read_as_scalar (normalize r.x) normalized.0 in
    let second = second_lem _ seckey message nonce lr ld lm lk m_below fermat in
    from_IsLow _ _ _ _ _ _ _ (er ∙ ap (λ v. v % order) e) lr second
      (low_s-IsLow _ _ _ _ _ second.limbs second.below second.solution)
