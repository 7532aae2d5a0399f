-- ===== src/Secp256k1/Ecdsa/RoundTrip.antt =====
-- What signing gives, verification accepts.
use simple_standalone_versio.Base.{
  ℕ, ◌+◌, ◌-◌, ◌*◌, ◌%◌, ◌<◌, ◌≡◌, ◌⊎◌, refl, sym, ap, ◌∙◌, Bool, true, false, not, inl, inr, ◌==◌,
  ◌||◌, if◌then◌else◌, ==_iff, arith,
}
use simple_standalone_versio.Secp256k1.Powers.{mul_cong, power}
use simple_standalone_versio.Secp256k1.Scalar.{Scalar}
use simple_standalone_versio.Secp256k1.Scalar.Carry
use simple_standalone_versio.Secp256k1.Scalar.Carry.{AreLimbs}
use simple_standalone_versio.Secp256k1.Scalar.Mul.{mul}
use simple_standalone_versio.Secp256k1.Scalar.Mul.Fold.{value-mul}
use simple_standalone_versio.Secp256k1.Scalar.Inverse.{inverse, inverse_var, value-inverse}
use simple_standalone_versio.Secp256k1.Scalar.Reduce.{order}
use simple_standalone_versio.Secp256k1.Field.Value.{value, prime, HasMagnitude}
use simple_standalone_versio.Secp256k1.Group.{Ge, Gej, gej_set_ge, ge_set_gej}
use simple_standalone_versio.Secp256k1.Ecdsa.{ecdsa_sig_sign, ecdsa_sig_verify}
use simple_standalone_versio.Secp256k1.Ecdsa.Sign.{Solves, ecdsa_sig_sign_lem}
use simple_standalone_versio.Secp256k1.Ecdsa.Verify.{
  HasCoordinate, factor_lem, ecdsa_sig_verify_lem,
}

-- `u` is the nonce `k` or its negation, modulo the order
pub record IsNonce (u k : ℕ) : Type 0 where
  pub same : (u % order ≡ k % order) ⊎ ((u + k) % order ≡ 0)

-- An equation modulo the order is divided by `s`.
cancel :
    (u v s i : ℕ) → (s * i) % order ≡ 1 → (u * s) % order ≡ (v * s) % order → u % order ≡ v % order
cancel u v s i e f =
    let one : (s * i) % order ≡ 1 % order = omega arith in
    let left = mul_cong order u (s * i) u 1 refl one in
    let right = mul_cong order v (s * i) v 1 refl one in
    let both = mul_cong order (u * s) i (v * s) i f refl in omega arith

-- The two factors of verification make the nonce.
factors_lem :
    (u1 u2 s r m d k p i : ℕ)
    → p % order ≡ 1
    → (s * i) % order ≡ 1
    → (u1 * s) % order ≡ (p * m) % order
    → (u2 * s) % order ≡ (p * r) % order
    → Solves s k (r * d + m)
    → IsNonce (u1 + u2 * d) k
factors_lem u1 u2 s r m d k p i fermat inverted e1 e2 solves =
    let one : p % order ≡ 1 % order = omega arith in
    let f1 = e1 ∙ mul_cong order p m 1 m one refl in
    let f2 = e2 ∙ mul_cong order p r 1 r one refl in
    let f3 = mul_cong order (u2 * s) d (1 * r) d f2 refl in
    let sum : ((u1 + u2 * d) * s) % order ≡ (r * d + m) % order = omega arith in
    elim solves.solution [
      | inl g ↦ record { same = inl (cancel (u1 + u2 * d) k s i inverted (omega arith)) }
      | inr g ↦ record {
        same = inr (cancel (u1 + u2 * d + k) 0 s i inverted (omega arith) ∙ omega arith);
      }
    ]

inverse_lem :
    (s i t p : ℕ)
    → t ≡ (s * i) % order
    → t % order ≡ p % order
    → p % order ≡ 1
    → (s * i) % order ≡ 1
inverse_lem s i t p e f g = omega arith

accepted :
    (c : Bool) {a b e : Bool}
    → a ≡ false
    → b ≡ false
    → c ≡ false
    → e ≡ true
    → (if a || b then false else (if c then false else e)) ≡ true
accepted c p q f g = rw (p, q, f) g

-- Verification accepts what signing gives where signing succeeds and `r` is not 0: for a function `ecmult` that
-- gives, at factors whose combination with the key is the nonce or its negation, a finite point with the first
-- coordinate of the nonce's point, and where the powers order - 1 of the nonce and of `s` are 1, as Fermat's
-- theorem says. The scalars are on limbs of 64 bits, and the message is below the order.
pub ecdsa_sig_verify-ecdsa_sig_sign :
    (ecmult_gen : Scalar → Gej) (ecmult : Gej → Scalar → Scalar → Gej)
    (seckey message nonce : Scalar) (pubkey : Ge)
    → AreLimbs seckey
    → AreLimbs message
    → AreLimbs nonce
    → Carry.value message < order
    → HasMagnitude 8 (ge_set_gej (ecmult_gen nonce)).0.x
    → power (Carry.value nonce) (order - 1) % order ≡ 1
    → ((u1 u2 : Scalar)
        → IsNonce (Carry.value u1 + Carry.value u2 * Carry.value seckey) (Carry.value nonce)
        → ((ecmult (gej_set_ge pubkey) u2 u1).infinity ≡ false)
          × HasCoordinate
              (ecmult (gej_set_ge pubkey) u2 u1)
              (value (ge_set_gej (ecmult_gen nonce)).0.x % prime))
    → power (Carry.value (ecdsa_sig_sign ecmult_gen seckey message nonce).sigs) (order - 1) % order
      ≡ 1
    → (ecdsa_sig_sign ecmult_gen seckey message nonce).ok ≡ true
    → (Carry.value (ecdsa_sig_sign ecmult_gen seckey message nonce).sigr == 0) ≡ false
    → let out = ecdsa_sig_sign ecmult_gen seckey message nonce in
      ecdsa_sig_verify ecmult out.sigr out.sigs pubkey message ≡ true
unfolding inverse_var
ecdsa_sig_verify-ecdsa_sig_sign ecmult_gen ecmult seckey message nonce pubkey ld lm lk m_below bx
      fermat mult fermat_s ok nonzero =
    let out = ecdsa_sig_sign ecmult_gen seckey message nonce in
    let x = value (ge_set_gej (ecmult_gen nonce)).0.x % prime in
    let signed = ecdsa_sig_sign_lem ecmult_gen seckey message nonce ld lm lk m_below bx fermat in
    let below : Carry.value out.sigr < order = omega (arith, signed.first) in
    let (_, e, li) = value-inverse out.sigs signed.second_limbs in
    let (v, _) = value-mul out.sigs (inverse out.sigs) signed.second_limbs li in
    let inverted = inverse_lem _ _ _ _ v e fermat_s in
    let nonce_lem =
      factors_lem (Carry.value (mul (inverse_var out.sigs) message))
        (Carry.value (mul (inverse_var out.sigs) out.sigr)) (Carry.value out.sigs)
        (Carry.value out.sigr) (Carry.value message) (Carry.value seckey) (Carry.value nonce) _ _
        fermat_s inverted (factor_lem out.sigs message signed.second_limbs lm)
        (factor_lem out.sigs out.sigr signed.second_limbs signed.first_limbs) signed.solves in
    let (finite, known) =
      mult (mul (inverse_var out.sigs) message) (mul (inverse_var out.sigs) out.sigr) nonce_lem in
    (ecdsa_sig_verify_lem ecmult out.sigr out.sigs pubkey message x signed.first_limbs
      signed.second_limbs lm below (λ _. known)).0
    ∙ accepted _ nonzero (signed.not_zero ∙ ap not ok) finite ((==_iff _ _).1 (sym signed.first))
