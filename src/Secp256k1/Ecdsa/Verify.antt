-- ===== src/Secp256k1/Ecdsa/Verify.antt =====
-- The test at the end of verification against the definition: the first coordinate modulo the order.
use Prim.Native.Nat.{compare}
use simple_standalone_versio.Base.{
  ℕ, ◌+◌, ◌-◌, ◌*◌, ◌%◌, ◌<◌, ◌≡◌, refl, sym, ap, ap₂, ◌∙◌, Bool, true, false, inl, inr, Bool-cases,
  leb, ◌==◌, ◌||◌, ==_iff, if◌then◌else◌, arith,
}
use simple_standalone_versio.Secp256k1.Powers.{mul_cong, power}
use simple_standalone_versio.Secp256k1.Scalar.{Scalar, is_zero}
use simple_standalone_versio.Secp256k1.Scalar.Carry
use simple_standalone_versio.Secp256k1.Scalar.Carry.{AreLimbs}
use simple_standalone_versio.Secp256k1.Scalar.Mul.{mul}
use simple_standalone_versio.Secp256k1.Scalar.Mul.Fold.{value-mul}
use simple_standalone_versio.Secp256k1.Scalar.Inverse.{inverse, inverse_var, value-inverse}
use simple_standalone_versio.Secp256k1.Scalar.Reduce.{order, is_zero_lem}
use simple_standalone_versio.Secp256k1.Field
use simple_standalone_versio.Secp256k1.Field.{Fe, cmp_var}
use simple_standalone_versio.Secp256k1.Field.Storage.{cmp_var_lem}
use simple_standalone_versio.Secp256k1.Field.Value.{
  value, prime, HasMagnitude, value-add, AreDigits,
}
use simple_standalone_versio.Secp256k1.Field.Inverse.{weaker}
use simple_standalone_versio.Secp256k1.Group.{Ge, Gej, gej_set_ge, gej_eq_x_var}
use simple_standalone_versio.Secp256k1.Group.Residue.{◌≈◌}
use simple_standalone_versio.Secp256k1.Group.Valid.{AreBounded}
use simple_standalone_versio.Secp256k1.Group.Affine.{gej_eq_x_var_lem}
use simple_standalone_versio.Secp256k1.Ecdsa.{
  order_as_fe, p_minus_order, not_less, matches_point, ecdsa_sig_verify,
}
use simple_standalone_versio.Secp256k1.Ecdsa.Encoding.{as_fe, value-as_fe, read_as_fe}

not_less-compare : (a b : ℕ) → not_less (compare a b) ≡ leb b a
not_less-compare a b = ground arith

-- `z ^ 2` can be cancelled, for a `z` with an inverse.
cancel_square : (v x z i : ℕ) → z * i ≈ 1 → z * z * v ≈ z * z * x → v ≈ x
cancel_square v x z i e f =
    let s = mul_cong prime (z * i) (z * i) 1 1 e e in
    let l = mul_cong prime (z * i * (z * i)) v 1 v s (omega arith) in
    let r = mul_cong prime (z * i * (z * i)) x 1 x s (omega arith) in
    let m = mul_cong prime (z * z * v) (i * i) (z * z * x) (i * i) f (omega arith) in omega arith

-- The test of a candidate `v` for the first coordinate `x` of a point, both below the prime.
candidate :
    (v x z i w : ℕ)
    → v < prime
    → x < prime
    → z * i ≈ 1
    → w ≈ x * (z * z)
    → ((z * z * v) % prime == w % prime) ≡ (v == x)
candidate v x z i w vs xs e f = elim (Bool-cases (v == x)) [
  | inl s ↦
      let same : v ≡ x = (==_iff v x).0 s in
      let g : z * z * v ≈ w = ap (λ t. (z * z * t) % prime) same ∙ omega arith in ground arith
  | inr s ↦ elim (Bool-cases ((z * z * v) % prime == w % prime)) [
    | inl t ↦
        let g : z * z * v ≈ w = (==_iff _ _).0 t in
        let c = cancel_square v x z i e (omega arith) in absurd (ground arith)
    | inr t ↦ t ∙ sym s
  ]
]

-- `r` or `r` and the order is the coordinate: then the coordinate is `r` modulo the order.
either_candidate :
    (r x : ℕ)
    → r < order
    → x < prime
    → (if r == x then true else (if leb (prime - order) r then false else r + order == x))
      ≡ (x % order == r)
either_candidate r x rs xs = ground arith

under_if :
    (c : Bool) {s t : Bool}
    → (c ≡ false → s ≡ t)
    → (if c then false else s) ≡ (if c then false else t)
under_if true e = refl
under_if false e = e refl

module _ (pr : Gej) (bounded : AreBounded pr) (x i : ℕ) (x_small : x < prime)
    (inverted : value pr.z * i ≈ 1) (coordinate : value pr.x ≈ x * (value pr.z * value pr.z)) where
  -- The comparison with a field element below the prime is one with its number.
  test_lem : (f : Fe) → HasMagnitude 8 f → value f < prime → gej_eq_x_var f pr ≡ (value f == x)
  test_lem f limbs below =
      gej_eq_x_var_lem f pr limbs bounded
      ∙ candidate (value f) x (value pr.z) i (value pr.x) below x_small inverted coordinate

  -- the test, on the field element that it reads
  found : Fe → Bool
  found xr =
      if gej_eq_x_var xr pr
      then true
      else (if not_less (cmp_var xr p_minus_order)
          then false
          else gej_eq_x_var (Field.add xr order_as_fe) pr)

  found_lem : (f : Fe) → AreDigits f → value f < order → found f ≡ (x % order == value f)
  unfolding found
  found_lem f digits below =
      let limbs : HasMagnitude 1 f = omega (arith, digits) in
      let compared =
        ap not_less (cmp_var_lem f p_minus_order digits (omega arith))
        ∙ not_less-compare (value f) (value p_minus_order) in
      let (e, sum_limbs) = value-add f order_as_fe 1 1 limbs (omega arith) (omega arith) in
      let second = under_if (leb (prime - order) (value f)) λ c.
        test_lem (Field.add f order_as_fe) (weaker 2 8 _ (omega arith) sum_limbs)
          (ground (arith, e, c))
        ∙ ap (λ v. v == x) e in
      ap₂ (λ s t. if s then true else t)
        (test_lem f (weaker 1 8 f (omega arith) limbs) (omega arith))
        (ap (λ c. if c then false else gej_eq_x_var (Field.add f order_as_fe) pr) compared ∙ second)
      ∙ either_candidate (value f) x below x_small

  pub matches_point_lem :
      (sigr : Scalar)
      → AreLimbs sigr
      → Carry.value sigr < order
      → matches_point sigr pr ≡ (x % order == Carry.value sigr)
  unfolding matches_point found
  matches_point_lem sigr limbs below =
      let (e, digits) = value-as_fe sigr limbs in
      ap found (read_as_fe sigr limbs)
      ∙ found_lem (as_fe sigr) digits (omega (arith, e))
      ∙ ap (λ v. x % order == v) e

is_zero_test : (s : Scalar) → is_zero s ≡ (Carry.value s == 0)
is_zero_test s = is_zero_lem s ∙ ground arith

-- `u` is `i * n` and `t` is `s * i`: then `u * s` is `t * n`.
factor_cong :
    (s i n u t p : ℕ)
    → u ≡ (i * n) % order
    → t ≡ (s * i) % order
    → t % order ≡ p % order
    → (u * s) % order ≡ (p * n) % order
factor_cong s i n u t p e f g =
    let left = mul_cong order u s (i * n) s (omega arith) refl in
    let right = mul_cong order (s * i) n p n (omega arith) refl in omega arith

-- `x` is the first coordinate of a finite point.
pub record HasCoordinate (pr : Gej) (x : ℕ) : Type 0 where
  pub bounded : AreBounded pr
  pub small : x < prime
  pub inverse_z : ℕ
  pub inverted : value pr.z * inverse_z ≈ 1
  pub coordinate : value pr.x ≈ x * (value pr.z * value pr.z)

-- The factor that verification computes from the inverse of `s`.
pub factor_lem :
    (s n : Scalar)
    → AreLimbs s
    → AreLimbs n
    → (Carry.value (mul (inverse_var s) n) * Carry.value s) % order
      ≡ (power (Carry.value s) (order - 1) * Carry.value n) % order
unfolding inverse_var
factor_lem s n ls ln =
    let (_, e, li) = value-inverse s ls in
    let (f, _) = value-mul (inverse s) n li ln in
    let (g, _) = value-mul s (inverse s) ls li in
    factor_cong (Carry.value s) (Carry.value (inverse s)) (Carry.value n) _ _
      (power (Carry.value s) (order - 1)) f g e

-- the test of a point against `r`, where the coordinate is known when the point is finite
point_test :
    (sigr : Scalar) (pr : Gej) (x : ℕ)
    → AreLimbs sigr
    → Carry.value sigr < order
    → (pr.infinity ≡ false → HasCoordinate pr x)
    → (if pr.infinity then false else matches_point sigr pr)
      ≡ (if pr.infinity then false else x % order == Carry.value sigr)
point_test sigr pr x limbs below known = under_if pr.infinity λ finite.
    let h = known finite in
    matches_point_lem pr h.bounded x h.inverse_z h.small h.inverted h.coordinate sigr limbs below

-- the point whose first coordinate verification tests
abbrev pub computed_point : (Gej → Scalar → Scalar → Gej) → Scalar → Scalar → Ge → Scalar → Gej
computed_point ecmult sigr sigs pubkey message =
    ecmult (gej_set_ge pubkey) (mul (inverse_var sigs) sigr) (mul (inverse_var sigs) message)

-- Verification accepts exactly where neither half of the signature is 0, the point `u1 G + u2 Q` that
-- `ecmult` computes is finite, and the first coordinate of that point is `r` modulo the order; and `u1 * s`
-- and `u2 * s` are the message and `r` times the power order - 1 of `s`, which is 1 by Fermat's theorem. The
-- coordinate is that of a finite point, whose `z` has an inverse.
pub ecdsa_sig_verify_lem :
    (ecmult : Gej → Scalar → Scalar → Gej) (sigr sigs : Scalar) (pubkey : Ge) (message : Scalar)
    (x : ℕ)
    → AreLimbs sigr
    → AreLimbs sigs
    → AreLimbs message
    → Carry.value sigr < order
    → ((computed_point ecmult sigr sigs pubkey message).infinity ≡ false
        → HasCoordinate (computed_point ecmult sigr sigs pubkey message) x)
    → let u1 = mul (inverse_var sigs) message in
      let u2 = mul (inverse_var sigs) sigr in
      (ecdsa_sig_verify ecmult sigr sigs pubkey message ≡ (
        if Carry.value sigr == 0 || Carry.value sigs == 0
        then false
        else (if (computed_point ecmult sigr sigs pubkey message).infinity
            then false
            else x % order == Carry.value sigr)))
      × ((Carry.value u1 * Carry.value sigs) % order
          ≡ (power (Carry.value sigs) (order - 1) * Carry.value message) % order)
      × ((Carry.value u2 * Carry.value sigs) % order
          ≡ (power (Carry.value sigs) (order - 1) * Carry.value sigr) % order)
unfolding ecdsa_sig_verify
ecdsa_sig_verify_lem ecmult sigr sigs pubkey message x lr ls lm below known = (
  ap₂ (λ c t. if c then false else t) (ap₂ ◌||◌ (is_zero_test sigr) (is_zero_test sigs))
      (point_test sigr _ x lr below known),
  factor_lem sigs message ls lm,
  factor_lem sigs sigr ls lr,
)
