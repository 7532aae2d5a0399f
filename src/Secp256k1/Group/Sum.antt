-- ===== src/Secp256k1/Group/Sum.antt =====
-- The additions: the sum of two points is a point.
use simple_standalone_versio.Base.{
  ℕ, ◌+◌, ◌*◌, ◌%◌, ◌≡◌, inl, inr, refl, ap, ◌∙◌, Bool, true, false, Bool-cases, if◌then◌else◌,
  Option, arith,
}
use simple_standalone_versio.Secp256k1.Powers.{mul_cong}
use simple_standalone_versio.Secp256k1.Field.{Fe, negate, add, normalizes_to_zero_var}
use simple_standalone_versio.Secp256k1.Field.Value.{value, prime}
use simple_standalone_versio.Secp256k1.Group.{Gej, chord, sum_of, gej_add_var}
use simple_standalone_versio.Secp256k1.Group.Curve.{sixth, AreOnCurve, chord-AreOnCurve}
use simple_standalone_versio.Secp256k1.Group.Residue.{
  ◌≈◌, Stands, itself-Stands, as-Stands, weaker-Stands, mul-Stands, mul-Stands_plain,
  sqr-Stands_plain, mul_int-Stands, add-Stands, negate-Stands, plain-Stands, value-Stands,
}
use simple_standalone_versio.Secp256k1.Group.Valid.{
  AreBounded, IsPoint, on_curve-IsPoint, IsPoint-on_curve,
}
use simple_standalone_versio.Secp256k1.Group.Double.{gej_double_var-IsPoint}

module _ {u1 s1 h i : Fe} (u s k j : ℕ) (su : Stands 1 u1 u 0) (ss : Stands 1 s1 s 0)
    (sh : Stands 8 h k 0) (si : Stands 8 i j 0) where
  chord-Stands_x : Stands 5 (chord u1 s1 h i).0 (j * j) (k * k * k + 2 * (u * (k * k)))
  unfolding chord
  chord-Stands_x =
      let h2 = sqr-Stands_plain (omega arith) sh in
      let h3 = mul-Stands_plain (omega arith) (omega arith) sh h2 in
      let t = mul-Stands_plain (omega arith) (omega arith) su h2 in
      let both = add-Stands (omega arith) (mul_int-Stands 2 (omega arith) t) h3 in
      as-Stands _ _
        (add-Stands (omega arith) (negate-Stands 3 (omega arith) both)
          (sqr-Stands_plain (omega arith) si))
        (ap (λ t. t % prime) (omega arith))

  chord-Stands_y :
      (x : ℕ)
      → Stands 5 (chord u1 s1 h i).0 x 0
      → Stands 3 (chord u1 s1 h i).1 (j * (u * (k * k))) (j * x + s * (k * k * k))
  unfolding chord
  chord-Stands_y x sx =
      let h2 = sqr-Stands_plain (omega arith) sh in
      let h3 = mul-Stands_plain (omega arith) (omega arith) sh h2 in
      let t = mul-Stands_plain (omega arith) (omega arith) su h2 in
      let line = add-Stands (omega arith) (negate-Stands 5 (omega arith) sx) t in
      as-Stands _ _
        (add-Stands (omega arith) (mul-Stands (omega arith) (omega arith) line si)
          (negate-Stands 1 (omega arith) (mul-Stands_plain (omega arith) (omega arith) h3 ss)))
        (ap (λ t. t % prime) (omega arith))

pub sixth_cong : (z k w : ℕ) → z ≈ k * w → 7 * sixth z ≈ 7 * sixth w * (k * k * k * (k * k * k))
sixth_cong z k w e =
    let s = mul_cong prime z z (k * w) (k * w) e e in
    let q = mul_cong prime (z * z) (z * z) _ _ s s in
    let c = mul_cong prime (z * z * (z * z)) (z * z) _ _ q s in omega arith

pub sum_cong : (x a b : ℕ) → a ≈ b → x + b ≈ x + a
sum_cong x a b e = omega arith

-- The operands' coordinates over one `z`, with the number `w`.
module _ (u s u2 s2 w : ℕ) (curve : AreOnCurve u s w) (curve2 : AreOnCurve u2 s2 w) where
  pub sum_of-IsPoint :
      (r a : Gej) (ratio : Fe) {u1 s1 h i z : Fe}
      → AreBounded r
      → IsPoint a
      → Stands 1 u1 u 0
      → Stands 1 s1 s 0
      → Stands 3 h u2 u
      → Stands 3 i s2 s
      → Stands 1 z (value h * w) 0
      → IsPoint (sum_of r a u1 s1 h i z ratio).0
  unfolding sum_of
  sum_of-IsPoint r a ratio {u1} {s1} {h} {i} {z} bounded point su ss sh si sz =
      let k = value-Stands (weaker-Stands 8 (omega arith) sh) in
      let j = value-Stands (weaker-Stands 8 (omega arith) si) in
      let sx = chord-Stands_x u s _ _ su ss k j in
      let sy = chord-Stands_y u s _ _ su ss k j _ (value-Stands sx) in
      let d : ℕ = 7 * sixth w in
      let curve3 =
        chord-AreOnCurve u s d (value h) (value i) u2 s2 _ _ curve curve2 sh.difference
          si.difference sx.difference sy.difference in
      elim (Bool-cases (normalizes_to_zero_var h)) [
        | inl e ↦ elim (Bool-cases (normalizes_to_zero_var i)) [
          | inl f ↦ rw (e, f) (gej_double_var-IsPoint r a bounded point)
          | inr f ↦ rw (e, f) (bounded, inl refl)
        ]
        | inr e ↦ rw e (
            on_curve-IsPoint
              (record { x = (chord u1 s1 h i).0; y = (chord u1 s1 h i).1; z = z; infinity = false })
              (
                (weaker-Stands 8 (omega arith) sx).limbs,
                (weaker-Stands 8 (omega arith) sy).limbs,
                (weaker-Stands 8 (omega arith) sz).limbs,
              )
              refl (curve3 ∙ sum_cong _ _ _ (sixth_cong (value z) (value h) w (plain-Stands sz))))
      ]

-- a point's coordinates over the product of its `z` and another number
pub scaled_curve :
    (x y z w : ℕ) → AreOnCurve x y z → AreOnCurve (x * (w * w)) (y * (w * w) * w) (z * w)
scaled_curve x y z w e =
    let f = mul_cong prime (y * y) (sixth w) (x * x * x + 7 * sixth z) (sixth w) e (omega arith) in
    ap (λ t. t % prime) (omega arith) ∙ f ∙ ap (λ t. t % prime) (omega arith)

pub swap_curve : (x y z w : ℕ) → AreOnCurve x y (z * w) → AreOnCurve x y (w * z)
swap_curve x y z w e = e ∙ ap (λ t. t % prime) (omega arith)

swap_factors : (a b c : ℕ) → a * (b * c) ≡ b * (a * c)
swap_factors a b c = omega arith

pub difference_lem :
    {a b : Fe} {u v : ℕ} → Stands 1 a u 0 → Stands 1 b v 0 → Stands 3 (add (negate a 1) b) v u
difference_lem {u = u} {v = v} sa sb =
    as-Stands v u (add-Stands (omega arith) (negate-Stands 1 (omega arith) sa) sb)
      (ap (λ t. t % prime) (omega arith))

pub pick :
    (s t : Bool) (p q w : Gej × Option Fe)
    → IsPoint p.0
    → IsPoint q.0
    → (s ≡ false → t ≡ false → IsPoint w.0)
    → IsPoint (if s then p else (if t then q else w)).0
pick true t p q w a b c = a
pick false true p q w a b c = b
pick false false p q w a b c = c refl refl

-- The sum of two points is a point, whichever of them is infinity, equal to the other or its opposite. The
-- old result has bounded magnitudes.
pub gej_add_var-IsPoint :
    (r a b : Gej) → AreBounded r → IsPoint a → IsPoint b → IsPoint (gej_add_var r a b).0
unfolding gej_add_var
gej_add_var-IsPoint r a b bounded pa pb =
    let xa = itself-Stands 8 a.x pa.0.0 in
    let ya = itself-Stands 8 a.y pa.0.1 in
    let za = itself-Stands 8 a.z pa.0.2 in
    let xb = itself-Stands 8 b.x pb.0.0 in
    let yb = itself-Stands 8 b.y pb.0.1 in
    let zb = itself-Stands 8 b.z pb.0.2 in
    let z22 = sqr-Stands_plain (omega arith) zb in
    let z12 = sqr-Stands_plain (omega arith) za in
    let u1 = mul-Stands_plain (omega arith) (omega arith) xa z22 in
    let u2 = mul-Stands_plain (omega arith) (omega arith) xb z12 in
    let s1 =
      mul-Stands_plain (omega arith) (omega arith)
        (mul-Stands_plain (omega arith) (omega arith) ya z22) zb in
    let s2 =
      mul-Stands_plain (omega arith) (omega arith)
        (mul-Stands_plain (omega arith) (omega arith) yb z12) za in
    let h = difference_lem u1 u2 in
    let i = difference_lem s1 s2 in
    let ratio = mul-Stands_plain (omega arith) (omega arith) (value-Stands h) zb in
    let z =
      as-Stands _ 0 (mul-Stands_plain (omega arith) (omega arith) za ratio)
        (ap (λ t. (t + 0) % prime) (swap_factors (value a.z) _ (value b.z))) in
    pick a.infinity b.infinity _ _ _ pb pa (λ e f.
      sum_of-IsPoint _ _ _ _ (value a.z * value b.z)
        (scaled_curve _ _ _ (value b.z) (IsPoint-on_curve a pa e))
        (swap_curve _ _ (value b.z) (value a.z)
          (scaled_curve _ _ _ (value a.z) (IsPoint-on_curve b pb f)))
        r a _ bounded pa u1 s1 h i z)
