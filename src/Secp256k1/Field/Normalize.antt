-- ===== src/Secp256k1/Field/Normalize.antt =====
-- Normalization (field_5x52_impl.h).
use simple_standalone_versio.Base.{
  ℕ, ◌+◌, ◌*◌, ◌/◌, ◌%◌, ◌^◌, ◌<◌, ◌≤◌, ◌≡◌, inl, inr, refl, sym, ap, ◌∙◌, zero, suc, bit_and,
  bit_or, bit_and_le, Bool, true, false, Bool-cases, ◌&&◌, ◌||◌, leb, ◌==◌, arith,
}
use simple_standalone_versio.Secp256k1.Field.{
  Fe, to_bit, p_0, ones_52, ones_48, settle, normalize_weak, final_x, final_pass, normalize,
  normalize_var,
}
use simple_standalone_versio.Secp256k1.Field.Value.{
  value, prime, HasMagnitude, AreDigits, IsNormalized, value_injective,
}

-- What the first pass leaves: digits, up to one carry out of the highest limb.
abbrev pub IsWeak : Fe → Type 0
IsWeak t =
    (t.n0 < 2 ^ 52) × (t.n1 < 2 ^ 52) × (t.n2 < 2 ^ 52) × (t.n3 < 2 ^ 52) × (value t < 2 * prime)

-- `normalize_weak` takes a multiple of the prime away.
pub normalize_weak_lem :
    (r : Fe)
    → HasMagnitude 1024 r
    → IsWeak (normalize_weak r) × (value (normalize_weak r) + r.n4 / 2 ^ 48 * prime ≡ value r)
unfolding normalize_weak settle
normalize_weak_lem r (r0, r1, r2, r3, r4) =
    ((omega arith, omega arith, omega arith, omega arith, omega arith), omega arith)

bit_or_digits : (x y : ℕ) → x < 2 → y < 2 → bit_or x y ≡ to_bit (leb 1 x || leb 1 y)
bit_or_digits zero zero p q = refl
bit_or_digits zero (suc zero) p q = refl
bit_or_digits (suc zero) zero p q = refl
bit_or_digits (suc zero) (suc zero) p q = refl
bit_or_digits zero (suc (suc y)) p q = absurd (omega arith)
bit_or_digits (suc zero) (suc (suc y)) p q = absurd (omega arith)
bit_or_digits (suc (suc x)) y p q = absurd (omega arith)

pub and_ones :
    (a b c : ℕ)
    → a ≤ ones_52
    → b ≤ ones_52
    → c ≤ ones_52
    → (bit_and (bit_and a b) c == ones_52) ≡ (a == ones_52 && (b == ones_52 && c == ones_52))
and_ones a b c p q r =
    let (l, m) = bit_and_le a b in
    let (l', m') = bit_and_le (bit_and a b) c in
    elim (Bool-cases (a == ones_52 && (b == ones_52 && c == ones_52))) [
      | inl t ↦
          let e : a ≡ ones_52 = ground arith in
          let f : b ≡ ones_52 = ground arith in
          let g : c ≡ ones_52 = ground arith in rw (e, f, g) refl
      | inr t ↦ ground arith
    ]

final_x_lem : (t : Fe) → IsWeak t → final_x t ≡ to_bit (leb prime (value t))
unfolding final_x
final_x_lem t (t0, t1, t2, t3, below) =
    let y : Bool =
      t.n4 == ones_48
      && (t.n1 == ones_52 && (t.n2 == ones_52 && t.n3 == ones_52) && leb p_0 t.n0) in
    let small : to_bit y < 2 = ground arith in
    rw (and_ones t.n1 t.n2 t.n3 (omega arith) (omega arith) (omega arith))
      (bit_or_digits (t.n4 / 2 ^ 48) (to_bit y) (omega arith) small ∙ ap to_bit (ground arith))

final_pass_lem :
    (t : Fe) (b : Bool)
    → IsWeak t
    → b ≡ leb prime (value t)
    → AreDigits (final_pass t (to_bit b))
      × (value (final_pass t (to_bit b)) + to_bit b * prime ≡ value t)
unfolding final_pass settle
final_pass_lem t true (t0, t1, t2, t3, below) e =
    let over : prime ≤ value t = ground arith in
    ((omega arith, omega arith, omega arith, omega arith, omega arith), omega arith)
final_pass_lem t false (t0, t1, t2, t3, below) e =
    let over : value t < prime = ground arith in
    ((omega arith, omega arith, omega arith, omega arith, omega arith), omega arith)

-- An element of magnitude at most 1024 is normalized to the one element whose digits stand for its
-- number modulo the prime.
pub value-normalize :
    (r : Fe)
    → HasMagnitude 1024 r
    → (value (normalize r) ≡ value r % prime) × IsNormalized (normalize r)
unfolding normalize
value-normalize r limbs =
    let (weak, e) = normalize_weak_lem r limbs in
    let t = normalize_weak r in
    let below = weak.4 in
    let (digits, f) = final_pass_lem t (leb prime (value t)) weak refl in
    let small : value (final_pass t (to_bit (leb prime (value t)))) < prime = ground arith in
    rw (final_x_lem t weak) (omega arith, (digits, small))

final_pass_zero : (t : Fe) → IsWeak t → value t < prime → final_pass t 0 ≡ t
final_pass_zero t weak small =
    let (t0, t1, t2, t3, below) = weak in
    let (digits, f) = final_pass_lem t false weak (ground arith) in
    value_injective _ t digits (t0, t1, t2, t3, omega arith) (omega arith)

-- `normalize_var`, which branches, computes what `normalize` does.
pub normalize_var-normalize : (r : Fe) → HasMagnitude 1024 r → normalize_var r ≡ normalize r
unfolding normalize normalize_var
normalize_var-normalize r limbs =
    let t = normalize_weak r in
    let (weak, e) = normalize_weak_lem r limbs in
    elim (Bool-cases (leb prime (value t))) [
      | inl c ↦ rw (final_x_lem t weak, c) refl
      | inr c ↦ rw (final_x_lem t weak, c) (sym (final_pass_zero t weak (ground arith)))
    ]
