-- ===== src/Secp256k1/Group/Residue.antt =====
-- Field elements as differences modulo the prime.
use mathlib.Core.Path.{subst}
use simple_standalone_versio.Base.{ℕ, ◌+◌, ◌*◌, ◌%◌, ◌≤◌, ◌≡◌, sym, ap, ap₂, ◌∙◌, ◌==◌, arith}
use simple_standalone_versio.Secp256k1.Powers.{mul_cong}
use simple_standalone_versio.Secp256k1.Field.{
  Fe, ones_52, set_int, normalize_weak, settle, negate, mul_int, add,
}
use simple_standalone_versio.Secp256k1.Field.Value.{
  value, prime, HasMagnitude, value-add, negate-HasMagnitude, value-mul_int,
}
use simple_standalone_versio.Secp256k1.Field.Normalize.{normalize_weak_lem}
use simple_standalone_versio.Secp256k1.Field.Mul.{mul, sqr}
use simple_standalone_versio.Secp256k1.Field.Mul.Product.{value-mul_inner}
use simple_standalone_versio.Secp256k1.Field.Inverse.{weaker, sqr-mul, equal_var, equal_lem}

infix 40 ◌≈◌
-- the same number modulo the prime
abbrev pub ◌≈◌ : ℕ → ℕ → Type 0
a ≈ b = a % prime ≡ b % prime

-- `v` stands for `p - n`: products, multiples and negation.
pub mul_lem : (v w p q n k : ℕ) → v + n ≈ p → w + k ≈ q → v * w + (p * k + n * q) ≈ p * q + n * k
mul_lem v w p q n k e f =
    let both = mul_cong prime (v + n) (w + k) p q e f in
    let left = mul_cong prime (v + n) k p k e (omega arith) in
    let right = mul_cong prime n (w + k) n q (omega arith) f in omega arith

pub scale_lem : (v p n k : ℕ) → v + n ≈ p → v * k + n * k ≈ p * k
scale_lem v p n k e =
    ap (λ x. x % prime) (omega arith) ∙ mul_cong prime (v + n) k p k e (omega arith)

negate_lem : (v w p n l : ℕ) → v + n ≈ p → w + v ≡ 2 * l * prime → w + p ≈ n
negate_lem v w p n l e f = omega arith

multiple_lem : (v w t n p : ℕ) → v + t * prime ≡ w → w + n ≈ p → v + n ≈ p
multiple_lem v w t n p e f = omega arith

-- A field element of magnitude at most `m` that stands for `p - n`.
pub record Stands (m : ℕ) (a : Fe) (p n : ℕ) : Type 0 where
  pub limbs : HasMagnitude m a
  pub difference : value a + n ≈ p

pub itself-Stands : (m : ℕ) (a : Fe) → HasMagnitude m a → Stands m a (value a) 0
itself-Stands m a h = record { limbs = h; difference = omega arith }

-- another way to write the difference
pub as-Stands : {m p n : ℕ} {a : Fe} (q k : ℕ) → Stands m a p n → p + k ≈ q + n → Stands m a q k
as-Stands {m} {p} {n} {a} q k s f =
    let e : value a + n ≈ p = s.difference in record { limbs = s.limbs; difference = omega arith }

pub weaker-Stands : {m p n : ℕ} {a : Fe} (l : ℕ) → m ≤ l → Stands m a p n → Stands l a p n
weaker-Stands l less s = record { limbs = weaker _ l _ less s.limbs; difference = s.difference }

pub mul-Stands :
    {m l p q n k : ℕ} {a b : Fe}
    → m ≤ 8
    → l ≤ 8
    → Stands m a p n
    → Stands l b q k
    → Stands 1 (mul a b) (p * q + n * k) (p * k + n * q)
unfolding mul
mul-Stands {m} {l} {p} {q} {n} {k} {a} {b} small small' s t =
    let (v, done) =
      value-mul_inner a b (weaker m 8 a small s.limbs) (weaker l 8 b small' t.limbs) in
    let e = mul_lem (value a) (value b) p q n k s.difference t.difference in
    record { limbs = done; difference = omega arith }

pub sqr-Stands :
    {m p n : ℕ} {a : Fe} → m ≤ 8 → Stands m a p n → Stands 1 (sqr a) (p * p + n * n) (2 * (p * n))
sqr-Stands {m} {p} {n} {a} small s =
    as-Stands _ _
      (subst (λ b. Stands 1 b (p * p + n * n) (p * n + n * p))
        (sym (sqr-mul a (weaker m 8 a small s.limbs))) (mul-Stands small small s s))
      (omega arith)

pub add-Stands :
    {m l p q n k : ℕ} {a b : Fe}
    → m + l ≤ 2048
    → Stands m a p n
    → Stands l b q k
    → Stands (m + l) (add a b) (p + q) (n + k)
add-Stands {m} {l} {p} {q} {n} {k} {a} {b} small s t =
    let (v, done) = value-add a b m l s.limbs t.limbs small in
    let e : value a + n ≈ p = s.difference in
    let f : value b + k ≈ q = t.difference in record { limbs = done; difference = omega arith }

pub negate-Stands :
    {p n : ℕ} {a : Fe} (m : ℕ) → m + 1 ≤ 2047 → Stands m a p n → Stands (m + 1) (negate a m) n p
negate-Stands {p} {n} {a} m small s =
    let (v, done) = negate-HasMagnitude a m s.limbs small in
    record { limbs = done; difference = negate_lem (value a) _ p n (m + 1) s.difference v }

pub mul_int-Stands :
    {m p n : ℕ} {a : Fe} (k : ℕ)
    → m * k ≤ 2048
    → Stands m a p n
    → Stands (m * k) (mul_int a k) (p * k) (n * k)
mul_int-Stands {m} {p} {n} {a} k small s =
    let (v, done) = value-mul_int a m k s.limbs small in
    let e = scale_lem (value a) p n k s.difference in
    record { limbs = done; difference = omega arith }

normalize_weak-HasMagnitude : (a : Fe) → HasMagnitude 1024 a → HasMagnitude 1 (normalize_weak a)
unfolding normalize_weak settle
normalize_weak-HasMagnitude a (a0, a1, a2, a3, a4) =
    (omega arith, omega arith, omega arith, omega arith, omega arith)

pub normalize_weak-Stands :
    {m p n : ℕ} {a : Fe} → m ≤ 1024 → Stands m a p n → Stands 1 (normalize_weak a) p n
normalize_weak-Stands {m} {p} {n} {a} small s =
    let h = weaker m 1024 a small s.limbs in
    let (weak, e) = normalize_weak_lem a h in
    let f : value a + n ≈ p = s.difference in
    record {
      limbs = normalize_weak-HasMagnitude a h;
      difference = multiple_lem _ (value a) _ n p e f;
    }

-- elements that stand for a plain number
pub mul-Stands_plain :
    {m l p q : ℕ} {a b : Fe}
    → m ≤ 8
    → l ≤ 8
    → Stands m a p 0
    → Stands l b q 0
    → Stands 1 (mul a b) (p * q) 0
mul-Stands_plain {p = p} {q = q} small small' s t =
    as-Stands (p * q) 0 (mul-Stands small small' s t) (ap (λ x. x % prime) (omega arith))

pub sqr-Stands_plain : {m p : ℕ} {a : Fe} → m ≤ 8 → Stands m a p 0 → Stands 1 (sqr a) (p * p) 0
sqr-Stands_plain {p = p} small s =
    as-Stands (p * p) 0 (sqr-Stands small s) (ap (λ x. x % prime) (omega arith))

-- a small constant
pub set_int-Stands : (k : ℕ) → k ≤ 2 * ones_52 → Stands 1 (set_int k) k 0
unfolding set_int
set_int-Stands k small = record {
  limbs = (omega arith, omega arith, omega arith, omega arith, omega arith);
  difference = ap (λ x. x % prime) (omega arith);
}

-- `equal_var` of two elements that stand for plain numbers
pub equal_var-Stands :
    {m p q : ℕ} {a b : Fe}
    → m ≤ 1000
    → Stands 1 a p 0
    → Stands m b q 0
    → equal_var a b ≡ (p % prime == q % prime)
equal_var-Stands {m} {p} {q} {a} {b} small s t =
    let (e, f) = equal_lem a b s.limbs (weaker m 1000 b small t.limbs) in
    let u : value a + 0 ≈ p = s.difference in
    let v : value b + 0 ≈ q = t.difference in f ∙ e ∙ ap₂ ◌==◌ (omega arith) (omega arith)

pub plain-Stands : {m p : ℕ} {a : Fe} → Stands m a p 0 → value a ≈ p
plain-Stands {m} {p} {a} s =
    let e : value a + 0 ≈ p = s.difference in
    ap (λ x. x % prime) {x = value a} {y = value a + 0} (omega arith) ∙ e

pub value-Stands : {m p n : ℕ} {a : Fe} → Stands m a p n → Stands m a (value a) 0
value-Stands {m} {a = a} s = itself-Stands m a s.limbs
