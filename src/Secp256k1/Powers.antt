-- ===== src/Secp256k1/Powers.antt =====
-- Powers modulo a number, and the loops of squarings that field_impl.h and scalar_impl.h build their
-- addition chains from.
use mathlib.Core.Path.{subst}
use native.Mathlib.Nat.{add-mul-mod_self_right, div-add-mod', pow-suc}
use simple_standalone_versio.Base.{ℕ, zero, suc, ◌+◌, ◌*◌, ◌/◌, ◌%◌, ◌^◌, ◌≡◌, sym, ap, ◌∙◌, arith}

-- `b` to the power `e`
unfoldable pub power : ℕ → ℕ → ℕ
power b zero = 1
power b (suc e) = b * power b e

pub power_one : (b : ℕ) → power b 1 ≡ b
unfolding power
power_one b = omega arith

pub power_add : (b x y : ℕ) → power b (x + y) ≡ power b x * power b y
unfolding power
power_add b zero y = ap (power b) {x = zero + y} {y = y} (omega arith) ∙ omega arith
power_add b (suc x) y =
    ap (power b) {x = suc x + y} {y = suc (x + y)} (omega arith)
    ∙ ap (λ t. b * t) (power_add b x y)
    ∙ omega arith

mod-mul_left : (a b m : ℕ) → (a % m * b) % m ≡ (a * b) % m
mod-mul_left a b m =
    sym (add-mul-mod_self_right (a % m * b) (a / m * b) m)
    ∙ ap (λ x. x % m) (omega (arith, ap (λ x. x * b) (div-add-mod' a m)))

-- remainders may be multiplied
pub mul_cong : (m a b c d : ℕ) → a % m ≡ c % m → b % m ≡ d % m → (a * b) % m ≡ (c * d) % m
mul_cong m a b c d e f =
    sym (mod-mul_left a b m)
    ∙ ap (λ x. (x * b) % m) e
    ∙ mod-mul_left c b m
    ∙ ap (λ x. x % m) {x = c * b} (omega arith)
    ∙ sym (mod-mul_left b c m)
    ∙ ap (λ x. (x * c) % m) f
    ∙ mod-mul_left d c m
    ∙ ap (λ x. x % m) {x = d * c} (omega arith)

-- A type with the square and the product that the code computes, and what it means there that an
-- element is a power of a fixed one.
pub record Powers (A : Type 0) : Type 1 where
  pub sqr : A → A
  pub mul : A → A → A
  pub IsPower : A → ℕ → Type 0
  pub sqr-IsPower : (s : A) (e : ℕ) → IsPower s e → IsPower (sqr s) (e + e)
  pub mul-IsPower : (s t : A) (e f : ℕ) → IsPower s e → IsPower t f → IsPower (mul s t) (e + f)

-- `for (i = 0; i < n; i++) sqr(t, t)`
unfoldable pub squares {ℓ} : {A : Type ℓ} → (A → A) → ℕ → A → A
squares sqr zero t = t
squares sqr (suc n) t = squares sqr n (sqr t)

module _ {A : Type 0} (p : Powers A) where
  pub squares-IsPower :
      (n : ℕ) (s : A) (e : ℕ) → p.IsPower s e → p.IsPower (squares p.sqr n s) (e * 2 ^ n)
  unfolding squares
  squares-IsPower zero s e h = subst (p.IsPower s) {x = e} (omega arith) h
  squares-IsPower (suc n) s e h =
      subst (p.IsPower (squares p.sqr n (p.sqr s))) {x = (e + e) * 2 ^ n}
        (omega (arith, ap (λ t. e * t) (pow-suc 2 n)))
        (squares-IsPower n (p.sqr s) (e + e) (p.sqr-IsPower s e h))

  -- `n` squarings and a product
  pub window-IsPower :
      (n : ℕ) {s t : A} {e f : ℕ}
      → p.IsPower s e
      → p.IsPower t f
      → p.IsPower (p.mul (squares p.sqr n s) t) (e * 2 ^ n + f)
  window-IsPower n h k = p.mul-IsPower _ _ _ _ (squares-IsPower n _ _ h) k
