-- ===== src/Secp256k1/Sha256/Choice.antt =====
-- The choice and the majority of hash_impl.h against those of FIPS 180-4, digit by digit.
use simple_standalone_versio.Base.{
  ℕ, zero, suc, ◌+◌, ◌-◌, ◌*◌, ◌/◌, ◌%◌, ◌^◌, ◌<◌, ◌≤◌, ◌≡◌, refl, sym, ap, ap₂, ◌∙◌, bit_and,
  bit_or, bit_xor, arith,
}
use Prim.Native.Nat.{min, max}
use native.Mathlib.Nat.{pow-suc}
use simple_standalone_versio.Base.Bits.{bit_and_step, bit_or_step, bit_xor_step}
use simple_standalone_versio.Secp256k1.Sha256.{ch, maj}
use simple_standalone_versio.Secp256k1.Sha256.Fips.{choose, majority, not_word}

xor_digit :
    (a b p q : ℕ) → p < 2 → q < 2 → bit_xor (a * 2 + p) (b * 2 + q) ≡ bit_xor a b * 2 + (p + q) % 2
xor_digit a b p q hp hq =
    let halves : bit_xor ((a * 2 + p) / 2) ((b * 2 + q) / 2) ≡ bit_xor a b =
      ap₂ bit_xor (omega arith) (omega arith) in
    omega (arith, bit_xor_step (a * 2 + p) (b * 2 + q), halves)

and_digit :
    (a b p q : ℕ) → p < 2 → q < 2 → bit_and (a * 2 + p) (b * 2 + q) ≡ bit_and a b * 2 + min p q
and_digit a b p q hp hq =
    let halves : bit_and ((a * 2 + p) / 2) ((b * 2 + q) / 2) ≡ bit_and a b =
      ap₂ bit_and (omega arith) (omega arith) in
    omega (arith, bit_and_step (a * 2 + p) (b * 2 + q), halves)

or_digit : (a b p q : ℕ) → p < 2 → q < 2 → bit_or (a * 2 + p) (b * 2 + q) ≡ bit_or a b * 2 + max p q
or_digit a b p q hp hq =
    let halves : bit_or ((a * 2 + p) / 2) ((b * 2 + q) / 2) ≡ bit_or a b =
      ap₂ bit_or (omega arith) (omega arith) in
    omega (arith, bit_or_step (a * 2 + p) (b * 2 + q), halves)

-- `choose` with the not_word `n` of `x`
abbrev chosen : ℕ → ℕ → ℕ → ℕ → ℕ
chosen x n y z = bit_xor (bit_and x y) (bit_and n z)

ch_digits :
    (a b c p q r : ℕ)
    → p < 2
    → q < 2
    → r < 2
    → ch (a * 2 + p) (b * 2 + q) (c * 2 + r) ≡ ch a b c * 2 + (r + min p ((q + r) % 2)) % 2
ch_digits a b c p q r hp hq hr =
    ap (λ t. bit_xor (c * 2 + r) (bit_and (a * 2 + p) t)) (xor_digit b c q r hq hr)
    ∙ ap (bit_xor (c * 2 + r)) (and_digit a (bit_xor b c) p ((q + r) % 2) hp (omega arith))
    ∙ xor_digit c (bit_and a (bit_xor b c)) r (min p ((q + r) % 2)) hr (omega arith)

chosen_digits :
    (a n b c p o q r : ℕ)
    → p < 2
    → o < 2
    → q < 2
    → r < 2
    → chosen (a * 2 + p) (n * 2 + o) (b * 2 + q) (c * 2 + r)
      ≡ chosen a n b c * 2 + (min p q + min o r) % 2
chosen_digits a n b c p o q r hp ho hq hr =
    ap₂ bit_xor (and_digit a b p q hp hq) (and_digit n c o r ho hr)
    ∙ xor_digit (bit_and a b) (bit_and n c) (min p q) (min o r) (omega arith) (omega arith)

maj_digits :
    (a b c p q r : ℕ)
    → p < 2
    → q < 2
    → r < 2
    → maj (a * 2 + p) (b * 2 + q) (c * 2 + r) ≡ maj a b c * 2 + max (min p q) (min r (max p q))
maj_digits a b c p q r hp hq hr =
    ap₂ bit_or (and_digit a b p q hp hq) (
      ap (bit_and (c * 2 + r)) (or_digit a b p q hp hq)
      ∙ and_digit c (bit_or a b) r (max p q) hr (omega arith))
    ∙ or_digit (bit_and a b) (bit_and c (bit_or a b)) (min p q) (min r (max p q)) (omega arith)
        (omega arith)

majority_digits :
    (a b c p q r : ℕ)
    → p < 2
    → q < 2
    → r < 2
    → majority (a * 2 + p) (b * 2 + q) (c * 2 + r)
      ≡ majority a b c * 2 + ((min p q + min p r) % 2 + min q r) % 2
majority_digits a b c p q r hp hq hr =
    ap₂ bit_xor
      (ap₂ bit_xor (and_digit a b p q hp hq) (and_digit a c p r hp hr)
        ∙ xor_digit (bit_and a b) (bit_and a c) (min p q) (min p r) (omega arith) (omega arith))
      (and_digit b c q r hq hr)
    ∙ xor_digit (bit_xor (bit_and a b) (bit_and a c)) (bit_and b c) ((min p q + min p r) % 2)
        (min q r) (omega arith) (omega arith)

-- the values of three digits
ch_values :
    (p o q r : ℕ)
    → p + o ≡ 1
    → q < 2
    → r < 2
    → (r + min p ((q + r) % 2)) % 2 ≡ (min p q + min o r) % 2
ch_values p o q r e hq hr = omega arith

maj_values :
    (p q r : ℕ)
    → p < 2
    → q < 2
    → r < 2
    → max (min p q) (min r (max p q)) ≡ ((min p q + min p r) % 2 + min q r) % 2
maj_values p q r hp hq hr = omega arith

-- a number in its half and its last digit
split : (x : ℕ) → x ≡ x / 2 * 2 + x % 2
split x = omega arith

split_all :
    (f : ℕ → ℕ → ℕ → ℕ) (x y z : ℕ)
    → f x y z ≡ f (x / 2 * 2 + x % 2) (y / 2 * 2 + y % 2) (z / 2 * 2 + z % 2)
split_all f x y z =
    ap (λ t. f t y z) (split x)
    ∙ ap (λ t. f (x / 2 * 2 + x % 2) t z) (split y)
    ∙ ap (f (x / 2 * 2 + x % 2) (y / 2 * 2 + y % 2)) (split z)

ch_below :
    (k x n y z : ℕ)
    → x < 2 ^ k
    → y < 2 ^ k
    → z < 2 ^ k
    → x + n ≡ 2 ^ k - 1
    → ch x y z ≡ chosen x n y z
ch_below zero zero zero zero zero hx hy hz e = refl
ch_below zero zero (suc n) y z hx hy hz e = absurd (omega arith)
ch_below zero zero n (suc y) z hx hy hz e = absurd (omega arith)
ch_below zero zero n y (suc z) hx hy hz e = absurd (omega arith)
ch_below zero (suc x) n y z hx hy hz e = absurd (omega arith)
ch_below (suc k) x n y z hx hy hz e =
    let double : 2 ^ suc k ≡ 2 * 2 ^ k = omega (arith, pow-suc 2 k) in
    let rest =
      ch_below k (x / 2) (n / 2) (y / 2) (z / 2) (omega arith) (omega arith) (omega arith)
        (omega arith) in
    let values =
      ch_values (x % 2) (n % 2) (y % 2) (z % 2) (omega arith) (omega arith) (omega arith) in
    let left =
      ch_digits (x / 2) (y / 2) (z / 2) (x % 2) (y % 2) (z % 2) (omega arith) (omega arith)
        (omega arith) in
    let right =
      chosen_digits (x / 2) (n / 2) (y / 2) (z / 2) (x % 2) (n % 2) (y % 2) (z % 2) (omega arith)
        (omega arith) (omega arith) (omega arith) in
    split_all ch x y z
    ∙ left
    ∙ ap₂ (λ s t. s * 2 + t) rest values
    ∙ sym right
    ∙ ap (λ m. chosen (x / 2 * 2 + x % 2) m (y / 2 * 2 + y % 2) (z / 2 * 2 + z % 2)) (sym (split n))
    ∙ sym (split_all (λ s. chosen s n) x y z)

pub ch_lem : (x y z : ℕ) → x < 2 ^ 32 → y < 2 ^ 32 → z < 2 ^ 32 → ch x y z ≡ choose x y z
ch_lem x y z hx hy hz = ch_below 32 x (not_word x) y z hx hy hz (omega arith)

maj_below : (n x y z : ℕ) → x ≤ n → y ≤ n → z ≤ n → maj x y z ≡ majority x y z
maj_below zero zero zero zero hx hy hz = refl
maj_below zero zero zero (suc z) hx hy hz = absurd (omega arith)
maj_below zero zero (suc y) z hx hy hz = absurd (omega arith)
maj_below zero (suc x) y z hx hy hz = absurd (omega arith)
maj_below (suc n) x y z hx hy hz =
    let rest = maj_below n (x / 2) (y / 2) (z / 2) (omega arith) (omega arith) (omega arith) in
    let values = maj_values (x % 2) (y % 2) (z % 2) (omega arith) (omega arith) (omega arith) in
    split_all maj x y z
    ∙ maj_digits (x / 2) (y / 2) (z / 2) (x % 2) (y % 2) (z % 2) (omega arith) (omega arith)
        (omega arith)
    ∙ ap₂ (λ s t. s * 2 + t) rest values
    ∙ sym (
        majority_digits (x / 2) (y / 2) (z / 2) (x % 2) (y % 2) (z % 2) (omega arith) (omega arith)
          (omega arith))
    ∙ sym (split_all majority x y z)

pub maj_lem : (x y z : ℕ) → maj x y z ≡ majority x y z
maj_lem x y z = maj_below (x + y + z) x y z (omega arith) (omega arith) (omega arith)
