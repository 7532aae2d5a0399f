-- ===== src/Secp256k1/Scalar/Accumulator/Laws.antt =====
-- What the accumulator's macros do to the number that it holds, while that number is small enough.
use simple_standalone_versio.Base.{ℕ, ◌+◌, ◌*◌, ◌/◌, ◌%◌, ◌^◌, ◌<◌, ◌≤◌, ◌≡◌, ◌∙◌, u64_mod, arith}
use native.Mathlib.Nat.{mul-le-mul}
use simple_standalone_versio.Secp256k1.Scalar.Accumulator.{
  Accumulator, cleared, muladd, muladd_fast, muladd2, sumadd, sumadd_fast, extract, extract_fast,
}

abbrev pub held : Accumulator → ℕ
held acc = acc.c0 + u64_mod * acc.c1 + 2 ^ 128 * acc.c2

-- The accumulator holds `v`, which is at most `n` times 2 ^ 128.
pub record IsSum (acc : Accumulator) (v n : ℕ) : Type 0 where
  low : acc.c0 < u64_mod
  middle : acc.c1 < u64_mod
  pub holds : held acc ≡ v
  most : v ≤ n * 2 ^ 128

-- the largest product of two limbs
abbrev pub max_product : ℕ
max_product = 340282366920938463426481119284349108225

pub product_bound : (a b : ℕ) → a < u64_mod → b < u64_mod → a * b ≤ max_product
product_bound a b p q =
    mul-le-mul {n₂ = 18446744073709551615} {m₂ = 18446744073709551615} (omega arith) (omega arith)

held-muladd2 :
    (a b : ℕ) (acc : Accumulator)
    → a * b ≤ max_product
    → acc.c0 < u64_mod
    → acc.c1 < u64_mod
    → acc.c2 < 2 ^ 31
    → held (muladd2 a b acc) ≡ held acc + 2 * (a * b)
unfolding muladd2
held-muladd2 a b acc small low middle few = ground arith

module _ {acc : Accumulator} {v n : ℕ} (few : n < 2 ^ 16) (sum : IsSum acc v n) where
  pub muladd-IsSum :
      (a b : ℕ) → a < u64_mod → b < u64_mod → IsSum (muladd a b acc) (v + a * b) (n + 1)
  unfolding muladd
  muladd-IsSum a b p q =
      let small = product_bound a b p q in
      record {
        low = omega arith;
        middle = omega arith;
        holds = let e = sum.holds in ground arith;
        most = omega arith;
      }

  -- `muladd_fast` does the same where nothing is carried into `c2`.
  pub muladd_fast-IsSum :
      (a b : ℕ)
      → a < u64_mod
      → b < u64_mod
      → v + a * b < 2 ^ 128
      → IsSum (muladd_fast a b acc) (v + a * b) (n + 1)
  unfolding muladd_fast
  muladd_fast-IsSum a b p q room =
      let small = product_bound a b p q in
      record {
        low = omega arith;
        middle = omega arith;
        holds = let e = sum.holds in ground arith;
        most = omega arith;
      }

  pub muladd2-IsSum :
      (a b : ℕ) → a < u64_mod → b < u64_mod → IsSum (muladd2 a b acc) (v + 2 * (a * b)) (n + 2)
  unfolding muladd2
  muladd2-IsSum a b p q =
      let small = product_bound a b p q in
      record {
        low = omega arith;
        middle = omega arith;
        holds =
            held-muladd2 a b acc small sum.low sum.middle (omega arith) ∙ omega (arith, sum.holds);
        most = omega arith;
      }

  pub sumadd-IsSum : (a : ℕ) → a < u64_mod → IsSum (sumadd a acc) (v + a) (n + 1)
  unfolding sumadd
  sumadd-IsSum a p = record {
    low = omega arith;
    middle = omega arith;
    holds = let e = sum.holds in ground arith;
    most = omega arith;
  }

  pub sumadd_fast-IsSum :
      (a : ℕ) → a < u64_mod → v + a < 2 ^ 128 → IsSum (sumadd_fast a acc) (v + a) (n + 1)
  unfolding sumadd_fast
  sumadd_fast-IsSum a p room = record {
    low = omega arith;
    middle = omega arith;
    holds = let e = sum.holds in ground arith;
    most = omega arith;
  }

  -- `extract` takes the lowest 64 bits out and keeps the rest.
  pub extract-IsSum : (acc.c0 ≡ v % u64_mod) × IsSum (extract acc) (v / u64_mod) 1
  unfolding extract
  extract-IsSum = (
    omega arith,
    record { low = omega arith; middle = omega arith; holds = omega arith; most = omega arith },
  )

  pub extract_fast-IsSum :
      v < 2 ^ 128 → (acc.c0 ≡ v % u64_mod) × IsSum (extract_fast acc) (v / u64_mod) 1
  unfolding extract_fast
  extract_fast-IsSum room = (
    omega arith,
    record { low = omega arith; middle = omega arith; holds = omega arith; most = omega arith },
  )

pub cleared-IsSum : IsSum cleared 0 0
cleared-IsSum = omega arith

-- A column of two, three or four products: what `extract` takes out, and what it leaves.
module _ {acc : Accumulator} {v : ℕ} (sum : IsSum acc v 1) where
  pub column_2 :
      (a b c d : ℕ)
      → a < u64_mod
      → b < u64_mod
      → c < u64_mod
      → d < u64_mod
      → ((muladd c d (muladd a b acc)).c0 ≡ (v + a * b + c * d) % u64_mod)
        × IsSum (extract (muladd c d (muladd a b acc))) ((v + a * b + c * d) / u64_mod) 1
  column_2 a b c d p q r s =
      extract-IsSum (omega arith)
        (muladd-IsSum (omega arith) (muladd-IsSum (omega arith) sum a b p q) c d r s)

  pub column_3 :
      (a b c d e f : ℕ)
      → a < u64_mod
      → b < u64_mod
      → c < u64_mod
      → d < u64_mod
      → e < u64_mod
      → f < u64_mod
      → ((muladd e f (muladd c d (muladd a b acc))).c0 ≡ (v + a * b + c * d + e * f) % u64_mod)
        × IsSum
            (extract (muladd e f (muladd c d (muladd a b acc))))
            ((v + a * b + c * d + e * f) / u64_mod)
            1
  column_3 a b c d e f p q r s t u = extract-IsSum (omega arith) (
      muladd-IsSum (omega arith)
        (muladd-IsSum (omega arith) (muladd-IsSum (omega arith) sum a b p q) c d r s) e f t u)

-- A number of one limb stands in `c0`.
pub c0_lem : {acc : Accumulator} {v n : ℕ} → IsSum acc v n → v < u64_mod → acc.c0 ≡ v
c0_lem sum small = omega arith

pub loaded-IsSum : (a : ℕ) → a < u64_mod → IsSum (record { c0 = a; c1 = 0; c2 = 0 }) a 1
loaded-IsSum a small = omega arith
