-- ===== src/Secp256k1/Der/Integers.antt =====
-- Leading zeros and the sign bit.
use Prim.Native.Nat.{min}
use simple_standalone_versio.Base.{
  ℕ, suc, ◌+◌, ◌-◌, ◌*◌, ◌/◌, ◌%◌, ◌<◌, ◌≤◌, ◌≡◌, refl, sym, ap, ap₂, ◌∙◌, true, false, inl, inr,
  Bool-cases, ◌&&◌, ltb, ◌==◌, if◌then◌else◌, bit_and, bit_and_step, bit_and_le, List, [], ◌∷◌, All,
  ◌++◌, length, arith,
}
use simple_standalone_versio.Secp256k1.Sha256.{zeros}
use simple_standalone_versio.Secp256k1.Der.{skip_zeros, shortest}
use simple_standalone_versio.Secp256k1.Scalar.Bytes.{byte_at}

bit_and_double : (b c : ℕ) → bit_and b (2 * c) ≡ 2 * bit_and (b / 2) c
bit_and_double b c =
    bit_and_step b (2 * c)
    ∙ ap (λ t. bit_and (b / 2) t * 2 + min (b % 2) (2 * c % 2)) {x = 2 * c / 2} {y = c}
        (omega arith)
    ∙ omega arith

-- the sign bit of a byte
pub sign_bit : (b : ℕ) → bit_and b 0x80 ≡ 128 * (b / 128 % 2)
sign_bit b =
    let e0 = bit_and_double b 64 in
    let e1 = bit_and_double (b / 2) 32 in
    let e2 = bit_and_double (b / 2 / 2) 16 in
    let e3 = bit_and_double (b / 2 / 2 / 2) 8 in
    let e4 = bit_and_double (b / 2 / 2 / 2 / 2) 4 in
    let e5 = bit_and_double (b / 2 / 2 / 2 / 2 / 2) 2 in
    let e6 = bit_and_double (b / 2 / 2 / 2 / 2 / 2 / 2) 1 in
    let e7 = bit_and_step (b / 2 / 2 / 2 / 2 / 2 / 2 / 2) 1 in
    let e8 = (bit_and_le (b / 2 / 2 / 2 / 2 / 2 / 2 / 2 / 2) 0).1 in omega arith

-- a list of bytes without its leading zeros
unfoldable pub stripped : List ℕ → List ℕ
stripped [] = []
stripped (b ∷ bs) = let rest = stripped bs in if b == 0 then rest else b ∷ bs

pub length-stripped : (bs : List ℕ) → length (stripped bs) ≤ length bs
unfolding stripped
length-stripped [] = omega arith
length-stripped (b ∷ bs) = ground (arith, length-stripped bs)

-- The zeros can be put back.
pub zeros-stripped : (bs : List ℕ) → zeros (length bs - length (stripped bs)) ++ stripped bs ≡ bs
unfolding stripped
zeros-stripped [] = refl
zeros-stripped (b ∷ bs) = elim (Bool-cases (b == 0)) [
  | inl e ↦
      let l = length-stripped bs in
      rw e (
        ap (λ n. zeros n ++ stripped bs) {y = suc (length bs - length (stripped bs))} (omega arith)
        ∙ ap₂ ◌∷◌ (ground arith) (zeros-stripped bs))
  | inr e ↦ rw e (ap (λ n. zeros n ++ b ∷ bs) {y = 0} (omega arith))
]

pub skip_zeros-append :
    (bs rest : List ℕ)
    → skip_zeros (length bs) (bs ++ rest) ≡ (length (stripped bs), stripped bs ++ rest)
unfolding skip_zeros stripped
skip_zeros-append [] rest = refl
skip_zeros-append (b ∷ bs) rest = elim (Bool-cases (b == 0)) [
  | inl e ↦ rw e (skip_zeros-append bs rest)
  | inr e ↦ rw e refl
]

-- What `shortest` leaves: it begins without the sign bit, and no byte of it can be spared.
pub record IsShortest (bs : List ℕ) : Type 0 where
  pub some : 1 ≤ length bs
  pub positive : byte_at bs 0 < 128
  pub second : byte_at bs 1 < 256
  pub tight : (byte_at bs 0 == 0 && (ltb 1 (length bs) && ltb (byte_at bs 1) 128)) ≡ false

pub shortest-IsShortest :
    (b : ℕ) (bs : List ℕ) → b < 128 → All (λ c. c < 256) bs → IsShortest (shortest (b ∷ bs))
unfolding shortest
shortest-IsShortest b [] small bytes = record {
  second = omega arith;
  some = omega arith;
  positive = small;
  tight = ground arith;
}
shortest-IsShortest b (c ∷ bs) small (byte, bytes) = elim (Bool-cases (b == 0 && ltb c 128)) [
  | inl e ↦ rw e (shortest-IsShortest c bs (ground arith) bytes)
  | inr e ↦
      rw e (record { second = byte; some = omega arith; positive = small; tight = ground arith })
]

pub length-shortest : (bs : List ℕ) → length (shortest bs) ≤ length bs
unfolding shortest
length-shortest [] = omega arith
length-shortest (b ∷ []) = omega arith
length-shortest (b ∷ c ∷ bs) = ground (arith, length-shortest (c ∷ bs))

pub stripped_zero : (b : ℕ) (bs : List ℕ) → (b == 0) ≡ true → stripped (b ∷ bs) ≡ stripped bs
unfolding stripped
stripped_zero b bs e = rw e refl

pub stripped-shortest : (bs : List ℕ) → stripped (shortest bs) ≡ stripped bs
unfolding shortest
stripped-shortest [] = refl
stripped-shortest (b ∷ []) = refl
stripped-shortest (b ∷ c ∷ bs) = elim (Bool-cases (b == 0 && ltb c 128)) [
  | inl e ↦ rw e (stripped-shortest (c ∷ bs) ∙ sym (stripped_zero b (c ∷ bs) (ground arith)))
  | inr e ↦ rw e refl
]
