-- ===== src/Secp256k1/Field/Storage.antt =====
-- Storage on four limbs of 64 bits, conditional moves and comparison (field_5x52_impl.h).
use Prim.Native.Nat.{compare}
use simple_standalone_versio.Base.{
  ℕ, ◌+◌, ◌*◌, ◌/◌, ◌%◌, ◌^◌, ◌<◌, ◌≡◌, refl, ap, ◌∙◌, bit_or, bit_or_ge, bit_or_above, Bool, true,
  false, not, arith,
}
use simple_standalone_versio.Secp256k1.Field.{Fe, mul64, cmp_var}
use simple_standalone_versio.Secp256k1.Field.Value.{value, AreDigits}

pub record FeStorage : Type 0 where
  s0 : ℕ
  s1 : ℕ
  s2 : ℕ
  s3 : ℕ

unfoldable pub to_storage : Fe → FeStorage
to_storage a = record {
  s0 = bit_or a.n0 (mul64 a.n1 (2 ^ 52));
  s1 = bit_or (a.n1 / 2 ^ 12) (mul64 a.n2 (2 ^ 40));
  s2 = bit_or (a.n2 / 2 ^ 24) (mul64 a.n3 (2 ^ 28));
  s3 = bit_or (a.n3 / 2 ^ 36) (mul64 a.n4 (2 ^ 16));
}

unfoldable pub from_storage : FeStorage → Fe
from_storage a = record {
  n0 = a.s0 % 2 ^ 52;
  n1 = bit_or (a.s0 / 2 ^ 52) (mul64 a.s1 (2 ^ 12) % 2 ^ 52);
  n2 = bit_or (a.s1 / 2 ^ 40) (mul64 a.s2 (2 ^ 24) % 2 ^ 52);
  n3 = bit_or (a.s2 / 2 ^ 28) (mul64 a.s3 (2 ^ 36) % 2 ^ 52);
  n4 = a.s3 / 2 ^ 16;
}

-- `x & mask`, with a mask of all ones or 0
abbrev pub under_mask : Bool → ℕ → ℕ
under_mask true x = x
under_mask false x = 0

-- `(r & mask0) | (a & mask1)`: `mask0` is all ones where the flag is 0, and `mask1` where it is 1
abbrev pub moved : Bool → ℕ → ℕ → ℕ
moved flag r a = bit_or (under_mask (not flag) r) (under_mask flag a)

unfoldable pub cmov : Fe → Fe → Bool → Fe
cmov r a flag = record {
  n0 = moved flag r.n0 a.n0;
  n1 = moved flag r.n1 a.n1;
  n2 = moved flag r.n2 a.n2;
  n3 = moved flag r.n3 a.n3;
  n4 = moved flag r.n4 a.n4;
}

unfoldable pub storage_cmov : FeStorage → FeStorage → Bool → FeStorage
storage_cmov r a flag = record {
  s0 = moved flag r.s0 a.s0;
  s1 = moved flag r.s1 a.s1;
  s2 = moved flag r.s2 a.s2;
  s3 = moved flag r.s3 a.s3;
}

storage_fields : (k r q v : ℕ) → r < 2 ^ k → v ≡ q * 2 ^ k → bit_or r v ≡ r + q * 2 ^ k
storage_fields k r q v fits e = ap (bit_or r) e ∙ bit_or_above k r q fits

-- The digits of an element below 2 ^ 256 are read back from storage as they were.
pub from_storage-to_storage : (a : Fe) → AreDigits a → from_storage (to_storage a) ≡ a
unfolding to_storage from_storage
from_storage-to_storage a (a0, a1, a2, a3, a4) =
    let s0 : bit_or a.n0 (mul64 a.n1 (2 ^ 52)) ≡ a.n0 + a.n1 % 2 ^ 12 * 2 ^ 52 =
      storage_fields 52 a.n0 (a.n1 % 2 ^ 12) _ a0 (omega arith) in
    let s1 : bit_or (a.n1 / 2 ^ 12) (mul64 a.n2 (2 ^ 40)) ≡ a.n1 / 2 ^ 12 + a.n2 % 2 ^ 24 * 2 ^ 40 =
      storage_fields 40 (a.n1 / 2 ^ 12) (a.n2 % 2 ^ 24) _ (omega arith) (omega arith) in
    let s2 : bit_or (a.n2 / 2 ^ 24) (mul64 a.n3 (2 ^ 28)) ≡ a.n2 / 2 ^ 24 + a.n3 % 2 ^ 36 * 2 ^ 28 =
      storage_fields 28 (a.n2 / 2 ^ 24) (a.n3 % 2 ^ 36) _ (omega arith) (omega arith) in
    let s3 : bit_or (a.n3 / 2 ^ 36) (mul64 a.n4 (2 ^ 16)) ≡ a.n3 / 2 ^ 36 + a.n4 * 2 ^ 16 =
      storage_fields 16 (a.n3 / 2 ^ 36) a.n4 _ (omega arith) (omega arith) in
    let v0 = a.n0 + a.n1 % 2 ^ 12 * 2 ^ 52 in
    let v1 = a.n1 / 2 ^ 12 + a.n2 % 2 ^ 24 * 2 ^ 40 in
    let v2 = a.n2 / 2 ^ 24 + a.n3 % 2 ^ 36 * 2 ^ 28 in
    let v3 = a.n3 / 2 ^ 36 + a.n4 * 2 ^ 16 in
    let e1 : bit_or (v0 / 2 ^ 52) (mul64 v1 (2 ^ 12) % 2 ^ 52) ≡ a.n1 =
      storage_fields 12 (v0 / 2 ^ 52) (a.n1 / 2 ^ 12) _ (omega arith) (omega arith) ∙ omega arith in
    let e2 : bit_or (v1 / 2 ^ 40) (mul64 v2 (2 ^ 24) % 2 ^ 52) ≡ a.n2 =
      storage_fields 24 (v1 / 2 ^ 40) (a.n2 / 2 ^ 24) _ (omega arith) (omega arith) ∙ omega arith in
    let e3 : bit_or (v2 / 2 ^ 28) (mul64 v3 (2 ^ 36) % 2 ^ 52) ≡ a.n3 =
      storage_fields 36 (v2 / 2 ^ 28) (a.n3 / 2 ^ 36) _ (omega arith) (omega arith) ∙ omega arith in
    let e0 : v0 % 2 ^ 52 ≡ a.n0 = omega arith in
    let e4 : v3 / 2 ^ 16 ≡ a.n4 = omega arith in
    rw (s0, s1, s2, s3) (λ i. record { n0 = e0 i; n1 = e1 i; n2 = e2 i; n3 = e3 i; n4 = e4 i })

or_zero_right : (x : ℕ) → bit_or x 0 ≡ x
or_zero_right x = omega (arith, bit_or_ge x 0)

or_zero_left : (x : ℕ) → bit_or 0 x ≡ x
or_zero_left x = omega (arith, bit_or_ge 0 x)

-- `cmov` and `storage_cmov` take the second operand where the flag is set, and else leave the first.
pub cmov_lem :
    (r a : Fe) (s b : FeStorage)
    → (cmov r a true ≡ a)
      × (cmov r a false ≡ r)
      × (storage_cmov s b true ≡ b)
      × (storage_cmov s b false ≡ s)
unfolding cmov storage_cmov
cmov_lem r a s b = (
  simp or_zero_left refl,
  simp or_zero_right refl,
  simp or_zero_left refl,
  simp or_zero_right refl,
)

-- `cmp_var` orders elements below 2 ^ 256 as the numbers that they stand for.
pub cmp_var_lem : (a b : Fe) → AreDigits a → AreDigits b → cmp_var a b ≡ compare (value a) (value b)
unfolding cmp_var
cmp_var_lem a b (a0, a1, a2, a3, a4) (b0, b1, b2, b3, b4) = ground arith
