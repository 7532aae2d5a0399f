-- ===== src/Secp256k1/Field.antt =====
-- Field elements on five limbs in base 2 ^ 52
-- (crypto/secp256k1/libsecp256k1/src/field_5x52.h and field_5x52_impl.h, without VERIFY). The
-- arithmetic of a limb wraps at 2 ^ 64.
pub mod Value
pub mod Normalize
pub mod Zero
pub mod Mul
pub mod Storage
pub mod Bytes
pub mod Inverse
use Prim.Native.Nat.{compare, Ordering}
use simple_standalone_versio.Base.{
  ℕ, ◌+◌, ◌-◌, ◌*◌, ◌/◌, ◌%◌, ◌^◌, bit_and, bit_or, bit_xor, Bool, true, false, not, ◌&&◌, ◌||◌,
  ltb, leb, ◌==◌, if◌then◌else◌, u64_mod, add64,
}

pub record Fe : Type 0 where
  pub n0 : ℕ
  pub n1 : ℕ
  pub n2 : ℕ
  pub n3 : ℕ
  pub n4 : ℕ

abbrev pub to_bit : Bool → ℕ
to_bit false = 0
to_bit true = 1

abbrev pub mul64 : ℕ → ℕ → ℕ
mul64 a b = (a * b) % u64_mod

abbrev pub sub64 : ℕ → ℕ → ℕ
sub64 a b = (a + u64_mod - b) % u64_mod

-- 2 ^ 256 modulo the prime
abbrev pub fold_256 : ℕ
fold_256 = 4294968273

-- 0xFFFFFFFFFFFFF, 0x0FFFFFFFFFFFF and the lowest limb of the prime
abbrev pub ones_52 : ℕ
ones_52 = 4503599627370495

abbrev pub ones_48 : ℕ
ones_48 = 281474976710655

abbrev pub p_0 : ℕ
p_0 = 4503595332402223

-- `t1 += (t0 >> 52); t0 &= 0xFFFFFFFFFFFFF` and so on, up to `t4`, which keeps what it gets
unfoldable pub settle : Fe → Fe
settle t =
    let t1 = add64 t.n1 (t.n0 / 2 ^ 52) in
    let t2 = add64 t.n2 (t1 / 2 ^ 52) in
    let t3 = add64 t.n3 (t2 / 2 ^ 52) in
    record {
      n0 = t.n0 % 2 ^ 52;
      n1 = t1 % 2 ^ 52;
      n2 = t2 % 2 ^ 52;
      n3 = t3 % 2 ^ 52;
      n4 = add64 t.n4 (t3 / 2 ^ 52);
    }

unfoldable pub normalize_weak : Fe → Fe
normalize_weak r =
    let x = r.n4 / 2 ^ 48 in
    settle (record r { n0 = add64 r.n0 (mul64 x fold_256); n4 = r.n4 % 2 ^ 48 })

-- the `x` of the final reduction, after the first pass
unfoldable pub final_x : Fe → ℕ
final_x t =
    let m = bit_and (bit_and t.n1 t.n2) t.n3 in
    bit_or (t.n4 / 2 ^ 48) (to_bit (t.n4 == ones_48 && (m == ones_52 && leb p_0 t.n0)))

unfoldable pub final_pass : Fe → ℕ → Fe
final_pass t x =
    let r = settle (record t { n0 = add64 t.n0 (mul64 x fold_256) }) in
    record r { n4 = r.n4 % 2 ^ 48 }

-- The first pass is that of `normalize_weak`.
unfoldable pub normalize : Fe → Fe
normalize r = final_pass (normalize_weak r) (final_x (normalize_weak r))

unfoldable pub normalize_var : Fe → Fe
normalize_var r = let t = normalize_weak r in if final_x t == 0 then t else final_pass t 1

-- The two tests of the limbs after the first pass, for 0 and for the prime.
unfoldable pub zero_tests : Fe → Bool
zero_tests t =
    let z0 = bit_or (bit_or (bit_or (bit_or t.n0 t.n1) t.n2) t.n3) t.n4 in
    let z1 =
      bit_and (bit_and (bit_and (bit_and (bit_xor t.n0 4294968272) t.n1) t.n2) t.n3)
        (bit_xor t.n4 4222124650659840) in
    z0 == 0 || z1 == ones_52

unfoldable pub normalizes_to_zero : Fe → Bool
normalizes_to_zero r = zero_tests (normalize_weak r)

-- The lowest limb is looked at first; what follows is the rest of the first pass and the two tests.
unfoldable pub normalizes_to_zero_var : Fe → Bool
normalizes_to_zero_var r =
    let x = r.n4 / 2 ^ 48 in
    let t0 = add64 r.n0 (mul64 x fold_256) in
    let z0 = t0 % 2 ^ 52 in
    let z1 = bit_xor z0 4294968272 in
    if not (z0 == 0) && not (z1 == ones_52)
    then false
    else zero_tests (settle (record r { n0 = t0; n4 = r.n4 % 2 ^ 48 }))

unfoldable pub set_int : ℕ → Fe
set_int a = record { n0 = a; n1 = 0; n2 = 0; n3 = 0; n4 = 0 }

unfoldable pub is_zero : Fe → Bool
is_zero a = bit_or (bit_or (bit_or (bit_or a.n0 a.n1) a.n2) a.n3) a.n4 == 0

unfoldable pub is_odd : Fe → Bool
is_odd a = bit_and a.n0 1 == 1

-- 1 is gt, -1 is lt and 0 is eq; the limbs from the highest on
abbrev pub then_by : Ordering → Ordering → Ordering
then_by Ordering.eq o = o
then_by Ordering.lt o = Ordering.lt
then_by Ordering.gt o = Ordering.gt

unfoldable pub cmp_var : Fe → Fe → Ordering
cmp_var a b = then_by (compare a.n4 b.n4) (
    then_by (compare a.n3 b.n3)
      (then_by (compare a.n2 b.n2) (then_by (compare a.n1 b.n1) (compare a.n0 b.n0))))

-- `p * 2 * (m + 1) - a` on each limb
unfoldable pub negate : Fe → ℕ → Fe
negate a m = record {
  n0 = sub64 (mul64 (mul64 p_0 2) (m + 1)) a.n0;
  n1 = sub64 (mul64 (mul64 ones_52 2) (m + 1)) a.n1;
  n2 = sub64 (mul64 (mul64 ones_52 2) (m + 1)) a.n2;
  n3 = sub64 (mul64 (mul64 ones_52 2) (m + 1)) a.n3;
  n4 = sub64 (mul64 (mul64 ones_48 2) (m + 1)) a.n4;
}

unfoldable pub mul_int : Fe → ℕ → Fe
mul_int r a = record {
  n0 = mul64 r.n0 a;
  n1 = mul64 r.n1 a;
  n2 = mul64 r.n2 a;
  n3 = mul64 r.n3 a;
  n4 = mul64 r.n4 a;
}

unfoldable pub add : Fe → Fe → Fe
add r a = record {
  n0 = add64 r.n0 a.n0;
  n1 = add64 r.n1 a.n1;
  n2 = add64 r.n2 a.n2;
  n3 = add64 r.n3 a.n3;
  n4 = add64 r.n4 a.n4;
}
