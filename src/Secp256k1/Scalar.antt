-- ===== src/Secp256k1/Scalar.antt =====
-- Scalars modulo the group order on four 64-bit limbs
-- (crypto/secp256k1/libsecp256k1/src/scalar_4x64_impl.h). An `int` that holds a truth value is a
-- Bool until it is added to a number.
pub mod Carry
pub mod Reduce
pub mod Accumulator
pub mod Mul
pub mod Bytes
pub mod Inverse
pub mod Halves
pub mod BitSum
pub mod Shift
use simple_standalone_versio.Base.{
  ℕ, ◌+◌, ◌-◌, ◌*◌, ◌/◌, ◌%◌, ◌^◌, Bool, true, false, not, ◌&&◌, ◌||◌, ltb, leb, ◌==◌,
  if◌then◌else◌, u64_mod,
}

pub record Scalar : Type 0 where
  pub d0 : ℕ
  pub d1 : ℕ
  pub d2 : ℕ
  pub d3 : ℕ

-- the group order's limbs
abbrev pub n_0 : ℕ
n_0 = 13822214165235122497

abbrev pub n_1 : ℕ
n_1 = 13451932020343611451

abbrev pub n_2 : ℕ
n_2 = 18446744073709551614

abbrev pub n_3 : ℕ
n_3 = 18446744073709551615

-- `~x` on 64 bits
abbrev pub complement : ℕ → ℕ
complement x = u64_mod - 1 - x

-- the limbs of 2 ^ 256 minus the order
abbrev pub n_c_0 : ℕ
n_c_0 = complement n_0 + 1

abbrev pub n_c_1 : ℕ
n_c_1 = complement n_1

abbrev pub n_c_2 : ℕ
n_c_2 = 1

-- the limbs of half the order
abbrev pub n_h_0 : ℕ
n_h_0 = 16134479119472337056

abbrev pub n_h_1 : ℕ
n_h_1 = 6725966010171805725

abbrev pub n_h_2 : ℕ
n_h_2 = 18446744073709551615

abbrev pub n_h_3 : ℕ
n_h_3 = 9223372036854775807

abbrev pub to_bit : Bool → ℕ
to_bit false = 0
to_bit true = 1

unfoldable pub is_zero : Scalar → Bool
is_zero a = a.d0 == 0 && (a.d1 == 0 && (a.d2 == 0 && a.d3 == 0))

unfoldable pub check_overflow : Scalar → Bool
check_overflow a =
    let no = ltb a.d3 n_3 in
    let no = no || ltb a.d2 n_2 in
    let yes = ltb n_2 a.d2 && not no in
    let no = no || ltb a.d1 n_1 in
    let yes = yes || ltb n_1 a.d1 && not no in yes || leb n_0 a.d0 && not no

-- a sum in the 128-bit accumulator
abbrev pub add128 : ℕ → ℕ → ℕ
add128 t x = (t + x) % 2 ^ 128

-- Four limbs with the carry passed on: `t += x; d = t & 0xFFFFFFFFFFFFFFFF; t >>= 64` on each. The
-- second component is what `t` holds in the end.
unfoldable pub carry : ℕ → ℕ → ℕ → ℕ → Scalar × ℕ
carry x0 x1 x2 x3 =
    let t0 = x0 % 2 ^ 128 in
    let t1 = add128 (t0 / u64_mod) x1 in
    let t2 = add128 (t1 / u64_mod) x2 in
    let t3 = add128 (t2 / u64_mod) x3 in
    (
      record { d0 = t0 % u64_mod; d1 = t1 % u64_mod; d2 = t2 % u64_mod; d3 = t3 % u64_mod },
      t3 / u64_mod,
    )

unfoldable pub reduce : Scalar → ℕ → Scalar
reduce r overflow =
    (carry (r.d0 + overflow * n_c_0) (r.d1 + overflow * n_c_1) (r.d2 + overflow * n_c_2) r.d3).0

-- the result and the overflow
unfoldable pub add : Scalar → Scalar → Scalar × ℕ
add a b =
    let (r, t) = carry (a.d0 + b.d0) (a.d1 + b.d1) (a.d2 + b.d2) (a.d3 + b.d3) in
    let overflow = t + to_bit (check_overflow r) in (reduce r overflow, overflow)

-- `t & nonzero` on each limb
abbrev pub masked : Bool → Scalar → Scalar
masked true r = record { d0 = 0; d1 = 0; d2 = 0; d3 = 0 }
masked false r = r

unfoldable pub negate : Scalar → Scalar
negate a =
    masked (is_zero a)
      (carry (complement a.d0 + n_0 + 1) (complement a.d1 + n_1) (complement a.d2 + n_2)
        (complement a.d3 + n_3)).0

unfoldable pub is_high : Scalar → Bool
is_high a =
    let no = ltb a.d3 n_h_3 in
    let yes = ltb n_h_3 a.d3 && not no in
    let no = no || ltb a.d2 n_h_2 && not yes in
    let no = no || ltb a.d1 n_h_1 && not yes in
    let yes = yes || ltb n_h_1 a.d1 && not no in yes || ltb n_h_0 a.d0 && not no

-- `x ^ mask` and `x & mask` of `cond_negate`, whose mask is all ones or 0
abbrev pub xor_mask : Bool → ℕ → ℕ
xor_mask true x = complement x
xor_mask false x = x

abbrev pub and_mask : Bool → ℕ → ℕ
and_mask true x = x
and_mask false x = 0

-- The mask is all ones where the flag is set. The result 1 is true, and -1 is false.
unfoldable pub cond_negate : Scalar → Bool → Scalar × Bool
cond_negate r mask = (
  masked (is_zero r)
      (carry (xor_mask mask r.d0 + and_mask mask (n_0 + 1)) (xor_mask mask r.d1 + and_mask mask n_1)
        (xor_mask mask r.d2 + and_mask mask n_2) (xor_mask mask r.d3 + and_mask mask n_3)).0,
  not mask,
)

unfoldable pub split_128 : Scalar → Scalar × Scalar
split_128 a = (
  record { d0 = a.d0; d1 = a.d1; d2 = 0; d3 = 0 },
  record { d0 = a.d2; d1 = a.d3; d2 = 0; d3 = 0 },
)
