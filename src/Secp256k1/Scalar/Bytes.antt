-- ===== src/Secp256k1/Scalar/Bytes.antt =====
-- Scalars as 32 bytes, the highest first (`set_b32` and `get_b32` of scalar_4x64_impl.h).
use simple_standalone_versio.Base.{
  ℕ, zero, suc, ◌+◌, ◌*◌, ◌/◌, ◌%◌, ◌^◌, ◌<◌, ◌≡◌, refl, ◌∙◌, ap, false, List, [], ◌∷◌, ◌++◌,
  u64_mod, arith,
}
use simple_standalone_versio.Secp256k1.Scalar.{Scalar, check_overflow, reduce, to_bit}
use simple_standalone_versio.Secp256k1.Scalar.Carry.{value, AreLimbs}
use simple_standalone_versio.Secp256k1.Scalar.Reduce.{order, check_overflow_lem, reduce_zero_lem}

-- `b32[i]`; the code reads no index out of range
abbrev pub byte_at : List ℕ → ℕ → ℕ
byte_at [] i = 0
byte_at (x ∷ xs) zero = x
byte_at (x ∷ xs) (suc i) = byte_at xs i

-- Eight bytes from `i` on, joined by shifts and `|`: the shifted bytes share no bit, so that they are
-- added here.
abbrev pub limb_at : List ℕ → ℕ → ℕ → ℕ → ℕ → ℕ → ℕ → ℕ → ℕ → ℕ
limb_at b i0 i1 i2 i3 i4 i5 i6 i7 =
    byte_at b i0
    + byte_at b i1 * 2 ^ 8
    + byte_at b i2 * 2 ^ 16
    + byte_at b i3 * 2 ^ 24
    + byte_at b i4 * 2 ^ 32
    + byte_at b i5 * 2 ^ 40
    + byte_at b i6 * 2 ^ 48
    + byte_at b i7 * 2 ^ 56

abbrev pub loaded : List ℕ → Scalar
loaded b = record {
  d0 = limb_at b 31 30 29 28 27 26 25 24;
  d1 = limb_at b 23 22 21 20 19 18 17 16;
  d2 = limb_at b 15 14 13 12 11 10 9 8;
  d3 = limb_at b 7 6 5 4 3 2 1 0;
}

-- the scalar and the overflow
unfoldable pub set_b32 : List ℕ → Scalar × ℕ
set_b32 b = let over = to_bit (check_overflow (loaded b)) in (reduce (loaded b) over, over)

-- a limb's bytes, each cut to 8 bits
abbrev pub limb_bytes : ℕ → List ℕ
limb_bytes d =
    d / 2 ^ 56 % 256
    ∷ d / 2 ^ 48 % 256
    ∷ d / 2 ^ 40 % 256
    ∷ d / 2 ^ 32 % 256
    ∷ d / 2 ^ 24 % 256
    ∷ d / 2 ^ 16 % 256
    ∷ d / 2 ^ 8 % 256
    ∷ d % 256
    ∷ []

unfoldable pub get_b32 : Scalar → List ℕ
get_b32 a = limb_bytes a.d3 ++ limb_bytes a.d2 ++ limb_bytes a.d1 ++ limb_bytes a.d0

join_bytes :
    (d : ℕ)
    → d < u64_mod
    → d % 256
        + d / 2 ^ 8 % 256 * 2 ^ 8
        + d / 2 ^ 16 % 256 * 2 ^ 16
        + d / 2 ^ 24 % 256 * 2 ^ 24
        + d / 2 ^ 32 % 256 * 2 ^ 32
        + d / 2 ^ 40 % 256 * 2 ^ 40
        + d / 2 ^ 48 % 256 * 2 ^ 48
        + d / 2 ^ 56 % 256 * 2 ^ 56
      ≡ d
join_bytes d small = omega arith

pub loaded-get_b32 : (a : Scalar) → AreLimbs a → loaded (get_b32 a) ≡ a
unfolding get_b32
loaded-get_b32 a (b0, b1, b2, b3) =
    rw (join_bytes a.d0 b0, join_bytes a.d1 b1, join_bytes a.d2 b2, join_bytes a.d3 b3) refl

-- The 32 bytes of a reduced scalar read back as that scalar, without overflow.
pub set_b32-get_b32 : (a : Scalar) → AreLimbs a → value a < order → set_b32 (get_b32 a) ≡ (a, 0)
unfolding set_b32
set_b32-get_b32 a limbs below =
    let e = check_overflow_lem a limbs in
    let c : check_overflow a ≡ false = e ∙ ground arith in
    rw (loaded-get_b32 a limbs, c) (ap (λ r. (r, 0)) (reduce_zero_lem a limbs))
