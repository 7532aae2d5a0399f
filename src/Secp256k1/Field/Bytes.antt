-- ===== src/Secp256k1/Field/Bytes.antt =====
-- Field elements as 32 bytes, the highest first (`set_b32` and `get_b32` of field_5x52_impl.h). Half
-- bytes are put beside one another by `|=`; they share no bit, so that they are added here.
use simple_standalone_versio.Base.{
  ℕ, zero, suc, ◌+◌, ◌-◌, ◌*◌, ◌/◌, ◌%◌, ◌^◌, ◌<◌, ◌≡◌, ◌∙◌, ap, bit_and, Bool, true, List, [], ◌∷◌,
  not, ◌&&◌, ◌==◌, leb, ltb, arith,
}
use simple_standalone_versio.Secp256k1.Field.{Fe, p_0, ones_52, ones_48}
use simple_standalone_versio.Secp256k1.Field.Normalize.{and_ones}
use simple_standalone_versio.Secp256k1.Field.Value.{value, prime, AreDigits, IsNormalized}

-- `a[i]`; the code reads no index out of range
abbrev pub byte_at : List ℕ → ℕ → ℕ
byte_at [] i = 0
byte_at (x ∷ xs) zero = x
byte_at (x ∷ xs) (suc i) = byte_at xs i

-- `n[limb]`
abbrev pub limb : Fe → ℕ → ℕ
limb a zero = a.n0
limb a (suc zero) = a.n1
limb a (suc (suc zero)) = a.n2
limb a (suc (suc (suc zero))) = a.n3
limb a (suc (suc (suc (suc l)))) = a.n4

-- `n[limb] |= x`
abbrev pub add_to_limb : Fe → ℕ → ℕ → Fe
add_to_limb r zero x = record r { n0 = r.n0 + x }
add_to_limb r (suc zero) x = record r { n1 = r.n1 + x }
add_to_limb r (suc (suc zero)) x = record r { n2 = r.n2 + x }
add_to_limb r (suc (suc (suc zero))) x = record r { n3 = r.n3 + x }
add_to_limb r (suc (suc (suc (suc l)))) x = record r { n4 = r.n4 + x }

-- the half byte `j` of the byte `i` from the end
abbrev pub half_byte : Fe → ℕ → ℕ → ℕ
half_byte a i j = limb a ((8 * i + 4 * j) / 52) / 2 ^ ((8 * i + 4 * j) % 52) % 16

abbrev pub put_half_byte : List ℕ → Fe → ℕ → ℕ → Fe
put_half_byte a r i j =
    add_to_limb r ((8 * i + 4 * j) / 52)
      (byte_at a (31 - i) / 2 ^ (4 * j) % 16 * 2 ^ ((8 * i + 4 * j) % 52))

-- the loop of `set_b32`, with the number of rounds left
abbrev pub set_bytes : List ℕ → ℕ → ℕ → Fe → Fe
set_bytes a zero i r = r
set_bytes a (suc left) i r = set_bytes a left (suc i) (put_half_byte a (put_half_byte a r i 0) i 1)

-- the test of the limbs that `set_b32` ends with
unfoldable pub below_p : Fe → Bool
below_p r = not (r.n4 == ones_48 && (bit_and (bit_and r.n3 r.n2) r.n1 == ones_52 && leb p_0 r.n0))

-- The element, and whether the bytes stand for a number below the prime.
unfoldable pub set_b32 : List ℕ → Fe × Bool
set_b32 a =
    let r = set_bytes a 32 0 (record { n0 = 0; n1 = 0; n2 = 0; n3 = 0; n4 = 0 }) in (r, below_p r)

-- the loop of `get_b32`, which writes from the last byte to the first
abbrev pub get_bytes : Fe → ℕ → List ℕ
get_bytes a zero = []
get_bytes a (suc i) = (half_byte a i 0 + half_byte a i 1 * 2 ^ 4) ∷ get_bytes a i

unfoldable pub get_b32 : Fe → List ℕ
get_b32 a = get_bytes a 32

-- the half bytes of a limb
join_52 :
    (x : ℕ)
    → x < 2 ^ 52
    → 0
        + x / 2 ^ 0 % 16 * 2 ^ 0
        + x / 2 ^ 4 % 16 * 2 ^ 4
        + x / 2 ^ 8 % 16 * 2 ^ 8
        + x / 2 ^ 12 % 16 * 2 ^ 12
        + x / 2 ^ 16 % 16 * 2 ^ 16
        + x / 2 ^ 20 % 16 * 2 ^ 20
        + x / 2 ^ 24 % 16 * 2 ^ 24
        + x / 2 ^ 28 % 16 * 2 ^ 28
        + x / 2 ^ 32 % 16 * 2 ^ 32
        + x / 2 ^ 36 % 16 * 2 ^ 36
        + x / 2 ^ 40 % 16 * 2 ^ 40
        + x / 2 ^ 44 % 16 * 2 ^ 44
        + x / 2 ^ 48 % 16 * 2 ^ 48
      ≡ x
join_52 x small = omega arith

join_48 :
    (x : ℕ)
    → x < 2 ^ 48
    → 0
        + x / 2 ^ 0 % 16 * 2 ^ 0
        + x / 2 ^ 4 % 16 * 2 ^ 4
        + x / 2 ^ 8 % 16 * 2 ^ 8
        + x / 2 ^ 12 % 16 * 2 ^ 12
        + x / 2 ^ 16 % 16 * 2 ^ 16
        + x / 2 ^ 20 % 16 * 2 ^ 20
        + x / 2 ^ 24 % 16 * 2 ^ 24
        + x / 2 ^ 28 % 16 * 2 ^ 28
        + x / 2 ^ 32 % 16 * 2 ^ 32
        + x / 2 ^ 36 % 16 * 2 ^ 36
        + x / 2 ^ 40 % 16 * 2 ^ 40
        + x / 2 ^ 44 % 16 * 2 ^ 44
      ≡ x
join_48 x small = omega arith

low_half : (x y : ℕ) → (x % 16 + y % 16 * 2 ^ 4) / 2 ^ 0 % 16 ≡ x % 16
low_half x y = omega arith

high_half : (x y : ℕ) → (x % 16 + y % 16 * 2 ^ 4) / 2 ^ 4 % 16 ≡ y % 16
high_half x y = omega arith

abbrev pub zero_fe : Fe
zero_fe = record { n0 = 0; n1 = 0; n2 = 0; n3 = 0; n4 = 0 }

below_p_lem : (a : Fe) → AreDigits a → below_p a ≡ ltb (value a) prime
unfolding below_p
below_p_lem a (a0, a1, a2, a3, a4) =
    rw (and_ones a.n3 a.n2 a.n1 (omega arith) (omega arith) (omega arith)) (ground arith)

pub set_bytes-get_b32 : (a : Fe) → AreDigits a → set_bytes (get_b32 a) 32 0 zero_fe ≡ a
unfolding get_b32
set_bytes-get_b32 a (a0, a1, a2, a3, a4) =
    simp (low_half, high_half)
      (λ i. record {
        n0 = join_52 a.n0 a0 i;
        n1 = join_52 a.n1 a1 i;
        n2 = join_52 a.n2 a2 i;
        n3 = join_52 a.n3 a3 i;
        n4 = join_48 a.n4 a4 i;
      })

-- The 32 bytes of a normalized element read back as that element, and count as below the prime.
pub set_b32-get_b32_fe : (a : Fe) → IsNormalized a → set_b32 (get_b32 a) ≡ (a, true)
unfolding set_b32
set_b32-get_b32_fe a (digits, below) =
    ap (λ r. (r, below_p r)) (set_bytes-get_b32 a digits)
    ∙ ap (λ b. (a, b)) (below_p_lem a digits ∙ ground arith)
