-- ===== src/Secp256k1/Der/RoundTrip.antt =====
-- What `ecdsa_sig_serialize` writes, `ecdsa_sig_parse` reads.
use simple_standalone_versio.Base.{
  ℕ, ◌+◌, ◌-◌, ◌%◌, ◌<◌, ◌≤◌, ◌≡◌, refl, sym, ap, ◌∙◌, true, false, ◌&&◌, ◌||◌, ltb, ◌==◌,
  if◌then◌else◌, bit_and, none, some, List, [], ◌∷◌, All, ◌++◌, length, take-length-append,
  drop-length-append, length-append, append-nil, arith,
}
use simple_standalone_versio.Secp256k1.Sha256.{zeros}
use simple_standalone_versio.Secp256k1.Scalar.{Scalar}
use simple_standalone_versio.Secp256k1.Scalar.Carry.{value, AreLimbs}
use simple_standalone_versio.Secp256k1.Scalar.Reduce.{order}
use simple_standalone_versio.Secp256k1.Scalar.Bytes.{byte_at, set_b32, get_b32, set_b32-get_b32}
use simple_standalone_versio.Secp256k1.Der.{
  der_read_len, skip_zeros, parse_value, integer_body, der_parse_integer, last_integer,
  two_integers, sequence_body, ecdsa_sig_parse, shortest, ecdsa_sig_serialize,
}
use simple_standalone_versio.Secp256k1.Der.Integers.{
  sign_bit, stripped, length-stripped, zeros-stripped, skip_zeros-append, IsShortest,
  shortest-IsShortest, length-shortest, stripped-shortest, stripped_zero,
}

-- a length in the short form
read_short : (n : ℕ) (rest : List ℕ) → n < 128 → der_read_len (n ∷ rest) ≡ some (n, rest)
unfolding der_read_len
read_short n rest small =
    let e : (n == 0xff) ≡ false = ground arith in
    let f : (bit_and n 0x80 == 0) ≡ true = ground (arith, sign_bit n) in rw (e, f) refl

parse_value-append :
    (l bs rest : List ℕ) (r : Scalar)
    → stripped l ≡ stripped bs
    → length bs ≡ 32
    → set_b32 bs ≡ (r, 0)
    → parse_value false (length l) (l ++ rest) ≡ (r, rest)
unfolding parse_value
parse_value-append l bs rest r e size read =
    let t = stripped bs in
    let skip : skip_zeros (length l) (l ++ rest) ≡ (length t, t ++ rest) =
      skip_zeros-append l rest ∙ ap (λ u. (length u, u ++ rest)) e in
    let fits = length-stripped bs in
    let whole : zeros (32 - length t) ++ t ≡ bs =
      ap (λ n. zeros (n - length t) ++ t) (sym size) ∙ zeros-stripped bs in
    let small : ltb 32 (length t) ≡ false = ground arith in
    rw (skip, take-length-append t rest, drop-length-append t rest, whole, read, small) refl

byte_at-append : (l rest : List ℕ) → 1 ≤ length l → byte_at (l ++ rest) 0 ≡ byte_at l 0
byte_at-append [] rest some_byte = absurd (omega arith)
byte_at-append (b ∷ l) rest some_byte = refl

-- the test for a zero byte that is in excess, which reads the second byte only if there is one
not_padded :
    (l rest : List ℕ)
    → IsShortest l
    → (byte_at (l ++ rest) 0 == 0
        && (ltb 1 (length l) && bit_and (byte_at (l ++ rest) 1) 0x80 == 0))
      ≡ false
not_padded [] rest s = ground (arith, s.some)
not_padded (b ∷ []) rest s = ground arith
not_padded (b ∷ c ∷ l) rest s = ground (arith, sign_bit c, s.second, s.tight)

-- An integer with the fewest bytes, for the 32 bytes of a scalar that `set_b32` takes without overflow.
parse_integer-append :
    (l bs rest : List ℕ) (r : Scalar)
    → IsShortest l
    → length l < 128
    → stripped l ≡ stripped bs
    → length bs ≡ 32
    → set_b32 bs ≡ (r, 0)
    → der_parse_integer (0x02 ∷ length l ∷ (l ++ rest)) ≡ some (r, rest)
unfolding der_parse_integer integer_body
parse_integer-append l bs rest r s small e size read =
    let head : byte_at (l ++ rest) 0 ≡ byte_at l 0 = byte_at-append l rest s.some in
    let total = length-append l rest in
    let fits : (length l == 0 || ltb (length (l ++ rest)) (length l)) ≡ false =
      ground (arith, s.some) in
    let n0 = not_padded l rest s in
    let not_ff : (byte_at (l ++ rest) 0 == 0xff) ≡ false = ground (arith, s.positive, head) in
    let positive : (bit_and (byte_at (l ++ rest) 0) 0x80 == 0x80) ≡ false =
      ground (arith, s.positive, head, sign_bit (byte_at (l ++ rest) 0)) in
    rw
      (
        read_short (length l) (l ++ rest) small,
        fits,
        n0,
        not_ff,
        positive,
        parse_value-append l bs rest r e size read,
      )
      refl

get_b32-All : (a : Scalar) → All (λ c. c < 256) (get_b32 a)
unfolding get_b32
get_b32-All a = omega arith

length-get_b32 : (a : Scalar) → length (get_b32 a) ≡ 32
unfolding get_b32
length-get_b32 a = refl

abbrev encoded : Scalar → List ℕ
encoded a = shortest (0 ∷ get_b32 a)

length-encoded : (a : Scalar) → length (encoded a) ≤ 33
length-encoded a = omega (arith, length-shortest (0 ∷ get_b32 a), length-get_b32 a)

-- the integer of a reduced scalar, with anything after it
parse_integer-encoded :
    (a : Scalar) (rest : List ℕ)
    → AreLimbs a
    → value a < order
    → der_parse_integer (0x02 ∷ length (encoded a) % 256 ∷ (encoded a ++ rest)) ≡ some (a, rest)
parse_integer-encoded a rest limbs below =
    let fits = length-encoded a in
    ap (λ n. der_parse_integer (0x02 ∷ n ∷ (encoded a ++ rest))) (omega arith)
    ∙ parse_integer-append (encoded a) (get_b32 a) rest a
        (shortest-IsShortest 0 (get_b32 a) (omega arith) (get_b32-All a)) (omega arith)
        (stripped-shortest (0 ∷ get_b32 a) ∙ stripped_zero 0 (get_b32 a) refl) (length-get_b32 a)
        (set_b32-get_b32 a limbs below)

-- what `ecdsa_sig_serialize` writes, where there is room
abbrev pub written : Scalar → Scalar → List ℕ
written r s =
    (0x30
      ∷ (4 + length (encoded s) + length (encoded r)) % 256
      ∷ 0x02
      ∷ length (encoded r) % 256
      ∷ [])
    ++ (encoded r ++ (0x02 ∷ length (encoded s) % 256 ∷ encoded s))

-- the two integers, one after the other
parse_pair :
    (r s : Scalar)
    → AreLimbs r
    → value r < order
    → AreLimbs s
    → value s < order
    → two_integers (
        der_parse_integer (
          0x02
          ∷ length (encoded r) % 256
          ∷ (encoded r ++ (0x02 ∷ length (encoded s) % 256 ∷ encoded s))))
      ≡ some (r, s)
unfolding two_integers last_integer
parse_pair r s lr br ls bs =
    let second : der_parse_integer (0x02 ∷ length (encoded s) % 256 ∷ encoded s) ≡ some (s, []) =
      ap (λ l. der_parse_integer (0x02 ∷ length (encoded s) % 256 ∷ l))
        (sym (append-nil (encoded s)))
      ∙ parse_integer-encoded s [] ls bs in
    ap two_integers (parse_integer-encoded r _ lr br) ∙ ap (last_integer r) second

-- The bytes of two reduced scalars parse as these. They are at most 72, and `ecdsa_sig_serialize` writes
-- them if the given size is enough; it says in any case how many they are.
pub ecdsa_sig_parse-ecdsa_sig_serialize :
    (size : ℕ) (r s : Scalar)
    → AreLimbs r
    → value r < order
    → AreLimbs s
    → value s < order
    → (ecdsa_sig_parse (written r s) ≡ some (r, s))
      × (length (written r s) ≤ 72)
      × (ecdsa_sig_serialize size r s ≡ (
        if ltb size (length (written r s)) then none else some (written r s),
        length (written r s),
      ))
unfolding ecdsa_sig_serialize ecdsa_sig_parse sequence_body
ecdsa_sig_parse-ecdsa_sig_serialize size r s lr br ls bs =
    let rest : List ℕ = 0x02 ∷ length (encoded s) % 256 ∷ encoded s in
    let fr = length-encoded r in
    let fs = length-encoded s in
    let total = length-append (encoded r) rest in
    let body : List ℕ = 0x02 ∷ length (encoded r) % 256 ∷ (encoded r ++ rest) in
    let n : ℕ = (4 + length (encoded s) + length (encoded r)) % 256 in
    let whole : length body ≡ 4 + length (encoded s) + length (encoded r) = omega arith in
    let exact : (n == length body) ≡ true = ground arith in
    (
      ap sequence_body (read_short n body (omega arith)) ∙ rw exact (parse_pair r s lr br ls bs),
      omega arith,
      ap (λ k. (if ltb size k then none else some (written r s), k))
          {x = 6 + length (encoded s) + length (encoded r)} (omega arith),
    )
