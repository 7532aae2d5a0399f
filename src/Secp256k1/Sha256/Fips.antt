-- ===== src/Secp256k1/Sha256/Fips.antt =====
-- SHA-256 as FIPS 180-4 describes it, on numbers below 2 ^ 32: the description that hash_impl.h is compared with.
use simple_standalone_versio.Base.{
  ℕ, zero, suc, ◌+◌, ◌-◌, ◌*◌, ◌/◌, ◌%◌, ◌^◌, bit_and, bit_or, bit_xor, Bool, true, false, ◌==◌,
  leb, if◌then◌else◌, List, [], ◌∷◌, ◌++◌, length, take, drop, map,
}
use simple_standalone_versio.Secp256k1.Sha256.{Words}

-- 4.1.2: the functions
abbrev pub rotr : ℕ → ℕ → ℕ
rotr n x = bit_or (x / 2 ^ n) (x * 2 ^ (32 - n) % 2 ^ 32)

abbrev pub not_word : ℕ → ℕ
not_word x = 2 ^ 32 - 1 - x

abbrev pub choose : ℕ → ℕ → ℕ → ℕ
choose x y z = bit_xor (bit_and x y) (bit_and (not_word x) z)

abbrev pub majority : ℕ → ℕ → ℕ → ℕ
majority x y z = bit_xor (bit_xor (bit_and x y) (bit_and x z)) (bit_and y z)

abbrev pub upper_sigma0 : ℕ → ℕ
upper_sigma0 x = bit_xor (bit_xor (rotr 2 x) (rotr 13 x)) (rotr 22 x)

abbrev pub upper_sigma1 : ℕ → ℕ
upper_sigma1 x = bit_xor (bit_xor (rotr 6 x) (rotr 11 x)) (rotr 25 x)

abbrev pub lower_sigma0 : ℕ → ℕ
lower_sigma0 x = bit_xor (bit_xor (rotr 7 x) (rotr 18 x)) (x / 2 ^ 3)

abbrev pub lower_sigma1 : ℕ → ℕ
lower_sigma1 x = bit_xor (bit_xor (rotr 17 x) (rotr 19 x)) (x / 2 ^ 10)

-- `x` has a divisor from 2 to `d + 1`
abbrev pub divided : ℕ → ℕ → Bool
divided zero x = false
divided (suc d) x = if x % suc (suc d) == 0 then true else divided d x

-- the primes below `n + 2`
abbrev pub primes_below : ℕ → List ℕ
primes_below zero = []
primes_below (suc n) = primes_below n ++ (if divided n (suc (suc n)) then [] else suc (suc n) ∷ [])

-- the largest `r + s` whose power `e` is at most `x`, for `s` below 2 ^ bits
abbrev pub root : ℕ → ℕ → ℕ → ℕ → ℕ
root e x zero r = r
root e x (suc bits) r = root e x bits (if leb ((r + 2 ^ bits) ^ e) x then r + 2 ^ bits else r)

-- the first 32 bits of the fractional part of the square root and of the cube root of `p`
abbrev pub square_root_bits : ℕ → ℕ
square_root_bits p = root 2 (p * 2 ^ 64) 40 0 % 2 ^ 32

abbrev pub cube_root_bits : ℕ → ℕ
cube_root_bits p = root 3 (p * 2 ^ 96) 40 0 % 2 ^ 32

-- 4.2.2: the constants are from the cube roots of the first 64 primes. 5.3.3: the initial hash value is from the
-- square roots of the first eight.
unfoldable pub round_constants : List ℕ
round_constants = map cube_root_bits (primes_below 310)

abbrev pub initial_hash : Words
initial_hash = record {
  a = square_root_bits 2;
  b = square_root_bits 3;
  c = square_root_bits 5;
  d = square_root_bits 7;
  e = square_root_bits 11;
  f = square_root_bits 13;
  g = square_root_bits 17;
  h = square_root_bits 19;
}

-- 5.2.1: the words of a block, the highest byte first
abbrev pub block_words : List ℕ → List ℕ
block_words (b0 ∷ b1 ∷ b2 ∷ b3 ∷ rest) =
    (b0 * 2 ^ 24 + b1 * 2 ^ 16 + b2 * 2 ^ 8 + b3) ∷ block_words rest
block_words rest = []

abbrev pub item : List ℕ → ℕ → ℕ
item [] i = 0
item (w ∷ ws) zero = w
item (w ∷ ws) (suc i) = item ws i

-- 6.2.2, step 1: the words 0 to `n + 15` of the message schedule, and its word `t`
abbrev pub schedule : ℕ → List ℕ → List ℕ
schedule zero m = m
schedule (suc n) m =
    let w = schedule n m in
    w
    ++ (lower_sigma1 (item w (n + 14)) + item w (n + 9) + lower_sigma0 (item w (n + 1)) + item w n)
        % 2 ^ 32
      ∷ []

abbrev pub schedule_word : List ℕ → ℕ → ℕ
schedule_word m t = item (schedule t m) t

-- step 3, for one `t`
unfoldable pub round_step : ℕ → ℕ → Words → Words
round_step k w s =
    let t1 = (s.h + upper_sigma1 s.e + choose s.e s.f s.g + k + w) % 2 ^ 32 in
    let t2 = (upper_sigma0 s.a + majority s.a s.b s.c) % 2 ^ 32 in
    record {
      a = (t1 + t2) % 2 ^ 32;
      b = s.a;
      c = s.b;
      d = s.c;
      e = (s.d + t1) % 2 ^ 32;
      f = s.e;
      g = s.f;
      h = s.g;
    }

-- step 3, from `t` on
unfoldable pub steps : List ℕ → ℕ → List ℕ → Words → Words
steps [] t m s = s
steps (k ∷ ks) t m s = steps ks (suc t) m (round_step k (schedule_word m t) s)

-- step 4
abbrev pub added : Words → Words → Words
added r s = record {
  a = (r.a + s.a) % 2 ^ 32;
  b = (r.b + s.b) % 2 ^ 32;
  c = (r.c + s.c) % 2 ^ 32;
  d = (r.d + s.d) % 2 ^ 32;
  e = (r.e + s.e) % 2 ^ 32;
  f = (r.f + s.f) % 2 ^ 32;
  g = (r.g + s.g) % 2 ^ 32;
  h = (r.h + s.h) % 2 ^ 32;
}

-- steps 1 to 4
unfoldable pub compress : Words → List ℕ → Words
compress s block = added (steps round_constants 0 (block_words block) s) s

-- 6.2.2: the blocks in order, `n` of them
abbrev pub hash_blocks : ℕ → Words → List ℕ → Words
hash_blocks zero s m = s
hash_blocks (suc n) s m = hash_blocks n (compress s (take 64 m)) (drop 64 m)

-- a word in four bytes, the highest first
abbrev pub word_bytes : ℕ → List ℕ
word_bytes w = w / 2 ^ 24 % 256 ∷ w / 2 ^ 16 % 256 ∷ w / 2 ^ 8 % 256 ∷ w % 256 ∷ []

abbrev pub hash_bytes : Words → List ℕ
hash_bytes s =
    word_bytes s.a
    ++ word_bytes s.b
    ++ word_bytes s.c
    ++ word_bytes s.d
    ++ word_bytes s.e
    ++ word_bytes s.f
    ++ word_bytes s.g
    ++ word_bytes s.h

-- 5.1.1: the message, a bit 1, zeros up to 56 modulo 64 bytes, and the number of its bits in eight bytes
abbrev pub zero_bytes : ℕ → List ℕ
zero_bytes zero = []
zero_bytes (suc n) = 0 ∷ zero_bytes n

abbrev pub eight_bytes : ℕ → List ℕ
eight_bytes n =
    n / 2 ^ 56 % 256
    ∷ n / 2 ^ 48 % 256
    ∷ n / 2 ^ 40 % 256
    ∷ n / 2 ^ 32 % 256
    ∷ n / 2 ^ 24 % 256
    ∷ n / 2 ^ 16 % 256
    ∷ n / 2 ^ 8 % 256
    ∷ n % 256
    ∷ []

abbrev pub padded : List ℕ → List ℕ
padded m = m ++ (0x80 ∷ (zero_bytes ((119 - length m % 64) % 64) ++ eight_bytes (8 * length m)))

abbrev pub sha256 : List ℕ → List ℕ
sha256 m = hash_bytes (hash_blocks (length (padded m) / 64) initial_hash (padded m))
