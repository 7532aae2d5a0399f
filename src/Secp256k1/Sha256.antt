-- ===== src/Secp256k1/Sha256.antt =====
-- SHA-256 (crypto/secp256k1/libsecp256k1/src/hash_impl.h). A word is a number below 2 ^ 32, a byte one
-- below 2 ^ 8.
pub mod Stream
pub mod Fips
pub mod Choice
pub mod Rounds
pub mod Padding
use simple_standalone_versio.Base.{
  ℕ, zero, suc, ◌+◌, ◌-◌, ◌*◌, ◌/◌, ◌%◌, ◌^◌, bit_and, bit_or, bit_xor, Bool, leb, if◌then◌else◌,
  List, [], ◌∷◌, ◌++◌, add64, length, take, drop,
}

abbrev pub add32 : ℕ → ℕ → ℕ
add32 a b = (a + b) % 2 ^ 32

-- `x >> n | x << (32 - n)`
abbrev pub rotated : ℕ → ℕ → ℕ
rotated n x = bit_or (x / 2 ^ n) (x * 2 ^ (32 - n) % 2 ^ 32)

abbrev pub ch : ℕ → ℕ → ℕ → ℕ
ch x y z = bit_xor z (bit_and x (bit_xor y z))

abbrev pub maj : ℕ → ℕ → ℕ → ℕ
maj x y z = bit_or (bit_and x y) (bit_and z (bit_or x y))

-- `Sigma0`, `Sigma1`, `sigma0` and `sigma1`
abbrev pub big_sigma0 : ℕ → ℕ
big_sigma0 x = bit_xor (bit_xor (rotated 2 x) (rotated 13 x)) (rotated 22 x)

abbrev pub big_sigma1 : ℕ → ℕ
big_sigma1 x = bit_xor (bit_xor (rotated 6 x) (rotated 11 x)) (rotated 25 x)

abbrev pub sigma0 : ℕ → ℕ
sigma0 x = bit_xor (bit_xor (rotated 7 x) (rotated 18 x)) (x / 2 ^ 3)

abbrev pub sigma1 : ℕ → ℕ
sigma1 x = bit_xor (bit_xor (rotated 17 x) (rotated 19 x)) (x / 2 ^ 10)

-- the words `s[0]` to `s[7]`, and the variables `a` to `h` of a transformation
pub record Words : Type 0 where
  pub a : ℕ
  pub b : ℕ
  pub c : ℕ
  pub d : ℕ
  pub e : ℕ
  pub f : ℕ
  pub g : ℕ
  pub h : ℕ

-- `Round`. The code renames its eight variables from one round to the next; here the values move on.
unfoldable pub round : ℕ → ℕ → Words → Words
round k w s =
    let t1 = add32 (add32 (add32 (add32 s.h (big_sigma1 s.e)) (ch s.e s.f s.g)) k) w in
    let t2 = add32 (big_sigma0 s.a) (maj s.a s.b s.c) in
    record {
      a = add32 t1 t2;
      b = s.a;
      c = s.b;
      d = s.c;
      e = add32 s.d t1;
      f = s.e;
      g = s.f;
      h = s.g;
    }

abbrev pub word_at : List ℕ → ℕ → ℕ
word_at [] i = 0
word_at (w ∷ ws) zero = w
word_at (w ∷ ws) (suc i) = word_at ws i

-- The next word, from the sixteen before it: `w0 + sigma1(w14) + w9 + sigma0(w1)`.
unfoldable pub next_word : List ℕ → ℕ
next_word ws =
    add32 (word_at ws 0)
      (add32 (add32 (sigma1 (word_at ws 14)) (word_at ws 9)) (sigma0 (word_at ws 1)))

-- The rounds over the constants; `ws` holds the sixteen words from the one in use on.
unfoldable pub rounds : List ℕ → List ℕ → Words → Words
rounds [] ws s = s
rounds (k ∷ ks) ws s = rounds ks (drop 1 ws ++ next_word ws ∷ []) (round k (word_at ws 0) s)

abbrev pub constants : List ℕ
constants =
    0x428a2f98 ∷ 0x71374491 ∷ 0xb5c0fbcf ∷ 0xe9b5dba5 ∷ 0x3956c25b ∷ 0x59f111f1 ∷ 0x923f82a4
    ∷ 0xab1c5ed5 ∷ 0xd807aa98 ∷ 0x12835b01 ∷ 0x243185be ∷ 0x550c7dc3 ∷ 0x72be5d74 ∷ 0x80deb1fe
    ∷ 0x9bdc06a7 ∷ 0xc19bf174 ∷ 0xe49b69c1 ∷ 0xefbe4786 ∷ 0x0fc19dc6 ∷ 0x240ca1cc ∷ 0x2de92c6f
    ∷ 0x4a7484aa ∷ 0x5cb0a9dc ∷ 0x76f988da ∷ 0x983e5152 ∷ 0xa831c66d ∷ 0xb00327c8 ∷ 0xbf597fc7
    ∷ 0xc6e00bf3 ∷ 0xd5a79147 ∷ 0x06ca6351 ∷ 0x14292967 ∷ 0x27b70a85 ∷ 0x2e1b2138 ∷ 0x4d2c6dfc
    ∷ 0x53380d13 ∷ 0x650a7354 ∷ 0x766a0abb ∷ 0x81c2c92e ∷ 0x92722c85 ∷ 0xa2bfe8a1 ∷ 0xa81a664b
    ∷ 0xc24b8b70 ∷ 0xc76c51a3 ∷ 0xd192e819 ∷ 0xd6990624 ∷ 0xf40e3585 ∷ 0x106aa070 ∷ 0x19a4c116
    ∷ 0x1e376c08 ∷ 0x2748774c ∷ 0x34b0bcb5 ∷ 0x391c0cb3 ∷ 0x4ed8aa4a ∷ 0x5b9cca4f ∷ 0x682e6ff3
    ∷ 0x748f82ee ∷ 0x78a5636f ∷ 0x84c87814 ∷ 0x8cc70208 ∷ 0x90befffa ∷ 0xa4506ceb ∷ 0xbef9a3f7
    ∷ 0xc67178f2 ∷ []

-- the big endian words of a chunk of bytes
abbrev pub words_of : List ℕ → List ℕ
words_of (b0 ∷ b1 ∷ b2 ∷ b3 ∷ rest) = (b0 * 2 ^ 24 + b1 * 2 ^ 16 + b2 * 2 ^ 8 + b3) ∷ words_of rest
words_of rest = []

unfoldable pub transform : Words → List ℕ → Words
transform s chunk =
    let r = rounds constants (words_of chunk) s in
    record {
      a = add32 s.a r.a;
      b = add32 s.b r.b;
      c = add32 s.c r.c;
      d = add32 s.d r.d;
      e = add32 s.e r.e;
      f = add32 s.f r.f;
      g = add32 s.g r.g;
      h = add32 s.h r.h;
    }

-- `buf` holds the bytes that were written since the last transformation: the first
-- `bytes & 0x3F` bytes of the code's buffer, which never reads the others.
pub record Sha256 : Type 0 where
  pub s : Words
  pub buf : List ℕ
  pub bytes : ℕ

abbrev pub initialize : Sha256
initialize = record {
  s = record {
    a = 0x6a09e667;
    b = 0xbb67ae85;
    c = 0x3c6ef372;
    d = 0xa54ff53a;
    e = 0x510e527f;
    f = 0x9b05688c;
    g = 0x1f83d9ab;
    h = 0x5be0cd19;
  };
  buf = [];
  bytes = 0;
}

-- The loop of `write`, on fuel: the bytes that fill the buffer, and a transformation. What remains is
-- kept in the buffer.
unfoldable pub absorb : ℕ → ℕ → Words → List ℕ → List ℕ → Words × List ℕ
absorb zero bufsize s buf input = (s, buf ++ input)
absorb (suc fuel) bufsize s buf input =
    let more =
      absorb fuel 0 (transform s (buf ++ take (64 - bufsize) input)) []
        (drop (64 - bufsize) input) in
    if leb 64 (bufsize + length input) then more else (s, buf ++ input)

-- A round takes a byte at least, so that the fuel is enough.
unfoldable pub write : Sha256 → List ℕ → Sha256
write hash input =
    let (s, buf) = absorb (suc (length input)) (hash.bytes % 64) hash.s hash.buf input in
    record { s = s; buf = buf; bytes = add64 hash.bytes (length input) }

abbrev pub zeros : ℕ → List ℕ
zeros zero = []
zeros (suc n) = 0 ∷ zeros n

-- the four bytes of a word, the highest first
abbrev pub bytes_of : ℕ → List ℕ
bytes_of w = w / 2 ^ 24 % 256 ∷ w / 2 ^ 16 % 256 ∷ w / 2 ^ 8 % 256 ∷ w % 256 ∷ []

abbrev pub words_out : Words → List ℕ
words_out s =
    bytes_of s.a
    ++ bytes_of s.b
    ++ bytes_of s.c
    ++ bytes_of s.d
    ++ bytes_of s.e
    ++ bytes_of s.f
    ++ bytes_of s.g
    ++ bytes_of s.h

-- The padding, the number of bits on 64 bits, and the words that are left. The code then clears the words
-- of the state, which no caller uses again.
unfoldable pub finalize : Sha256 → List ℕ
finalize hash =
    let sizedesc =
      bytes_of (hash.bytes / 2 ^ 29 % 2 ^ 32) ++ bytes_of (hash.bytes * 2 ^ 3 % 2 ^ 32) in
    let padded = write hash (0x80 ∷ zeros ((119 - hash.bytes % 64) % 64)) in
    words_out (write padded sizedesc).s
