-- ===== src/Secp256k1/Sha256/Padding.antt =====
-- The hash of a message, written and finished by hash_impl.h, and that of FIPS 180-4.
use simple_standalone_versio.Base.{
  ℕ, zero, suc, ◌+◌, ◌-◌, ◌*◌, ◌/◌, ◌%◌, ◌^◌, ◌<◌, ◌≡◌, refl, ap, ap₂, ◌∙◌, List, [], ◌∷◌, ◌++◌,
  append_assoc, length, length-append, take, drop, leb, true, ◌≤◌, arith,
}
use simple_standalone_versio.Secp256k1.Sha256.{
  Words, initialize, write, finalize, zeros, bytes_of, words_out,
}
use simple_standalone_versio.Secp256k1.Sha256.Stream.{
  chunks, chunks_short, write-write, write-stored, length-drop,
}
use simple_standalone_versio.Secp256k1.Sha256.Fips.{
  zero_bytes, eight_bytes, padded, sha256, hash_blocks, compress, initial_hash,
}
use simple_standalone_versio.Secp256k1.Sha256.Rounds.{
  AreWords, transform_lem, compress-AreWords, initialize_lem,
}

pub zeros_lem : (n : ℕ) → zeros n ≡ zero_bytes n
zeros_lem zero = refl
zeros_lem (suc n) = ap (◌∷◌ 0) (zeros_lem n)

length-zeros : (n : ℕ) → length (zero_bytes n) ≡ n
length-zeros zero = refl
length-zeros (suc n) = ap suc (length-zeros n)

length-padded : (m : List ℕ) → length (padded m) % 64 ≡ 0
length-padded m =
    let z = length-zeros ((119 - length m % 64) % 64) in
    let k = length-append (zero_bytes ((119 - length m % 64) % 64)) (eight_bytes (8 * length m)) in
    let l =
      length-append m
        (0x80 ∷ (zero_bytes ((119 - length m % 64) % 64) ++ eight_bytes (8 * length m))) in
    let whole : length (padded m) ≡ length m + (1 + ((119 - length m % 64) % 64 + 8)) =
      l ∙ ap (λ n. length m + suc n) (k ∙ ap (λ n. n + 8) z) ∙ omega arith in
    omega (arith, whole)

cons_eq : {x y : ℕ} {xs ys : List ℕ} → x ≡ y → xs ≡ ys → x ∷ xs ≡ y ∷ ys
cons_eq p q = ap₂ ◌∷◌ p q

size_bytes :
    (n : ℕ)
    → n < 2 ^ 61
    → bytes_of (n / 2 ^ 29 % 2 ^ 32) ++ bytes_of (n * 2 ^ 3 % 2 ^ 32) ≡ eight_bytes (8 * n)
size_bytes n small = cons_eq (omega arith) (
    cons_eq (omega arith) (
      cons_eq (omega arith) (
        cons_eq (omega arith) (
          cons_eq (omega arith)
            (cons_eq (omega arith) (cons_eq (omega arith) (cons_eq (omega arith) refl)))))))

bytes-write : (m : List ℕ) → length m < 2 ^ 61 → (write initialize m).bytes ≡ length m
unfolding write
bytes-write m small = omega arith

-- the words after the transformations of the chunks of the padded message
finalize-chunks :
    (m : List ℕ)
    → length m < 2 ^ 61
    → finalize (write initialize m)
      ≡ words_out (chunks (length (padded m)) initialize.s (padded m)).0
unfolding finalize
finalize-chunks m small =
    let pad = 0x80 ∷ zero_bytes ((119 - length m % 64) % 64) in
    let size = eight_bytes (8 * length m) in
    let (first, valid) = write-write initialize m pad refl in
    let (second, ignored) = write-write initialize (m ++ pad) size refl in
    let e : write (write (write initialize m) pad) size ≡ write initialize (padded m) =
      ap (λ h. write h size) first ∙ second ∙ ap (write initialize) (append_assoc m pad size) in
    ap
      (λ k.
        words_out
          (write (write (write initialize m) (0x80 ∷ zeros ((119 - k % 64) % 64)))
            (bytes_of (k / 2 ^ 29 % 2 ^ 32) ++ bytes_of (k * 2 ^ 3 % 2 ^ 32))).s)
      (bytes-write m small)
    ∙ ap
        (λ z.
          words_out
            (write (write (write initialize m) (0x80 ∷ z))
              (bytes_of (length m / 2 ^ 29 % 2 ^ 32) ++ bytes_of (length m * 2 ^ 3 % 2 ^ 32))).s)
        (zeros_lem ((119 - length m % 64) % 64))
    ∙ ap (λ d. words_out (write (write (write initialize m) pad) d).s) (size_bytes (length m) small)
    ∙ ap (λ h. words_out h.s)
        (e ∙ write-stored initialize (padded m) (length (padded m)) refl (omega arith))

length-take : (n : ℕ) (xs : List ℕ) → n ≤ length xs → length (take n xs) ≡ n
length-take zero xs h = refl
length-take (suc n) [] h = absurd (omega arith)
length-take (suc n) (x ∷ xs) h = ap suc (length-take n xs (omega arith))

-- the chunks are the blocks
chunks-hash_blocks :
    (n fuel : ℕ) (s : Words) (xs : List ℕ)
    → length xs ≡ 64 * n
    → n ≤ fuel
    → AreWords s
    → (chunks fuel s xs).0 ≡ hash_blocks n s xs
unfolding chunks
chunks-hash_blocks zero fuel s xs l h v = ap (λ p. p.0) (chunks_short fuel s xs (omega arith))
chunks-hash_blocks (suc n) zero s xs l h v = absurd (omega arith)
chunks-hash_blocks (suc n) (suc fuel) s xs l h v =
    let long : leb 64 (length xs) ≡ true = ground arith in
    let d = length-drop 64 xs in
    rw (long, transform_lem s (take 64 xs) (length-take 64 xs (omega arith)) v)
      (chunks-hash_blocks n fuel (compress s (take 64 xs)) (drop 64 xs) (omega arith) (omega arith)
        (compress-AreWords s (take 64 xs)))

initial_hash-AreWords : AreWords initial_hash
initial_hash-AreWords = record {
  a_word = omega arith;
  b_word = omega arith;
  c_word = omega arith;
  d_word = omega arith;
  e_word = omega arith;
  f_word = omega arith;
  g_word = omega arith;
  h_word = omega arith;
}

-- A message below 2 ^ 61 bytes hashes to what FIPS 180-4 says: the hash is that of the specification with the
-- functions of its section 4.1.2, the constants from the cube roots of the primes and the initial hash value from
-- their square roots, the message schedule, the padding and the blocks. The padded message is made of blocks of
-- 64 bytes.
pub finalize-write :
    (m : List ℕ)
    → length m < 2 ^ 61
    → (finalize (write initialize m) ≡ sha256 m) × (length (padded m) % 64 ≡ 0)
finalize-write m small =
    let whole = length-padded m in
    (
      finalize-chunks m small
          ∙ ap (λ s. words_out (chunks (length (padded m)) s (padded m)).0) initialize_lem
          ∙ ap words_out (
              chunks-hash_blocks (length (padded m) / 64) (length (padded m)) initial_hash
                (padded m) (omega (arith, whole)) (omega arith) initial_hash-AreWords),
      whole,
    )
