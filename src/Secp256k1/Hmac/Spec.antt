-- ===== src/Secp256k1/Hmac/Spec.antt =====
-- HMAC and the generator against their one-line specifications (RFC 2104, RFC 6979).
use simple_standalone_versio.Base.{
  ℕ, zero, suc, ◌+◌, ◌-◌, ◌≤◌, ◌≡◌, refl, ap, ap₂, ◌∙◌, bit_xor, bit_xor_assoc, true, false, leb,
  if◌then◌else◌, List, [], ◌∷◌, ◌++◌, append_assoc, map, length, length-append, take, arith,
}
use simple_standalone_versio.Secp256k1.Sha256
use simple_standalone_versio.Secp256k1.Sha256.{Sha256, finalize, words_out}
use simple_standalone_versio.Secp256k1.Sha256.Stream.{write-write}
use simple_standalone_versio.Secp256k1.Hmac.{
  Hmac, Rng, block_key, initialize, write, digest, repeated, rng_initialize, generate_loop,
  generate,
}

-- the hash of a whole message
abbrev pub sha256 : List ℕ → List ℕ
sha256 m = finalize (Sha256.write Sha256.initialize m)

-- `H((K ^ opad) || H((K ^ ipad) || m))`
abbrev pub hmac : List ℕ → List ℕ → List ℕ
hmac key m = sha256 (
    map (λ x. bit_xor x 0x5c) (block_key key)
    ++ sha256 (map (λ x. bit_xor x 0x36) (block_key key) ++ m))

inner_pad :
    (xs : List ℕ)
    → map (λ x. bit_xor x (bit_xor 0x5c 0x36)) (map (λ x. bit_xor x 0x5c) xs)
      ≡ map (λ x. bit_xor x 0x36) xs
inner_pad [] = refl
inner_pad (x ∷ xs) = ap₂ ◌∷◌ (bit_xor_assoc x 0x5c (bit_xor 0x5c 0x36)) (inner_pad xs)

one_write :
    (xs ys : List ℕ)
    → Sha256.write (Sha256.write Sha256.initialize xs) ys
      ≡ Sha256.write Sha256.initialize (xs ++ ys)
one_write xs ys = (write-write Sha256.initialize xs ys refl).0

-- A message in one piece, two or three.
digest_one : (key m : List ℕ) → digest (write (initialize key) m) ≡ hmac key m
unfolding digest write initialize
digest_one key m = rw (inner_pad (block_key key)) (simp one_write refl)

digest_two : (key x y : List ℕ) → digest (write (write (initialize key) x) y) ≡ hmac key (x ++ y)
unfolding digest write initialize
digest_two key x y = rw (inner_pad (block_key key)) (simp (one_write, append_assoc) refl)

digest_three :
    (key x y z : List ℕ)
    → digest (write (write (write (initialize key) x) y) z) ≡ hmac key (x ++ (y ++ z))
unfolding digest write initialize
digest_three key x y z = rw (inner_pad (block_key key)) (simp (one_write, append_assoc) refl)

-- HMAC of a message that is written in three pieces, with a key of any length, is that of the message
-- in one: the hash of the outer pad and the hash of the inner pad and the message.
pub digest_lem :
    (key x y z : List ℕ)
    → (digest (write (write (write (initialize key) x) y) z) ≡ hmac key (x ++ (y ++ z)))
      × (digest (write (initialize key) (x ++ (y ++ z))) ≡ hmac key (x ++ (y ++ z)))
digest_lem key x y z = (digest_three key x y z, digest_one key (x ++ (y ++ z)))

-- steps d to g of RFC 6979, 3.2
abbrev pub rng_spec : List ℕ → Rng
rng_spec key =
    let v0 = repeated 32 1 in
    let k1 = hmac (repeated 32 0) (v0 ++ ((0 ∷ []) ++ key)) in
    let v1 = hmac k1 v0 in
    let k2 = hmac k1 (v1 ++ ((1 ∷ []) ++ key)) in record { v = hmac k2 v1; k = k2; retry = false }

-- `rng_initialize` follows the steps d to g of RFC 6979, 3.2.
pub rng_initialize_lem : (key : List ℕ) → rng_initialize key ≡ rng_spec key
unfolding rng_initialize
rng_initialize_lem key = simp (digest_three, digest_one) refl

length-take_all : (n : ℕ) (xs : List ℕ) → n ≤ length xs → length (take n xs) ≡ n
length-take_all zero xs fits = refl
length-take_all (suc n) [] fits = absurd (omega arith)
length-take_all (suc n) (x ∷ xs) fits = ap suc (length-take_all n xs (omega arith))

length-digest : (hash : Hmac) → length (digest hash) ≡ 32
unfolding digest finalize
length-digest hash = refl

length-generate_loop :
    (fuel outlen : ℕ) (rng : Rng)
    → outlen ≤ fuel
    → length (generate_loop fuel outlen rng).0 ≡ outlen
unfolding generate_loop
length-generate_loop zero outlen rng enough = omega arith
length-generate_loop (suc fuel) zero rng enough = refl
length-generate_loop (suc fuel) (suc left) rng enough =
    let v = digest (write (initialize rng.k) rng.v) in
    let now = if leb (suc left) 32 then suc left else 32 in
    let l = length-digest (write (initialize rng.k) rng.v) in
    let b : (1 ≤ now) × (now ≤ suc left) × (now ≤ 32) = ground arith in
    let (least, most, room) = b in
    length-append (take now v) (generate_loop fuel (suc left - now) (record rng { v = v })).0
    ∙ ap₂ ◌+◌ (length-take_all now v (omega arith))
        (length-generate_loop fuel (suc left - now) (record rng { v = v }) (omega arith))
    ∙ omega arith

-- `generate` gives as many bytes as it is asked for, and marks the generator for a change of its key
-- before the next ones.
pub length-generate :
    (rng : Rng) (outlen : ℕ)
    → (length (generate rng outlen).0 ≡ outlen) × ((generate rng outlen).1.retry ≡ true)
unfolding generate
length-generate rng outlen = (length-generate_loop outlen outlen _ (omega arith), refl)
