-- ===== src/Secp256k1/Sha256/Stream.antt =====
-- Writing in pieces: the state after a write is that of all the bytes taken in chunks of 64.
use simple_standalone_versio.Base.{
  ℕ, zero, suc, ◌+◌, ◌-◌, ◌*◌, ◌%◌, ◌<◌, ◌≤◌, ◌≡◌, inl, inr, refl, sym, ap, ap₂, ◌∙◌, true,
  Bool-cases, leb, if◌then◌else◌, List, [], ◌∷◌, ◌++◌, append_assoc, add64, length, length-append,
  take, drop, arith,
}
use simple_standalone_versio.Secp256k1.Sha256.{Words, Sha256, transform, absorb, write}

-- the message in chunks of 64 bytes, and what remains of it
unfoldable pub chunks : ℕ → Words → List ℕ → Words × List ℕ
chunks zero s xs = (s, xs)
chunks (suc fuel) s xs =
    let more = chunks fuel (transform s (take 64 xs)) (drop 64 xs) in
    if leb 64 (length xs) then more else (s, xs)

take-append :
    (n : ℕ) (xs ys : List ℕ) → length xs ≤ n → take n (xs ++ ys) ≡ xs ++ take (n - length xs) ys
take-append n [] ys fits = ap (λ k. take k ys) {x = n} {y = n - 0} (omega arith)
take-append zero (x ∷ xs) ys fits = absurd (omega arith)
take-append (suc n) (x ∷ xs) ys fits = ap (◌∷◌ x) (
    take-append n xs ys (omega arith)
    ∙ ap (λ k. xs ++ take k ys) {x = n - length xs} {y = suc n - suc (length xs)} (omega arith))

drop-append : (n : ℕ) (xs ys : List ℕ) → length xs ≤ n → drop n (xs ++ ys) ≡ drop (n - length xs) ys
drop-append n [] ys fits = ap (λ k. drop k ys) {x = n} {y = n - 0} (omega arith)
drop-append zero (x ∷ xs) ys fits = absurd (omega arith)
drop-append (suc n) (x ∷ xs) ys fits =
    drop-append n xs ys (omega arith)
    ∙ ap (λ k. drop k ys) {x = n - length xs} {y = suc n - suc (length xs)} (omega arith)

pub take-append_within : (n : ℕ) (xs ys : List ℕ) → n ≤ length xs → take n (xs ++ ys) ≡ take n xs
take-append_within zero xs ys fits = refl
take-append_within (suc n) [] ys fits = absurd (omega arith)
take-append_within (suc n) (x ∷ xs) ys fits = ap (◌∷◌ x) (take-append_within n xs ys (omega arith))

pub drop-append_within :
    (n : ℕ) (xs ys : List ℕ) → n ≤ length xs → drop n (xs ++ ys) ≡ drop n xs ++ ys
drop-append_within zero xs ys fits = refl
drop-append_within (suc n) [] ys fits = absurd (omega arith)
drop-append_within (suc n) (x ∷ xs) ys fits = drop-append_within n xs ys (omega arith)

pub length-drop : (n : ℕ) (xs : List ℕ) → length (drop n xs) ≡ length xs - n
length-drop zero xs = omega arith
length-drop (suc n) [] = omega arith
length-drop (suc n) (x ∷ xs) = length-drop n xs ∙ omega arith

-- The loop of `write` takes the buffer and the input as one message.
absorb-chunks :
    (fuel : ℕ) (s : Words) (buf input : List ℕ)
    → length buf ≤ 64
    → absorb fuel (length buf) s buf input ≡ chunks fuel s (buf ++ input)
unfolding absorb chunks
absorb-chunks zero s buf input fits = refl
absorb-chunks (suc fuel) s buf input fits =
    rw
      (
        take-append 64 buf input fits,
        drop-append 64 buf input fits,
        length-append buf input,
        absorb-chunks fuel (transform s (buf ++ take (64 - length buf) input)) []
            (drop (64 - length buf) input) (omega arith),
      )
      refl

pub chunks_short :
    (fuel : ℕ) (s : Words) (xs : List ℕ) → length xs < 64 → chunks fuel s xs ≡ (s, xs)
unfolding chunks
chunks_short zero s xs short = refl
chunks_short (suc fuel) s xs short = ground arith

-- Fuel for the chunks that are there makes no difference past that.
chunks_fuel :
    (f g : ℕ) (s : Words) (xs : List ℕ)
    → length xs < 64 * suc f
    → length xs < 64 * suc g
    → chunks f s xs ≡ chunks g s xs
unfolding chunks
chunks_fuel zero g s xs p q = sym (chunks_short g s xs (omega arith))
chunks_fuel (suc f) zero s xs p q = chunks_short (suc f) s xs (omega arith)
chunks_fuel (suc f) (suc g) s xs p q = elim (Bool-cases (leb 64 (length xs))) [
  | inl e ↦
      let l = length-drop 64 xs in
      let long : 64 ≤ length xs = ground arith in
      rw e (chunks_fuel f g (transform s (take 64 xs)) (drop 64 xs) (omega arith) (omega arith))
  | inr e ↦ rw e refl
]

-- A message in two pieces.
chunks-append :
    (f g h : ℕ) (s : Words) (xs ys : List ℕ)
    → length xs ≤ f
    → length xs + length ys ≤ g
    → length xs + length ys ≤ h
    → chunks h s (xs ++ ys) ≡ chunks g (chunks f s xs).0 ((chunks f s xs).1 ++ ys)
unfolding chunks
chunks-append zero g h s xs ys p q r =
    chunks_fuel h g s (xs ++ ys) (omega (arith, length-append xs ys))
      (omega (arith, length-append xs ys))
chunks-append (suc f) g zero s (x ∷ xs) ys p q r = absurd (omega arith)
chunks-append (suc f) g zero s [] ys p q r = chunks_fuel zero g s ys (omega arith) (omega arith)
chunks-append (suc f) g (suc h) s xs ys p q r =
    let l = length-append xs ys in
    elim (Bool-cases (leb 64 (length xs))) [
      | inl e ↦
          let long : 64 ≤ length xs = ground arith in
          let longer : leb 64 (length (xs ++ ys)) ≡ true = ground arith in
          let d = length-drop 64 xs in
          rw (e, longer, take-append_within 64 xs ys long, drop-append_within 64 xs ys long)
            (chunks-append f g h (transform s (take 64 xs)) (drop 64 xs) ys (omega arith)
              (omega arith) (omega arith))
      | inr e ↦ rw e (chunks_fuel (suc h) g s (xs ++ ys) (omega arith) (omega arith))
    ]

-- The remainder is shorter than a chunk.
chunks-length :
    (f : ℕ) (s : Words) (xs : List ℕ) → length xs ≤ f → length (chunks f s xs).1 ≡ length xs % 64
unfolding chunks
chunks-length zero s [] p = refl
chunks-length zero s (x ∷ xs) p = absurd (omega arith)
chunks-length (suc f) s xs p = elim (Bool-cases (leb 64 (length xs))) [
  | inl e ↦
      let long : 64 ≤ length xs = ground arith in
      let d = length-drop 64 xs in
      rw e (chunks-length f (transform s (take 64 xs)) (drop 64 xs) (omega arith) ∙ omega arith)
  | inr e ↦ rw e (ground arith)
]

-- The buffer holds as many bytes as the count says.
abbrev pub IsValid : Sha256 → Type 0
IsValid hash = length hash.buf ≡ hash.bytes % 64

-- the fuel that `write` gives, as the whole message's
write-chunks :
    (hash : Sha256) (input : List ℕ)
    → IsValid hash
    → absorb (suc (length input)) (hash.bytes % 64) hash.s hash.buf input
      ≡ chunks (length hash.buf + length input) hash.s (hash.buf ++ input)
write-chunks hash input valid =
    ap (λ n. absorb (suc (length input)) n hash.s hash.buf input) (sym valid)
    ∙ absorb-chunks (suc (length input)) hash.s hash.buf input (omega arith)
    ∙ chunks_fuel (suc (length input)) (length hash.buf + length input) hash.s (hash.buf ++ input)
        (omega (arith, length-append hash.buf input)) (omega (arith, length-append hash.buf input))

-- `initialize` makes a valid state, and `write` keeps it valid.
write-IsValid : (hash : Sha256) (input : List ℕ) → IsValid hash → IsValid (write hash input)
unfolding write
write-IsValid hash input valid = rw (write-chunks hash input valid) (
    chunks-length (length hash.buf + length input) hash.s (hash.buf ++ input)
      (omega (arith, length-append hash.buf input))
    ∙ omega (arith, length-append hash.buf input))

abbrev pub stored : Words × List ℕ → ℕ → Sha256
stored p bytes = record { s = p.0; buf = p.1; bytes = bytes }

pub write-stored :
    (hash : Sha256) (input : List ℕ) (fuel : ℕ)
    → IsValid hash
    → length hash.buf + length input ≤ fuel
    → write hash input
      ≡ stored (chunks fuel hash.s (hash.buf ++ input)) (add64 hash.bytes (length input))
unfolding write
write-stored hash input fuel valid enough =
    let l = length-append hash.buf input in
    ap (λ p. stored p (add64 hash.bytes (length input)))
      (write-chunks hash input valid
        ∙ chunks_fuel _ fuel hash.s (hash.buf ++ input) (omega arith) (omega arith))

-- Two writes are one write of all the bytes, on a valid state, and a write keeps the state valid.
pub write-write :
    (hash : Sha256) (xs ys : List ℕ)
    → IsValid hash
    → (write (write hash xs) ys ≡ write hash (xs ++ ys)) × IsValid (write hash xs)
write-write hash xs ys valid =
    let kept = write-IsValid hash xs valid in
    let g : ℕ = length hash.buf + length xs + length ys in
    let p = chunks g hash.s (hash.buf ++ xs) in
    let l = length-append hash.buf xs in
    let m = length-append xs ys in
    let e : write hash xs ≡ stored p (add64 hash.bytes (length xs)) =
      write-stored hash xs g valid (omega arith) in
    let b : length p.1 ≡ (length hash.buf + length xs) % 64 =
      chunks-length g hash.s (hash.buf ++ xs) (omega arith) ∙ omega arith in
    let next = stored p (add64 hash.bytes (length xs)) in
    let joined : chunks g hash.s (hash.buf ++ (xs ++ ys)) ≡ chunks g p.0 (p.1 ++ ys) =
      ap (chunks g hash.s) (sym (append_assoc hash.buf xs ys))
      ∙ chunks-append g g g hash.s (hash.buf ++ xs) ys (omega arith) (omega arith) (omega arith) in
    (
      ap (λ w. write w ys) e
          ∙ write-stored next ys g (b ∙ omega arith) (omega arith)
          ∙ ap₂ stored (sym joined) (omega arith)
          ∙ sym (write-stored hash (xs ++ ys) g valid (omega arith)),
      kept,
    )
