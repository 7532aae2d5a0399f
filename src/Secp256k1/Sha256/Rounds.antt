-- ===== src/Secp256k1/Sha256/Rounds.antt =====
-- The rounds of hash_impl.h against those of FIPS 180-4.
use simple_standalone_versio.Base.{
  ℕ, zero, suc, ◌+◌, ◌*◌, ◌%◌, ◌^◌, ◌<◌, ◌≡◌, refl, sym, ap, ap₂, ◌∙◌, List, [], ◌∷◌, ◌++◌, length,
  length-append, drop, arith,
}
use simple_standalone_versio.Secp256k1.Sha256.Choice.{ch_lem, maj_lem}
use simple_standalone_versio.Secp256k1.Sha256.Stream.{drop-append_within}
use simple_standalone_versio.Secp256k1.Sha256.{
  Words, round, rounds, next_word, word_at, constants, words_of, transform, initialize, ch, maj,
  sigma0, sigma1, big_sigma0, big_sigma1, add32,
}
use simple_standalone_versio.Secp256k1.Sha256.Fips.{
  lower_sigma0, lower_sigma1, upper_sigma0, upper_sigma1, choose, majority, item, schedule,
  schedule_word, round_step, steps, added, compress, block_words, round_constants, initial_hash,
}

constants_lem : constants ≡ round_constants
unfolding round_constants
constants_lem = refl

pub initialize_lem : initialize.s ≡ initial_hash
initialize_lem = refl

-- the eight variables are words
pub record AreWords (s : Words) : Type 0 where
  pub a_word : s.a < 2 ^ 32
  pub b_word : s.b < 2 ^ 32
  pub c_word : s.c < 2 ^ 32
  pub d_word : s.d < 2 ^ 32
  pub e_word : s.e < 2 ^ 32
  pub f_word : s.f < 2 ^ 32
  pub g_word : s.g < 2 ^ 32
  pub h_word : s.h < 2 ^ 32

words_eq :
    {s t : Words}
    → s.a ≡ t.a
    → s.b ≡ t.b
    → s.c ≡ t.c
    → s.d ≡ t.d
    → s.e ≡ t.e
    → s.f ≡ t.f
    → s.g ≡ t.g
    → s.h ≡ t.h
    → s ≡ t
words_eq a b c d e f g h =
    λ i. record { a = a i; b = b i; c = c i; d = d i; e = e i; f = f i; g = g i; h = h i }

round_lem : (k w : ℕ) (s : Words) → AreWords s → round k w s ≡ round_step k w s
unfolding round round_step
round_lem k w s v =
    let c = ch_lem s.e s.f s.g v.e_word v.f_word v.g_word in
    let m = maj_lem s.a s.b s.c in
    let t1 : add32 (add32 (add32 (add32 s.h (big_sigma1 s.e)) (ch s.e s.f s.g)) k) w
        ≡ (s.h + upper_sigma1 s.e + choose s.e s.f s.g + k + w) % 2 ^ 32 =
      omega (arith, c) in
    let t2 : add32 (big_sigma0 s.a) (maj s.a s.b s.c)
        ≡ (upper_sigma0 s.a + majority s.a s.b s.c) % 2 ^ 32 =
      omega (arith, m) in
    words_eq (ap₂ add32 t1 t2) refl refl refl (ap (add32 s.d) t1) refl refl refl

round_step-AreWords : (k w : ℕ) (s : Words) → AreWords s → AreWords (round_step k w s)
unfolding round_step
round_step-AreWords k w s v = record {
  a_word = omega arith;
  b_word = v.a_word;
  c_word = v.b_word;
  d_word = v.c_word;
  e_word = omega arith;
  f_word = v.e_word;
  g_word = v.f_word;
  h_word = v.g_word;
}

item-drop : (n i : ℕ) (ws : List ℕ) → word_at (drop n ws) i ≡ item ws (n + i)
item-drop zero i ws = ap (item ws) (omega arith)
item-drop (suc n) i [] = refl
item-drop (suc n) i (x ∷ ws) =
    item-drop n i ws ∙ ap (item (x ∷ ws)) {x = suc (n + i)} {y = suc n + i} (omega arith)

drop_one : (n : ℕ) (ws : List ℕ) → drop 1 (drop n ws) ≡ drop (suc n) ws
drop_one zero ws = refl
drop_one (suc n) [] = refl
drop_one (suc n) (x ∷ ws) = drop_one n ws

length-schedule : (n : ℕ) (m : List ℕ) → length (schedule n m) ≡ length m + n
length-schedule zero m = omega arith
length-schedule (suc n) m = length-append (schedule n m) _ ∙ omega (arith, length-schedule n m)

-- The sixteen words from the one in use on, and the next one.
window_lem :
    (n : ℕ) (m : List ℕ)
    → length m ≡ 16
    → drop 1 (drop n (schedule n m)) ++ next_word (drop n (schedule n m)) ∷ []
      ≡ drop (suc n) (schedule (suc n) m)
unfolding next_word
window_lem n m l =
    let w = schedule n m in
    let long = length-schedule n m in
    let next : next_word (drop n w)
        ≡ (lower_sigma1 (item w (n + 14))
            + item w (n + 9)
            + lower_sigma0 (item w (n + 1))
            + item w n)
          % 2 ^ 32 =
      omega (
        arith,
        ap sigma1 (item-drop n 14 w),
        item-drop n 9 w,
        ap sigma0 (item-drop n 1 w),
        item-drop n 0 w ∙ ap (item w) {x = n + 0} {y = n} (omega arith),
      ) in
    ap₂ (λ xs v. xs ++ v ∷ []) (drop_one n w) next
    ∙ sym (drop-append_within (suc n) w _ (omega (arith, long, l)))

rounds_lem :
    (ks : List ℕ) (n : ℕ) (m : List ℕ) (s : Words)
    → length m ≡ 16
    → AreWords s
    → (rounds ks (drop n (schedule n m)) s ≡ steps ks n m s) × AreWords (steps ks n m s)
unfolding rounds steps
rounds_lem [] n m s l v = (refl, v)
rounds_lem (k ∷ ks) n m s l v =
    let w : word_at (drop n (schedule n m)) 0 ≡ schedule_word m n =
      item-drop n 0 (schedule n m) ∙ ap (item (schedule n m)) (omega arith) in
    let (rest, done) =
      rounds_lem ks (suc n) m (round_step k (schedule_word m n) s) l
        (round_step-AreWords k (schedule_word m n) s v) in
    (
      ap₂ (rounds ks) (window_lem n m l)
            (ap (λ t. round k t s) w ∙ round_lem k (schedule_word m n) s v)
          ∙ rest,
      done,
    )

length-words_of : (n : ℕ) (xs : List ℕ) → length xs ≡ 4 * n → length (words_of xs) ≡ n
length-words_of zero [] e = refl
length-words_of zero (x ∷ xs) e = absurd (omega arith)
length-words_of (suc n) (x0 ∷ x1 ∷ x2 ∷ x3 ∷ xs) e = ap suc (length-words_of n xs (omega arith))
length-words_of (suc n) [] e = absurd (omega arith)
length-words_of (suc n) (x0 ∷ []) e = absurd (omega arith)
length-words_of (suc n) (x0 ∷ x1 ∷ []) e = absurd (omega arith)
length-words_of (suc n) (x0 ∷ x1 ∷ x2 ∷ []) e = absurd (omega arith)

words_of_lem : (n : ℕ) (xs : List ℕ) → length xs ≡ 4 * n → words_of xs ≡ block_words xs
words_of_lem zero [] e = refl
words_of_lem zero (x ∷ xs) e = absurd (omega arith)
words_of_lem (suc n) (x0 ∷ x1 ∷ x2 ∷ x3 ∷ xs) e =
    ap (◌∷◌ (x0 * 2 ^ 24 + x1 * 2 ^ 16 + x2 * 2 ^ 8 + x3)) (words_of_lem n xs (omega arith))
words_of_lem (suc n) [] e = absurd (omega arith)
words_of_lem (suc n) (x0 ∷ []) e = absurd (omega arith)
words_of_lem (suc n) (x0 ∷ x1 ∷ []) e = absurd (omega arith)
words_of_lem (suc n) (x0 ∷ x1 ∷ x2 ∷ []) e = absurd (omega arith)

added-AreWords : (r s : Words) → AreWords (added r s)
added-AreWords r s = record {
  a_word = omega arith;
  b_word = omega arith;
  c_word = omega arith;
  d_word = omega arith;
  e_word = omega arith;
  f_word = omega arith;
  g_word = omega arith;
  h_word = omega arith;
}

pub compress-AreWords : (s : Words) (block : List ℕ) → AreWords (compress s block)
unfolding compress
compress-AreWords s block = added-AreWords (steps round_constants 0 (block_words block) s) s

-- what `transform` does at its end
abbrev summed : Words → Words → Words
summed s r = record {
  a = add32 s.a r.a;
  b = add32 s.b r.b;
  c = add32 s.c r.c;
  d = add32 s.d r.d;
  e = add32 s.e r.e;
  f = add32 s.f r.f;
  g = add32 s.g r.g;
  h = add32 s.h r.h;
}

summed-added : (s r : Words) → summed s r ≡ added r s
summed-added s r =
    words_eq (omega arith) (omega arith) (omega arith) (omega arith) (omega arith) (omega arith)
      (omega arith) (omega arith)

transform-summed :
    (s : Words) (block : List ℕ)
    → transform s block ≡ summed s (rounds constants (words_of block) s)
unfolding transform
transform-summed s block = refl

compress-added :
    (s : Words) (block : List ℕ)
    → added (steps round_constants 0 (block_words block) s) s ≡ compress s block
unfolding compress
compress-added s block = refl

-- The transformation of a block of 64 bytes is what FIPS 180-4, 6.2.2 computes of it.
pub transform_lem :
    (s : Words) (block : List ℕ)
    → length block ≡ 64
    → AreWords s
    → transform s block ≡ compress s block
transform_lem s block l v =
    transform-summed s block
    ∙ ap (summed s) (
        (rounds_lem constants 0 (words_of block) s (length-words_of 16 block (omega arith)) v).0
        ∙ ap₂ (λ ks m. steps ks 0 m s) constants_lem (words_of_lem 16 block (omega arith)))
    ∙ summed-added s (steps round_constants 0 (block_words block) s)
    ∙ compress-added s block
