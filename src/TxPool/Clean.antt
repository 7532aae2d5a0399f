-- ===== src/TxPool/Clean.antt =====
-- `CleanExpiredTxs` filters every queue and keeps the invariant.
use mathlib.Core.Path.{subst}
use simple_standalone_versio.Base.{
  ℕ, ◌+◌, ◌-◌, ◌%◌, ◌^◌, ◌≤◌, ◌<◌, true, sym, arith, ◌≡◌, refl, List, [], ◌∷◌, All, BytesMap,
  bytes_eq, bytes_eq_iff, lookup, Bool-cases, inl, inr,
}
use simple_standalone_versio.Types.{Address, Transaction}
use simple_standalone_versio.TxPool.Pool.{Pool, or_empty, pending_of, queue_of}
use simple_standalone_versio.TxPool.Invariant.{IsValid}
use simple_standalone_versio.TxPool.Queue.{IsSorted}
use simple_standalone_versio.TxPool.Pop.{is_kept, kept, clean_queues, clean_expired_txs}

-- A transaction stays: its nonce is not too low, and at most 600 seconds went by from its time to now, where the
-- clock of 64 bits may have wrapped.
pub record Survives (min_nonce now : ℕ) (tx : Transaction) : Type 0 where
  pub nonce_fits : min_nonce ≤ tx.nonce
  pub age : ℕ
  pub young : age ≤ 600
  pub passed : (tx.time + age) % 2 ^ 64 ≡ now

-- what is left of a queue, in order
pub data IsCleaned (min_nonce now : ℕ) : List Transaction → List Transaction → Type 0 where
  empty : IsCleaned min_nonce now [] []
  stays :
      {tx : Transaction} {txs rest : List Transaction}
      → Survives min_nonce now tx
      → IsCleaned min_nonce now txs rest
      → IsCleaned min_nonce now (tx ∷ txs) (tx ∷ rest)
  goes :
      {tx : Transaction} {txs rest : List Transaction}
      → ¬ Survives min_nonce now tx
      → IsCleaned min_nonce now txs rest
      → IsCleaned min_nonce now (tx ∷ txs) rest

is_kept-Survives :
    (min_nonce now : ℕ) (tx : Transaction)
    → now < 2 ^ 64
    → tx.time < 2 ^ 64
    → is_kept min_nonce now tx ≡ true
    → Survives min_nonce now tx
unfolding is_kept
is_kept-Survives min_nonce now tx n t e =
    let both : (min_nonce ≤ tx.nonce) × ((now + 2 ^ 64 - tx.time) % 2 ^ 64 ≤ 600) = ground arith in
    record {
      nonce_fits = both.0;
      age = (now + 2 ^ 64 - tx.time) % 2 ^ 64;
      young = both.1;
      passed = omega arith;
    }

Survives-is_kept :
    (min_nonce now : ℕ) (tx : Transaction)
    → now < 2 ^ 64
    → tx.time < 2 ^ 64
    → Survives min_nonce now tx
    → is_kept min_nonce now tx ≡ true
unfolding is_kept
Survives-is_kept min_nonce now tx n t s =
    let fits = s.nonce_fits in
    let same : (now + 2 ^ 64 - tx.time) % 2 ^ 64 ≡ s.age = omega (arith, s.passed, s.young) in
    let young : (now + 2 ^ 64 - tx.time) % 2 ^ 64 ≤ 600 = omega (arith, same, s.young) in
    ground arith

kept-IsCleaned :
    (min_nonce now : ℕ) (txs : List Transaction)
    → now < 2 ^ 64
    → All (λ t. t.time < 2 ^ 64) txs
    → IsCleaned min_nonce now txs (kept min_nonce now txs)
unfolding kept
kept-IsCleaned min_nonce now [] n h = empty
kept-IsCleaned min_nonce now (t ∷ txs) n h =
    let rest = kept-IsCleaned min_nonce now txs n h.1 in
    elim (Bool-cases (is_kept min_nonce now t)) [
      | inl e ↦ rw e (stays (is_kept-Survives min_nonce now t n h.0 e) rest)
      | inr e ↦ rw e (goes (λ s. cc (Survives-is_kept min_nonce now t n h.0 s, e)) rest)
    ]

module _ (min_nonce_of : Address → ℕ) (now : ℕ) where
  lookup-clean_queues :
      (a : Address) (m : BytesMap (List Transaction))
      → or_empty (lookup a (clean_queues min_nonce_of now m))
        ≡ kept (min_nonce_of a) now (or_empty (lookup a m))
  unfolding lookup clean_queues kept
  lookup-clean_queues a [] = refl
  lookup-clean_queues a ((b, txs) ∷ m) = elim (Bool-cases (bytes_eq b a)) [
    | inl e ↦ rw (e, (bytes_eq_iff b a).0 e) refl
    | inr e ↦ rw e (lookup-clean_queues a m)
  ]

  clean_filters :
      (pool : Pool) (a : Address)
      → (queue_of (clean_expired_txs min_nonce_of now pool) a
          ≡ kept (min_nonce_of a) now (queue_of pool a))
        × (pending_of (clean_expired_txs min_nonce_of now pool) a ≡ pending_of pool a)
  unfolding clean_expired_txs queue_of pending_of
  clean_filters pool a = (lookup-clean_queues a pool.queue, refl)

  -- Every queue keeps, in order, exactly the transactions whose nonce is at least the given one of its address
  -- and from whose time at most 600 seconds went by, on a clock of 64 bits that may wrap; the pending
  -- transactions stay. The time now and those of the queue are below 2 ^ 64.
  pub clean_expired_txs_lem :
      (pool : Pool) (a : Address)
      → now < 2 ^ 64
      → All (λ t. t.time < 2 ^ 64) (queue_of pool a)
      → IsCleaned
          (min_nonce_of a)
          now
          (queue_of pool a)
          (queue_of (clean_expired_txs min_nonce_of now pool) a)
        × (pending_of (clean_expired_txs min_nonce_of now pool) a ≡ pending_of pool a)
  clean_expired_txs_lem pool a n h =
      let (q, p) = clean_filters pool a in
      (
        subst (IsCleaned (min_nonce_of a) now (queue_of pool a)) (sym q)
            (kept-IsCleaned (min_nonce_of a) now (queue_of pool a) n h),
        p,
      )

  All-kept :
      (P : Transaction → Type 0) (n : ℕ) (txs : List Transaction)
      → All P txs
      → All P (kept n now txs)
  unfolding kept
  All-kept P n [] h = tt
  All-kept P n (t ∷ txs) h = elim (Bool-cases (is_kept n now t)) [
    | inl e ↦ rw e (h.0, All-kept P n txs h.1)
    | inr e ↦ rw e (All-kept P n txs h.1)
  ]

  IsSorted-kept : (n : ℕ) (txs : List Transaction) → IsSorted txs → IsSorted (kept n now txs)
  unfolding kept
  IsSorted-kept n [] h = tt
  IsSorted-kept n (t ∷ txs) h = elim (Bool-cases (is_kept n now t)) [
    | inl e ↦ rw e (All-kept (λ u. t.nonce < u.nonce) n txs h.0, IsSorted-kept n txs h.1)
    | inr e ↦ rw e (IsSorted-kept n txs h.1)
  ]

  -- Cleaning keeps the invariant.
  pub clean_expired_txs-IsValid :
      (pool : Pool) → IsValid pool → IsValid (clean_expired_txs min_nonce_of now pool)
  clean_expired_txs-IsValid pool v = record {
    valid_at = λ a.
        let (q, p) = clean_filters pool a in
        let own = v.valid_at a in
        record {
          full = rw p own.full;
          consecutive = rw p own.consecutive;
          sorted = rw q (IsSorted-kept (min_nonce_of a) (queue_of pool a) own.sorted);
        };
  }
