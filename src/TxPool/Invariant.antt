-- ===== src/TxPool/Invariant.antt =====
-- The pool's invariant: full boxes, consecutive pending nonces and a sorted queue.
use mathlib.Core.List.{map-append}
use mathlib.Core.Option
use simple_standalone_versio.Base.{
  ℕ, ◌≡◌, refl, true, Option, none, some, List, [], ◌∷◌, ◌++◌, ◌==◌, ltb, ==_iff, last, add64,
  arith, bytes_eq, bytes_eq_iff, Bool-cases, Option-cases, inl, inr,
}
use simple_standalone_versio.Types.{Address, Transaction}
use simple_standalone_versio.TxPool.SortedTxs.{Block, flat, replace, replace_in_blocks, may_replace}
use simple_standalone_versio.TxPool.Pool.{Pool, pending_of, queue_of, new_tx_at}
use simple_standalone_versio.TxPool.View.{IsFull, end_nonce}
use simple_standalone_versio.TxPool.Promote.{follows, promote_spec}
use simple_standalone_versio.TxPool.Queue.{nonce_key, nonces, IsSorted, enqueue-IsSorted}
use simple_standalone_versio.TxPool.NewTx.{new_tx_spec, new_tx_at-Shows}

-- each nonce is the one before it plus one, in uint64
abbrev pub IsConsecutive : List ℕ → Type 0
IsConsecutive [] = Unit
IsConsecutive (n ∷ []) = Unit
IsConsecutive (n ∷ m ∷ ns) = (m ≡ add64 n 1) × IsConsecutive (m ∷ ns)

-- `n` may stand behind a list that ends with this nonce
abbrev Continues : Option ℕ → ℕ → Type 0
Continues none n = Unit
Continues (some m) n = n ≡ add64 m 1

IsConsecutive-append_one :
    (ns : List ℕ) (n : ℕ) → IsConsecutive ns → Continues (last ns) n → IsConsecutive (ns ++ n ∷ [])
IsConsecutive-append_one [] n h k = tt
IsConsecutive-append_one (m ∷ []) n h k = (k, tt)
IsConsecutive-append_one (m ∷ m' ∷ ns) n h k = (h.0, IsConsecutive-append_one (m' ∷ ns) n h.1 k)

last-nonces : (txs : List Transaction) → last (nonces txs) ≡ end_nonce txs
last-nonces [] = refl
last-nonces (t ∷ []) = refl
last-nonces (t ∷ u ∷ txs) = last-nonces (u ∷ txs)

-- the pending transactions stay consecutive when one joins them that continues them
joined :
    (txs : List Transaction) (tx : Transaction)
    → IsConsecutive (nonces txs)
    → Continues (end_nonce txs) tx.nonce
    → IsConsecutive (nonces (txs ++ tx ∷ []))
joined txs tx h k =
    rw (map-append nonce_key txs (tx ∷ []))
      (IsConsecutive-append_one (nonces txs) tx.nonce h (rw (last-nonces txs) k))

follows-Continues :
    (pending : List Transaction) (tx : Transaction)
    → follows pending tx ≡ true
    → Continues (end_nonce pending) tx.nonce
unfolding follows
follows-Continues pending tx e = elim (Option-cases (end_nonce pending)) [
  | inl n ↦ rw n tt
  | inr (m, n) ↦ rw n ((==_iff _ _).0 (rw (n, follows) at e))
]

promote_spec-IsConsecutive :
    (pending queue : List Transaction)
    → IsConsecutive (nonces pending)
    → IsConsecutive (nonces (promote_spec pending queue).0)
unfolding promote_spec
promote_spec-IsConsecutive pending [] h = h
promote_spec-IsConsecutive pending (tx ∷ queue) h = elim (Bool-cases (follows pending tx)) [
  | inl e ↦ rw e (
      promote_spec-IsConsecutive (pending ++ tx ∷ []) queue
        (joined pending tx h (follows-Continues pending tx e)))
  | inr e ↦ rw e h
]

promote_spec-IsSorted :
    (pending queue : List Transaction) → IsSorted queue → IsSorted (promote_spec pending queue).1
unfolding promote_spec
promote_spec-IsSorted pending [] h = tt
promote_spec-IsSorted pending (tx ∷ queue) h = elim (Bool-cases (follows pending tx)) [
  | inl e ↦ rw e (promote_spec-IsSorted (pending ++ tx ∷ []) queue h.1)
  | inr e ↦ rw e h
]

nonces-replace :
    (sorted : List Transaction) (tx : Transaction) → nonces (replace sorted tx) ≡ nonces sorted
unfolding replace
nonces-replace [] tx = refl
nonces-replace (old ∷ sorted) tx = ground (arith, nonces-replace sorted tx)

-- Replacement keeps every nonce in its place.
pub nonces-replace_in_blocks :
    (blks : List Block) (tx : Transaction)
    → nonces (flat (replace_in_blocks blks tx)) ≡ nonces (flat blks)
unfolding replace_in_blocks flat
nonces-replace_in_blocks [] tx = refl
nonces-replace_in_blocks (b ∷ blks) tx = elim (Bool-cases (may_replace b tx)) [
  | inl e ↦ rw e (simp (map-append, nonces-replace))
  | inr e ↦ rw e (simp (map-append, nonces-replace_in_blocks blks tx))
]

next-Continues : (o : Option ℕ) (n m : ℕ) → m ≡ add64 (Option.get_or o n) 1 → Continues o m
next-Continues none n m e = tt
next-Continues (some k) n m e = e

new_tx_spec-IsConsecutive :
    (n : ℕ) (tx : Transaction) (blks : List Block) (queue : List Transaction)
    → IsConsecutive (nonces (flat blks))
    → IsConsecutive (nonces (new_tx_spec n tx blks queue).0)
unfolding new_tx_spec
new_tx_spec-IsConsecutive n tx blks queue h =
    let next : ℕ = add64 (Option.get_or (end_nonce (flat blks)) n) 1 in
    elim (Bool-cases (ltb tx.nonce n)) [
      | inl low ↦ rw low h
      | inr fresh ↦ elim (Bool-cases (ltb next tx.nonce)) [
        | inl gap ↦ rw (fresh, gap) h
        | inr no_gap ↦ elim (Bool-cases (tx.nonce == next)) [
          | inl e ↦
              rw (fresh, no_gap, e)
                (promote_spec-IsConsecutive (flat blks ++ tx ∷ []) queue (
                  joined (flat blks) tx h
                    (next-Continues (end_nonce (flat blks)) n tx.nonce ((==_iff _ _).0 e))))
          | inr old ↦ rw (fresh, no_gap, old) (rw (nonces-replace_in_blocks blks tx) h)
        ]
      ]
    ]

new_tx_spec-IsSorted :
    (n : ℕ) (tx : Transaction) (blks : List Block) (queue : List Transaction)
    → IsSorted queue
    → IsSorted (new_tx_spec n tx blks queue).1
unfolding new_tx_spec
new_tx_spec-IsSorted n tx blks queue h =
    let next : ℕ = add64 (Option.get_or (end_nonce (flat blks)) n) 1 in
    elim (Bool-cases (ltb tx.nonce n)) [
      | inl low ↦ rw low h
      | inr fresh ↦ elim (Bool-cases (ltb next tx.nonce)) [
        | inl gap ↦ rw (fresh, gap) (enqueue-IsSorted queue tx h)
        | inr no_gap ↦ elim (Bool-cases (tx.nonce == next)) [
          | inl e ↦ rw (fresh, no_gap, e) (promote_spec-IsSorted (flat blks ++ tx ∷ []) queue h)
          | inr old ↦ rw (fresh, no_gap, old) h
        ]
      ]
    ]

-- what holds of the boxes and the queue of each address
pub record IsValidAt (pool : Pool) (addr : Address) : Type 0 where
  pub full : IsFull (pending_of pool addr)
  pub consecutive : IsConsecutive (nonces (flat (pending_of pool addr)))
  pub sorted : IsSorted (queue_of pool addr)

pub record IsValid (pool : Pool) : Type 0 where
  pub valid_at : (addr : Address) → IsValidAt pool addr

-- `NewTx` of any transaction keeps the invariant, and it always returns.
pub new_tx_at-IsValid :
    (addr : Address) (account_nonce now : ℕ) (tx : Transaction) (pool : Pool)
    → IsValid pool
    → (after : Pool) × (new_tx_at addr account_nonce now tx pool ≡ some after) × IsValid after
new_tx_at-IsValid addr account_nonce now tx pool v =
    let own = v.valid_at addr in
    let (after, e, shows) = new_tx_at-Shows addr account_nonce now tx pool own.full in
    (
      after,
      e,
      record {
        valid_at = λ b. elim (Bool-cases (bytes_eq addr b)) [
          | inl same ↦ rw (← (bytes_eq_iff addr b).0 same) (record {
            full = shows.full;
            consecutive = rw shows.shown_pending (
                new_tx_spec-IsConsecutive account_nonce (record tx { time = now })
                  (pending_of pool addr) (queue_of pool addr) own.consecutive);
            sorted = rw shows.shown_queue (
                new_tx_spec-IsSorted account_nonce (record tx { time = now }) (pending_of pool addr)
                  (queue_of pool addr) own.sorted);
          })
          | inr other ↦
              let there = v.valid_at b in
              record {
                full = rw (shows.other_pending b other) there.full;
                consecutive = rw (shows.other_pending b other) there.consecutive;
                sorted = rw (shows.other_queue b other) there.sorted;
              }
        ];
      },
    )
