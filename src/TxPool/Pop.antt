-- ===== src/TxPool/Pop.antt =====
-- Taking transactions out of the pool (`PopPendingTx`, `Pop`, `CleanExpiredTxs`).
use simple_standalone_versio.Base.{
  ℕ, ◌+◌, ◌-◌, ◌%◌, Bool, Option, none, some, List, [], ◌∷◌, leb, ◌&&◌, if◌then◌else◌, u64_mod,
  BytesMap,
}
use simple_standalone_versio.Types.{Address, Transaction}
use simple_standalone_versio.TxPool.SortedTxs
use simple_standalone_versio.TxPool.SortedTxs.{Block, flat}
use simple_standalone_versio.TxPool.Pool.{Pool, pending_of, set_pending}

-- the boxes after the first one was popped; an empty box leaves the list
abbrev pub keep_rest : Block → List Transaction → List Block → List Block
keep_rest blk [] rest = rest
keep_rest blk (tx ∷ left) rest = record blk { txs = tx ∷ left } ∷ rest

-- `PopPendingTx`
unfoldable pub pop_pending_tx : Address → Pool → Option Transaction × Pool
pop_pending_tx addr pool = elim (pending_of pool addr) [
  | [] ↦ (none, pool)
  | blk ∷ rest ↦ (
    (SortedTxs.pop blk.txs).0,
    set_pending pool addr (keep_rest blk (SortedTxs.pop blk.txs).1 rest),
  )
]

-- The loop of `Pop`. The order of a range over a Go map is open: `order` lists the addresses as the
-- loop meets them.
unfoldable pub pop : List Address → Pool → Option Transaction × Pool
pop [] pool = (none, pool)
pop (addr ∷ order) pool = elim (pending_of pool addr) [
  | [] ↦ pop order pool
  | _ ∷ _ ↦ elim (pop_pending_tx addr pool).0 [
    | some tx ↦ pop_pending_tx addr pool
    | none ↦ pop order (pop_pending_tx addr pool).1
  ]
]

abbrev pub expire_sec : ℕ
expire_sec = 600

-- `tx.Nonce >= minNonce && now-tx.Time <= expireSec`, the difference in uint64
unfoldable pub is_kept : ℕ → ℕ → Transaction → Bool
is_kept min_nonce now tx =
    leb min_nonce tx.nonce && leb ((now + u64_mod - tx.time) % u64_mod) expire_sec

unfoldable pub kept : ℕ → ℕ → List Transaction → List Transaction
kept min_nonce now [] = []
kept min_nonce now (tx ∷ txs) =
    let rest = kept min_nonce now txs in if is_kept min_nonce now tx then tx ∷ rest else rest

unfoldable pub clean_queues :
    (Address → ℕ) → ℕ → BytesMap (List Transaction) → BytesMap (List Transaction)
clean_queues min_nonce_of now [] = []
clean_queues min_nonce_of now ((addr, txs) ∷ queue) =
    (addr, kept (min_nonce_of addr) now txs) ∷ clean_queues min_nonce_of now queue

-- `CleanExpiredTxs`; a missing key of `minNonceMap` reads as 0
unfoldable pub clean_expired_txs : (Address → ℕ) → ℕ → Pool → Pool
clean_expired_txs min_nonce_of now pool = record pool {
  queue = clean_queues min_nonce_of now pool.queue;
}

abbrev pub head? : List Transaction → Option Transaction
head? [] = none
head? (tx ∷ txs) = some tx

abbrev pub tail : List Transaction → List Transaction
tail [] = []
tail (tx ∷ txs) = txs
