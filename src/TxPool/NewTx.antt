-- ===== src/TxPool/NewTx.antt =====
-- `NewTx` against a specification over the view, and the pool's invariant.
use simple_standalone_versio.Base.{
  ℕ, ◌+◌, ◌≡◌, ◌≢◌, refl, ap, ◌∙◌, false, none, some, List, [], ◌∷◌, ◌++◌, ◌==◌, ltb, if◌then◌else◌,
  length, bytes_eq, bytes_eq_refl, bytes_eq_iff, lookup, add64, arith, Bool-cases, Option-cases,
  inl, inr,
}
use mathlib.Core.Option
use simple_standalone_versio.Types.{Address, Transaction}
use simple_standalone_versio.TxPool.SortedTxs.{Block, flat, replace, may_replace, replace_in_blocks}
use simple_standalone_versio.TxPool.Pool.{
  Pool, or_empty, pending_of, queue_of, place, push_pending_tx, add_queue, enqueue,
  replace_pending_tx, base_nonce, new_tx_at,
}
use simple_standalone_versio.TxPool.View.{
  IsFull, end_nonce, placed, pending_of-place, queue_of-place, queue_of-set_queue,
  pending_of-set_pending, flat-placed, IsFull-placed, last_block_nonce-flat,
}
use simple_standalone_versio.TxPool.Promote.{promote_spec, promote_lem}

-- How a pool comes from another by work on one address, in terms of what the address shows.
pub record Shows (addr : Address) (before after : Pool) (pending queue : List Transaction)
    : Type 0 where
  pub full : IsFull (pending_of after addr)
  pub shown_pending : flat (pending_of after addr) ≡ pending
  pub shown_queue : queue_of after addr ≡ queue
  pub other_pending :
      (b : Address) → bytes_eq addr b ≡ false → pending_of after b ≡ pending_of before b
  pub other_queue : (b : Address) → bytes_eq addr b ≡ false → queue_of after b ≡ queue_of before b

-- `pushPendingTx` returns: the transaction joins the end of the pending ones, the run of the queue
-- that follows it is promoted, and no other address changes.
pub push_pending_tx-Shows :
    (addr : Address) (tx : Transaction) (pool : Pool)
    → IsFull (pending_of pool addr)
    → (after : Pool) × (push_pending_tx addr tx pool ≡ some after)
      × Shows addr pool after
          (promote_spec (flat (pending_of pool addr) ++ tx ∷ []) (queue_of pool addr)).0
          (promote_spec (flat (pending_of pool addr) ++ tx ∷ []) (queue_of pool addr)).1
unfolding push_pending_tx
push_pending_tx-Shows addr tx pool full =
    let placed_pool = place addr tx pool in
    let blks : pending_of placed_pool addr ≡ placed (pending_of pool addr) tx pool.next_id =
      rw (pending_of-place addr addr tx pool, bytes_eq_refl) refl in
    let q : queue_of placed_pool addr ≡ queue_of pool addr = queue_of-place addr addr tx pool in
    let flat_eq : flat (pending_of placed_pool addr) ≡ flat (pending_of pool addr) ++ tx ∷ [] =
      rw blks (flat-placed (pending_of pool addr) tx pool.next_id) in
    let (after, e, r) =
      promote_lem addr (length (queue_of pool addr) + 1) placed_pool
        (rw blks (IsFull-placed (pending_of pool addr) tx pool.next_id full))
        (omega (arith, ap length q)) in
    (
      after,
      e,
      record {
        full = r.full;
        shown_pending = r.pending ∙ rw (flat_eq, q) refl;
        shown_queue = r.queue ∙ rw (flat_eq, q) refl;
        other_pending = λ b h. r.other_pending b h ∙ rw (pending_of-place addr b tx pool, h) refl;
        other_queue = λ b h. r.other_queue b h ∙ queue_of-place addr b tx pool;
      },
    )

add_queue-Shows :
    (addr : Address) (tx : Transaction) (pool : Pool)
    → IsFull (pending_of pool addr)
    → Shows addr pool
        (add_queue addr tx pool)
        (flat (pending_of pool addr))
        (enqueue (queue_of pool addr) tx)
unfolding add_queue pending_of
add_queue-Shows addr tx pool full = record {
  full = full;
  shown_pending = refl;
  shown_queue = rw (queue_of-set_queue pool addr addr, bytes_eq_refl) refl;
  other_pending = λ b h. refl;
  other_queue = λ b h. rw (queue_of-set_queue pool addr b, h) refl;
}

replace_ne_nil :
    (sorted : List Transaction) (tx : Transaction) → sorted ≢ [] → replace sorted tx ≢ []
unfolding replace
replace_ne_nil [] tx h = h
replace_ne_nil (old ∷ sorted) tx h = ground arith

IsFull-replace_in_blocks :
    (blks : List Block) (tx : Transaction) → IsFull blks → IsFull (replace_in_blocks blks tx)
unfolding replace_in_blocks
IsFull-replace_in_blocks [] tx full = tt
IsFull-replace_in_blocks (b ∷ blks) tx full = elim (Bool-cases (may_replace b tx)) [
  | inl e ↦ rw e (replace_ne_nil b.txs tx full.0, full.1)
  | inr e ↦ rw e (full.0, IsFull-replace_in_blocks blks tx full.1)
]

pending_of-none :
    (addr : Address) (pool : Pool) → lookup addr pool.pendings ≡ none → pending_of pool addr ≡ []
unfolding pending_of
pending_of-none addr pool e = ap or_empty e

pending_of-some :
    (addr : Address) (pool : Pool) (blks : List Block)
    → lookup addr pool.pendings ≡ some blks
    → pending_of pool addr ≡ blks
unfolding pending_of
pending_of-some addr pool blks e = ap or_empty e

pub pending_of-replace_pending_tx :
    (addr b : Address) (tx : Transaction) (pool : Pool)
    → pending_of (replace_pending_tx addr tx pool) b
      ≡ (if bytes_eq addr b then replace_in_blocks (pending_of pool addr) tx else pending_of pool b)
unfolding replace_pending_tx
pending_of-replace_pending_tx addr b tx pool = elim (Option-cases (lookup addr pool.pendings)) [
  | inl e ↦
      let nothing = pending_of-none addr pool e in
      rw (e, replace_pending_tx)
        (elim (Bool-cases (bytes_eq addr b)) [
          | inl same ↦
              rw same
                (rw (← (bytes_eq_iff addr b).0 same, nothing) (unfold replace_in_blocks in refl))
          | inr other ↦ rw other refl
        ])
  | inr (blks, e) ↦
      rw (e, replace_pending_tx)
        (rw (pending_of-some addr pool blks e)
          (pending_of-set_pending pool addr b (replace_in_blocks blks tx)))
]

queue_of-replace_pending_tx :
    (addr b : Address) (tx : Transaction) (pool : Pool)
    → queue_of (replace_pending_tx addr tx pool) b ≡ queue_of pool b
unfolding replace_pending_tx queue_of
queue_of-replace_pending_tx addr b tx pool = ground arith

replace_pending_tx-Shows :
    (addr : Address) (tx : Transaction) (pool : Pool)
    → IsFull (pending_of pool addr)
    → Shows addr pool
        (replace_pending_tx addr tx pool)
        (flat (replace_in_blocks (pending_of pool addr) tx))
        (queue_of pool addr)
replace_pending_tx-Shows addr tx pool full = record {
  full =
      rw (pending_of-replace_pending_tx addr addr tx pool, bytes_eq_refl)
        (IsFull-replace_in_blocks (pending_of pool addr) tx full);
  shown_pending = rw (pending_of-replace_pending_tx addr addr tx pool, bytes_eq_refl) refl;
  shown_queue = queue_of-replace_pending_tx addr addr tx pool;
  other_pending = λ b h. rw (pending_of-replace_pending_tx addr b tx pool, h) refl;
  other_queue = λ b h. queue_of-replace_pending_tx addr b tx pool;
}

unchanged :
    {addr : Address} {pool : Pool}
    → IsFull (pending_of pool addr)
    → Shows addr pool pool (flat (pending_of pool addr)) (queue_of pool addr)
unchanged full = record {
  full = full;
  shown_pending = refl;
  shown_queue = refl;
  other_pending = λ b h. refl;
  other_queue = λ b h. refl;
}

-- What `NewTx` should do to the pending transactions and the queue of one address. Replacement goes
-- by boxes, so the boxes are given.
unfoldable pub new_tx_spec :
    ℕ → Transaction → List Block → List Transaction → List Transaction × List Transaction
new_tx_spec account_nonce tx blks queue =
    if ltb tx.nonce account_nonce
    then (flat blks, queue)
    else (let next : ℕ = add64 (Option.get_or (end_nonce (flat blks)) account_nonce) 1 in
        if ltb next tx.nonce
        then (flat blks, enqueue queue tx)
        else if tx.nonce == next
        then promote_spec (flat blks ++ tx ∷ []) queue
        else (flat (replace_in_blocks blks tx), queue))

base_nonce-flat :
    (n : ℕ) (blks : List Block)
    → IsFull blks
    → base_nonce n blks ≡ Option.get_or (end_nonce (flat blks)) n
unfolding base_nonce
base_nonce-flat n blks full = rw (last_block_nonce-flat blks full, base_nonce) (ground arith)

-- `NewTx` always returns, does to its address what the specification says of the transaction with
-- the time of arrival, and changes no other address.
pub new_tx_at-Shows :
    (addr : Address) (account_nonce now : ℕ) (tx : Transaction) (pool : Pool)
    → IsFull (pending_of pool addr)
    → (after : Pool) × (new_tx_at addr account_nonce now tx pool ≡ some after)
      × Shows addr pool after
          (new_tx_spec account_nonce
            (record tx { time = now })
            (pending_of pool addr)
            (queue_of pool addr)).0
          (new_tx_spec account_nonce
            (record tx { time = now })
            (pending_of pool addr)
            (queue_of pool addr)).1
unfolding new_tx_at new_tx_spec
new_tx_at-Shows addr account_nonce now tx pool full =
    let stamped : Transaction = record tx { time = now } in
    rw (base_nonce-flat account_nonce (pending_of pool addr) full) (
      let next : ℕ =
        add64 (Option.get_or (end_nonce (flat (pending_of pool addr))) account_nonce) 1 in
      elim (Bool-cases (ltb tx.nonce account_nonce)) [
        | inl low ↦ (pool, rw low refl, rw low (unchanged full))
        | inr fresh ↦ elim (Bool-cases (ltb next tx.nonce)) [
          | inl gap ↦ (
            add_queue addr stamped pool,
            rw (fresh, gap) refl,
            rw (fresh, gap) (add_queue-Shows addr stamped pool full),
          )
          | inr no_gap ↦ elim (Bool-cases (tx.nonce == next)) [
            | inl now_next ↦
                let (after, e, shows) = push_pending_tx-Shows addr stamped pool full in
                (after, rw (fresh, no_gap, now_next) e, rw (fresh, no_gap, now_next) shows)
            | inr old ↦ (
              replace_pending_tx addr stamped pool,
              rw (fresh, no_gap, old) refl,
              rw (fresh, no_gap, old) (replace_pending_tx-Shows addr stamped pool full),
            )
          ]
        ]
      ])
