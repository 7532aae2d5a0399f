-- ===== src/TxPool/Pool.antt =====
-- The transaction pool (txpool/default.go, `DefaultPool`): its state and its operations.
use simple_standalone_versio.Base.{
  ℕ, zero, suc, ◌+◌, Bool, true, false, Option, none, some, List, [], ◌∷◌, ◌++◌, ltb, ◌==◌,
  if◌then◌else◌, ◌>>=◌, length, BytesMap, lookup, insert, sort_by, add64,
}
use simple_standalone_versio.Types.{Address, Transaction}
use simple_standalone_versio.StatDb.{StatDb}
use simple_standalone_versio.StateMachine.{nonce_at}
use simple_standalone_versio.TxPool.SortedTxs.{
  Block, gas_price, push_last, replace_in_blocks, last_block_nonce,
}

-- `txs` holds the boxes' addresses, sorted by price. `next_id` is the next free address.
pub record Pool : Type 0 where
  pub txs : List ℕ
  pub next_id : ℕ
  pub pendings : BytesMap (List Block)
  pub queue : BytesMap (List Transaction)

-- `NewDefaultPool`
abbrev pub new_pool : Pool
new_pool = record { txs = []; next_id = 0; pendings = []; queue = [] }

-- `pool.pendings[addr]`, `pool.queue[addr]`: a missing key reads as an empty slice
abbrev pub or_empty {ℓ} : {A : Type ℓ} → Option (List A) → List A
or_empty none = []
or_empty (some xs) = xs

unfoldable pub pending_of : Pool → Address → List Block
pending_of pool addr = or_empty (lookup addr pool.pendings)

unfoldable pub queue_of : Pool → Address → List Transaction
queue_of pool addr = or_empty (lookup addr pool.queue)

abbrev pub set_pending : Pool → Address → List Block → Pool
set_pending pool addr blks = record pool { pendings = insert addr blks pool.pendings }

abbrev pub set_queue : Pool → Address → List Transaction → Pool
set_queue pool addr list = record pool { queue = insert addr list pool.queue }

-- the price of the box at an address; a box that left the pendings is empty, and its price is 0
unfoldable pub find_price : ℕ → List Block → ℕ → ℕ
find_price id [] rest = rest
find_price id (b ∷ blks) rest = if b.id == id then gas_price b.txs else find_price id blks rest

unfoldable pub block_price : BytesMap (List Block) → ℕ → ℕ
block_price [] id = 0
block_price ((addr, blks) ∷ m) id = find_price id blks (block_price m id)

-- `makeNewBlock`
unfoldable pub make_new_block : Address → Transaction → Pool → Pool
make_new_block addr tx pool =
    let blk : Block = record { id = pool.next_id; txs = tx ∷ [] } in
    let pendings : BytesMap (List Block) =
      insert addr (pending_of pool addr ++ blk ∷ []) pool.pendings in
    record pool {
      pendings = pendings;
      txs = sort_by (block_price pendings) (pool.txs ++ pool.next_id ∷ []);
      next_id = pool.next_id + 1;
    }

-- `pushPendingTx`, before it promotes
unfoldable pub place : Address → Transaction → Pool → Pool
place addr tx pool = elim (push_last (pending_of pool addr) tx) [
  | none ↦ make_new_block addr tx pool
  | some blks ↦ set_pending pool addr blks
]

-- `popFromQueue`
unfoldable pub pop_from_queue : Address → Pool → Option (Transaction × Pool)
pop_from_queue addr pool = elim (queue_of pool addr) [
  | [] ↦ none
  | tx ∷ list ↦ some (tx, set_queue pool addr list)
]

-- the test of the loop in `promoteQueueToPending`, whose boxes are not empty
unfoldable pub is_ready : Address → Pool → Bool
is_ready addr pool = elim (queue_of pool addr) [
  | [] ↦ false
  | tx ∷ list ↦ elim (last_block_nonce (pending_of pool addr)) [
    | none ↦ false
    | some n ↦ tx.nonce == add64 n 1
  ]
]

-- The loop of `promoteQueueToPending`, on fuel. Its body pushes a transaction, and `pushPendingTx`
-- promotes again before it returns. `none` means that the fuel ran out.
unfoldable pub promote : ℕ → Address → Pool → Option Pool
promote zero addr pool = none
promote (suc fuel) addr pool = elim (is_ready addr pool) [
  | false ↦ some pool
  | true ↦ elim (pop_from_queue addr pool) [
    | none ↦ some pool
    | some (tx, popped) ↦ promote fuel addr (place addr tx popped) >>= promote fuel addr
  ]
]

-- `pushPendingTx`
unfoldable pub push_pending_tx : Address → Transaction → Pool → Option Pool
push_pending_tx addr tx pool = promote (length (queue_of pool addr) + 1) addr (place addr tx pool)

-- the loop of `addQueue`: the transaction with the same nonce keeps its place, with the better price
unfoldable pub replace_in_queue : List Transaction → Transaction → Option (List Transaction)
replace_in_queue [] tx = none
replace_in_queue (old ∷ list) tx =
    if old.nonce == tx.nonce
    then some ((if ltb old.gas_price tx.gas_price then tx else old) ∷ list)
    else (elim (replace_in_queue list tx) [ none ↦ none | some rest ↦ some (old ∷ rest) ])

unfoldable pub enqueue : List Transaction → Transaction → List Transaction
enqueue list tx =
    sort_by (λ (t : Transaction). t.nonce)
      (elim (replace_in_queue list tx) [ none ↦ list ++ tx ∷ [] | some rest ↦ rest ])

-- `addQueue`
unfoldable pub add_queue : Address → Transaction → Pool → Pool
add_queue addr tx pool = set_queue pool addr (enqueue (queue_of pool addr) tx)

-- `replacePendingTx`
unfoldable pub replace_pending_tx : Address → Transaction → Pool → Pool
replace_pending_tx addr tx pool = elim (lookup addr pool.pendings) [
  | none ↦ pool
  | some blks ↦ set_pending pool addr (replace_in_blocks blks tx)
]

-- the nonce that the next pending transaction follows
unfoldable pub base_nonce : ℕ → List Block → ℕ
base_nonce account_nonce blks = elim (last_block_nonce blks) [ none ↦ account_nonce | some n ↦ n ]

-- `NewTx` of a transaction from `addr`, whose account has the nonce `account_nonce`, at the time
-- `now`. The three tests at its end exclude one another.
unfoldable pub new_tx_at : Address → ℕ → ℕ → Transaction → Pool → Option Pool
new_tx_at addr account_nonce now tx pool =
    if ltb tx.nonce account_nonce
    then some pool
    else (let next : ℕ = add64 (base_nonce account_nonce (pending_of pool addr)) 1 in
        let stamped : Transaction = record tx { time = now } in
        if ltb next tx.nonce
        then some (add_queue addr stamped pool)
        else if tx.nonce == next
        then push_pending_tx addr stamped pool
        else some (replace_pending_tx addr stamped pool))

-- `NewTx`, over the account database `db` in the state `s`
unfoldable pub new_tx :
    (db : StatDb) (from_of : Transaction → Address)
    → db.State
    → ℕ
    → Transaction
    → Pool
    → Option Pool
new_tx db from_of s now tx pool = new_tx_at (from_of tx) (nonce_at db s (from_of tx)) now tx pool
